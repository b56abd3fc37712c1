-- ===== src/Storage/Peers/Unique.antt =====
-- The column `conversation_id` of known_peers in src/storage.rs, which is UNIQUE.
use ciphermesh.Prelude.{
  ◌≤◌, String, [], ◌∷◌, ◌≡◌, ◌≢◌, inl, inr, refl, arith, true, false, same_self, eq_of_same, Member,
  Ordering, Bool, key_cases, subst, sym, string_ord, length, ltb,
}
use ciphermesh.BTree.{BTreeMap, insert, upsert}
use ciphermesh.BTree.Sorted.{AllAbove, AllAbove-trans, IsSorted, IsSorted-upsert}
use ciphermesh.Storage.Sql.{select_where, delete_where, count_where}
use ciphermesh.Storage.Sql.Laws.{counted-Member, uncounted-Member, length-select-delete}
use ciphermesh.Storage.Sql.Sorted.{IsSorted-delete}
use ciphermesh.Storage.Database.{KnownPeerRecord}
use ciphermesh.Storage.Peers.{clashes, peer_in}

-- The rows are in the order of their keys, and no conversation has two of them.
pub record IsUnique (rows : BTreeMap String KnownPeerRecord) : Type 0 where
  pub sorted : IsSorted rows
  pub one_peer :
      (conversation_id : String) → length (select_where (peer_in conversation_id) rows) ≤ 1

-- Another peer has the conversation.
abbrev pub HeldByOther : String → String → BTreeMap String KnownPeerRecord → Type 0
HeldByOther conversation_id peer_id rows =
    (row : String × KnownPeerRecord) × Member row rows
    × (row.1.conversation_id ≡ conversation_id)
    × (row.0 ≢ peer_id)

module _ (peer : KnownPeerRecord) where
  pub clashes-Held :
      (rows : BTreeMap String KnownPeerRecord)
      → ltb 0 (count_where (clashes peer) rows) ≡ true
      → HeldByOther peer.conversation_id peer.peer_id rows
  clashes-Held rows h =
      let (row, there, clash) = counted-Member (clashes peer) rows h in
      (
        row,
        there,
        eq_of_same row.1.conversation_id peer.conversation_id (ground arith),
        ground (arith, same_self peer.peer_id),
      )

  pub free-Held :
      (rows : BTreeMap String KnownPeerRecord)
      → ltb 0 (count_where (clashes peer) rows) ≡ false
      → ¬ HeldByOther peer.conversation_id peer.peer_id rows
  free-Held rows h (row, there, held, other) = ground (
    arith,
    uncounted-Member (clashes peer) row rows h there,
    same_self peer.conversation_id,
    eq_of_same row.0 peer.peer_id,
  )

  select-above :
      (rows : BTreeMap String KnownPeerRecord)
      → AllAbove peer.peer_id rows
      → ltb 0 (count_where (clashes peer) rows) ≡ false
      → select_where (peer_in peer.conversation_id) rows ≡ []
  unfolding select_where count_where
  select-above [] above h = refl
  select-above ((j, v) ∷ rows) (above, all_above) h = ground (
    arith,
    above,
    eq_of_same j peer.peer_id,
    string_ord.cmp_refl peer.peer_id,
    select-above rows all_above,
  )

  -- Without a clash the peer that is saved is the only one of its conversation.
  pub select-insert :
      (rows : BTreeMap String KnownPeerRecord)
      → IsSorted rows
      → ltb 0 (count_where (clashes peer) rows) ≡ false
      → select_where (peer_in peer.conversation_id) (insert peer.peer_id peer rows) ≡ peer ∷ []
  unfolding select_where count_where upsert
  select-insert [] sorted h = ground (arith, same_self peer.conversation_id)
  select-insert ((j, v) ∷ rows) (above, sorted) h =
      let all_above : string_ord.cmp peer.peer_id j ≡ Ordering.lt → AllAbove peer.peer_id rows =
        λ lt. AllAbove-trans peer.peer_id j rows lt above in
      let at_head : string_ord.cmp peer.peer_id j ≡ Ordering.eq → AllAbove peer.peer_id rows =
        λ e. subst (λ k. AllAbove k rows) (sym (string_ord.eq_of_cmp peer.peer_id j e)) above in
      ground (
        arith,
        all_above,
        at_head,
        string_ord.cmp_refl j,
        same_self peer.conversation_id,
        eq_of_same j peer.peer_id,
        select-above rows,
        select-insert rows sorted,
      )

  select-insert_other :
      (c : String) (rows : BTreeMap String KnownPeerRecord)
      → peer.conversation_id ≢ c
      → length (select_where (peer_in c) (insert peer.peer_id peer rows))
        ≤ length (select_where (peer_in c) rows)
  unfolding select_where upsert
  select-insert_other c [] differ = ground (arith, eq_of_same peer.conversation_id c)
  select-insert_other c ((j, v) ∷ rows) differ =
      ground (arith, eq_of_same peer.conversation_id c, select-insert_other c rows differ)

  pub insert-IsUnique :
      (rows : BTreeMap String KnownPeerRecord)
      → IsUnique rows
      → ltb 0 (count_where (clashes peer) rows) ≡ false
      → IsUnique (insert peer.peer_id peer rows)
  insert-IsUnique rows u free = record {
    sorted = IsSorted-upsert peer.peer_id (λ _. peer) rows u.sorted;
    one_peer = λ c. elim (key_cases peer.conversation_id c) [
      | inl e ↦
          subst (λ x. length (select_where (peer_in x) (insert peer.peer_id peer rows)) ≤ 1) e
            (rw (select-insert rows u.sorted free) (omega arith))
      | inr differ ↦ omega (arith, select-insert_other c rows differ, u.one_peer c)
    ];
  }

pub delete-IsUnique :
    (test : String × KnownPeerRecord → Bool) (rows : BTreeMap String KnownPeerRecord)
    → IsUnique rows
    → IsUnique (delete_where test rows)
delete-IsUnique test rows u = record {
  sorted = IsSorted-delete test rows u.sorted;
  one_peer = λ c. omega (arith, length-select-delete test (peer_in c) rows, u.one_peer c);
}
