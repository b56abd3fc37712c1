-- ===== src/Storage/Conversations/Vectors.antt =====
-- The version vectors of src/storage.rs stay sound when conversations are merged.
use ciphermesh.Prelude.{
  ℕ, ◌≤◌, ◌<◌, String, List, [], ◌∷◌, Bool, true, false, ◌≡◌, ◌≢◌, refl, sym, ap, ◌∙◌, subst, arith,
  inl, inr, ◌⊎◌, Member, same, same_self, eq_of_same, key_cases, string_ord, if◌then◌else◌,
}
use ciphermesh.BTree.{BTreeMap, or_insert}
use ciphermesh.BTree.Members.{Member-or_insert}
use ciphermesh.Storage.Records.{EventRecord}
use ciphermesh.Storage.Events.{EventTables, vector_key_ord, vector_rows}
use ciphermesh.Storage.Events.Vector.{KeysMatch, Stored, IsSound}
use ciphermesh.Storage.Sql.{update_where}
use ciphermesh.Storage.Sql.Laws.{Member-delete, Member-update, update-Member}
use ciphermesh.Storage.Database.{Database}
use ciphermesh.Storage.Conversations.{
  event_in, vector_in, add_vectors, merge_events, merge_contact_into,
}

abbrev pub VectorRow : Type 0
VectorRow = (String × String) × ℕ

Member-vector_rows :
    (c device : String) (n : ℕ) (rows : BTreeMap (String × String) ℕ)
    → Member (device, n) (vector_rows c rows)
    → Member ((c, device), n) rows
unfolding vector_rows
Member-vector_rows c device n [] h = h
Member-vector_rows c device n (((x, d), m) ∷ rows) h =
    ground (arith, eq_of_same x c, Member-vector_rows c device n rows)

-- A row is an old one, or one of those that are added for the new conversation.
Member-add_vectors :
    (new : String) (found : List (String × ℕ)) (rows : BTreeMap (String × String) ℕ)
    (row : VectorRow)
    → Member row (add_vectors new found rows)
    → Member row rows ⊎ ((row.0.0 ≡ new) × Member (row.0.1, row.1) found)
unfolding add_vectors
Member-add_vectors new [] rows row h = inl h
Member-add_vectors new ((device, n) ∷ found) rows row h =
    elim (Member-add_vectors new found (or_insert (new, device) n rows) row h) [
      | inr (e, m) ↦ inr (e, inr m)
      | inl there ↦ elim (Member-or_insert (new, device) n row rows there) [
        | inl p ↦
            inr
              (sym (ap (λ (r : VectorRow). r.0.0) p), inl (ap (λ (r : VectorRow). (r.0.1, r.1)) p))
        | inr old ↦ inl old
      ]
    ]

module _ (old new : String) where
  abbrev moved : EventRecord → EventRecord
  moved e = record e { conversation_id = new }

  abbrev moved_rows : BTreeMap (String × ℕ) EventRecord → BTreeMap (String × ℕ) EventRecord
  moved_rows rows = update_where (event_in old) moved rows

  same_place :
      (b : Bool) (e : EventRecord)
      → ◌≡◌ {A = String × ℕ}
          (e.device_id, e.counter)
          ((if b then moved e else e).device_id, (if b then moved e else e).counter)
  same_place true e = refl
  same_place false e = refl

  KeysMatch-moved :
      (rows : BTreeMap (String × ℕ) EventRecord) → KeysMatch rows → KeysMatch (moved_rows rows)
  KeysMatch-moved rows keys row m =
      let (e, there, p) = update-Member (event_in old) moved row rows m in
      let k : row.0 ≡ (e.device_id, e.counter) = keys (row.0, e) there in
      k
      ∙ (same_place (event_in old (row.0, e)) e
          ∙ ap (λ (x : EventRecord). (x.device_id, x.counter)) p)

  -- An event of another conversation stays where it is.
  Stored-other :
      (c device : String) (k : ℕ) (rows : BTreeMap (String × ℕ) EventRecord)
      → c ≢ old
      → Stored c device k rows
      → Stored c device k (moved_rows rows)
  Stored-other c device k rows differ (e, m, p) =
      let apart : same e.conversation_id old ≡ false =
        ground (arith, eq_of_same e.conversation_id old) in
      (
        e,
        subst (λ b. Member ((device, k), if b then moved e else e) (moved_rows rows)) apart
            (Member-update (event_in old) moved (device, k) e rows m),
        p,
      )

  Stored-moved :
      (device : String) (k : ℕ) (rows : BTreeMap (String × ℕ) EventRecord)
      → Stored old device k rows
      → Stored new device k (moved_rows rows)
  Stored-moved device k rows (e, m, p) =
      let here : same e.conversation_id old ≡ true = rw p (same_self old) in
      (
        moved e,
        subst (λ b. Member ((device, k), if b then moved e else e) (moved_rows rows)) here
            (Member-update (event_in old) moved (device, k) e rows m),
        refl,
      )

  merged_vectors :
      (t : EventTables)
      → old ≢ new
      → IsSound t
      → (c device : String) (n k : ℕ)
      → Member ((c, device), n) (merge_events old new t).version_vectors
      → 0 < k
      → k ≤ n
      → Stored c device k (moved_rows t.event_history)
  unfolding merge_events
  merged_vectors t differ sound c device n k m above below =
      let (added, kept) = Member-delete (vector_in old) ((c, device), n) _ m in
      elim (Member-add_vectors new (vector_rows old t.version_vectors) t.version_vectors
        ((c, device), n) added) [
          | inl there ↦
              Stored-other c device k t.event_history
                (λ e.
                  let q : false ≡ true = sym kept ∙ (ap (λ x. same x old) e ∙ same_self old) in cc)
                (sound.vectors c device n k there above below)
          | inr (e, found) ↦
              subst (λ x. Stored x device k (moved_rows t.event_history)) (sym e)
                (Stored-moved device k t.event_history (
                  sound.vectors old device n k
                    (Member-vector_rows old device n t.version_vectors found) above below))
        ]

  merge_events-IsSound :
      (t : EventTables) → old ≢ new → IsSound t → IsSound (merge_events old new t)
  unfolding merge_events
  merge_events-IsSound t differ sound = record {
    keys = KeysMatch-moved t.event_history sound.keys;
    vectors = merged_vectors t differ sound;
  }

-- Merging a contact into another one keeps the version vectors sound: they still claim no event
-- that is not stored in the conversation, those of the other contact included.
pub merge_contact_into-IsSound :
    (old new : String) (db : Database)
    → IsSound db.events
    → IsSound (merge_contact_into old new db).events
unfolding merge_contact_into
merge_contact_into-IsSound old new db sound = elim (key_cases old new) [
  | inl e ↦ rw (e, same_self new) sound
  | inr differ ↦
      let apart : same old new ≡ false = ground (arith, eq_of_same old new) in
      rw apart (merge_events-IsSound old new db.events differ sound)
]
