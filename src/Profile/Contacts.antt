-- ===== src/Profile/Contacts.antt =====
-- The contact and the peer that `save_contact_for_chat` of src/main.rs saves.
use ciphermesh.Prelude.{
  ℕ, String, some, [], ◌∷◌, List, ◌≡◌, ◌≢◌, ◌⊎◌, inl, inr, refl, ap, ◌∙◌, sym, arith, true, false,
  ◌==◌, Bool-cases, key_cases, same, same_self, eq_of_same, string_ord, length, ltb,
}
use ciphermesh.BTree.{BTreeMap, lookup}
use ciphermesh.BTree.Laws.{lookup-upsert_self}
use ciphermesh.Crypto.{Crypto}
use ciphermesh.App.{AppResult, ok, err, storage_error}
use ciphermesh.Storage.Sql.{select_where, delete_where, count_where, first_row}
use ciphermesh.Storage.Sql.Laws.{select-delete_other, count-delete_other}
use ciphermesh.Storage.Database.{Database, KnownPeerRecord, ContactRecord}
use ciphermesh.Storage.Peers.{
  clashes, peer_in, save_contact, load_contact, save_known_peer, known_peer_for_conversation,
}
use ciphermesh.Storage.Peers.Unique.{
  IsUnique, HeldByOther, clashes-Held, free-Held, select-insert, insert-IsUnique, delete-IsUnique,
}
use ciphermesh.Storage.Conversations.{merge_contact_into, contact_in}
use ciphermesh.Storage.Conversations.Deleted.{apart}
use ciphermesh.Chat.Names.{display_name_or_anonymous}
use ciphermesh.Chat.Peers.{contact_id_for_display_name}
use ciphermesh.Profile.{saved_contact, saved_peer, save_contact_for_chat}

lookup-delete_contact :
    (old c : String) (contact : ContactRecord) (rows : BTreeMap String ContactRecord)
    → old ≢ c
    → lookup c rows ≡ some contact
    → lookup c (delete_where (contact_in old) rows) ≡ some contact
unfolding lookup delete_where
lookup-delete_contact old c contact [] differ found = found
lookup-delete_contact old c contact ((j, v) ∷ rows) differ found = ground (
  arith,
  eq_of_same j old,
  string_ord.eq_of_cmp c j,
  lookup-delete_contact old c contact rows differ,
)

-- What a merge keeps for the contact that it merges into.
record Kept (contact_id : String) (db db' : Database) : Type 0 where
  unique : IsUnique db.known_peers → IsUnique db'.known_peers
  contact :
      (contact : ContactRecord)
      → load_contact contact_id db ≡ some contact
      → load_contact contact_id db' ≡ some contact
  peers :
      select_where (peer_in contact_id) db'.known_peers
      ≡ select_where (peer_in contact_id) db.known_peers
  clash :
      (peer : KnownPeerRecord)
      → peer.conversation_id ≡ contact_id
      → count_where (clashes peer) db'.known_peers ≡ count_where (clashes peer) db.known_peers

merge-Kept : (old c : String) (db : Database) → Kept c db (merge_contact_into old c db)
unfolding merge_contact_into load_contact
merge-Kept old c db = elim (key_cases old c) [
  | inl e ↦
      let same_ids : same old c ≡ true = rw e (same_self c) in
      rw same_ids (record {
        unique = λ u. u;
        contact = λ contact found. found;
        peers = refl;
        clash = λ peer e. refl;
      })
  | inr differ ↦
      let other : same old c ≡ false = ground (arith, eq_of_same old c) in
      let away : (x : String) → same x c ≡ true → same x old ≡ false = apart old c differ in
      rw other (record {
        unique = delete-IsUnique (peer_in old) db.known_peers;
        contact = λ contact. lookup-delete_contact old c contact db.contacts differ;
        peers =
            select-delete_other (peer_in old) (peer_in c) db.known_peers
              (λ row. away row.1.conversation_id);
        clash = λ peer e.
            count-delete_other (peer_in old) (clashes peer) db.known_peers
              (λ row h. away row.1.conversation_id (ground (arith, h, e)));
      })
]

-- What becomes of a peer that is to be saved: it is the one peer of its conversation, or another
-- peer has the conversation and the statement fails.
abbrev pub Saved : KnownPeerRecord → Database → AppResult (Unit {0}) × Database → Type 0
Saved peer db (r, db') =
    (¬ HeldByOther peer.conversation_id peer.peer_id db.known_peers
      × (r ≡ ok tt)
      × (known_peer_for_conversation peer.conversation_id db' ≡ some peer))
    ⊎ (HeldByOther peer.conversation_id peer.peer_id db.known_peers
        × (r ≡ err storage_error)
        × (known_peer_for_conversation peer.conversation_id db'
            ≡ known_peer_for_conversation peer.conversation_id db))

-- Saving the peer after a merge
save-merged :
    (peer : KnownPeerRecord) (old : String) (db : Database)
    → IsUnique db.known_peers
    → let merged = merge_contact_into old peer.conversation_id db in
      Saved peer db (save_known_peer peer merged)
      × IsUnique (save_known_peer peer merged).1.known_peers
      × ((save_known_peer peer merged).1.contacts ≡ merged.contacts)
unfolding save_known_peer known_peer_for_conversation
save-merged peer old db u =
    let merged = merge_contact_into old peer.conversation_id db in
    let kept = merge-Kept old peer.conversation_id db in
    let counts = ap (ltb 0) (kept.clash peer refl) in
    let u' = kept.unique u in
    elim (Bool-cases (ltb 0 (count_where (clashes peer) merged.known_peers))) [
      | inl taken ↦
          let held = clashes-Held peer db.known_peers (sym counts ∙ taken) in
          rw taken (inr (held, refl, ap first_row kept.peers), u', refl)
      | inr free ↦
          let not_held = free-Held peer db.known_peers (sym counts ∙ free) in
          let found = ap first_row (select-insert peer merged.known_peers u'.sorted free) in
          rw free
            (inl (not_held, refl, found), insert-IsUnique peer merged.known_peers u' free, refl)
    ]

-- The peer is saved after the contact, at the end of a merge.
save-after_contact :
    (contact : ContactRecord) (peer : KnownPeerRecord) (old : String) (db : Database)
    → contact.contact_id ≡ peer.conversation_id
    → IsUnique db.known_peers
    → let merged = merge_contact_into old peer.conversation_id (save_contact contact db) in
      let done = save_known_peer peer merged in
      (load_contact peer.conversation_id done.1 ≡ some contact)
      × IsUnique done.1.known_peers
      × Saved peer db done
unfolding save_contact load_contact known_peer_for_conversation
save-after_contact contact peer old db same_id u =
    let first = save_contact contact db in
    let there : load_contact peer.conversation_id first ≡ some contact =
      rw (← same_id) (lookup-upsert_self contact.contact_id (λ _. contact) db.contacts) in
    let (saved, unique, contacts) = save-merged peer old first u in
    let kept = merge-Kept old peer.conversation_id first in
    (ap (lookup peer.conversation_id) contacts ∙ kept.contact contact there, unique, saved)

module _ (crypto : Crypto) (c name : String) (identity : List ℕ) (hint : String) (now : ℕ → ℕ)
    (db : Database) where
  short_key :
      (length identity == 32) ≡ false
      → save_contact_for_chat crypto c name identity hint now db
        ≡ (ok tt, save_contact (saved_contact c name identity hint (now 0)) db)
  unfolding save_contact_for_chat
  short_key other = rw other refl

  long_key :
      (length identity == 32) ≡ true
      → save_contact_for_chat crypto c name identity hint now db
        ≡ save_known_peer (saved_peer crypto c name identity (now 1)) (
            merge_contact_into
              (contact_id_for_display_name crypto (display_name_or_anonymous name))
              c
              (save_contact (saved_contact c name identity hint (now 0)) db))
  unfolding save_contact_for_chat
  long_key long = rw long refl

-- Where no conversation has two peers yet, and the peers are in the order of their ids: a contact
-- that is saved for a chat is found under its id, whatever comes of its peer, and no conversation
-- has two peers then. An identity key that has not 32 bytes leaves the peers as they
-- are. One that has makes the peer of the contact the one of its conversation, unless another peer
-- has the conversation: the call fails then, with the contact saved and the other peer kept.
pub save_contact_for_chat_lem :
    (crypto : Crypto) (c name : String) (identity : List ℕ) (hint : String) (now : ℕ → ℕ)
    (db : Database)
    → IsUnique db.known_peers
    → let done = save_contact_for_chat crypto c name identity hint now db in
      (load_contact c done.1 ≡ some (saved_contact c name identity hint (now 0)))
      × IsUnique done.1.known_peers
      × (((length identity ≢ 32) × (done.0 ≡ ok tt) × (done.1.known_peers ≡ db.known_peers))
          ⊎ ((length identity ≡ 32) × Saved (saved_peer crypto c name identity (now 1)) db done))
unfolding save_contact load_contact
save_contact_for_chat_lem crypto c name identity hint now db u =
    let contact = saved_contact c name identity hint (now 0) in
    let peer = saved_peer crypto c name identity (now 1) in
    elim (Bool-cases (length identity == 32)) [
      | inr other ↦ rw (short_key crypto c name identity hint now db other) (
        lookup-upsert_self c (λ _. contact) db.contacts,
        u,
        inl (ground (arith, other), refl, refl),
      )
      | inl long ↦
          let old = contact_id_for_display_name crypto (display_name_or_anonymous name) in
          let (found, unique, saved) = save-after_contact contact peer old db refl u in
          rw (long_key crypto c name identity hint now db long)
            (found, unique, inr (ground (arith, long), saved))
    ]
