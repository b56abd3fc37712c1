-- ===== src/Crdt/Deletion.antt =====
-- Deletions in src/crdt.rs: a message is marked exactly if some event deletes it.
use ciphermesh.Prelude.{
  String, ℕ, Option, none, some, List, [], ◌∷◌, ◌≡◌, refl, ap, sym, ◌∙◌, arith, get_or, foldl,
  string_ord, map_some, same, same_self, key_cases, Bool-cases, inl, inr, ◌||◌, Bool, false,
}
use ciphermesh.BTree.{BTreeMap, BTreeSet, lookup, upsert, insert, contains_key, modify}
use ciphermesh.BTree.Laws.{
  lookup-upsert_self, lookup-upsert_ne, lookup-modify_self, lookup-modify_ne, lookup-modify_keeps,
  contains_key-insert,
}
use ciphermesh.Storage.Records.{EventRecord}
use ciphermesh.Crdt.{
  ConversationEvent, message_created, message_deleted, Collections, no_collections, MessageState,
  ReactionAddId, ReactionAdd, add_id_ord, mark_deleted, apply_event, apply_decoded, apply_row,
  collect_events, add_reaction, show_reactions, materialize_conversation,
}

-- Whether an event deletes the message.
unfoldable pub deletes : String → Option ConversationEvent → Bool
deletes id (some (message_deleted id')) = same id' id
deletes id _ = false

unfoldable pub any_deletes : (List ℕ → Option ConversationEvent) → String → List EventRecord → Bool
unfolding deletes
any_deletes decode id [] = false
any_deletes decode id (row ∷ rows) = deletes id (decode row.payload) || any_deletes decode id rows

abbrev Marked : String → Collections → Type 0
Marked id c =
    (m : MessageState) → lookup id c.messages ≡ some m → m.deleted ≡ contains_key id c.tombstones

created-Marked :
    (id id' : String) (n : MessageState) (c : Collections)
    → n.deleted ≡ contains_key id' c.tombstones
    → Marked id c
    → Marked id (record c { messages = upsert id' (get_or n) c.messages })
created-Marked id id' n c e h m found = elim (key_cases id' id) [
  | inl same ↦ ground (arith, lookup-upsert_self id (get_or n) c.messages, h m)
  | inr ne ↦ h m (sym (lookup-upsert_ne id' id (get_or n) c.messages ne) ∙ found)
]

deleted-Marked :
    (id id' : String) (c : Collections)
    → Marked id c
    → Marked id (record c {
      tombstones = insert id' tt c.tombstones;
      messages = modify id' mark_deleted c.messages;
    })
deleted-Marked id id' c h m found = elim (key_cases id' id) [
  | inl e ↦ ground (
    arith,
    lookup-modify_self id mark_deleted c.messages,
    contains_key-insert id' id tt c.tombstones,
    same_self id,
  )
  | inr ne ↦
      rw (lookup-upsert_ne id' id (λ _. tt) c.tombstones ne)
        (h m (sym (lookup-modify_ne id' id mark_deleted c.messages ne) ∙ found))
]

apply_decoded-Marked :
    (id : String) (row : EventRecord) (e : Option ConversationEvent) (c : Collections)
    → Marked id c
    → Marked id (apply_decoded row e c)
unfolding apply_decoded apply_event
apply_decoded-Marked id row (some (message_created id' a p)) c h = created-Marked id id' _ c refl h
apply_decoded-Marked id row (some (message_deleted id')) c h = deleted-Marked id id' c h
apply_decoded-Marked id row none c h = h
apply_decoded-Marked id row _ c h = h

contains-apply_decoded :
    (id : String) (row : EventRecord) (e : Option ConversationEvent) (c : Collections)
    → contains_key id (apply_decoded row e c).tombstones
      ≡ (deletes id e || contains_key id c.tombstones)
unfolding apply_decoded apply_event deletes
contains-apply_decoded id row (some (message_deleted id')) c =
    contains_key-insert id' id tt c.tombstones
contains-apply_decoded id row none c = refl
contains-apply_decoded id row _ c = refl

abbrev deleted_of : MessageState → Bool
deleted_of m = m.deleted

-- Reactions change no message's `deleted`.
deleted-add_reaction :
    (id : String) (removed : BTreeSet ReactionAddId) (add : ReactionAddId) (r : ReactionAdd)
    (messages : BTreeMap String MessageState)
    → map_some deleted_of (lookup id (add_reaction removed add r messages))
      ≡ map_some deleted_of (lookup id messages)
unfolding add_reaction
deleted-add_reaction id removed add r messages = elim (Bool-cases (contains_key add removed)) [
  | inl gone ↦ rw gone
  | inr kept ↦ rw kept (lookup-modify_keeps deleted_of r.message_id id _ messages (λ m. refl))
]

deleted-show_reactions :
    (id : String) (removed : BTreeSet ReactionAddId) (adds : List (ReactionAddId × ReactionAdd))
    (messages : BTreeMap String MessageState)
    → map_some deleted_of (lookup id (show_reactions removed adds messages))
      ≡ map_some deleted_of (lookup id messages)
unfolding show_reactions
deleted-show_reactions id removed [] messages = refl
deleted-show_reactions id removed ((add, r) ∷ adds) messages =
    deleted-show_reactions id removed adds (add_reaction removed add r messages)
    ∙ deleted-add_reaction id removed add r messages

finish-Marked :
    (id : String) (c : Collections) (m : MessageState)
    → Marked id c
    → lookup id (show_reactions c.removed_reactions c.reaction_adds c.messages) ≡ some m
    → m.deleted ≡ contains_key id c.tombstones
finish-Marked id c m h found = from_before (lookup id c.messages) refl (
    sym (deleted-show_reactions id c.removed_reactions c.reaction_adds c.messages)
    ∙ ap (map_some deleted_of) found)
  where
    from_before :
        (before : Option MessageState)
        → lookup id c.messages ≡ before
        → map_some deleted_of before ≡ some m.deleted
        → m.deleted ≡ contains_key id c.tombstones
    from_before none e p = cc
    from_before (some n) e p = cc (h n e)

module _ (decode : List ℕ → Option ConversationEvent) (id : String) where
  collect-Marked :
      (rows : List EventRecord) (c : Collections)
      → Marked id c
      → Marked id (foldl (apply_row decode) c rows)
  unfolding apply_row
  collect-Marked [] c h = h
  collect-Marked (row ∷ rows) c h =
      collect-Marked rows (apply_row decode c row)
        (apply_decoded-Marked id row (decode row.payload) c h)

  contains-collect :
      (rows : List EventRecord) (c : Collections)
      → contains_key id (foldl (apply_row decode) c rows).tombstones
        ≡ (any_deletes decode id rows || contains_key id c.tombstones)
  unfolding apply_row any_deletes
  contains-collect [] c = refl
  contains-collect (row ∷ rows) c = ground (
    arith,
    contains-collect rows (apply_row decode c row),
    contains-apply_decoded id row (decode row.payload) c,
  )

  -- A message is marked deleted, and its id kept as a tombstone, exactly if some event deletes it.
  pub deleted-materialize :
      (rows : List EventRecord)
      → (contains_key id (materialize_conversation decode rows).tombstones
          ≡ any_deletes decode id rows)
        × ((m : MessageState)
            → lookup id (materialize_conversation decode rows).messages ≡ some m
            → m.deleted ≡ any_deletes decode id rows)
  unfolding materialize_conversation lookup
  deleted-materialize rows =
      let seen : contains_key id (collect_events decode no_collections rows).tombstones
          ≡ any_deletes decode id rows =
        ground (arith, contains-collect rows no_collections) in
      (
        seen,
        λ m found.
            finish-Marked id (collect_events decode no_collections rows) m
              (collect-Marked rows no_collections (λ n p. cc)) found
            ∙ seen,
      )
