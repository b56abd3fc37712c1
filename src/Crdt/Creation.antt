-- ===== src/Crdt/Creation.antt =====
-- Creations in src/crdt.rs: a message has the author and the payload of the first creation of its
-- id in the list.
use ciphermesh.Prelude.{
  String, ℕ, Option, none, some, List, [], ◌∷◌, ◌≡◌, refl, ◌∙◌, arith, foldl, string_ord, same,
  same_self, eq_of_same, key_cases, inl, inr, map_some, get_or, Bool-cases, if◌then◌else◌,
}
use ciphermesh.BTree.{BTreeMap, BTreeSet, lookup, or_insert, contains_key}
use ciphermesh.BTree.Laws.{lookup-upsert_self, lookup-upsert_ne, lookup-modify_keeps}
use ciphermesh.Storage.Records.{EventRecord}
use ciphermesh.Crdt.{
  ConversationEvent, message_created, message_deleted, Collections, no_collections, MessageState,
  ReactionAddId, ReactionAdd, add_id_ord, mark_deleted, apply_event, apply_decoded, apply_row,
  collect_events, add_reaction, show_reactions, materialize_conversation,
}

-- The author and the payload that an event creates the message with.
unfoldable pub creates : String → Option ConversationEvent → Option (String × List ℕ)
creates id (some (message_created id' author payload)) =
    if same id' id then some (author, payload) else none
creates id _ = none

abbrev or_else {ℓ} : {A : Type ℓ} → Option A → Option A → Option A
or_else none o = o
or_else (some a) o = some a

unfoldable pub first_creation :
    (List ℕ → Option ConversationEvent) → String → List EventRecord → Option (String × List ℕ)
unfolding creates
first_creation decode id [] = none
first_creation decode id (row ∷ rows) =
    or_else (creates id (decode row.payload)) (first_creation decode id rows)

abbrev pub content : MessageState → String × List ℕ
content m = (m.author_id, m.payload)

content-or_insert :
    (id id' : String) (n : MessageState) (ms : BTreeMap String MessageState)
    → map_some content (lookup id (or_insert id' n ms))
      ≡ or_else (map_some content (lookup id ms)) (if same id' id then some (content n) else none)
content-or_insert id id' n ms = elim (key_cases id' id) [
  | inl e ↦ ground (arith, lookup-upsert_self id (get_or n) ms, same_self id)
  | inr ne ↦ rw (lookup-upsert_ne id' id (get_or n) ms ne) (ground (arith, eq_of_same id' id))
]

content-apply_decoded :
    (id : String) (row : EventRecord) (e : Option ConversationEvent) (c : Collections)
    → map_some content (lookup id (apply_decoded row e c).messages)
      ≡ or_else (map_some content (lookup id c.messages)) (creates id e)
unfolding apply_decoded apply_event creates
content-apply_decoded id row (some (message_created id' a p)) c =
    content-or_insert id id' _ c.messages
content-apply_decoded id row (some (message_deleted id')) c =
    lookup-modify_keeps content id' id mark_deleted c.messages (λ m. refl) ∙ ground arith
content-apply_decoded id row none c = ground arith
content-apply_decoded id row _ c = ground arith

content-add_reaction :
    (id : String) (removed : BTreeSet ReactionAddId) (add : ReactionAddId) (r : ReactionAdd)
    (messages : BTreeMap String MessageState)
    → map_some content (lookup id (add_reaction removed add r messages))
      ≡ map_some content (lookup id messages)
unfolding add_reaction
content-add_reaction id removed add r messages = elim (Bool-cases (contains_key add removed)) [
  | inl gone ↦ rw gone
  | inr kept ↦ rw kept (lookup-modify_keeps content r.message_id id _ messages (λ m. refl))
]

content-show_reactions :
    (id : String) (removed : BTreeSet ReactionAddId) (adds : List (ReactionAddId × ReactionAdd))
    (messages : BTreeMap String MessageState)
    → map_some content (lookup id (show_reactions removed adds messages))
      ≡ map_some content (lookup id messages)
unfolding show_reactions
content-show_reactions id removed [] messages = refl
content-show_reactions id removed ((add, r) ∷ adds) messages =
    content-show_reactions id removed adds (add_reaction removed add r messages)
    ∙ content-add_reaction id removed add r messages

module _ (decode : List ℕ → Option ConversationEvent) (id : String) where
  content-collect :
      (rows : List EventRecord) (c : Collections)
      → map_some content (lookup id (foldl (apply_row decode) c rows).messages)
        ≡ or_else (map_some content (lookup id c.messages)) (first_creation decode id rows)
  unfolding apply_row first_creation
  content-collect [] c = ground arith
  content-collect (row ∷ rows) c = ground (
    arith,
    content-collect rows (apply_row decode c row),
    content-apply_decoded id row (decode row.payload) c,
  )

  -- A message is there exactly if some event creates it, with what the first such event gives it.
  pub content-materialize :
      (rows : List EventRecord)
      → map_some content (lookup id (materialize_conversation decode rows).messages)
        ≡ first_creation decode id rows
  unfolding materialize_conversation lookup
  content-materialize rows =
      let c = collect_events decode no_collections rows in
      content-show_reactions id c.removed_reactions c.reaction_adds c.messages
      ∙ content-collect rows no_collections
