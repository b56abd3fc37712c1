-- ===== src/Crdt.antt =====
-- src/crdt.rs: the events of a conversation, and the state that they materialize.
pub mod Fold
pub mod Creation
pub mod Reactions
pub mod Deletion
pub mod Frontiers
pub mod Convergence
pub mod Commute
use ciphermesh.Prelude.{
  ℕ, zero, String, Option, none, some, List, [], ◌∷◌, Bool, true, false, ◌≡◌, max, Ord, ord_by_key,
  pair_ord, nat_ord, string_ord, foldl, get_or, if◌then◌else◌,
}
use ciphermesh.BTree.{BTreeMap, BTreeSet, upsert, modify, insert, or_insert, contains_key}
use ciphermesh.Storage.Records.{EventRecord}

pub record ReactionAddId : Type 0 where
  pub device_id : String
  pub counter : ℕ

abbrev pub add_id_key : ReactionAddId → String × ℕ
add_id_key a = (a.device_id, a.counter)

pub add_id_key_injective : (a b : ReactionAddId) → add_id_key a ≡ add_id_key b → a ≡ b
add_id_key_injective a b h = λ i. record { device_id = (h i).0; counter = (h i).1 }

-- the derived `Ord`
instance abbrev pub add_id_ord : Ord ReactionAddId
add_id_ord = ord_by_key add_id_key add_id_key_injective (pair_ord string_ord nat_ord)

pub data ConversationEvent : Type 0 where
  message_created : String → String → List ℕ → ConversationEvent
  message_deleted : String → ConversationEvent
  reaction_added : String → String → String → ConversationEvent
  reaction_removed : ReactionAddId → ConversationEvent
  read_advanced : String → String → ℕ → ConversationEvent

unfoldable pub event_type : ConversationEvent → String
event_type (message_created _ _ _) = "MessageCreated"
event_type (message_deleted _) = "MessageDeleted"
event_type (reaction_added _ _ _) = "ReactionAdded"
event_type (reaction_removed _) = "ReactionRemoved"
event_type (read_advanced _ _ _) = "ReadAdvanced"

pub record VisibleReaction : Type 0 where
  pub reaction : String
  pub actor_id : String
  pub add : ReactionAddId

abbrev pub visible_key : VisibleReaction → String × (String × (String × ℕ))
visible_key v = (v.reaction, (v.actor_id, add_id_key v.add))

pub visible_key_injective : (a b : VisibleReaction) → visible_key a ≡ visible_key b → a ≡ b
visible_key_injective a b h = λ i. record {
  reaction = (h i).0;
  actor_id = (h i).1.0;
  add = record { device_id = (h i).1.1.0; counter = (h i).1.1.1 };
}

instance abbrev pub visible_ord : Ord VisibleReaction
visible_ord =
    ord_by_key visible_key visible_key_injective
      (pair_ord string_ord (pair_ord string_ord (pair_ord string_ord nat_ord)))

pub record MessageState : Type 0 where
  pub message_id : String
  pub author_id : String
  pub payload : List ℕ
  pub deleted : Bool
  pub reactions : BTreeSet VisibleReaction

pub record ConversationState : Type 0 where
  pub messages : BTreeMap String MessageState
  pub tombstones : BTreeSet String
  pub read_frontiers : BTreeMap String (BTreeMap String ℕ)

pub record ReactionAdd : Type 0 where
  pub message_id : String
  pub reaction : String
  pub actor_id : String

-- The message that an event belongs to.
unfoldable pub event_message_id : ConversationEvent → Option String
event_message_id (message_created id _ _) = some id
event_message_id (message_deleted id) = some id
event_message_id (reaction_added id _ _) = some id
event_message_id (reaction_removed _) = none
event_message_id (read_advanced _ _ _) = none

-- `encode` is `bincode::serialize`, which may fail.
unfoldable pub event_record :
    (encode : ConversationEvent → Option (List ℕ))
    → String
    → String
    → ℕ
    → ConversationEvent
    → Option EventRecord
unfolding event_type event_message_id
event_record encode conversation_id device_id counter event = elim (encode event) [
  | none ↦ none
  | some bytes ↦ some (record {
    device_id = device_id;
    counter = counter;
    conversation_id = conversation_id;
    event_type = event_type event;
    message_id = event_message_id event;
    payload = bytes;
    created_at_unix_secs = 0;
  })
]

-- The five collections that the loop of `materialize_conversation` fills.
pub record Collections : Type 0 where
  pub messages : BTreeMap String MessageState
  pub tombstones : BTreeSet String
  pub reaction_adds : BTreeMap ReactionAddId ReactionAdd
  pub removed_reactions : BTreeSet ReactionAddId
  pub read_frontiers : BTreeMap String (BTreeMap String ℕ)

abbrev pub no_collections : Collections
no_collections = record {
  messages = [];
  tombstones = [];
  reaction_adds = [];
  removed_reactions = [];
  read_frontiers = [];
}

abbrev pub mark_deleted : MessageState → MessageState
mark_deleted m = record m { deleted = true }

abbrev pub advance_frontier : String → ℕ → Option (BTreeMap String ℕ) → BTreeMap String ℕ
advance_frontier device n frontier =
    upsert device (λ current. max (get_or 0 current) n) (get_or [] frontier)

-- One arm of the `match` for each event; `record` is the row that carries the event.
unfoldable pub apply_event : EventRecord → ConversationEvent → Collections → Collections
apply_event row (message_created id author payload) c = record c {
  messages =
      or_insert id
        (record {
          message_id = id;
          author_id = author;
          payload = payload;
          deleted = contains_key id c.tombstones;
          reactions = [];
        })
        c.messages;
}
apply_event row (message_deleted id) c = record c {
  tombstones = insert id tt c.tombstones;
  messages = modify id mark_deleted c.messages;
}
apply_event row (reaction_added id reaction actor) c = record c {
  reaction_adds =
      insert (record { device_id = row.device_id; counter = row.counter })
        (record { message_id = id; reaction = reaction; actor_id = actor }) c.reaction_adds;
}
apply_event row (reaction_removed add) c = record c {
  removed_reactions = insert add tt c.removed_reactions;
}
apply_event row (read_advanced actor device n) c = record c {
  read_frontiers = upsert actor (advance_frontier device n) c.read_frontiers;
}

-- An event whose payload cannot be read is passed over.
unfoldable pub apply_decoded : EventRecord → Option ConversationEvent → Collections → Collections
unfolding apply_event
apply_decoded row none c = c
apply_decoded row (some event) c = apply_event row event c

-- `decode` is `bincode::deserialize`.
module _ (decode : List ℕ → Option ConversationEvent) where
  unfoldable pub apply_row : Collections → EventRecord → Collections
  apply_row c row = apply_decoded row (decode row.payload) c

  unfoldable pub collect_events : Collections → List EventRecord → Collections
  unfolding apply_row apply_decoded
  collect_events = foldl apply_row

abbrev pub with_reaction : VisibleReaction → MessageState → MessageState
with_reaction v m = record m { reactions = insert v tt m.reactions }

unfoldable pub add_reaction :
    BTreeSet ReactionAddId
    → ReactionAddId
    → ReactionAdd
    → BTreeMap String MessageState
    → BTreeMap String MessageState
add_reaction removed add r messages =
    if contains_key add removed
    then messages
    else modify r.message_id
        (with_reaction (record { reaction = r.reaction; actor_id = r.actor_id; add = add }))
        messages

unfoldable pub show_reactions :
    BTreeSet ReactionAddId
    → List (ReactionAddId × ReactionAdd)
    → BTreeMap String MessageState
    → BTreeMap String MessageState
unfolding add_reaction
show_reactions removed [] messages = messages
show_reactions removed ((add, r) ∷ adds) messages =
    show_reactions removed adds (add_reaction removed add r messages)

-- What the function returns from its collections.
unfoldable pub finish : Collections → ConversationState
unfolding show_reactions
finish c = record {
  messages = show_reactions c.removed_reactions c.reaction_adds c.messages;
  tombstones = c.tombstones;
  read_frontiers = c.read_frontiers;
}

unfoldable pub materialize_conversation :
    (List ℕ → Option ConversationEvent) → List EventRecord → ConversationState
unfolding collect_events finish
materialize_conversation decode rows = finish (collect_events decode no_collections rows)
