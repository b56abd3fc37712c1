-- ===== src/Crdt/Reactions.antt =====
-- Reactions in src/crdt.rs: shown exactly if they were added to the message and not removed.
pub mod Shown
use ciphermesh.Prelude.{
  String, ℕ, Option, none, some, List, [], ◌∷◌, ◌≡◌, refl, ap, sym, ◌∙◌, arith, foldl, string_ord,
  same, same_self, eq_of_same, key_cases, inl, inr, ◌||◌, ◌&&◌, not, Bool, true, false, Bool-cases,
  Member, is_some, map_some, get_or,
}
use ciphermesh.BTree.{BTreeMap, BTreeSet, lookup, upsert, insert, or_insert, contains_key, modify}
use ciphermesh.BTree.Laws.{
  lookup-upsert_self, lookup-upsert_ne, lookup-modify_self, lookup-modify_ne, contains_key-insert,
  contains_key-modify,
}
use ciphermesh.Storage.Records.{EventRecord}
use ciphermesh.Crdt.{
  ConversationEvent, message_created, message_deleted, reaction_added, reaction_removed,
  read_advanced, Collections, no_collections, MessageState, ReactionAddId, ReactionAdd, add_id_ord,
  mark_deleted, VisibleReaction, visible_ord, ConversationState, apply_event, apply_decoded,
  apply_row, collect_events, with_reaction, add_reaction, show_reactions, finish,
  materialize_conversation,
}
use ciphermesh.Crdt.Convergence.{AllAgree, collect-seen}

-- Whether an event removes the reaction.
unfoldable pub removes : ReactionAddId → Option ConversationEvent → Bool
removes add (some (reaction_removed add')) = same add' add
removes add _ = false

unfoldable pub any_removes :
    (List ℕ → Option ConversationEvent) → ReactionAddId → List EventRecord → Bool
unfolding removes
any_removes decode add [] = false
any_removes decode add (row ∷ rows) =
    removes add (decode row.payload) || any_removes decode add rows

abbrev has_reaction : VisibleReaction → Option MessageState → Bool
has_reaction v none = false
has_reaction v (some m) = contains_key v m.reactions

-- Whether a message of the state has the reaction.
abbrev pub shows : BTreeMap String MessageState → String → VisibleReaction → Bool
shows messages id v = has_reaction v (lookup id messages)

abbrev pub visible : ReactionAddId → ReactionAdd → VisibleReaction
visible add r = record { reaction = r.reaction; actor_id = r.actor_id; add = add }

-- Whether one pass of the loop gives the message the reaction.
abbrev pub gives :
    BTreeSet ReactionAddId → String → VisibleReaction → ReactionAddId → ReactionAdd → Bool
gives removed id v add r =
    not (contains_key add removed) && same r.message_id id && same (visible add r) v

has_reaction-with :
    (u v : VisibleReaction) (o : Option MessageState)
    → has_reaction v (map_some (with_reaction u) o) ≡ (has_reaction v o || (is_some o && same u v))
has_reaction-with u v none = refl
has_reaction-with u v (some m) = ground (arith, contains_key-insert u v tt m.reactions)

shows-add_reaction :
    (id : String) (v : VisibleReaction) (removed : BTreeSet ReactionAddId) (add : ReactionAddId)
    (r : ReactionAdd) (messages : BTreeMap String MessageState)
    → shows (add_reaction removed add r messages) id v
      ≡ (shows messages id v || (is_some (lookup id messages) && gives removed id v add r))
unfolding add_reaction
shows-add_reaction id v removed add r messages = elim (Bool-cases (contains_key add removed)) [
  | inl gone ↦ rw gone (ground arith)
  | inr kept ↦ elim (key_cases r.message_id id) [
    | inl e ↦
        rw (kept, e, lookup-modify_self id (with_reaction (visible add r)) messages, same_self id)
          (has_reaction-with (visible add r) v (lookup id messages))
    | inr ne ↦
        rw (kept, lookup-modify_ne r.message_id id _ messages ne)
          (ground (arith, eq_of_same r.message_id id))
  ]
]

-- Whether some pass of the loop does.
any_gives :
    BTreeSet ReactionAddId → String → VisibleReaction → List (ReactionAddId × ReactionAdd) → Bool
any_gives removed id v [] = false
any_gives removed id v ((add, r) ∷ adds) = gives removed id v add r || any_gives removed id v adds

exists-add_reaction :
    (id : String) (removed : BTreeSet ReactionAddId) (add : ReactionAddId) (r : ReactionAdd)
    (messages : BTreeMap String MessageState)
    → is_some (lookup id (add_reaction removed add r messages)) ≡ is_some (lookup id messages)
unfolding add_reaction
exists-add_reaction id removed add r messages = elim (Bool-cases (contains_key add removed)) [
  | inl gone ↦ rw gone
  | inr kept ↦ rw kept (contains_key-modify r.message_id id _ messages)
]

shows-show_reactions :
    (id : String) (v : VisibleReaction) (removed : BTreeSet ReactionAddId)
    (adds : List (ReactionAddId × ReactionAdd)) (messages : BTreeMap String MessageState)
    → shows (show_reactions removed adds messages) id v
      ≡ (shows messages id v || (is_some (lookup id messages) && any_gives removed id v adds))
unfolding show_reactions any_gives
shows-show_reactions id v removed [] messages = ground arith
shows-show_reactions id v removed ((add, r) ∷ adds) messages = ground (
  arith,
  shows-show_reactions id v removed adds (add_reaction removed add r messages),
  shows-add_reaction id v removed add r messages,
  exists-add_reaction id removed add r messages,
)

gives_of_lookup :
    (removed : BTreeSet ReactionAddId) (id : String) (v : VisibleReaction) (add : ReactionAddId)
    (r : ReactionAdd) (adds : BTreeMap ReactionAddId ReactionAdd)
    → gives removed id v add r ≡ true
    → lookup add adds ≡ some r
    → any_gives removed id v adds ≡ true
unfolding lookup any_gives
gives_of_lookup removed id v add r [] g found = cc
gives_of_lookup removed id v add r ((a, s) ∷ adds) g found =
    ground (arith, add_id_ord.eq_of_cmp add a, gives_of_lookup removed id v add r adds g)

removed_gives :
    (removed : BTreeSet ReactionAddId) (id : String) (v : VisibleReaction)
    (adds : List (ReactionAddId × ReactionAdd))
    → contains_key v.add removed ≡ true
    → any_gives removed id v adds ≡ false
unfolding any_gives
removed_gives removed id v [] gone = refl
removed_gives removed id v ((a, s) ∷ adds) gone =
    ground (arith, eq_of_same (visible a s) v, removed_gives removed id v adds gone)

pub gives_self :
    (removed : BTreeSet ReactionAddId) (add : ReactionAddId) (r : ReactionAdd)
    → contains_key add removed ≡ false
    → gives removed r.message_id (visible add r) add r ≡ true
gives_self removed add r kept = rw (kept, same_self r.message_id, same_self (visible add r))
