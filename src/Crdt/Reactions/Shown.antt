-- ===== src/Crdt/Reactions/Shown.antt =====
-- What `materialize_conversation` of src/crdt.rs shows of the reactions that were added.
use ciphermesh.Prelude.{
  String, ℕ, Option, none, some, List, [], ◌∷◌, ◌≡◌, refl, ap, arith, foldl, string_ord, key_cases,
  inl, inr, ◌||◌, not, true, false, Bool-cases, Member, is_some, get_or,
}
use ciphermesh.BTree.{BTreeMap, lookup, or_insert, contains_key, modify}
use ciphermesh.BTree.Laws.{
  lookup-upsert_self, lookup-upsert_ne, lookup-modify_self, lookup-modify_ne, contains_key-insert,
}
use ciphermesh.Storage.Records.{EventRecord}
use ciphermesh.Crdt.{
  ConversationEvent, message_created, message_deleted, reaction_added, reaction_removed,
  Collections, no_collections, MessageState, ReactionAddId, ReactionAdd, add_id_ord, mark_deleted,
  VisibleReaction, visible_ord, apply_event, apply_decoded, apply_row, collect_events,
  materialize_conversation,
}
use ciphermesh.Crdt.Convergence.{AllAgree, collect-seen}
use ciphermesh.Crdt.Reactions.{
  removes, any_removes, shows, visible, shows-show_reactions, gives_of_lookup, removed_gives,
  gives_self,
}

-- Before the loop no message has a reaction.
lookup_empty : (v : VisibleReaction) → contains_key {V = Unit {0}} v [] ≡ false
unfolding lookup
lookup_empty v = refl

created_shows_none :
    (id id' : String) (v : VisibleReaction) (n : MessageState) (ms : BTreeMap String MessageState)
    → contains_key v n.reactions ≡ false
    → shows ms id v ≡ false
    → shows (or_insert id' n ms) id v ≡ false
created_shows_none id id' v n ms e h = elim (key_cases id' id) [
  | inl e' ↦ ground (arith, lookup-upsert_self id (get_or n) ms)
  | inr ne ↦ rw (lookup-upsert_ne id' id (get_or n) ms ne) h
]

deleted_shows_none :
    (id id' : String) (v : VisibleReaction) (ms : BTreeMap String MessageState)
    → shows ms id v ≡ false
    → shows (modify id' mark_deleted ms) id v ≡ false
deleted_shows_none id id' v ms h = elim (key_cases id' id) [
  | inl e ↦ ground (arith, lookup-modify_self id mark_deleted ms)
  | inr ne ↦ rw (lookup-modify_ne id' id mark_deleted ms ne) h
]

shows-apply_decoded :
    (id : String) (v : VisibleReaction) (row : EventRecord) (e : Option ConversationEvent)
    (c : Collections)
    → shows c.messages id v ≡ false
    → shows (apply_decoded row e c).messages id v ≡ false
unfolding apply_decoded apply_event
shows-apply_decoded id v row (some (message_created id' a p)) c h =
    created_shows_none id id' v _ c.messages (lookup_empty v) h
shows-apply_decoded id v row (some (message_deleted id')) c h =
    deleted_shows_none id id' v c.messages h
shows-apply_decoded id v row none c h = h
shows-apply_decoded id v row _ c h = h

contains-apply_decoded :
    (add : ReactionAddId) (row : EventRecord) (e : Option ConversationEvent) (c : Collections)
    → contains_key add (apply_decoded row e c).removed_reactions
      ≡ (removes add e || contains_key add c.removed_reactions)
unfolding apply_decoded apply_event removes
contains-apply_decoded add row (some (reaction_removed add')) c =
    contains_key-insert add' add tt c.removed_reactions
contains-apply_decoded add row none c = refl
contains-apply_decoded add row _ c = refl

abbrev id_of : EventRecord → ReactionAddId
id_of row = record { device_id = row.device_id; counter = row.counter }

module _ (decode : List ℕ → Option ConversationEvent) where
  shows-collect :
      (id : String) (v : VisibleReaction) (rows : List EventRecord) (c : Collections)
      → shows c.messages id v ≡ false
      → shows (foldl (apply_row decode) c rows).messages id v ≡ false
  unfolding apply_row
  shows-collect id v [] c h = h
  shows-collect id v (row ∷ rows) c h =
      shows-collect id v rows (apply_row decode c row)
        (shows-apply_decoded id v row (decode row.payload) c h)

  contains-collect :
      (add : ReactionAddId) (rows : List EventRecord) (c : Collections)
      → contains_key add (foldl (apply_row decode) c rows).removed_reactions
        ≡ (any_removes decode add rows || contains_key add c.removed_reactions)
  unfolding apply_row any_removes
  contains-collect add [] c = refl
  contains-collect add (row ∷ rows) c = ground (
    arith,
    contains-collect add rows (apply_row decode c row),
    contains-apply_decoded add row (decode row.payload) c,
  )

  -- What a row that was read has left in the collections.
  created_seen :
      (rows : List EventRecord) (row : EventRecord) (id author : String) (payload : List ℕ)
      → AllAgree decode rows
      → Member row rows
      → decode row.payload ≡ some (message_created id author payload)
      → is_some (lookup id (collect_events decode no_collections rows).messages) ≡ true
  created_seen rows row id author payload agree m e = rw (← collect-seen decode rows row agree m) (
      unfold apply_row in
      rw e (unfold apply_decoded apply_event in ap is_some (lookup-upsert_self id _ _)))

  added_seen :
      (rows : List EventRecord) (row : EventRecord) (id reaction actor : String)
      → AllAgree decode rows
      → Member row rows
      → decode row.payload ≡ some (reaction_added id reaction actor)
      → lookup (id_of row) (collect_events decode no_collections rows).reaction_adds
        ≡ some (record { message_id = id; reaction = reaction; actor_id = actor })
  added_seen rows row id reaction actor agree m e = rw (← collect-seen decode rows row agree m) (
      unfold apply_row in
      rw e (unfold apply_decoded apply_event in lookup-upsert_self (id_of row) _ _))

  -- A reaction that some event removes is shown nowhere.
  pub removed-shows :
      (rows : List EventRecord) (id : String) (v : VisibleReaction)
      → any_removes decode v.add rows ≡ true
      → shows (materialize_conversation decode rows).messages id v ≡ false
  unfolding materialize_conversation lookup
  removed-shows rows id v gone =
      let c = collect_events decode no_collections rows in
      ground (
        arith,
        shows-show_reactions id v c.removed_reactions c.reaction_adds c.messages,
        shows-collect id v rows no_collections,
        contains-collect v.add rows no_collections,
        removed_gives c.removed_reactions id v c.reaction_adds,
      )

  -- Where the rows agree, a reaction that was added to a created message is shown on it exactly
  -- if no event removes it.
  pub added-shows :
      (rows : List EventRecord) (creation addition : EventRecord)
      (id author reaction actor : String) (payload : List ℕ)
      → AllAgree decode rows
      → Member creation rows
      → decode creation.payload ≡ some (message_created id author payload)
      → Member addition rows
      → decode addition.payload ≡ some (reaction_added id reaction actor)
      → shows
          (materialize_conversation decode rows).messages
          id
          (record { reaction = reaction; actor_id = actor; add = id_of addition })
        ≡ not (any_removes decode (id_of addition) rows)
  unfolding materialize_conversation lookup
  added-shows rows creation addition id author reaction actor payload agree mc ec ma ea =
      let r : ReactionAdd = record { message_id = id; reaction = reaction; actor_id = actor } in
      let add = id_of addition in
      let v = visible add r in
      let c = collect_events decode no_collections rows in
      elim (Bool-cases (any_removes decode add rows)) [
        | inl gone ↦ rw gone (removed-shows rows id v gone)
        | inr kept ↦ ground (
          arith,
          kept,
          shows-show_reactions id v c.removed_reactions c.reaction_adds c.messages,
          shows-collect id v rows no_collections,
          contains-collect add rows no_collections,
          created_seen rows creation id author payload agree mc ec,
          gives_self c.removed_reactions add r,
          gives_of_lookup c.removed_reactions id v add r c.reaction_adds,
          added_seen rows addition id reaction actor agree ma ea,
        )
      ]
