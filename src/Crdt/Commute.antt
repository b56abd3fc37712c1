-- ===== src/Crdt/Commute.antt =====
-- The events of src/crdt.rs commute, and may be repeated, unless they disagree on one identity.
use Prim.Native.Nat.{max}
use ciphermesh.Prelude.{
  ℕ, String, Option, some, List, [], ◌≡◌, refl, ap, arith, get_or, string_ord, true, is_some, sym,
}
use ciphermesh.BTree.{BTreeMap, BTreeSet, contains_key, insert}
use ciphermesh.BTree.Laws.{lookup-upsert_self, lookup-upsert_ne}
use ciphermesh.BTree.Commute.{upsert-upsert_agree, modify-upsert_agree, modify-modify_agree}
use ciphermesh.Storage.Records.{EventRecord}
use ciphermesh.Crdt.{
  ConversationEvent, message_created, message_deleted, reaction_added, reaction_removed,
  read_advanced, Collections, ReactionAddId, add_id_ord, mark_deleted, advance_frontier,
  apply_event,
}

-- Two events agree: creations of one message have one author and payload, and reactions that were
-- added under one device and counter are one reaction.
abbrev pub Agree : EventRecord → ConversationEvent → EventRecord → ConversationEvent → Type 0
Agree r (message_created id author payload) r' (message_created id' author' payload') =
    id ≡ id' → (author ≡ author') × (payload ≡ payload')
Agree r (reaction_added id reaction actor) r' (reaction_added id' reaction' actor') =
    r.device_id ≡ r'.device_id
    → r.counter ≡ r'.counter
    → (id ≡ id') × (reaction ≡ reaction') × (actor ≡ actor')
Agree _ _ _ _ = Unit {0}

advance_frontier_comm :
    (d e : String) (m n : ℕ) (v : Option (BTreeMap String ℕ))
    → advance_frontier d m (some (advance_frontier e n v))
      ≡ advance_frontier e n (some (advance_frontier d m v))
advance_frontier_comm d e m n v =
    upsert-upsert_agree d e (λ o. max (get_or 0 o) m) (λ o. max (get_or 0 o) n) (get_or [] v)
      (λ _ o. omega arith)

tombstone_added :
    (id id' : String) (t : BTreeSet String) → id ≡ id' → contains_key id' (insert id tt t) ≡ true
tombstone_added id id' t e = rw (← e, lookup-upsert_self id (λ _. tt) t)

module _ (r r' : EventRecord) (c : Collections) where
  created-created :
      (id id' author author' : String) (payload payload' : List ℕ)
      → Agree r (message_created id author payload) r' (message_created id' author' payload')
      → apply_event r'
          (message_created id' author' payload')
          (apply_event r (message_created id author payload) c)
        ≡ apply_event r
            (message_created id author payload)
            (apply_event r' (message_created id' author' payload') c)
  unfolding apply_event
  created-created id id' author author' payload payload' h =
      ap (λ m. record c { messages = m })
        (upsert-upsert_agree id' id _ _ c.messages (λ e v. ground (arith, h)))

  deleted-created :
      (id id' author : String) (payload : List ℕ)
      → apply_event r' (message_deleted id') (apply_event r (message_created id author payload) c)
        ≡ apply_event r (message_created id author payload) (apply_event r' (message_deleted id') c)
  unfolding apply_event
  deleted-created id id' author payload =
      ap (λ m. record c { tombstones = insert id' tt c.tombstones; messages = m })
        (modify-upsert_agree id' id mark_deleted _ _ c.messages
          (λ e v. ground (arith, tombstone_added id' id c.tombstones e))
          (λ ne.
            ap
              (λ t. get_or (record {
                message_id = id;
                author_id = author;
                payload = payload;
                deleted = is_some t;
                reactions = [];
              }))
              (sym (lookup-upsert_ne id' id (λ _. tt) c.tombstones ne))))

  deleted-deleted :
      (id id' : String)
      → apply_event r' (message_deleted id') (apply_event r (message_deleted id) c)
        ≡ apply_event r (message_deleted id) (apply_event r' (message_deleted id') c)
  unfolding apply_event
  deleted-deleted id id' = cc (
    upsert-upsert_agree id' id (λ _. tt) (λ _. tt) c.tombstones (λ _ v. refl),
    modify-modify_agree id' id mark_deleted mark_deleted c.messages (λ _ v. refl),
  )

  added-added :
      (id id' reaction reaction' actor actor' : String)
      → Agree r (reaction_added id reaction actor) r' (reaction_added id' reaction' actor')
      → apply_event r'
          (reaction_added id' reaction' actor')
          (apply_event r (reaction_added id reaction actor) c)
        ≡ apply_event r
            (reaction_added id reaction actor)
            (apply_event r' (reaction_added id' reaction' actor') c)
  unfolding apply_event
  added-added id id' reaction reaction' actor actor' h =
      ap (λ m. record c { reaction_adds = m })
        (upsert-upsert_agree _ _ _ _ c.reaction_adds (λ e v. ground (
          arith,
          h,
          ap (λ (a : ReactionAddId). a.device_id) e,
          ap (λ (a : ReactionAddId). a.counter) e,
        )))

  removed-removed :
      (a a' : ReactionAddId)
      → apply_event r' (reaction_removed a') (apply_event r (reaction_removed a) c)
        ≡ apply_event r (reaction_removed a) (apply_event r' (reaction_removed a') c)
  unfolding apply_event
  removed-removed a a' =
      ap (λ m. record c { removed_reactions = m })
        (upsert-upsert_agree a' a (λ _. tt) (λ _. tt) c.removed_reactions (λ _ v. refl))

  read-read :
      (actor actor' d d' : String) (n n' : ℕ)
      → apply_event r' (read_advanced actor' d' n') (apply_event r (read_advanced actor d n) c)
        ≡ apply_event r (read_advanced actor d n) (apply_event r' (read_advanced actor' d' n') c)
  unfolding apply_event
  read-read actor actor' d d' n n' =
      ap (λ m. record c { read_frontiers = m })
        (upsert-upsert_agree actor' actor (advance_frontier d' n') (advance_frontier d n)
          c.read_frontiers (λ _ v. advance_frontier_comm d' d n' n v))

  -- Two events that agree commute.
  pub apply_event_comm :
      (e f : ConversationEvent)
      → Agree r e r' f
      → apply_event r' f (apply_event r e c) ≡ apply_event r e (apply_event r' f c)
  unfolding apply_event
  apply_event_comm (message_created id a p) (message_created id' a' p') h =
      created-created id id' a a' p p' h
  apply_event_comm (message_created id a p) (message_deleted id') h = deleted-created id id' a p
  apply_event_comm (message_deleted id) (message_deleted id') h = deleted-deleted id id'
  apply_event_comm (reaction_added id x a) (reaction_added id' x' a') h =
      added-added id id' x x' a a' h
  apply_event_comm (reaction_removed a) (reaction_removed a') h = removed-removed a a'
  apply_event_comm (read_advanced a d n) (read_advanced a' d' n') h = read-read a a' d d' n n'
  apply_event_comm (message_deleted id') (message_created id a p) h =
      sym (deleted-created id id' a p)
  apply_event_comm _ _ h = refl
