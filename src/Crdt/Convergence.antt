-- ===== src/Crdt/Convergence.antt =====
-- `materialize_conversation` of src/crdt.rs reads a set of events: their order and their
-- repetition do not matter.
use Prim.Native.Nat.{max}
use ciphermesh.Prelude.{
  ℕ, String, Option, none, some, List, [], ◌≡◌, refl, ap, fun_ext, arith, get_or, Member,
  string_ord, nat_ord, ◌∙◌,
}
use ciphermesh.BTree.{BTreeMap, upsert}
use ciphermesh.BTree.Commute.{upsert-upsert_self, modify-modify_self}
use ciphermesh.Storage.Records.{EventRecord}
use ciphermesh.Crdt.{
  ConversationEvent, message_created, message_deleted, reaction_added, reaction_removed,
  read_advanced, Collections, no_collections, add_id_ord, mark_deleted, apply_event, apply_decoded,
  apply_row, collect_events, finish, materialize_conversation,
}
use ciphermesh.Crdt.Fold.{SameMembers, foldl-SameMembers, absorb}
use ciphermesh.Crdt.Commute.{Agree, apply_event_comm}

upsert_idem :
    (d : String) (n : ℕ) (m : BTreeMap String ℕ)
    → upsert d (λ o. max (get_or 0 o) n) (upsert d (λ o. max (get_or 0 o) n) m)
      ≡ upsert d (λ o. max (get_or 0 o) n) m
upsert_idem d n m = upsert-upsert_self d _ _ m ∙ ap (λ f. upsert d f m) (fun_ext (λ o. omega arith))

apply_event_idem :
    (r : EventRecord) (e : ConversationEvent) (c : Collections)
    → apply_event r e (apply_event r e c) ≡ apply_event r e c
unfolding apply_event
apply_event_idem r (message_created id a p) c =
    ap (λ m. record c { messages = m })
      (upsert-upsert_self id _ _ c.messages
        ∙ ap (λ f. upsert id f c.messages) (fun_ext (λ v. ground arith)))
apply_event_idem r (message_deleted id) c = cc (
  upsert-upsert_self id (λ _. tt) (λ _. tt) c.tombstones,
  modify-modify_self id mark_deleted mark_deleted c.messages,
)
apply_event_idem r (reaction_added id x a) c =
    ap (λ m. record c { reaction_adds = m }) (upsert-upsert_self _ _ _ c.reaction_adds)
apply_event_idem r (reaction_removed a) c =
    ap (λ m. record c { removed_reactions = m }) (upsert-upsert_self a _ _ c.removed_reactions)
apply_event_idem r (read_advanced a d n) c =
    ap (λ m. record c { read_frontiers = m })
      (upsert-upsert_self a _ _ c.read_frontiers
        ∙ ap (λ f. upsert a f c.read_frontiers) (fun_ext (λ v. upsert_idem d n (get_or [] v))))

module _ (decode : List ℕ → Option ConversationEvent) where
  abbrev AgreeDecoded :
      EventRecord → Option ConversationEvent → EventRecord → Option ConversationEvent → Type 0
  AgreeDecoded r (some e) r' (some f) = Agree r e r' f
  AgreeDecoded _ _ _ _ = Unit {0}

  -- Two rows agree, as far as their payloads can be read.
  abbrev pub AgreeRows : EventRecord → EventRecord → Type 0
  AgreeRows r r' = AgreeDecoded r (decode r.payload) r' (decode r'.payload)

  apply_decoded_comm :
      (r r' : EventRecord) (e f : Option ConversationEvent) (c : Collections)
      → AgreeDecoded r e r' f
      → apply_decoded r' f (apply_decoded r e c) ≡ apply_decoded r e (apply_decoded r' f c)
  unfolding apply_decoded
  apply_decoded_comm r r' (some e) (some f) c h = apply_event_comm r r' c e f h
  apply_decoded_comm r r' none f c h = refl
  apply_decoded_comm r r' (some e) none c h = refl

  apply_decoded_idem :
      (r : EventRecord) (e : Option ConversationEvent) (c : Collections)
      → apply_decoded r e (apply_decoded r e c) ≡ apply_decoded r e c
  unfolding apply_decoded
  apply_decoded_idem r none c = refl
  apply_decoded_idem r (some e) c = apply_event_idem r e c

  apply_row_idem :
      (c : Collections) (r : EventRecord)
      → apply_row decode (apply_row decode c r) r ≡ apply_row decode c r
  unfolding apply_row
  apply_row_idem c r = apply_decoded_idem r (decode r.payload) c

  -- The events of a set of rows, no two of which disagree.
  abbrev pub AllAgree : List EventRecord → Type 0
  AllAgree rows = (r r' : EventRecord) → Member r rows → Member r' rows → AgreeRows r r'

  -- A row that was read already changes nothing.
  pub collect-seen :
      (rows : List EventRecord) (row : EventRecord)
      → AllAgree rows
      → Member row rows
      → apply_row decode (collect_events decode no_collections rows) row
        ≡ collect_events decode no_collections rows
  unfolding collect_events
  collect-seen rows row agree m =
      absorb (apply_row decode) AgreeRows
        (λ c r r'. apply_decoded_comm r r' (decode r.payload) (decode r'.payload) c) apply_row_idem
        no_collections row rows (λ r n. agree row r m n) m

  -- Lists of rows with the same members, which agree, materialize the same conversation.
  pub materialize-SameMembers :
      (xs ys : List EventRecord)
      → AllAgree xs
      → SameMembers xs ys
      → materialize_conversation decode xs ≡ materialize_conversation decode ys
  unfolding materialize_conversation
  materialize-SameMembers xs ys agree same = ap finish (
      foldl-SameMembers (apply_row decode) AgreeRows
        (λ c r r'. apply_decoded_comm r r' (decode r.payload) (decode r'.payload) c) apply_row_idem
        no_collections xs ys agree same)
