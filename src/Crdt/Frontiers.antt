-- ===== src/Crdt/Frontiers.antt =====
-- The read frontiers of src/crdt.rs against the highest counter that was read.
use Prim.Native.Nat.{max}
use ciphermesh.Prelude.{
  ℕ, String, Option, none, some, List, [], ◌∷◌, ◌≡◌, arith, get_or, foldl, string_ord, nat_ord,
  same, same_self, eq_of_same, key_cases, inl, inr, ◌&&◌, if◌then◌else◌, ◌∙◌,
}
use ciphermesh.BTree.{BTreeMap, lookup, upsert}
use ciphermesh.BTree.Laws.{lookup-upsert_self, lookup-upsert_ne}
use ciphermesh.Storage.Records.{EventRecord}
use ciphermesh.Crdt.{
  ConversationEvent, read_advanced, Collections, no_collections, advance_frontier, apply_event,
  apply_decoded, apply_row, materialize_conversation,
}

-- The counter up to which `actor` has read what `device` wrote; 0 where nothing was read.
abbrev pub frontier_at : BTreeMap String (BTreeMap String ℕ) → String → String → ℕ
frontier_at m actor device = get_or 0 (lookup device (get_or [] (lookup actor m)))

-- The counter that one event reports for an actor and a device.
unfoldable pub read_counter : String → String → Option ConversationEvent → ℕ
read_counter actor device (some (read_advanced actor' device' n)) =
    if same actor' actor && same device' device then n else 0
read_counter actor device _ = 0

unfoldable pub highest_read :
    (List ℕ → Option ConversationEvent) → String → String → List EventRecord → ℕ
highest_read decode actor device [] = 0
highest_read decode actor device (row ∷ rows) =
    max (read_counter actor device (decode row.payload)) (highest_read decode actor device rows)

frontier-upsert :
    (a d a' d' : String) (n : ℕ) (m : BTreeMap String (BTreeMap String ℕ))
    → frontier_at (upsert a' (advance_frontier d' n) m) a d
      ≡ max (frontier_at m a d) (if same a' a && same d' d then n else 0)
frontier-upsert a d a' d' n m = elim (key_cases a' a) [
  | inl e ↦ elim (key_cases d' d) [
    | inl f ↦
        rw
          (
            e,
            f,
            lookup-upsert_self a _ m,
            lookup-upsert_self d _ (get_or [] (lookup a m)),
            same_self a,
            same_self d,
          )
          (omega arith)
    | inr ne ↦
        rw
          (
            e,
            lookup-upsert_self a _ m,
            lookup-upsert_ne d' d _ (get_or [] (lookup a m)) ne,
            same_self a,
          )
          (ground (arith, eq_of_same d' d))
  ]
  | inr ne ↦ rw (lookup-upsert_ne a' a _ m ne) (ground (arith, eq_of_same a' a))
]

frontier-apply_decoded :
    (a d : String) (row : EventRecord) (e : Option ConversationEvent) (c : Collections)
    → frontier_at (apply_decoded row e c).read_frontiers a d
      ≡ max (frontier_at c.read_frontiers a d) (read_counter a d e)
unfolding apply_decoded apply_event read_counter
frontier-apply_decoded a d row (some (read_advanced a' d' n)) c =
    frontier-upsert a d a' d' n c.read_frontiers
frontier-apply_decoded a d row none c = omega arith
frontier-apply_decoded a d row _ c = omega arith

module _ (decode : List ℕ → Option ConversationEvent) (a d : String) where
  frontier-collect :
      (rows : List EventRecord) (c : Collections)
      → frontier_at (foldl (apply_row decode) c rows).read_frontiers a d
        ≡ max (frontier_at c.read_frontiers a d) (highest_read decode a d rows)
  unfolding highest_read apply_row
  frontier-collect [] c = omega arith
  frontier-collect (row ∷ rows) c = omega (
    arith,
    frontier-collect rows (apply_row decode c row),
    frontier-apply_decoded a d row (decode row.payload) c,
  )

  -- The read frontier of an actor for a device is the highest counter that any event reports for
  -- them, or 0.
  pub frontier-materialize :
      (rows : List EventRecord)
      → frontier_at (materialize_conversation decode rows).read_frontiers a d
        ≡ highest_read decode a d rows
  unfolding materialize_conversation lookup
  frontier-materialize rows = frontier-collect rows no_collections ∙ omega arith
