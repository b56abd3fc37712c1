-- ===== src/Storage/Events/World.antt =====
-- Events that are told apart by their device and counter, appended to the tables of
-- src/storage.rs.
use ciphermesh.Prelude.{
  ℕ, ◌+◌, ◌≤◌, ◌<◌, String, List, [], ◌∷◌, ◌≡◌, refl, sym, inl, inr, subst, Option-cases, arith,
  Member, string_ord, if◌then◌else◌, get_or,
}
use ciphermesh.BTree.{lookup}
use ciphermesh.BTree.Members.{Member-or_insert, or_insert-there}
use ciphermesh.Storage.Records.{EventRecord}
use ciphermesh.Storage.Events.{
  EventTables, event_key_ord, refresh_vector_for_device, append_event, append_events_from,
  version_vector,
}
use ciphermesh.Storage.Events.Vector.{EventRow, IsSound, append_event-IsSound}
use ciphermesh.Storage.Events.Missing.{Holds, Holds-append_from, lookup-version_vector}

-- A world of events in which a device uses each counter once.
pub record Identities (Event : EventRecord → Type 0) : Type 0 where
  pub unique :
      (e f : EventRecord)
      → Event e
      → Event f
      → e.device_id ≡ f.device_id
      → e.counter ≡ f.counter
      → e ≡ f

module _ (Event : EventRecord → Type 0) (world : Identities Event) where
  -- All rows come from the world.
  abbrev pub RowsIn : EventTables → Type 0
  RowsIn t = (row : EventRow) → Member row t.event_history → Event row.1

  RowsIn-append_event :
      (e : EventRecord) (t : EventTables) → Event e → RowsIn t → RowsIn (append_event e t).1
  unfolding append_event refresh_vector_for_device
  RowsIn-append_event e t ev all row m =
      elim (Member-or_insert (e.device_id, e.counter) e row t.event_history m) [
        | inl p ↦ subst (λ (r : EventRow). Event r.1) p ev
        | inr old ↦ all row old
      ]

  append_event-there :
      (e : EventRecord) (t : EventTables)
      → Event e
      → RowsIn t
      → IsSound t
      → Holds e (append_event e t).1
  unfolding append_event refresh_vector_for_device
  append_event-there e t ev all sound =
      let (w, m) = or_insert-there (e.device_id, e.counter) e t.event_history in
      let key = (append_event-IsSound e t sound).keys ((e.device_id, e.counter), w) m in
      let same_event =
        world.unique e w ev (RowsIn-append_event e t ev all ((e.device_id, e.counter), w) m)
          (λ i. (key i).0) (λ i. (key i).1) in
      subst
        (λ (x : EventRecord).
          Member ((e.device_id, e.counter), x) (append_event e t).1.event_history)
        (sym same_event) m

  -- Where the events come from one world, all that are appended are stored.
  pub append_from-there :
      (x : EventRecord) (n : ℕ) (es : List EventRecord) (t : EventTables)
      → ((e : EventRecord) → Member e es → Event e)
      → RowsIn t
      → IsSound t
      → Member x es
      → Holds x (append_events_from n es t).1
  unfolding append_events_from
  append_from-there x n [] t ev all sound m = absurd (m tt)
  append_from-there x n (e ∷ es) t ev all sound (inl p) =
      Holds-append_from x (if (append_event e t).0 then n + 1 else n) es (append_event e t).1 (
        subst (λ (y : EventRecord). Holds y (append_event e t).1) p
          (append_event-there e t (ev e (inl refl)) all sound))
  append_from-there x n (e ∷ es) t ev all sound (inr m) =
      append_from-there x (if (append_event e t).0 then n + 1 else n) es (append_event e t).1
        (λ f k. ev f (inr k)) (RowsIn-append_event e t (ev e (inl refl)) all)
        (append_event-IsSound e t sound) m

  pub RowsIn-append_from :
      (n : ℕ) (es : List EventRecord) (t : EventTables)
      → ((e : EventRecord) → Member e es → Event e)
      → RowsIn t
      → RowsIn (append_events_from n es t).1
  unfolding append_events_from
  RowsIn-append_from n [] t ev all = all
  RowsIn-append_from n (e ∷ es) t ev all =
      RowsIn-append_from (if (append_event e t).0 then n + 1 else n) es (append_event e t).1
        (λ f k. ev f (inr k)) (RowsIn-append_event e t (ev e (inl refl)) all)

  -- A counter that the vector covers is that of a stored event.
  pub seen-Holds :
      (conversation : String) (t : EventTables) (e : EventRecord)
      → RowsIn t
      → IsSound t
      → Event e
      → e.conversation_id ≡ conversation
      → 0 < e.counter
      → e.counter ≤ get_or 0 (lookup e.device_id (version_vector conversation t))
      → Holds e t
  seen-Holds conversation t e all sound ev c above below =
      elim (Option-cases (lookup e.device_id (version_vector conversation t))) [
        | inl absent ↦ absurd (ground arith)
        | inr (n, found) ↦
            let (x, m, _) =
              sound.vectors conversation e.device_id n e.counter
                (lookup-version_vector conversation e.device_id n t found) above (ground arith) in
            let key = sound.keys ((e.device_id, e.counter), x) m in
            let same_event =
              world.unique e x ev (all ((e.device_id, e.counter), x) m) (λ i. (key i).0)
                (λ i. (key i).1) in
            subst (λ (y : EventRecord). Member ((e.device_id, e.counter), y) t.event_history)
              (sym same_event) m
      ]
