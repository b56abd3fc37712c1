-- ===== src/Storage/Events/Missing.antt =====
-- What `missing_events_for` of src/storage.rs sends, and what `append_events` keeps of it.
use ciphermesh.Prelude.{
  ℕ, ◌+◌, ◌<◌, String, some, List, [], ◌∷◌, ◌≡◌, refl, ap, inl, inr, ◌⊎◌, subst, ◌↔◌, arith, Member,
  same_self, eq_of_same, string_ord, if◌then◌else◌, get_or,
}
use ciphermesh.BTree.{lookup}
use ciphermesh.BTree.Members.{or_insert-Member, Member-or_insert, lookup-extend}
use ciphermesh.Storage.Records.{EventRecord, VersionVector}
use ciphermesh.Storage.Events.{
  EventTables, event_key_ord, vector_key_ord, refresh_vector_for_device, append_event,
  append_events_from, vector_rows, version_vector, missing_rows, missing_events_for,
}
use ciphermesh.Storage.Events.Vector.{EventRow, KeysMatch, IsSound}

-- The event is stored in the tables.
abbrev pub Holds : EventRecord → EventTables → Type 0
Holds e t = Member ((e.device_id, e.counter), e) t.event_history

-- A row is sent exactly if it is of the conversation and past what the peer has seen.
missing_rows_cases :
    (conversation : String) (peer : VersionVector) (x : EventRecord) (key : String × ℕ)
    (e : EventRecord) (rows : List EventRow)
    → Member x (missing_rows conversation peer ((key, e) ∷ rows))
    → ((e ≡ x)
        × (e.conversation_id ≡ conversation)
        × (get_or 0 (lookup e.device_id peer) < e.counter))
      ⊎ Member x (missing_rows conversation peer rows)
unfolding missing_rows
missing_rows_cases conversation peer x key e rows h =
    ground (arith, eq_of_same e.conversation_id conversation)

Member-missing_rows :
    (conversation : String) (peer : VersionVector) (rows : List EventRow) (x : EventRecord)
    → KeysMatch rows
    → Member x (missing_rows conversation peer rows)
    → Member ((x.device_id, x.counter), x) rows
      × (x.conversation_id ≡ conversation)
      × (get_or 0 (lookup x.device_id peer) < x.counter)
unfolding missing_rows
Member-missing_rows conversation peer [] x keys h = absurd (h tt)
Member-missing_rows conversation peer ((key, e) ∷ rows) x keys h =
    elim (missing_rows_cases conversation peer x key e rows h) [
      | inl (p, c, gt) ↦
          subst
            (λ (y : EventRecord).
              Member ((y.device_id, y.counter), y) ((key, e) ∷ rows)
              × (y.conversation_id ≡ conversation)
              × (get_or 0 (lookup y.device_id peer) < y.counter))
            p (inl (λ i. (keys (key, e) (inl refl) i, e)), c, gt)
      | inr later ↦
          let (m, c, gt) =
            Member-missing_rows conversation peer rows x (λ row n. keys row (inr n)) later in
          (inr m, c, gt)
    ]

missing_rows-Member :
    (conversation : String) (peer : VersionVector) (rows : List EventRow) (key : String × ℕ)
    (x : EventRecord)
    → Member (key, x) rows
    → x.conversation_id ≡ conversation
    → get_or 0 (lookup x.device_id peer) < x.counter
    → Member x (missing_rows conversation peer rows)
unfolding missing_rows
missing_rows-Member conversation peer [] key x h c gt = absurd (h tt)
missing_rows-Member conversation peer ((k, e) ∷ rows) key x h c gt =
    ground (arith, same_self conversation, missing_rows-Member conversation peer rows key x)

-- The events that are sent are those of the conversation that the peer has not seen, and no other.
pub mem-missing_events_for :
    (conversation : String) (peer : VersionVector) (t : EventTables) (x : EventRecord)
    → IsSound t
    → Member x (missing_events_for conversation peer t) ↔ (
        Holds x t
        × (x.conversation_id ≡ conversation)
        × (get_or 0 (lookup x.device_id peer) < x.counter))
unfolding missing_events_for
mem-missing_events_for conversation peer t x sound = (
  Member-missing_rows conversation peer t.event_history x sound.keys,
  λ (m, c, gt). missing_rows-Member conversation peer t.event_history _ x m c gt,
)

vector_rows-Member :
    (conversation device : String) (n : ℕ) (rows : List ((String × String) × ℕ))
    → Member (device, n) (vector_rows conversation rows)
    → Member ((conversation, device), n) rows
unfolding vector_rows
vector_rows-Member conversation device n [] h = absurd (h tt)
vector_rows-Member conversation device n (((c, d), m) ∷ rows) h =
    ground (arith, eq_of_same c conversation, vector_rows-Member conversation device n rows)

pub lookup-version_vector :
    (conversation device : String) (n : ℕ) (t : EventTables)
    → lookup device (version_vector conversation t) ≡ some n
    → Member ((conversation, device), n) t.version_vectors
unfolding version_vector lookup
lookup-version_vector conversation device n t h =
    elim (lookup-extend device n (vector_rows conversation t.version_vectors) [] h) [
      | inl m ↦ vector_rows-Member conversation device n t.version_vectors m
      | inr e ↦ cc
    ]

-- Nothing that is stored is lost.
pub Holds-append_event :
    (x e : EventRecord) (t : EventTables) → Holds x t → Holds x (append_event e t).1
unfolding append_event refresh_vector_for_device
Holds-append_event x e t h = or_insert-Member (e.device_id, e.counter) e _ t.event_history h

pub Holds-append_from :
    (x : EventRecord) (n : ℕ) (es : List EventRecord) (t : EventTables)
    → Holds x t
    → Holds x (append_events_from n es t).1
unfolding append_events_from
Holds-append_from x n [] t h = h
Holds-append_from x n (e ∷ es) t h =
    Holds-append_from x (if (append_event e t).0 then n + 1 else n) es (append_event e t).1
      (Holds-append_event x e t h)

-- What is stored afterwards was stored before or is new.
append_event-Holds :
    (x e : EventRecord) (t : EventTables) → Holds x (append_event e t).1 → (e ≡ x) ⊎ Holds x t
unfolding append_event refresh_vector_for_device
append_event-Holds x e t h =
    elim (Member-or_insert (e.device_id, e.counter) e _ t.event_history h) [
      | inl p ↦ inl (ap (λ (row : EventRow). row.1) p)
      | inr old ↦ inr old
    ]

pub append_from-Holds :
    (x : EventRecord) (n : ℕ) (es : List EventRecord) (t : EventTables)
    → Holds x (append_events_from n es t).1
    → Member x es ⊎ Holds x t
unfolding append_events_from
append_from-Holds x n [] t h = inr h
append_from-Holds x n (e ∷ es) t h =
    elim (append_from-Holds x (if (append_event e t).0 then n + 1 else n) es (append_event e t).1
      h) [
        | inl later ↦ inl (inr later)
        | inr now ↦ elim (append_event-Holds x e t now) [ inl p ↦ inl (inl p) | inr old ↦ inr old ]
      ]
