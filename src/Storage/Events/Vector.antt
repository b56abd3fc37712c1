-- ===== src/Storage/Events/Vector.antt =====
-- The version vectors of src/storage.rs claim no event that is not stored.
use ciphermesh.Prelude.{
  ℕ, ◌+◌, ◌≤◌, ◌<◌, String, List, [], ◌∷◌, ◌≡◌, refl, ◌∙◌, inl, inr, ◌⊎◌, subst, arith, Member,
  eq_of_same, string_ord, if◌then◌else◌,
}
use ciphermesh.BTree.{BTreeMap, or_insert}
use ciphermesh.BTree.Members.{Member-insert, Member-or_insert, or_insert-Member}
use ciphermesh.Storage.Records.{EventRecord}
use ciphermesh.Storage.Events.{
  EventTables, no_events, event_key_ord, vector_key_ord, counters_of, contiguous_from,
  refresh_vector_for_device, append_event, append_events_from, append_events,
}

abbrev pub EventRow : Type 0
EventRow = (String × ℕ) × EventRecord

-- A row stands under its own device and counter.
abbrev pub KeysMatch : List EventRow → Type 0
KeysMatch rows = (row : EventRow) → Member row rows → row.0 ≡ (row.1.device_id, row.1.counter)

-- The row of a device and a counter in a conversation.
abbrev pub Stored : String → String → ℕ → List EventRow → Type 0
Stored conversation device k rows =
    (e : EventRecord) × Member ((device, k), e) rows × (e.conversation_id ≡ conversation)

-- Every counter up to the one that a vector names is stored.
pub record IsSound (t : EventTables) : Type 0 where
  pub keys : KeysMatch t.event_history
  pub vectors :
      (conversation device : String) (n k : ℕ)
      → Member ((conversation, device), n) t.version_vectors
      → 0 < k
      → k ≤ n
      → Stored conversation device k t.event_history

contiguous_from-Member : (n k : ℕ) (cs : List ℕ) → n < k → k ≤ contiguous_from n cs → Member k cs
unfolding contiguous_from
contiguous_from-Member n k [] above below = absurd (omega arith)
contiguous_from-Member n k (c ∷ cs) above below =
    ground (arith, contiguous_from-Member n k cs, contiguous_from-Member c k cs)

counters_of_cases :
    (conversation device : String) (k : ℕ) (row : EventRow) (rows : List EventRow)
    → Member k (counters_of conversation device (row ∷ rows))
    → ((row.1.conversation_id ≡ conversation) × (row.1.device_id ≡ device) × (row.1.counter ≡ k))
      ⊎ Member k (counters_of conversation device rows)
unfolding counters_of
counters_of_cases conversation device k (key, e) rows h =
    ground (arith, eq_of_same e.conversation_id conversation, eq_of_same e.device_id device)

counters_of-Stored :
    (conversation device : String) (k : ℕ) (rows : List EventRow)
    → KeysMatch rows
    → Member k (counters_of conversation device rows)
    → Stored conversation device k rows
unfolding counters_of
counters_of-Stored conversation device k [] keys h = absurd (h tt)
counters_of-Stored conversation device k ((key, e) ∷ rows) keys h =
    elim (counters_of_cases conversation device k (key, e) rows h) [
      | inl (c, d, n) ↦
          let p : key ≡ (device, k) = keys (key, e) (inl refl) ∙ (λ i. (d i, n i)) in
          (e, inl (λ i. (p i, e)), c)
      | inr later ↦
          let (x, m, c) =
            counters_of-Stored conversation device k rows (λ row n. keys row (inr n)) later in
          (x, inr m, c)
    ]

-- More rows store more.
Stored-or_insert :
    (key : String × ℕ) (e : EventRecord) (conversation device : String) (k : ℕ)
    (rows : BTreeMap (String × ℕ) EventRecord)
    → Stored conversation device k rows
    → Stored conversation device k (or_insert key e rows)
Stored-or_insert key e conversation device k rows (x, m, c) =
    (x, or_insert-Member key e ((device, k), x) rows m, c)

module _ (conversation device : String) (t : EventTables) (sound : IsSound t) where
  refresh_vectors :
      (c d : String) (n k : ℕ)
      → Member ((c, d), n) (refresh_vector_for_device conversation device t).version_vectors
      → 0 < k
      → k ≤ n
      → Stored c d k t.event_history
  unfolding refresh_vector_for_device
  refresh_vectors c d n k m above below =
      elim (Member-insert (conversation, device) _ ((c, d), n) t.version_vectors m) [
        | inl p ↦
            subst (λ (x : (String × String) × ℕ). k ≤ x.1 → Stored x.0.0 x.0.1 k t.event_history) p
              (λ le.
                counters_of-Stored conversation device k t.event_history sound.keys
                  (contiguous_from-Member 0 k _ above le))
              below
        | inr old ↦ sound.vectors c d n k old above below
      ]

  refresh-IsSound : IsSound (refresh_vector_for_device conversation device t)
  unfolding refresh_vector_for_device
  refresh-IsSound = record { keys = sound.keys; vectors = refresh_vectors }

insert-IsSound :
    (e : EventRecord) (t : EventTables)
    → IsSound t
    → IsSound (record t { event_history = or_insert (e.device_id, e.counter) e t.event_history })
insert-IsSound e t sound = record {
  keys = λ row m. elim (Member-or_insert (e.device_id, e.counter) e row t.event_history m) [
    | inl p ↦ subst (λ (x : EventRow). x.0 ≡ (x.1.device_id, x.1.counter)) p refl
    | inr old ↦ sound.keys row old
  ];
  vectors = λ c d n k m above below.
      Stored-or_insert (e.device_id, e.counter) e c d k t.event_history
        (sound.vectors c d n k m above below);
}

pub append_event-IsSound :
    (e : EventRecord) (t : EventTables) → IsSound t → IsSound (append_event e t).1
unfolding append_event
append_event-IsSound e t sound =
    refresh-IsSound e.conversation_id e.device_id _ (insert-IsSound e t sound)

append_events_from-IsSound :
    (n : ℕ) (es : List EventRecord) (t : EventTables)
    → IsSound t
    → IsSound (append_events_from n es t).1
unfolding append_events_from
append_events_from-IsSound n [] t sound = sound
append_events_from-IsSound n (e ∷ es) t sound =
    append_events_from-IsSound (if (append_event e t).0 then n + 1 else n) es (append_event e t).1
      (append_event-IsSound e t sound)

-- Whatever events are appended, in any order and however often, the vectors stay sound.
pub append_events-IsSound :
    (es : List EventRecord) (t : EventTables) → IsSound t → IsSound (append_events es t).1
unfolding append_events
append_events-IsSound = append_events_from-IsSound 0

pub no_events-IsSound : IsSound no_events
no_events-IsSound = record { keys = λ row m. absurd (m tt); vectors = λ c d n k m. absurd (m tt) }
