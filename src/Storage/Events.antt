-- ===== src/Storage/Events.antt =====
-- The event log and the version vectors of src/storage.rs. A table is kept as a map from its
-- primary key; every statement is taken to succeed.
pub mod Vector
pub mod World
pub mod Missing
use ciphermesh.Prelude.{
  ℕ, ◌+◌, ◌%◌, ◌^◌, String, Option, none, some, List, [], ◌∷◌, Bool, true, false, compare, Ordering,
  Ord, pair_ord, string_ord, i64_ord, same, not, get_or, ltb, if◌then◌else◌, foldl,
}
use ciphermesh.BTree.{BTreeMap, lookup, insert, or_insert, contains_key, collect}
use ciphermesh.Storage.Records.{EventRecord, VersionVector}

-- PRIMARY KEY (device_id, counter), the counter in the order of the `i64`s
instance abbrev pub event_key_ord : Ord (String × ℕ)
event_key_ord = pair_ord string_ord i64_ord

-- PRIMARY KEY (conversation_id, device_id)
instance abbrev pub vector_key_ord : Ord (String × String)
vector_key_ord = pair_ord string_ord string_ord

pub record EventTables : Type 0 where
  pub event_history : BTreeMap (String × ℕ) EventRecord
  pub version_vectors : BTreeMap (String × String) ℕ
  pub device_counters : BTreeMap String ℕ

abbrev pub no_events : EventTables
no_events = record { event_history = []; version_vectors = []; device_counters = [] }

-- SELECT counter … WHERE conversation_id = … AND device_id = … ORDER BY counter
unfoldable pub counters_of : String → String → BTreeMap (String × ℕ) EventRecord → List ℕ
counters_of conversation device [] = []
counters_of conversation device ((_, e) ∷ rows) =
    let rest = counters_of conversation device rows in
    if same e.conversation_id conversation
    then (if same e.device_id device then e.counter ∷ rest else rest)
    else rest

-- The loop over the counters: `break` at a gap.
unfoldable pub contiguous_from : ℕ → List ℕ → ℕ
contiguous_from n [] = n
contiguous_from n (c ∷ cs) = elim (compare c (n + 1)) [
  | Ordering.eq ↦ contiguous_from c cs
  | Ordering.gt ↦ n
  | Ordering.lt ↦ contiguous_from n cs
]

unfoldable pub refresh_vector_for_device : String → String → EventTables → EventTables
unfolding counters_of contiguous_from
refresh_vector_for_device conversation device t = record t {
  version_vectors =
      insert (conversation, device)
        (contiguous_from 0 (counters_of conversation device t.event_history)) t.version_vectors;
}

-- The flag says whether the row was inserted.
unfoldable pub append_event : EventRecord → EventTables → Bool × EventTables
unfolding refresh_vector_for_device
append_event e t =
    let key : String × ℕ = (e.device_id, e.counter) in
    (
      not (contains_key key t.event_history),
      refresh_vector_for_device e.conversation_id e.device_id
          (record t { event_history = or_insert key e t.event_history }),
    )

-- The number of rows that were inserted, added to `inserted`.
unfoldable pub append_events_from : ℕ → List EventRecord → EventTables → ℕ × EventTables
unfolding append_event
append_events_from inserted [] t = (inserted, t)
append_events_from inserted (e ∷ es) t =
    let (done, t') = append_event e t in
    append_events_from (if done then inserted + 1 else inserted) es t'

unfoldable pub append_events : List EventRecord → EventTables → ℕ × EventTables
unfolding append_events_from
append_events = append_events_from 0

unfoldable pub vector_rows : String → BTreeMap (String × String) ℕ → List (String × ℕ)
vector_rows conversation [] = []
vector_rows conversation (((c, device), n) ∷ rows) =
    let rest = vector_rows conversation rows in
    if same c conversation then (device, n) ∷ rest else rest

unfoldable pub version_vector : String → EventTables → VersionVector
unfolding vector_rows
version_vector conversation t = collect (vector_rows conversation t.version_vectors)

unfoldable pub missing_rows :
    String → VersionVector → BTreeMap (String × ℕ) EventRecord → List EventRecord
missing_rows conversation peer [] = []
missing_rows conversation peer ((_, e) ∷ rows) =
    let rest = missing_rows conversation peer rows in
    if same e.conversation_id conversation
    then (if ltb (get_or 0 (lookup e.device_id peer)) e.counter then e ∷ rest else rest)
    else rest

unfoldable pub missing_events_for : String → VersionVector → EventTables → List EventRecord
unfolding missing_rows
missing_events_for conversation peer t = missing_rows conversation peer t.event_history

-- The counter to use, and the tables with the next one. The sum is of `i64`s.
unfoldable pub next_local_event_counter : String → EventTables → ℕ × EventTables
next_local_event_counter device t =
    let current = get_or 1 (lookup device t.device_counters) in
    (
      current,
      record t { device_counters = insert device ((current + 1) % 2 ^ 64) t.device_counters },
    )
