-- ===== src/Tests/Conversations.antt =====
-- The theorems on src/crdt.rs at the events of two devices.
use ciphermesh.Prelude.{
  String, some, get_or, ◌<◌, ◌↔◌, List, [], ◌∷◌, ◌≡◌, refl, Member, inl, inr, false, not, map_some,
  string_ord, nat_ord,
}
use ciphermesh.BTree.{lookup, upsert, contains_key}
use ciphermesh.Storage.Records.{EventRecord}
use ciphermesh.Storage.Events.{EventTables, no_events, append_events, missing_events_for}
use ciphermesh.Storage.Events.Vector.{IsSound, append_events-IsSound, no_events-IsSound}
use ciphermesh.Storage.Events.Missing.{Holds, mem-missing_events_for}
use ciphermesh.Crdt.{MessageState, materialize_conversation}
use ciphermesh.Crdt.Fold.{SameMembers}
use ciphermesh.Crdt.Convergence.{materialize-SameMembers}
use ciphermesh.Crdt.Frontiers.{frontier_at, highest_read, frontier-materialize}
use ciphermesh.Crdt.Deletion.{any_deletes, deleted-materialize}
use ciphermesh.Crdt.Creation.{first_creation, content, content-materialize}
use ciphermesh.Crdt.Reactions.{removes, any_removes, shows}
use ciphermesh.Crdt.Reactions.Shown.{removed-shows, added-shows}
use ciphermesh.Tests.World.{
  each, decode, creation, deletion, reaction, reading, removal, other_creation, all_events,
  events_agree,
}

-- The same events in another order, one of them twice
abbrev mixed : List EventRecord
mixed = reading ∷ deletion ∷ reaction ∷ creation ∷ reaction ∷ []

mixed_same : SameMembers all_events mixed
mixed_same x = (
  each (λ y. Member y mixed) all_events
      (inr (inr (inr (inl refl))), (inr (inl refl), (inr (inr (inl refl)), (inl refl, tt)))) x,
  each (λ y. Member y all_events) mixed
      (
        inr (inr (inr (inl refl))),
        (inr (inl refl), (inr (inr (inl refl)), (inl refl, (inr (inr (inl refl)), tt)))),
      )
      x,
)

materialize-SameMembers_example :
    materialize_conversation decode all_events ≡ materialize_conversation decode mixed
materialize-SameMembers_example =
    materialize-SameMembers decode all_events mixed events_agree mixed_same

frontier-materialize_example :
    frontier_at (materialize_conversation decode all_events).read_frontiers "bob" "phone"
    ≡ highest_read decode "bob" "phone" all_events
frontier-materialize_example = frontier-materialize decode "bob" "phone" all_events

deleted-materialize_example :
    (contains_key "m1" (materialize_conversation decode mixed).tombstones
      ≡ any_deletes decode "m1" mixed)
    × ((m : MessageState)
        → lookup "m1" (materialize_conversation decode mixed).messages ≡ some m
        → m.deleted ≡ any_deletes decode "m1" mixed)
deleted-materialize_example = deleted-materialize decode "m1" mixed

content-materialize_example :
    map_some content (lookup "m1" (materialize_conversation decode mixed).messages)
    ≡ first_creation decode "m1" mixed
content-materialize_example = content-materialize decode "m1" mixed

-- The first of two creations gives the content, so their order is seen.
created_first :
    map_some content
      (lookup "m1" (materialize_conversation decode (creation ∷ other_creation ∷ [])).messages)
    ≡ some ("alice", 72 ∷ 105 ∷ [])
unfolding materialize_conversation lookup upsert
created_first = refl

created_second :
    map_some content
      (lookup "m1" (materialize_conversation decode (other_creation ∷ creation ∷ [])).messages)
    ≡ some ("mallory", 33 ∷ [])
unfolding materialize_conversation lookup upsert
created_second = refl

removed-shows_example :
    shows (materialize_conversation decode (removal ∷ all_events)).messages "m1" (record {
      reaction = "heart";
      actor_id = "bob";
      add = record { device_id = "laptop"; counter = 1 };
    })
    ≡ false
unfolding any_removes removes
removed-shows_example = removed-shows decode (removal ∷ all_events) "m1" _ refl

added-shows_example :
    shows (materialize_conversation decode all_events).messages "m1" (record {
      reaction = "heart";
      actor_id = "bob";
      add = record { device_id = "laptop"; counter = 1 };
    })
    ≡ not (any_removes decode (record { device_id = "laptop"; counter = 1 }) all_events)
added-shows_example =
    added-shows decode all_events creation reaction "m1" "alice" "heart" "bob" (72 ∷ 105 ∷ [])
      events_agree (inl refl) refl (inr (inr (inl refl))) refl

-- The laptop's log, after its events came in the other order
abbrev pub laptop : EventTables
laptop = (append_events (reading ∷ reaction ∷ reaction ∷ []) no_events).1

append_events-IsSound_example :
    IsSound (append_events (reading ∷ reaction ∷ reaction ∷ []) no_events).1
append_events-IsSound_example =
    append_events-IsSound (reading ∷ reaction ∷ reaction ∷ []) no_events no_events-IsSound

pub laptop-IsSound : IsSound laptop
laptop-IsSound =
    append_events-IsSound (reading ∷ reaction ∷ reaction ∷ []) no_events no_events-IsSound

mem-missing_events_for_example :
    Member reading (missing_events_for "talk" (("laptop", 1) ∷ []) laptop) ↔ (
      Holds reading laptop
      × (◌≡◌ {A = String} "talk" "talk")
      × (get_or 0 (lookup {K = String} "laptop" (("laptop", 1) ∷ [])) < 2))
mem-missing_events_for_example =
    mem-missing_events_for "talk" (("laptop", 1) ∷ []) laptop reading laptop-IsSound
