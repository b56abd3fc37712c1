-- ===== src/Tests/Syncs.antt =====
-- The theorems on the synchronization of src/main.rs at a phone and a laptop.
use ciphermesh.Prelude.{List, [], ◌∷◌, ◌≡◌, refl, inl, inr}
use ciphermesh.Storage.Records.{EventRecord}
use ciphermesh.Storage.Events.{EventTables, no_events, append_events}
use ciphermesh.Storage.Events.Vector.{IsSound, append_events-IsSound, no_events-IsSound}
use ciphermesh.Storage.Events.Missing.{Holds}
use ciphermesh.Storage.Events.World.{RowsIn, RowsIn-append_from}
use ciphermesh.Crdt.{materialize_conversation}
use ciphermesh.Crdt.Fold.{SameMembers}
use ciphermesh.Devices.{DeviceRevocation}
use ciphermesh.Sync.{
  AppError, AppResult, ok, err, SyncRoundTrip, sync_authorized_sibling_devices, all_sync_events,
}
use ciphermesh.Sync.Converge.{sync-SameMembers, sync_converges}
use ciphermesh.Sync.Refusal.{sync_refused}
use ciphermesh.Tests.Codec.{toy_wire, toy_wire_laws}
use ciphermesh.Tests.Toy.{toy}
use ciphermesh.Tests.World.{decode, phone_events, laptop_events, Event, world, events_agree, each}
use ciphermesh.Tests.Siblings.{
  key, phone_certificate, laptop_certificate, phone_revocation, siblings_checked, phone_is_revoked,
}

abbrev left : EventTables
left = (append_events phone_events no_events).1

abbrev right : EventTables
right = (append_events laptop_events no_events).1

left-IsSound : IsSound left
left-IsSound = append_events-IsSound phone_events no_events no_events-IsSound

right-IsSound : IsSound right
right-IsSound = append_events-IsSound laptop_events no_events no_events-IsSound

left-RowsIn : RowsIn Event world left
unfolding append_events
left-RowsIn =
    RowsIn-append_from Event world 0 phone_events no_events
      (each Event phone_events (inl refl, (inr (inl refl), tt))) (λ row m. absurd (m tt))

right-RowsIn : RowsIn Event world right
unfolding append_events
right-RowsIn =
    RowsIn-append_from Event world 0 laptop_events no_events
      (each Event laptop_events (inr (inr (inl refl)), (inr (inr (inr (inl refl))), tt)))
      (λ row m. absurd (m tt))

abbrev synced : List DeviceRevocation → AppResult SyncRoundTrip × EventTables × EventTables
synced revocations =
    sync_authorized_sibling_devices toy toy_wire key phone_certificate laptop_certificate
      revocations left right "talk"

sync-SameMembers_example :
    ((trip : SyncRoundTrip) × ((synced []).0 ≡ ok trip))
    × ((x : EventRecord) → Holds x left → Holds x (synced []).1)
    × ((x : EventRecord) → Holds x right → Holds x (synced []).2)
    × SameMembers (all_sync_events "talk" (synced []).1) (all_sync_events "talk" (synced []).2)
sync-SameMembers_example =
    sync-SameMembers Event world "talk" left right left-IsSound right-IsSound left-RowsIn
      right-RowsIn toy toy_wire toy_wire_laws key phone_certificate laptop_certificate []
      siblings_checked

sync_converges_example :
    materialize_conversation decode (all_sync_events "talk" (synced []).1)
    ≡ materialize_conversation decode (all_sync_events "talk" (synced []).2)
sync_converges_example =
    sync_converges Event world "talk" left right left-IsSound right-IsSound left-RowsIn right-RowsIn
      toy toy_wire toy_wire_laws key phone_certificate laptop_certificate [] siblings_checked decode
      events_agree

sync_refused_example : (e : AppError) × (synced (phone_revocation ∷ []) ≡ (err e, left, right))
sync_refused_example =
    sync_refused toy key phone_certificate laptop_certificate (phone_revocation ∷ []) toy_wire left
      right "talk" (rw phone_is_revoked refl)
