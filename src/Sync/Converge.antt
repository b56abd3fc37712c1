-- ===== src/Sync/Converge.antt =====
-- After a synchronization (`sync_authorized_sibling_devices` of src/main.rs) both devices have the
-- same events and materialize the same conversation.
use ciphermesh.Prelude.{
  ℕ, ◌<◌, String, Option, List, [], ◌≡◌, refl, inl, inr, Member, string_ord, ◌↔◌,
}
use ciphermesh.BTree.{lookup}
use ciphermesh.Crypto.{Crypto}
use ciphermesh.Devices.{DeviceCertificate, DeviceRevocation}
use ciphermesh.Storage.Records.{EventRecord}
use ciphermesh.Storage.Events.{EventTables}
use ciphermesh.Storage.Events.Vector.{IsSound}
use ciphermesh.Storage.Events.Missing.{Holds, mem-missing_events_for}
use ciphermesh.Storage.Events.World.{Identities, RowsIn}
use ciphermesh.Crdt.{ConversationEvent, materialize_conversation}
use ciphermesh.Crdt.Fold.{SameMembers}
use ciphermesh.Crdt.Convergence.{AgreeRows, materialize-SameMembers}
use ciphermesh.Sync.{
  Wire, AppResult, ok, SyncRoundTrip, check_siblings, sync_authorized_sibling_devices,
  all_sync_events, send_back,
}
use ciphermesh.Sync.Transfer.{
  WireLaws, sent, received, transfer_lem, received-IsSound, received-keeps, received-Holds,
  received-RowsIn, received_all,
}

mem-all_sync_events :
    (conversation : String) (t : EventTables) (x : EventRecord)
    → IsSound t
    → Member x (all_sync_events conversation t)
      ↔ (Holds x t × (x.conversation_id ≡ conversation) × (0 < x.counter))
unfolding lookup
mem-all_sync_events conversation t x sound = mem-missing_events_for conversation [] t x sound

module _ (Event : EventRecord → Type 0) (world : Identities Event) (conversation : String)
    (left right : EventTables) (sound : IsSound left) (sound' : IsSound right)
    (rows : RowsIn Event world left) (rows' : RowsIn Event world right) where
  abbrev right_after : EventTables
  right_after = received conversation left right

  abbrev left_after : EventTables
  left_after = received conversation right_after left

  left-to-right :
      (x : EventRecord)
      → Holds x left_after
      → x.conversation_id ≡ conversation
      → 0 < x.counter
      → Holds x right_after
  left-to-right x h c above =
      elim (received-Holds x conversation right_after left
        (received-IsSound conversation left right sound') h) [
          | inl there ↦ there
          | inr old ↦
              received_all Event world conversation left right sound sound' rows rows' x old c above
        ]

  right-to-left :
      (x : EventRecord)
      → Holds x right_after
      → x.conversation_id ≡ conversation
      → 0 < x.counter
      → Holds x left_after
  right-to-left =
      received_all Event world conversation right_after left
        (received-IsSound conversation left right sound') sound
        (received-RowsIn Event world conversation left right sound sound' rows rows') rows

  exchanged-SameMembers :
      SameMembers
        (all_sync_events conversation left_after)
        (all_sync_events conversation right_after)
  exchanged-SameMembers x =
      let l =
        mem-all_sync_events conversation left_after x
          (received-IsSound conversation right_after left sound) in
      let r =
        mem-all_sync_events conversation right_after x
          (received-IsSound conversation left right sound') in
      (
        λ m. let (h, c, above) = l.0 m in r.1 (left-to-right x h c above, c, above),
        λ m. let (h, c, above) = r.0 m in l.1 (right-to-left x h c above, c, above),
      )

  module _ (crypto : Crypto) (wire : Wire) (laws : WireLaws wire) (key : List ℕ)
      (lc rc : DeviceCertificate) (revocations : List DeviceRevocation)
      (checked : check_siblings crypto key lc rc revocations ≡ ok tt) where
    abbrev synced : AppResult SyncRoundTrip × EventTables × EventTables
    synced =
        sync_authorized_sibling_devices crypto wire key lc rc revocations left right conversation

    synced_lem : synced ≡ (
      ok (record {
        left_to_right = sent conversation left right;
        right_to_left = sent conversation right_after left;
      }),
      left_after,
      right_after,
    )
    unfolding sync_authorized_sibling_devices
    synced_lem =
        rw (checked, transfer_lem wire conversation left right laws)
          (rw (transfer_lem wire conversation right_after left laws, send_back))

    -- Once the checks pass the synchronization succeeds. Both devices keep every event that they
    -- had, and have the same events of the conversation, counters from 1.
    pub sync-SameMembers :
        ((trip : SyncRoundTrip) × (synced.0 ≡ ok trip))
        × ((x : EventRecord) → Holds x left → Holds x synced.1)
        × ((x : EventRecord) → Holds x right → Holds x synced.2)
        × SameMembers
            (all_sync_events conversation synced.1)
            (all_sync_events conversation synced.2)
    sync-SameMembers = rw synced_lem (
      (_, refl),
      λ x. received-keeps x conversation right_after left,
      λ x. received-keeps x conversation left right,
      exchanged-SameMembers,
    )

    -- If the events of the world also agree, both devices then materialize the same conversation.
    pub sync_converges :
        (decode : List ℕ → Option ConversationEvent)
        → ((e f : EventRecord) → Event e → Event f → AgreeRows decode e f)
        → materialize_conversation decode (all_sync_events conversation synced.1)
          ≡ materialize_conversation decode (all_sync_events conversation synced.2)
    sync_converges decode agree = rw synced_lem (
        materialize-SameMembers decode (all_sync_events conversation left_after)
          (all_sync_events conversation right_after)
          (λ e f m n. agree e f (event_left e m) (event_left f n)) exchanged-SameMembers)
      where
        event_left :
            (e : EventRecord) → Member e (all_sync_events conversation left_after) → Event e
        event_left e m =
            received-RowsIn Event world conversation right_after left
              (received-IsSound conversation left right sound') sound
              (received-RowsIn Event world conversation left right sound sound' rows rows') rows _
              ((mem-all_sync_events conversation left_after e
                  (received-IsSound conversation right_after left sound)).0
                m).0
