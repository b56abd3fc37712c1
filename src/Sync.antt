-- ===== src/Sync.antt =====
-- The synchronization of two devices of one account: `sync_authorized_sibling_devices` of
-- src/main.rs.
pub mod Transfer
pub mod Converge
pub mod Refusal
use ciphermesh.Prelude.{
  ℕ, String, Option, none, some, List, [], ◌∷◌, map, Bool, true, false, if◌then◌else◌,
}
use ciphermesh.BTree.{BTreeMap}
use ciphermesh.Crypto
pub use ciphermesh.App.{
  AppError, codec_error, crypto_error, sibling_revoked, AppResult, ok, err, ◌>>=◌, ◌>>◌,
  from_crypto, from_codec,
}
use ciphermesh.Crypto.{Crypto, CryptoError}
use ciphermesh.Devices.{
  DeviceCertificate, DeviceRevocation, verify_authorized_sibling_devices,
  is_device_currently_authorized,
}
use ciphermesh.Storage.Records.{EventRecord}
use ciphermesh.Storage.Events.{EventTables, append_events, version_vector, missing_events_for}

-- The event on the wire.
pub record SyncEvent : Type 0 where
  pub device_id : String
  pub counter : ℕ
  pub conversation_id : String
  pub event_type : String
  pub message_id : Option String
  pub payload : List ℕ
  pub created_at_unix_secs : ℕ

abbrev pub to_sync_event : EventRecord → SyncEvent
to_sync_event e = record {
  device_id = e.device_id;
  counter = e.counter;
  conversation_id = e.conversation_id;
  event_type = e.event_type;
  message_id = e.message_id;
  payload = e.payload;
  created_at_unix_secs = e.created_at_unix_secs;
}

abbrev pub from_sync_event : SyncEvent → EventRecord
from_sync_event e = record {
  device_id = e.device_id;
  counter = e.counter;
  conversation_id = e.conversation_id;
  event_type = e.event_type;
  message_id = e.message_id;
  payload = e.payload;
  created_at_unix_secs = e.created_at_unix_secs;
}

-- `bincode` on a `SyncResponse`
pub record Wire : Type 0 where
  pub serialize : List SyncEvent → Option (List ℕ)
  pub deserialize : List ℕ → Option (List SyncEvent)

pub record SyncRoundTrip : Type 0 where
  pub left_to_right : List EventRecord
  pub right_to_left : List EventRecord

abbrev pub both_current : Bool → AppResult Bool → AppResult (Unit {0})
both_current false right = err sibling_revoked
both_current true right = do current ← right; if current then ok tt else err sibling_revoked

-- The checks before anything is read: the right device is asked about only if the left one is
-- current.
unfoldable pub check_siblings :
    Crypto
    → List ℕ
    → DeviceCertificate
    → DeviceCertificate
    → List DeviceRevocation
    → AppResult (Unit {0})
check_siblings crypto key left right revocations = do
  from_crypto (verify_authorized_sibling_devices crypto key left right)
  current ← from_crypto (is_device_currently_authorized crypto key left revocations)
  both_current current (from_crypto (is_device_currently_authorized crypto key right revocations))

-- One half: what `to` has not seen of `from` goes over the wire and is appended.
unfoldable pub transfer :
    Wire → String → EventTables → EventTables → AppResult (List EventRecord × EventTables)
transfer wire conversation from to = do
  bytes ← from_codec (
      wire.serialize
        (map to_sync_event (missing_events_for conversation (version_vector conversation to) from)))
  events ← from_codec (wire.deserialize bytes)
  ok (map from_sync_event events, (append_events (map from_sync_event events) to).1)

abbrev pub send_back :
    Wire
    → String
    → EventTables
    → AppResult (List EventRecord × EventTables)
    → EventTables
    → AppResult SyncRoundTrip × EventTables × EventTables
send_back wire conversation left (err e) right = (err e, left, right)
send_back wire conversation left (ok (left_to_right, right')) right =
    elim (transfer wire conversation right' left) [
      | err e ↦ (err e, left, right')
      | ok (right_to_left, left') ↦ (
        ok (record { left_to_right = left_to_right; right_to_left = right_to_left }),
        left',
        right',
      )
    ]

abbrev pub exchange :
    Wire
    → String
    → AppResult (Unit {0})
    → EventTables
    → EventTables
    → AppResult SyncRoundTrip × EventTables × EventTables
exchange wire conversation (err e) left right = (err e, left, right)
exchange wire conversation (ok _) left right =
    send_back wire conversation left (transfer wire conversation left right) right

-- The result beside the tables of both devices, which an error leaves as they are by then.
unfoldable pub sync_authorized_sibling_devices :
    Crypto
    → Wire
    → List ℕ
    → DeviceCertificate
    → DeviceCertificate
    → List DeviceRevocation
    → EventTables
    → EventTables
    → String
    → AppResult SyncRoundTrip × EventTables × EventTables
unfolding check_siblings transfer
sync_authorized_sibling_devices crypto wire key lc rc revocations left right conversation =
    exchange wire conversation (check_siblings crypto key lc rc revocations) left right

-- `all_sync_events`: what a peer that has seen nothing is sent.
abbrev pub all_sync_events : String → EventTables → List EventRecord
all_sync_events conversation = missing_events_for conversation []
