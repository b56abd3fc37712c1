-- ===== src/Profile.antt =====
-- What src/main.rs keeps of a profile: the records of an account and a device, the outbox of messages
-- between devices and between Alice and Bob, and the contact of a chat.
pub mod Deliveries
pub mod Contacts
use Prim.Native.String.{◌++◌ as append_str}
use ciphermesh.Prelude.{
  ℕ, String, Option, none, some, List, [], ◌∷◌, Bool, true, false, ◌==◌, length, string_ord,
}
use ciphermesh.Crypto
use ciphermesh.Crypto.{Crypto, CryptoError}
use ciphermesh.App.{AppResult, ok, err, text_error, from_crypto, from_codec}
use ciphermesh.App
use ciphermesh.App.Run.{Run, pure, lift, gets, update, ◌>>=◌, ◌>>◌}
use ciphermesh.Devices.{DeviceCertificate, DeviceRevocation, AccountIdentity, DeviceIdentity}
use ciphermesh.Ratchet.State.{RatchetMessage}
use ciphermesh.Handshake.Parties.{Bob, decrypt_from_alice}
use ciphermesh.Handshake.Deliveries.{DeviceSession, DeviceDeliveryEnvelope, encrypt_envelope}
use ciphermesh.Handshake.States.{
  RatchetSessionState, BobState, DeviceSessionState, bob_export_state, ratchet_state,
  device_session_export_state,
}
use ciphermesh.Storage.Accepted.{accept_message_once}
use ciphermesh.Storage.Database.{
  Database, MessageRecord, MessageDirection, MessageStatus, OutboxItem, OutboxStatus, ContactRecord,
  KnownPeerRecord,
}
use ciphermesh.Storage.Devices.{
  DeviceTables, save_account_identity, save_device_identity, save_device_certificate,
  device_certificates_for_account, device_revocations_for_account,
}
use ciphermesh.Storage.Outbox.{
  save_state_session_and_insert_message, save_device_pair_session_and_outbox, mark_outbox_delivered,
}
use ciphermesh.Storage.Peers.{save_contact, save_known_peer}
use ciphermesh.Storage.Conversations.{merge_contact_into}
use ciphermesh.Chat.Names.{display_name_or_anonymous}
use ciphermesh.Chat.Peers.{contact_id_for_identity, contact_id_for_display_name}

pub record DurableAppEnvelope : Type 0 where
  pub message_id : String
  pub message : RatchetMessage

-- `bincode` on what a profile stores
pub record ProfileCodec : Type 0 where
  pub serialize_certificate : DeviceCertificate → Option (List ℕ)
  pub deserialize_certificate : List ℕ → Option DeviceCertificate
  pub deserialize_revocation : List ℕ → Option DeviceRevocation
  pub serialize_delivery : DeviceDeliveryEnvelope → Option (List ℕ)
  pub serialize_device_session : DeviceSessionState → Option (List ℕ)
  pub deserialize_envelope : List ℕ → Option DurableAppEnvelope
  pub serialize_bob_state : BobState → Option (List ℕ)
  pub serialize_session : RatchetSessionState → Option (List ℕ)

-- `map` and `collect`: the first error ends it.
abbrev pub decode_all : {A : Type 0} → (List ℕ → Option A) → List (List ℕ) → AppResult (List A)
decode_all decode [] = ok []
decode_all decode (bytes ∷ rest) =
    App.◌>>=◌ (from_codec (decode bytes))
      (λ a. App.◌>>=◌ (decode_all decode rest) (λ l. ok (a ∷ l)))

unfoldable pub load_device_certificates :
    ProfileCodec → String → DeviceTables → AppResult (List DeviceCertificate)
unfolding device_certificates_for_account
load_device_certificates codec account_id t =
    decode_all codec.deserialize_certificate (device_certificates_for_account account_id t)

unfoldable pub load_device_revocations :
    ProfileCodec → String → DeviceTables → AppResult (List DeviceRevocation)
unfolding device_revocations_for_account
load_device_revocations codec account_id t =
    decode_all codec.deserialize_revocation (device_revocations_for_account account_id t)

unfoldable pub delivery_outbox_id : DeviceDeliveryEnvelope → String
delivery_outbox_id e = append_str e.logical_message_id (append_str ":" e.recipient_device_id)

-- A device session and the database beside it
pub record SessionStore : Type 0 where
  pub session : DeviceSession
  pub db : Database

-- Bob and the database beside him
pub record BobStore : Type 0 where
  pub bob : Bob
  pub db : Database

module _ (crypto : Crypto) (codec : ProfileCodec) where
  -- `now` are the readings of the clock.
  unfoldable pub persist_phase_5a_identity :
      AccountIdentity → DeviceIdentity → DeviceCertificate → (ℕ → ℕ) → Run DeviceTables (Unit {0})
  unfolding save_account_identity save_device_identity save_device_certificate
  persist_phase_5a_identity account device certificate now = do
    update (
        save_account_identity account.account_id (crypto.ed25519_public account.identity)
          (some account.identity) (now 0))
    update (
        save_device_identity device.device_id (record {
          account_id = device.account_id;
          device_ed25519_public_key = crypto.ed25519_public device.signing;
          device_ed25519_secret_key = device.signing;
          device_x25519_public_key = crypto.x25519_public device.x25519;
          device_x25519_private_key = device.x25519;
          updated_at_unix_secs = now 1;
        }))
    bytes ← lift (from_codec (codec.serialize_certificate certificate))
    update (save_device_certificate account.account_id device.device_id bytes (now 2))

  abbrev encrypt_as : String → List ℕ → Run SessionStore DeviceDeliveryEnvelope
  encrypt_as id text s =
      let (r, d) = encrypt_envelope crypto id text s.session in
      (from_crypto r, record s { session = d })

  unfoldable pub encrypt_and_queue_device_delivery :
      String → List ℕ → (ℕ → ℕ) → Run SessionStore DeviceDeliveryEnvelope
  unfolding encrypt_envelope delivery_outbox_id device_session_export_state
      save_device_pair_session_and_outbox
  encrypt_and_queue_device_delivery logical_message_id plaintext now = do
    envelope ← encrypt_as logical_message_id plaintext
    payload ← lift (from_codec (codec.serialize_delivery envelope))
    state ← gets (λ s. codec.serialize_device_session (device_session_export_state s.session))
    session_state ← lift (from_codec state)
    let item : OutboxItem = record {
      message_id = delivery_outbox_id envelope;
      recipient_id = envelope.recipient_device_id;
      payload = payload;
      status = OutboxStatus.pending;
      retry_count = 0;
      created_at_unix_secs = now 0;
      last_attempt_unix_secs = none;
    }
    update (λ s. record s {
      db =
          save_device_pair_session_and_outbox s.session.local_device_id s.session.remote_device_id
            session_state item (now 1) s.db;
    })
    pure envelope

  abbrev on_store : (Database → Database) → Run BobStore (Unit {0})
  on_store f = update (λ s. record s { db = f s.db })

  abbrev accept_once : String → ℕ → Run BobStore Bool
  accept_once id now s =
      let (fresh, accepted) = accept_message_once id now s.db.accepted_messages in
      (ok fresh, record s { db = record (s.db) { accepted_messages = accepted } })

  abbrev decrypt_as : RatchetMessage → Run BobStore (List ℕ)
  decrypt_as m s =
      let (r, b) = decrypt_from_alice crypto m s.bob in (from_crypto r, record s { bob = b })

  abbrev session_bytes : Bob → AppResult (List ℕ)
  session_bytes b = elim b.session [
    | none ↦ err (text_error "Bob session missing after outbox receive")
    | some s ↦ from_codec (codec.serialize_session (ratchet_state s))
  ]

  abbrev pub received_record : String → OutboxItem → DurableAppEnvelope → List ℕ → ℕ → MessageRecord
  received_record conversation_id item e plaintext now = record {
    message_id = append_str "bob-" e.message_id;
    conversation_id = conversation_id;
    sender_id = "alice";
    recipient_id = "bob";
    direction = MessageDirection.received;
    status = MessageStatus.received;
    protocol_counter = some e.message.number;
    ciphertext = item.payload;
    plaintext = some plaintext;
    created_at_unix_secs = now;
  }

  abbrev pub process_delivery :
      Bool → String → OutboxItem → DurableAppEnvelope → (ℕ → ℕ) → Run BobStore String
  process_delivery false conversation_id item e now = pure e.message_id
  process_delivery true conversation_id item e now = do
    plaintext ← decrypt_as e.message
    state ← gets (λ s. codec.serialize_bob_state (bob_export_state s.bob))
    state_bytes ← lift (from_codec state)
    session ← gets (λ s. session_bytes s.bob)
    session_state ← lift session
    on_store (
        save_state_session_and_insert_message "bob" "bob" state_bytes conversation_id "alice" "bob"
          session_state (received_record conversation_id item e plaintext (now 1)) (now 2))
    pure e.message_id

  -- The id that is acknowledged, a `DurableAck`.
  unfoldable pub deliver_outbox_item_to_bob : String → OutboxItem → (ℕ → ℕ) → Run BobStore String
  unfolding accept_message_once decrypt_from_alice bob_export_state ratchet_state
      save_state_session_and_insert_message
  deliver_outbox_item_to_bob conversation_id item now = do
    envelope ← lift (from_codec (codec.deserialize_envelope item.payload))
    fresh ← accept_once envelope.message_id (now 0)
    process_delivery fresh conversation_id item envelope now

  unfoldable pub handle_ack : String → ℕ → Database → Database
  unfolding mark_outbox_delivered
  handle_ack message_id now db = mark_outbox_delivered message_id now db

abbrev pub saved_contact : String → String → List ℕ → String → ℕ → ContactRecord
saved_contact contact_id display_name identity_public_key discovery_hint now = record {
  contact_id = contact_id;
  display_name = display_name_or_anonymous display_name;
  identity_public_key = identity_public_key;
  discovery_hint = discovery_hint;
  saved_at_unix_secs = now;
}

module _ (crypto : Crypto) where
  abbrev pub saved_peer : String → String → List ℕ → ℕ → KnownPeerRecord
  saved_peer contact_id display_name identity now = record {
    peer_id = contact_id_for_identity crypto identity;
    identity_public_key = identity;
    display_name = display_name_or_anonymous display_name;
    conversation_id = contact_id;
    last_seen_at_unix_secs = now;
  }

  abbrev pub with_identity : Bool → String → String → List ℕ → ℕ → Run Database (Unit {0})
  with_identity false contact_id display_name identity now = pure tt
  with_identity true contact_id display_name identity now = do
    update (
        merge_contact_into
          (contact_id_for_display_name crypto (display_name_or_anonymous display_name)) contact_id)
    save_known_peer (saved_peer contact_id display_name identity now)

  unfoldable pub save_contact_for_chat :
      String → String → List ℕ → String → (ℕ → ℕ) → Run Database (Unit {0})
  unfolding display_name_or_anonymous save_contact save_known_peer merge_contact_into
      contact_id_for_identity contact_id_for_display_name
  save_contact_for_chat contact_id display_name identity_public_key discovery_hint now = do
    update (
        save_contact
          (saved_contact contact_id display_name identity_public_key discovery_hint (now 0)))
    with_identity (length identity_public_key == 32) contact_id display_name identity_public_key
        (now 1)
