-- ===== src/Handshake/Deliveries.antt =====
-- Sessions between devices in src/lib.rs: `DeviceSession` and how a `DeviceIdentity` makes one.
use ciphermesh.Prelude.{ℕ, String, List, Bool, not, same, string_ord, ◌||◌, true, false}
use ciphermesh.Crypto.{Crypto, CryptoError, Result, ok, err, ◌>>=◌, ◌>>◌}
use ciphermesh.Devices.{DeviceCertificate, DeviceIdentity, verify_device_certificate}
use ciphermesh.Ratchet.State.{RatchetSession, RatchetMessage, alice, bob, new, encrypt}
use ciphermesh.Ratchet.Receive.{decrypt}
use ciphermesh.Handshake.Keys.{derive_aead_key}

pub record DeviceSession : Type 0 where
  pub local_device_id : String
  pub remote_device_id : String
  pub session : RatchetSession

pub record DeviceDeliveryEnvelope : Type 0 where
  pub logical_message_id : String
  pub sender_device_id : String
  pub recipient_device_id : String
  pub message : RatchetMessage

module _ (crypto : Crypto) where
  unfoldable pub create_outbound_session :
      List ℕ → DeviceCertificate → DeviceIdentity → Result DeviceSession
  unfolding verify_device_certificate derive_aead_key new
  create_outbound_session remote_account_public_key remote d = do
    verify_device_certificate crypto remote_account_public_key remote
    key ← derive_aead_key crypto d.x25519 remote.device_x25519_public_key
    session ← new crypto key alice d.x25519 remote.device_x25519_public_key
    ok (record {
      local_device_id = d.device_id;
      remote_device_id = remote.device_id;
      session = session;
    })

  unfoldable pub create_inbound_session : String → List ℕ → DeviceIdentity → Result DeviceSession
  unfolding derive_aead_key new
  create_inbound_session remote_device_id public d = do
    key ← derive_aead_key crypto d.x25519 public
    session ← new crypto key bob d.x25519 public
    ok (record {
      local_device_id = d.device_id;
      remote_device_id = remote_device_id;
      session = session;
    })

  abbrev envelope_of :
      String → DeviceSession → Result RatchetMessage → Result DeviceDeliveryEnvelope
  envelope_of id d (err e) = err e
  envelope_of id d (ok message) = ok (record {
    logical_message_id = id;
    sender_device_id = d.local_device_id;
    recipient_device_id = d.remote_device_id;
    message = message;
  })

  -- `DeviceSession::encrypt`
  unfoldable pub encrypt_envelope :
      String → List ℕ → DeviceSession → Result DeviceDeliveryEnvelope × DeviceSession
  unfolding encrypt
  encrypt_envelope id plaintext d =
      let (result, session) = encrypt crypto plaintext d.session in
      (envelope_of id d result, record d { session = session })

  abbrev is_misdirected : DeviceDeliveryEnvelope → DeviceSession → Bool
  is_misdirected e d =
      not (same e.recipient_device_id d.local_device_id)
      || not (same e.sender_device_id d.remote_device_id)

  abbrev decrypt_directed :
      Bool → DeviceDeliveryEnvelope → DeviceSession → Result (List ℕ) × DeviceSession
  decrypt_directed true e d = (err CryptoError.decrypt, d)
  decrypt_directed false e d =
      let (result, session) = decrypt crypto e.message d.session in
      (result, record d { session = session })

  -- `DeviceSession::decrypt`
  unfoldable pub decrypt_envelope :
      DeviceDeliveryEnvelope → DeviceSession → Result (List ℕ) × DeviceSession
  unfolding decrypt
  decrypt_envelope e d = decrypt_directed (is_misdirected e d) e d
