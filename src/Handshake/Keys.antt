-- ===== src/Handshake/Keys.antt =====
-- The signed keys of src/lib.rs: key exchanges, prekeys, and the keys derived from them.
use ciphermesh.Prelude.{ℕ, none, List, ◌++◌}
use ciphermesh.Crypto.{Crypto, CryptoError, Result, ok_or, guard, ◌>>◌}
use ciphermesh.Crypto.Utf8.{as_bytes}
use ciphermesh.Ratchet.State.{RatchetMessage}

unfoldable pub hkdf_info : List ℕ
unfolding as_bytes
hkdf_info = as_bytes "ciphermesh.phase-2a.x25519.chacha20poly1305"

unfoldable pub signed_key_exchange_context : List ℕ
unfolding as_bytes
signed_key_exchange_context = as_bytes "ciphermesh.phase-2b.signed-x25519"

unfoldable pub signed_prekey_context : List ℕ
unfolding as_bytes
signed_prekey_context = as_bytes "ciphermesh.phase-2c.signed-prekey"

unfoldable pub prekey_hkdf_info : List ℕ
unfolding as_bytes
prekey_hkdf_info = as_bytes "ciphermesh.phase-2c.prekey-initial-session"

pub record SignedKeyExchange : Type 0 where
  pub identity_public_key : List ℕ
  pub x25519_public_key : List ℕ
  pub signature : List ℕ

pub record PreKeyBundle : Type 0 where
  pub identity_public_key : List ℕ
  pub signed_prekey_public_key : List ℕ
  pub signed_prekey_signature : List ℕ
  pub one_time_prekey_id : ℕ
  pub one_time_prekey_public_key : List ℕ

pub record InitialMessage : Type 0 where
  pub alice_initial_public_key : List ℕ
  pub one_time_prekey_id : ℕ
  pub message : RatchetMessage

-- Key pairs are kept as their secret bytes.
pub record OneTimePreKey : Type 0 where
  pub id : ℕ
  pub keys : List ℕ

unfoldable pub signed_key_exchange_bytes : List ℕ → List ℕ → List ℕ
signed_key_exchange_bytes identity_public_key x25519_public_key =
    signed_key_exchange_context ++ (identity_public_key ++ x25519_public_key)

unfoldable pub signed_prekey_bytes : List ℕ → List ℕ → List ℕ
signed_prekey_bytes identity_public_key signed_prekey_public_key =
    signed_prekey_context ++ (identity_public_key ++ signed_prekey_public_key)

module _ (crypto : Crypto) where
  open crypto use {
    ed25519_public, x25519_public, diffie_hellman, hkdf_expand, sign, is_verifying_key,
    is_signature, verify,
  }

  -- `X25519KeyPair::derive_aead_key`
  unfoldable pub derive_aead_key : List ℕ → List ℕ → Result (List ℕ)
  derive_aead_key keys peer_public_key =
      ok_or CryptoError.key_derivation
        (hkdf_expand none (diffie_hellman keys peer_public_key) hkdf_info 32)

  unfoldable pub derive_prekey_aead_key : List ℕ → List ℕ → Result (List ℕ)
  derive_prekey_aead_key first_dh second_dh =
      ok_or CryptoError.key_derivation
        (hkdf_expand none (first_dh ++ second_dh) prekey_hkdf_info 32)

  unfoldable pub sign_key_exchange : List ℕ → List ℕ → SignedKeyExchange
  unfolding signed_key_exchange_bytes
  sign_key_exchange identity x25519_public_key = record {
    identity_public_key = ed25519_public identity;
    x25519_public_key = x25519_public_key;
    signature =
        sign identity (signed_key_exchange_bytes (ed25519_public identity) x25519_public_key);
  }

  unfoldable pub sign_prekey : List ℕ → List ℕ → List ℕ
  unfolding signed_prekey_bytes
  sign_prekey identity signed_prekey_public_key =
      sign identity (signed_prekey_bytes (ed25519_public identity) signed_prekey_public_key)

  unfoldable pub verify_signed_key_exchange : SignedKeyExchange → Result (Unit {0})
  unfolding signed_key_exchange_bytes
  verify_signed_key_exchange e = do
    guard (is_verifying_key e.identity_public_key) CryptoError.signature_verification
    guard (is_signature e.signature) CryptoError.signature_verification
    guard
        (verify e.identity_public_key
          (signed_key_exchange_bytes e.identity_public_key e.x25519_public_key) e.signature)
        CryptoError.signature_verification

  unfoldable pub verify_signed_prekey : PreKeyBundle → Result (Unit {0})
  unfolding signed_prekey_bytes
  verify_signed_prekey b = do
    guard (is_verifying_key b.identity_public_key) CryptoError.signature_verification
    guard (is_signature b.signed_prekey_signature) CryptoError.signature_verification
    guard
        (verify b.identity_public_key
          (signed_prekey_bytes b.identity_public_key b.signed_prekey_public_key)
          b.signed_prekey_signature)
        CryptoError.signature_verification
