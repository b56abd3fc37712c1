-- ===== src/Handshake/Parties.antt =====
-- `Alice` and `Bob` of src/lib.rs, and the directory that hands out a prekey bundle.
use ciphermesh.Prelude.{ℕ, Option, none, some, List, ◌==◌, if◌then◌else◌}
use ciphermesh.Crypto.{Crypto, CryptoError, Result, ok, err, ok_or}
use ciphermesh.Ratchet.Stateful.{Exec, pure, raise, lift, gets, update, ◌>>=◌, ◌>>◌}
use ciphermesh.Ratchet.State.{
  alice, bob, RatchetSession, RatchetMessage, Session, new, encrypt, rotate_sending_ratchet,
}
use ciphermesh.Ratchet.Receive.{decrypt}
use ciphermesh.Handshake.Keys.{
  SignedKeyExchange, PreKeyBundle, InitialMessage, OneTimePreKey, derive_aead_key,
  derive_prekey_aead_key, sign_key_exchange, sign_prekey, verify_signed_key_exchange,
  verify_signed_prekey,
}

pub record Alice : Type 0 where
  pub identity : List ℕ
  pub keys : List ℕ
  pub session : Option RatchetSession

pub record Bob : Type 0 where
  pub identity : List ℕ
  pub keys : List ℕ
  pub signed_prekey : List ℕ
  pub one_time_prekey : Option OneTimePreKey
  pub session : Option RatchetSession

pub record SimulatedDirectory : Type 0 where
  pub bob_bundle : Option PreKeyBundle

-- `session.as_mut().ok_or(MissingSessionKey)?` and a method of the session
abbrev pub with_session :
    {A : Type 0} → Session A → Option RatchetSession → Result A × Option RatchetSession
with_session f none = (err CryptoError.missing_session_key, none)
with_session f (some s) = ((f s).0, some (f s).1)

abbrev pub on_alice : {A : Type 0} → Session A → Exec Alice A
on_alice f a = ((with_session f a.session).0, record a { session = (with_session f a.session).1 })

abbrev pub on_bob : {A : Type 0} → Session A → Exec Bob A
on_bob f b = ((with_session f b.session).0, record b { session = (with_session f b.session).1 })

module _ (crypto : Crypto) where
  open crypto use {x25519_public, ed25519_public, diffie_hellman}

  unfoldable pub alice_exchange : Alice → SignedKeyExchange
  unfolding sign_key_exchange
  alice_exchange a = sign_key_exchange crypto a.identity (x25519_public a.keys)

  unfoldable pub bob_exchange : Bob → SignedKeyExchange
  unfolding sign_key_exchange
  bob_exchange b = sign_key_exchange crypto b.identity (x25519_public b.keys)

  -- `Alice::derive_session_key`
  unfoldable pub alice_derive_session_key : SignedKeyExchange → Exec Alice (Unit {0})
  unfolding verify_signed_key_exchange derive_aead_key new
  alice_derive_session_key e = do
    lift (verify_signed_key_exchange crypto e)
    keys ← gets (λ a. a.keys)
    key ← lift (derive_aead_key crypto keys e.x25519_public_key)
    session ← lift (new crypto key alice keys e.x25519_public_key)
    update (λ a. record a { session = some session })

  -- `Bob::derive_session_key`
  unfoldable pub bob_derive_session_key : SignedKeyExchange → Exec Bob (Unit {0})
  unfolding verify_signed_key_exchange derive_aead_key new
  bob_derive_session_key e = do
    lift (verify_signed_key_exchange crypto e)
    keys ← gets (λ b. b.keys)
    key ← lift (derive_aead_key crypto keys e.x25519_public_key)
    session ← lift (new crypto key bob keys e.x25519_public_key)
    update (λ b. record b { session = some session })

  unfoldable pub encrypt_for_bob : List ℕ → Exec Alice RatchetMessage
  unfolding encrypt
  encrypt_for_bob message = on_alice (encrypt crypto message)

  unfoldable pub decrypt_from_bob : RatchetMessage → Exec Alice (List ℕ)
  unfolding decrypt
  decrypt_from_bob message = on_alice (decrypt crypto message)

  unfoldable pub decrypt_from_alice : RatchetMessage → Exec Bob (List ℕ)
  unfolding decrypt
  decrypt_from_alice message = on_bob (decrypt crypto message)

  unfoldable pub encrypt_for_alice : List ℕ → Exec Bob RatchetMessage
  unfolding encrypt
  encrypt_for_alice message = on_bob (encrypt crypto message)

  -- `Alice::rotate_sending_ratchet`, with the secret that it draws
  unfoldable pub alice_rotate_sending_ratchet : List ℕ → Exec Alice (Unit {0})
  alice_rotate_sending_ratchet secret = on_alice (rotate_sending_ratchet crypto secret)

  -- `secret` is that of the key pair that Alice makes for the message.
  unfoldable pub encrypt_initial_message :
      List ℕ → PreKeyBundle → List ℕ → Exec Alice InitialMessage
  unfolding verify_signed_prekey derive_prekey_aead_key new encrypt_for_bob
  encrypt_initial_message secret bundle message = do
    lift (verify_signed_prekey crypto bundle)
    key ← lift (
        derive_prekey_aead_key crypto (diffie_hellman secret bundle.signed_prekey_public_key)
          (diffie_hellman secret bundle.one_time_prekey_public_key))
    session ← lift (new crypto key alice secret bundle.signed_prekey_public_key)
    update (λ a. record a { session = some session })
    ciphertext ← encrypt_for_bob message
    pure (record {
      alice_initial_public_key = ciphertext.ratchet_public_key;
      one_time_prekey_id = bundle.one_time_prekey_id;
      message = ciphertext;
    })

  abbrev bundle_with : Bob → Option OneTimePreKey → Result PreKeyBundle
  bundle_with b none = err CryptoError.prekey_unavailable
  bundle_with b (some p) = ok (record {
    identity_public_key = ed25519_public b.identity;
    signed_prekey_public_key = x25519_public b.signed_prekey;
    signed_prekey_signature = sign_prekey crypto b.identity (x25519_public b.signed_prekey);
    one_time_prekey_id = p.id;
    one_time_prekey_public_key = x25519_public p.keys;
  })

  unfoldable pub prekey_bundle : Bob → Result PreKeyBundle
  unfolding sign_prekey
  prekey_bundle b = bundle_with b b.one_time_prekey

  -- A new key only where there is none.
  unfoldable pub replenish_one_time_prekey : ℕ → List ℕ → Bob → Bob
  replenish_one_time_prekey id secret b = elim b.one_time_prekey [
    | some p ↦ b
    | none ↦ record b { one_time_prekey = some (record { id = id; keys = secret }) }
  ]

  -- The session from the one-time prekey, which is used up by then.
  abbrev pub session_from : OneTimePreKey → List ℕ → Exec Bob (Unit {0})
  session_from p public = do
    signed ← gets (λ b. b.signed_prekey)
    key ← lift (
        derive_prekey_aead_key crypto (diffie_hellman signed public) (diffie_hellman p.keys public))
    session ← lift (new crypto key bob signed public)
    update (λ b. record b { session = some session })

  abbrev with_prekey : InitialMessage → Option OneTimePreKey → Exec Bob (List ℕ)
  with_prekey m none = raise CryptoError.prekey_unavailable
  with_prekey m (some p) =
      if p.id == m.one_time_prekey_id
      then (do
        update (λ b. record b { one_time_prekey = none })
        session_from p m.alice_initial_public_key
        decrypt_from_alice m.message)
      else raise CryptoError.prekey_unavailable

  -- `take()`, and the key put back where the id is another.
  unfoldable pub decrypt_initial_message : InitialMessage → Exec Bob (List ℕ)
  unfolding derive_prekey_aead_key new decrypt_from_alice
  decrypt_initial_message m = do prekey ← gets (λ b. b.one_time_prekey); with_prekey m prekey

  abbrev published :
      SimulatedDirectory → Result PreKeyBundle → Result (Unit {0}) × SimulatedDirectory
  published d (err e) = (err e, d)
  published d (ok bundle) = (ok tt, record { bob_bundle = some bundle })

  unfoldable pub publish_bob_bundle : Bob → Exec SimulatedDirectory (Unit {0})
  unfolding prekey_bundle
  publish_bob_bundle b d = published d (prekey_bundle b)

unfoldable pub take_bob_prekey_bundle : Exec SimulatedDirectory PreKeyBundle
take_bob_prekey_bundle d =
    (ok_or CryptoError.prekey_unavailable d.bob_bundle, record { bob_bundle = none })
