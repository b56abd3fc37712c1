-- ===== src/Handshake/Exchanged.antt =====
-- A session from two signed key exchanges of src/lib.rs.
use ciphermesh.Prelude.{ℕ, List, some, ◌≡◌, refl, ap, sym, subst}
use ciphermesh.Crypto.{Crypto, ok}
use ciphermesh.Ratchet.Stateful.{step_of_success, equal_successes}
use ciphermesh.Ratchet.State.{RatchetSession, alice, bob, new}
use ciphermesh.Ratchet.Chains.{RatchetLaws}
use ciphermesh.Ratchet.Agreement.{Linked, begun, begun_of_new, new_of_chains, begun-Linked}
use ciphermesh.Ratchet.Rotation.{Rotation}
use ciphermesh.Devices.Authorization.{SignatureLaws}
use ciphermesh.Handshake.Keys.{derive_aead_key, sign_key_exchange, verify_signed_key_exchange}
use ciphermesh.Handshake.Parties.{
  Alice, Bob, alice_exchange, bob_exchange, alice_derive_session_key, bob_derive_session_key,
}

module _ (crypto : Crypto) (signatures : SignatureLaws crypto) where
  open crypto use {x25519_public, diffie_hellman}

  -- An exchange that was signed verifies.
  verify-sign :
      (identity public : List ℕ)
      → verify_signed_key_exchange crypto (sign_key_exchange crypto identity public) ≡ ok tt
  unfolding verify_signed_key_exchange sign_key_exchange
  verify-sign identity public =
      rw
        (
          signatures.key_read identity,
          signatures.signature_read identity _,
          signatures.verifies identity _,
        )
        refl

  module _ (laws : RatchetLaws crypto) (shared : Rotation crypto laws) where
    -- Where Alice derives a session from the exchange that Bob signed, Bob derives one from hers,
    -- and the two belong together.
    pub derived-Linked :
        (a a' : Alice) (b : Bob)
        → alice_derive_session_key crypto (bob_exchange crypto b) a ≡ (ok tt, a')
        → (b' : Bob) × (s : RatchetSession) × (t : RatchetSession) × (bob_derive_session_key crypto
              (alice_exchange crypto a)
              b
            ≡ (ok tt, b'))
          × (a'.session ≡ some s)
          × (b'.session ≡ some t)
          × Linked crypto laws s t
    unfolding alice_derive_session_key bob_derive_session_key derive_aead_key alice_exchange
        bob_exchange sign_key_exchange
    derived-Linked a a' b h =
        let public = x25519_public b.keys in
        let (_, checked, h1) =
          step_of_success (verify_signed_key_exchange crypto (bob_exchange crypto b)) _ a a' tt h in
        let (key, derived, h2) =
          step_of_success (derive_aead_key crypto a.keys public) _ a a' tt h1 in
        let (s, made, h3) = step_of_success (new crypto key alice a.keys public) _ a a' tt h2 in
        let (forth, back, chains, is_s) = begun_of_new crypto laws alice key a.keys public s made in
        let t = begun crypto laws bob key forth back b.keys (x25519_public a.keys) in
        let derived' : derive_aead_key crypto b.keys (x25519_public a.keys) ≡ ok key =
          rw (shared b.keys a.keys) derived in
        let made' : new crypto key bob b.keys (x25519_public a.keys) ≡ ok t =
          new_of_chains crypto laws bob key forth back b.keys (x25519_public a.keys) chains in
        (
          record b { session = some t },
          s,
          t,
          rw (verify-sign a.identity (x25519_public a.keys), derived', made') refl,
          sym (ap (λ x. x.1.session) (equal_successes tt tt (record a { session = some s }) a' h3)),
          refl,
          subst (λ x. Linked crypto laws x t) is_s
              (begun-Linked crypto laws alice bob key forth back a.keys b.keys tt),
        )
