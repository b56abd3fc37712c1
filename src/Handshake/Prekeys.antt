-- ===== src/Handshake/Prekeys.antt =====
-- A one-time prekey of src/lib.rs: what it opens, and that it is used once.
use ciphermesh.Prelude.{ℕ, List, none, some, ◌≡◌, refl, arith, true, false, ◌==◌, nat_ord}
use ciphermesh.Crypto.{Crypto, CryptoError, err}
use ciphermesh.Ratchet.Keeps.{continue-Keeps}
use ciphermesh.Ratchet.State.{bob, new}
use ciphermesh.Handshake.Keys.{InitialMessage, OneTimePreKey, derive_prekey_aead_key}
use ciphermesh.Handshake.Parties.{session_from, Bob, decrypt_initial_message, decrypt_from_alice}

module _ (crypto : Crypto) where
  open crypto use {x25519_public, diffie_hellman}

  abbrev PrekeyGone : Bob → Type 0
  PrekeyGone b = b.one_time_prekey ≡ none

  session_from-PrekeyGone :
      (p : OneTimePreKey) (public : List ℕ) (b : Bob)
      → PrekeyGone b
      → PrekeyGone (session_from crypto p public b).1
  session_from-PrekeyGone p public b gone =
      continue-Keeps PrekeyGone
        (derive_prekey_aead_key crypto (diffie_hellman b.signed_prekey public)
          (diffie_hellman p.keys public))
        _ b gone
        (λ key.
          continue-Keeps PrekeyGone (new crypto key bob b.signed_prekey public) _ b gone
            (λ session. gone))

  -- Whatever comes of the first message for a one-time prekey, the prekey is gone then, and every
  -- later first message is refused.
  pub prekey_used_once :
      (m later : InitialMessage) (p : OneTimePreKey) (b : Bob)
      → b.one_time_prekey ≡ some p
      → p.id ≡ m.one_time_prekey_id
      → decrypt_initial_message crypto later (decrypt_initial_message crypto m b).1
        ≡ (err CryptoError.prekey_unavailable, (decrypt_initial_message crypto m b).1)
  unfolding decrypt_initial_message decrypt_from_alice
  prekey_used_once m later p b there named =
      let matches : (p.id == m.one_time_prekey_id) ≡ true = ground (arith, named) in
      let taken = record b { one_time_prekey = none } in
      let t = session_from crypto p m.alice_initial_public_key taken in
      let kept = session_from-PrekeyGone p m.alice_initial_public_key taken refl in
      let gone : (decrypt_initial_message crypto m b).1.one_time_prekey ≡ none =
        rw (there, matches) (continue-Keeps PrekeyGone t.0 _ t.1 kept (λ _. kept)) in
      rw gone refl

  -- A first message for another prekey is refused, and changes nothing.
  pub other_prekey_refused :
      (m : InitialMessage) (p : OneTimePreKey) (b : Bob)
      → b.one_time_prekey ≡ some p
      → ¬ (p.id ≡ m.one_time_prekey_id)
      → decrypt_initial_message crypto m b ≡ (err CryptoError.prekey_unavailable, b)
  unfolding decrypt_initial_message
  other_prekey_refused m p b there other =
      let differs : (p.id == m.one_time_prekey_id) ≡ false = ground (arith, other) in
      rw (there, differs) refl
