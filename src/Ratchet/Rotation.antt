-- ===== src/Ratchet/Rotation.antt =====
-- The step of the Diffie-Hellman ratchet of src/lib.rs, on both sides.
use ciphermesh.Prelude.{ℕ, List, [], ◌≡◌, refl, ap, ◌∙◌, sym, subst, nat_ord}
use ciphermesh.Crypto.{Crypto, Result, ok, err}
use ciphermesh.Ratchet.State.{
  RatchetSession, apply_dh_ratchet, rotate_sending_ratchet, receive_dh_ratchet,
  derive_dh_ratchet_state,
}
use ciphermesh.Ratchet.Chains.{RatchetLaws}
use ciphermesh.Ratchet.Agreement.{Linked, begun, begun-Linked, move_both}

module _ (crypto : Crypto) (laws : RatchetLaws crypto) where
  open crypto use {x25519_public}

  -- A new root key for both, from one shared secret.
  abbrev pub Rotation : Type 0
  Rotation =
      (s t : List ℕ)
      → crypto.diffie_hellman s (x25519_public t) ≡ crypto.diffie_hellman t (x25519_public s)

  -- The sender has the new key pair, and both begin to count.
  abbrev pub Restarted : List ℕ → RatchetSession → RatchetSession → Type 0
  Restarted secret a b =
      (a.dh_keys ≡ secret)
      × (a.send_count ≡ 0)
      × (b.recv_count ≡ 0)
      × (b.skipped_message_keys ≡ [])
      × (b.consumed_message_numbers ≡ [])

  -- Where the secret that two key pairs share is the same from both sides: after one side rotated
  -- its sending ratchet, the other follows the new public key to a session that belongs to it.
  pub rotate-Linked :
      Rotation
      → (secret : List ℕ) (a b a' : RatchetSession) → Linked crypto laws a b
      → rotate_sending_ratchet crypto secret a ≡ (ok tt, a')
      → (b' : RatchetSession) × (receive_dh_ratchet crypto (x25519_public secret) b ≡ (ok tt, b'))
        × Linked crypto laws a' b'
        × Restarted secret a' b'
  unfolding rotate_sending_ratchet receive_dh_ratchet apply_dh_ratchet
  rotate-Linked shared secret a b a' l h =
      from_keys
        (derive_dh_ratchet_state crypto a.root_key
          (crypto.diffie_hellman secret a.peer_ratchet_public_key))
        refl
    where
      secret_of_b :
          crypto.diffie_hellman b.dh_keys (x25519_public secret)
          ≡ crypto.diffie_hellman secret a.peer_ratchet_public_key
      secret_of_b = shared b.dh_keys secret ∙ ap (crypto.diffie_hellman secret) (sym l.follows_b)

      from_keys :
          (r : Result (List ℕ × List ℕ × List ℕ))
          → derive_dh_ratchet_state crypto a.root_key
              (crypto.diffie_hellman secret a.peer_ratchet_public_key)
            ≡ r
          → (b' : RatchetSession) × (receive_dh_ratchet crypto (x25519_public secret) b
              ≡ (ok tt, b'))
            × Linked crypto laws a' b'
            × Restarted secret a' b'
      from_keys (err e) d =
          let failed : rotate_sending_ratchet crypto secret a
              ≡ (err e, record a { dh_keys = secret }) =
            rw d refl in
          let both : ◌≡◌ {A = Result (Unit {0})} (err e) (ok tt) =
            sym (ap (λ x. x.0) failed) ∙ ap (λ x. x.0) h in
          absurd cc
      from_keys (ok (root, forth, back)) d =
          let a1 = begun crypto laws a.role root forth back secret a.peer_ratchet_public_key in
          let b1 = begun crypto laws b.role root forth back b.dh_keys (x25519_public secret) in
          let run : rotate_sending_ratchet crypto secret a ≡ (ok tt, a1) = rw d refl in
          let run' : receive_dh_ratchet crypto (x25519_public secret) b ≡ (ok tt, b1) =
            rw (← l.roots, secret_of_b, d) refl in
          (
            b1,
            run',
            move_both crypto laws (ap (λ x. x.1) (sym run ∙ h)) refl (
                subst
                  (λ p. Linked crypto laws (begun crypto laws a.role root forth back secret p) b1)
                  (sym l.follows_b)
                  (begun-Linked crypto laws a.role b.role root forth back secret b.dh_keys
                    l.opposite)),
            subst (λ x. Restarted secret x b1) (ap (λ x. x.1) (sym run ∙ h))
                (refl, refl, refl, refl, refl),
          )
