-- ===== src/Ratchet/Forgery.antt =====
-- A message that does not authenticate uses up the key of its number (`decrypt` of src/lib.rs).
use ciphermesh.Prelude.{
  ℕ, ◌+◌, ◌-◌, ◌^◌, ◌<◌, ◌≤◌, List, ◌≡◌, refl, ap, arith, Member, none, true, false, length,
  nat_ord, ltb, Option-cases, inl, inr,
}
use ciphermesh.BTree.{lookup, contains_key}
use ciphermesh.BTree.Members.{Member-lookup}
use ciphermesh.Crypto.{Crypto, CryptoError, err}
use ciphermesh.Crypto.Bytes.{same_bytes, same_bytes_self}
use ciphermesh.Ratchet.State.{RatchetSession, RatchetMessage, nonce_for, ratchet_aad}
use ciphermesh.Ratchet.Receive.{message_key_for, decrypt, decrypt_current, open_message}
use ciphermesh.Ratchet.Chains.{RatchetLaws, key_at}
use ciphermesh.Ratchet.Delivery.{peer_of, Receives}
use ciphermesh.Ratchet.Opening.{next_key}

module _ (crypto : Crypto) (laws : RatchetLaws crypto) (first : List ℕ) where
  pub fresh_above :
      (number : ℕ) (s : RatchetSession)
      → Receives crypto laws first s
      → s.recv_count ≤ number
      → contains_key number s.consumed_message_numbers ≡ false
  fresh_above number s r low = elim (Option-cases (lookup number s.consumed_message_numbers)) [
    | inl e ↦ ground (arith, e)
    | inr (v, e) ↦ absurd (
        omega (
          arith,
          low,
          r.consumed_below (number, v) (Member-lookup number v s.consumed_message_numbers e),
        ))
  ]

  pub absent_above :
      (number : ℕ) (s : RatchetSession)
      → ((e : ℕ × List ℕ) → Member e s.skipped_message_keys → e.0 < number)
      → lookup number s.skipped_message_keys ≡ none
  absent_above number s below = elim (Option-cases (lookup number s.skipped_message_keys)) [
    | inl e ↦ e
    | inr (v, e) ↦
        absurd (omega (arith, below (number, v) (Member-lookup number v s.skipped_message_keys e)))
  ]

  -- A forged message under the current key, with a number not yet passed, that fails to
  -- authenticate is an error; and the genuine message of that number is refused as a replay then.
  pub forgery_burns :
      (s : RatchetSession) (forged genuine : RatchetMessage)
      → Receives crypto laws first s
      → forged.ratchet_public_key ≡ s.peer_ratchet_public_key
      → s.recv_count ≤ forged.number
      → (forged.number - s.recv_count) + length s.skipped_message_keys ≤ 8
      → forged.number + 1 < 2 ^ 64
      → crypto.aead_decrypt
          (key_at crypto laws first forged.number)
          (nonce_for forged.number)
          (ratchet_aad forged.number forged.ratchet_public_key)
          forged.ciphertext
        ≡ none
      → genuine.number ≡ forged.number
      → genuine.ratchet_public_key ≡ s.peer_ratchet_public_key
      → (t : RatchetSession) × (decrypt crypto forged s ≡ (err CryptoError.decrypt, t))
        × (decrypt crypto genuine t ≡ (err CryptoError.replay, t))
  unfolding decrypt decrypt_current open_message message_key_for
  forgery_burns s forged genuine r key low few room fails number key' =
      let (t, here, count, below) = next_key crypto laws first forged.number s r low few room in
      let current : same_bytes forged.ratchet_public_key s.peer_ratchet_public_key ≡ true =
        rw key (same_bytes_self s.peer_ratchet_public_key) in
      let current' : same_bytes genuine.ratchet_public_key t.peer_ratchet_public_key ≡ true =
        rw (key', ap peer_of here.same_outer) (same_bytes_self s.peer_ratchet_public_key) in
      let fresh = fresh_above forged.number s r low in
      let unused : contains_key genuine.number t.consumed_message_numbers ≡ false =
        rw (number, here.same_consumed) fresh in
      let absent : lookup genuine.number t.skipped_message_keys ≡ none =
        rw number (absent_above forged.number t below) in
      let old : ltb genuine.number t.recv_count ≡ true = ground (arith, number, count) in
      (t, rw (current, fresh, here.run, fails) refl, rw (current', unused, absent, old) refl)
