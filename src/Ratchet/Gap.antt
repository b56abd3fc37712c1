-- ===== src/Ratchet/Gap.antt =====
-- A message too far ahead of a session of src/lib.rs: `decrypt` keeps the keys of eight skipped
-- messages and stops there.
use ciphermesh.Prelude.{
  ℕ, zero, suc, ◌+◌, ◌-◌, ◌^◌, ◌<◌, ◌≤◌, List, ◌≡◌, refl, ap, arith, ◌∙◌, sym, true, false, length,
  nat_ord, leb, ltb, le_or_lt, inl, inr, none,
}
use ciphermesh.BTree.{lookup}
use ciphermesh.BTree.Sizes.{length-upsert_absent}
use ciphermesh.Crypto.{Crypto, CryptoError, err}
use ciphermesh.Crypto.Bytes.{same_bytes, same_bytes_self}
use ciphermesh.Ratchet.State.{RatchetSession, RatchetMessage}
use ciphermesh.Ratchet.Receive.{
  skip_one, skip_until, skip_to, message_key_for, decrypt, decrypt_current,
}
use ciphermesh.Ratchet.Chains.{RatchetLaws, key_at}
use ciphermesh.Ratchet.Delivery.{
  peer_of, outer, Receives, skipped_one, skip_one_lem, skipped_one-Receives,
}
use ciphermesh.Ratchet.Forgery.{fresh_above, absent_above}

module _ (crypto : Crypto) (laws : RatchetLaws crypto) (first : List ℕ) where
  -- The session is full before it reaches the number.
  pub record Full (s : RatchetSession) (number : ℕ) (t : RatchetSession) : Type 0 where
    pub receives : Receives crypto laws first t
    pub below : t.recv_count < number
    pub full : 8 ≤ length t.skipped_message_keys
    pub same_outer : outer t ≡ outer s

  full_stops :
      (s : RatchetSession)
      → 8 ≤ length s.skipped_message_keys
      → skip_one crypto s ≡ (err CryptoError.too_many_skipped_messages, s)
  unfolding skip_one
  full_stops s full =
      let stop : leb 8 (length s.skipped_message_keys) ≡ true = ground (arith, full) in rw stop refl

  skip_until-Full :
      (rounds number : ℕ) (s : RatchetSession)
      → Receives crypto laws first s
      → s.recv_count < number
      → number - s.recv_count ≤ rounds
      → 8 < (number - s.recv_count) + length s.skipped_message_keys
      → number + 1 < 2 ^ 64
      → (t : RatchetSession) × (skip_until crypto rounds number s
          ≡ (err CryptoError.too_many_skipped_messages, t))
        × Full s number t
  unfolding skip_until
  skip_until-Full zero number s r low enough far room = absurd (omega (arith, low, enough))
  skip_until-Full (suc rounds) number s r low enough far room =
      let go : ltb s.recv_count number ≡ true = ground (arith, low) in
      elim (le_or_lt 8 (length s.skipped_message_keys)) [
        | inl full ↦ (
          s,
          rw (skip_until, go, full_stops s full) refl,
          record { receives = r; below = low; full = full; same_outer = refl },
        )
        | inr space ↦
            let absent = absent_above crypto laws first s.recv_count s r.skipped_below in
            let grown : length (skipped_one crypto laws first s).skipped_message_keys
                ≡ suc (length s.skipped_message_keys) =
              length-upsert_absent s.recv_count (λ _. key_at crypto laws first s.recv_count)
                s.skipped_message_keys absent in
            let (t, run, stopped) =
              skip_until-Full rounds number (skipped_one crypto laws first s)
                (skipped_one-Receives crypto laws first s r) (omega (arith, far, space, low))
                (omega (arith, enough, low)) (omega (arith, far, low, grown)) room in
            (
              t,
              rw
                  (
                    skip_until,
                    go,
                    skip_one_lem crypto laws first s r.chain (omega (arith, low, room)) space,
                  )
                  run,
              record {
                receives = stopped.receives;
                below = stopped.below;
                full = stopped.full;
                same_outer = stopped.same_outer;
              },
            )
      ]

  full_until :
      (rounds number : ℕ) (s : RatchetSession)
      → 8 ≤ length s.skipped_message_keys
      → s.recv_count < number
      → number - s.recv_count ≤ rounds
      → skip_until crypto rounds number s ≡ (err CryptoError.too_many_skipped_messages, s)
  unfolding skip_until
  full_until zero number s full low enough = absurd (omega (arith, low, enough))
  full_until (suc rounds) number s full low enough =
      let go : ltb s.recv_count number ≡ true = ground (arith, low) in
      rw (skip_until, go, full_stops s full) refl

  refused :
      (s t : RatchetSession) (m : RatchetMessage)
      → Receives crypto laws first s
      → m.ratchet_public_key ≡ s.peer_ratchet_public_key
      → s.recv_count < m.number
      → skip_to crypto m.number s ≡ (err CryptoError.too_many_skipped_messages, t)
      → decrypt crypto m s ≡ (err CryptoError.too_many_skipped_messages, t)
  unfolding decrypt decrypt_current message_key_for
  refused s t m r key low stops =
      let current : same_bytes m.ratchet_public_key s.peer_ratchet_public_key ≡ true =
        rw key (same_bytes_self s.peer_ratchet_public_key) in
      let fresh = fresh_above crypto laws first m.number s r (omega (arith, low)) in
      let absent : lookup m.number s.skipped_message_keys ≡ none =
        absent_above crypto laws first m.number s
          (λ e k. omega (arith, r.skipped_below e k, low)) in
      let not_old : ltb m.number s.recv_count ≡ false = ground (arith, low) in
      rw (current, fresh, absent, not_old, stops) refl

  -- A message under the current key, so far ahead that more than eight keys had to be kept, is
  -- refused, and the session is full then: it refuses, unchanged, every message under this key
  -- with that number or a greater one.
  pub gap_refused :
      (s : RatchetSession) (m : RatchetMessage)
      → Receives crypto laws first s
      → m.ratchet_public_key ≡ s.peer_ratchet_public_key
      → s.recv_count < m.number
      → 8 < (m.number - s.recv_count) + length s.skipped_message_keys
      → m.number + 1 < 2 ^ 64
      → (t : RatchetSession) × (decrypt crypto m s ≡ (err CryptoError.too_many_skipped_messages, t))
        × ((n : RatchetMessage)
            → n.ratchet_public_key ≡ s.peer_ratchet_public_key
            → m.number ≤ n.number
            → decrypt crypto n t ≡ (err CryptoError.too_many_skipped_messages, t))
  unfolding skip_to
  gap_refused s m r key low far room =
      let (t, run, stopped) =
        skip_until-Full (m.number - s.recv_count) m.number s r low (omega arith) far room in
      (
        t,
        refused s t m r key low run,
        λ n key' more.
            let low' : t.recv_count < n.number = omega (arith, stopped.below, more) in
            refused t t n stopped.receives (key' ∙ sym (ap peer_of stopped.same_outer)) low'
              (full_until (n.number - t.recv_count) n.number t stopped.full low' (omega arith)),
      )
