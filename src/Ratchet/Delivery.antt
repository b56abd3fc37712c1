-- ===== src/Ratchet/Delivery.antt =====
-- `decrypt` of src/lib.rs on what a sender sealed, in whatever order it comes.
use ciphermesh.Prelude.{
  ℕ, zero, suc, ◌+◌, ◌-◌, ◌^◌, ◌<◌, ◌≤◌, List, ◌≡◌, refl, ap, arith, some, ◌∙◌, Member, ◌⊎◌, inl,
  inr, true, false, length, nat_ord, leb, ltb, le_or_lt,
}
use ciphermesh.BTree.{lookup, contains_key, insert}
use ciphermesh.BTree.Laws.{lookup-upsert_self, lookup-upsert_ne}
use ciphermesh.BTree.Sizes.{length-upsert_le}
use ciphermesh.BTree.Members.{Member-insert}
use ciphermesh.Crypto.{Crypto, ok}
use ciphermesh.Ratchet.State.{RatchetRole, RatchetSession, next_recv_message_key}
use ciphermesh.Ratchet.Receive.{skip_one, skip_until}
use ciphermesh.Ratchet.Chains.{RatchetLaws, chain_at, key_at, advance-chain_at}

pub lt_or_eq : (i n : ℕ) → i < suc n → (i < n) ⊎ (i ≡ n)
lt_or_eq i n h = omega arith

-- What receiving leaves alone under one ratchet key.
abbrev pub Outer : Type 0
Outer = RatchetRole × List ℕ × List ℕ × ℕ × List ℕ × List ℕ

abbrev pub outer : RatchetSession → Outer
outer s = (s.role, s.root_key, s.send_chain_key, s.send_count, s.dh_keys, s.peer_ratchet_public_key)

abbrev pub peer_of : Outer → List ℕ
peer_of o = o.5

module _ (crypto : Crypto) (laws : RatchetLaws crypto) (first : List ℕ) where
  -- The receiver stands at its count; each number below it was used, or its key is kept.
  pub record Receives (s : RatchetSession) : Type 0 where
    pub chain : s.recv_chain_key ≡ chain_at crypto laws first s.recv_count
    pub skipped_below : (e : ℕ × List ℕ) → Member e s.skipped_message_keys → e.0 < s.recv_count
    pub consumed_below :
        (e : ℕ × Unit {0}) → Member e s.consumed_message_numbers → e.0 < s.recv_count
    pub known :
        (i : ℕ)
        → i < s.recv_count
        → (contains_key i s.consumed_message_numbers ≡ true)
          ⊎ (lookup i s.skipped_message_keys ≡ some (key_at crypto laws first i))

  pub next_recv_lem :
      (s : RatchetSession)
      → s.recv_chain_key ≡ chain_at crypto laws first s.recv_count
      → s.recv_count + 1 < 2 ^ 64
      → next_recv_message_key crypto s ≡ (
        ok (key_at crypto laws first s.recv_count),
        record s {
          recv_chain_key = chain_at crypto laws first (suc s.recv_count);
          recv_count = suc s.recv_count;
        },
      )
  unfolding next_recv_message_key
  next_recv_lem s at room =
      rw (at, advance-chain_at crypto laws first s.recv_count)
        (ap
          (λ n. (
            ok (key_at crypto laws first s.recv_count),
            record s {
              recv_chain_key = chain_at crypto laws first (suc s.recv_count);
              recv_count = n;
            },
          ))
          (omega (arith, room)))

  -- The session after one message was skipped.
  abbrev pub skipped_one : RatchetSession → RatchetSession
  skipped_one s = record s {
    recv_chain_key = chain_at crypto laws first (suc s.recv_count);
    recv_count = suc s.recv_count;
    skipped_message_keys =
        insert s.recv_count (key_at crypto laws first s.recv_count) s.skipped_message_keys;
  }

  pub skip_one_lem :
      (s : RatchetSession)
      → s.recv_chain_key ≡ chain_at crypto laws first s.recv_count
      → s.recv_count + 1 < 2 ^ 64
      → length s.skipped_message_keys < 8
      → skip_one crypto s ≡ (ok tt, skipped_one s)
  unfolding skip_one
  skip_one_lem s at room few =
      let not_full : leb 8 (length s.skipped_message_keys) ≡ false = ground (arith, few) in
      rw (not_full, next_recv_lem s at room)
        (ap
          (λ n. (
            ok tt,
            record (skipped_one s) {
              skipped_message_keys =
                  insert n (key_at crypto laws first s.recv_count) s.skipped_message_keys;
            },
          ))
          (omega (arith, room)))

  pub skipped_one-Receives : (s : RatchetSession) → Receives s → Receives (skipped_one s)
  skipped_one-Receives s r = record {
    chain = refl;
    skipped_below = λ e m. elim (Member-insert s.recv_count _ e s.skipped_message_keys m) [
      | inl p ↦ rw (← p) (omega arith)
      | inr old ↦ omega (arith, r.skipped_below e old)
    ];
    consumed_below = λ e m. omega (arith, r.consumed_below e m);
    known = λ i below. elim (lt_or_eq i s.recv_count below) [
      | inr e ↦ inr (
          rw e (
            lookup-upsert_self s.recv_count (λ _. key_at crypto laws first s.recv_count)
              s.skipped_message_keys))
      | inl lt ↦ elim (r.known i lt) [
        | inl used ↦ inl used
        | inr kept ↦ inr (
            lookup-upsert_ne s.recv_count i _ s.skipped_message_keys
              (λ e. absurd (omega (arith, e, lt)))
            ∙ kept)
      ]
    ];
  }

  -- The session stands at `number`, and only messages were skipped.
  pub record Reached (s : RatchetSession) (number : ℕ) (t : RatchetSession) : Type 0 where
    pub receives : Receives t
    pub count : t.recv_count ≡ number
    pub same_consumed : t.consumed_message_numbers ≡ s.consumed_message_numbers
    pub same_outer : outer t ≡ outer s

  -- The rounds suffice, and the limit on skipped keys is not met.
  pub skip_until_lem :
      (rounds number : ℕ) (s : RatchetSession)
      → Receives s
      → s.recv_count ≤ number
      → number - s.recv_count ≤ rounds
      → (number - s.recv_count) + length s.skipped_message_keys ≤ 8
      → number + 1 < 2 ^ 64
      → (t : RatchetSession) × (skip_until crypto rounds number s ≡ (ok tt, t)) × Reached s number t
  unfolding skip_until
  skip_until_lem zero number s r low enough few room = (
    s,
    refl,
    record { receives = r; count = omega arith; same_consumed = refl; same_outer = refl },
  )
  skip_until_lem (suc rounds) number s r low enough few room = elim (le_or_lt number s.recv_count) [
    | inl done ↦
        let stop : ltb s.recv_count number ≡ false = ground (arith, done) in
        (
          s,
          rw (skip_until, stop) refl,
          record {
            receives = r;
            count = omega (arith, done, low);
            same_consumed = refl;
            same_outer = refl;
          },
        )
    | inr more ↦
        let go : ltb s.recv_count number ≡ true = ground (arith, more) in
        let grown : length (skipped_one s).skipped_message_keys
            ≤ suc (length s.skipped_message_keys) =
          length-upsert_le s.recv_count (λ _. key_at crypto laws first s.recv_count)
            s.skipped_message_keys in
        let (t, run, reached) =
          skip_until_lem rounds number (skipped_one s) (skipped_one-Receives s r)
            (omega (arith, more)) (omega (arith, enough, more)) (omega (arith, few, more, grown))
            room in
        (
          t,
          rw
              (
                skip_until,
                go,
                skip_one_lem s r.chain (omega (arith, more, room)) (omega (arith, few, more)),
              )
              run,
          record {
            receives = reached.receives;
            count = reached.count;
            same_consumed = reached.same_consumed;
            same_outer = reached.same_outer;
          },
        )
  ]
