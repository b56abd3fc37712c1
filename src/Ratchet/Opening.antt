-- ===== src/Ratchet/Opening.antt =====
-- The key that `decrypt` of src/lib.rs finds for a message.
use ciphermesh.Prelude.{
  ℕ, suc, ◌+◌, ◌-◌, ◌^◌, ◌<◌, ◌≤◌, List, ◌≡◌, ◌≢◌, refl, ap, arith, some, none, ◌∙◌, sym, Member,
  ◌⊎◌, inl, inr, true, false, length, nat_ord, ltb, le_or_lt, key_cases, Option-cases,
}
use ciphermesh.BTree.{lookup, contains_key, insert, remove}
use ciphermesh.BTree.Laws.{lookup-upsert_self, lookup-upsert_ne}
use ciphermesh.BTree.Members.{Member-insert, Member-lookup}
use ciphermesh.BTree.Sizes.{lookup-remove, Member-remove}
use ciphermesh.Crypto.{Crypto, ok}
use ciphermesh.Ratchet.State.{RatchetSession}
use ciphermesh.Ratchet.Receive.{message_key_for, skip_to}
use ciphermesh.Ratchet.Chains.{RatchetLaws, chain_at, key_at}
use ciphermesh.Ratchet.Delivery.{outer, Receives, lt_or_eq, skip_until_lem, next_recv_lem}

abbrev pub use_up : ℕ → RatchetSession → RatchetSession
use_up number s = record s {
  consumed_message_numbers = insert number tt s.consumed_message_numbers;
}

module _ (crypto : Crypto) (laws : RatchetLaws crypto) (first : List ℕ) where
  abbrev key_of : ℕ → List ℕ
  key_of = key_at crypto laws first

  -- Once its number is used up, a session whose other numbers are known receives.
  use_up-Receives :
      (number : ℕ) (s : RatchetSession)
      → s.recv_chain_key ≡ chain_at crypto laws first s.recv_count
      → ((e : ℕ × List ℕ) → Member e s.skipped_message_keys → e.0 < s.recv_count)
      → ((e : ℕ × Unit {0}) → Member e s.consumed_message_numbers → e.0 < s.recv_count)
      → number < s.recv_count
      → ((i : ℕ)
          → i < s.recv_count
          → number ≢ i
          → (contains_key i s.consumed_message_numbers ≡ true)
            ⊎ (lookup i s.skipped_message_keys ≡ some (key_of i)))
      → Receives crypto laws first (use_up number s)
  use_up-Receives number s at skipped consumed below known = record {
    chain = at;
    skipped_below = skipped;
    consumed_below = λ e m. elim (Member-insert number tt e s.consumed_message_numbers m) [
      | inl p ↦ rw (← p) below
      | inr old ↦ consumed e old
    ];
    known = λ i lt. elim (key_cases number i) [
      | inl e ↦ inl (rw e (rw (lookup-upsert_self i (λ _. tt) s.consumed_message_numbers) refl))
      | inr ne ↦ elim (known i lt ne) [
        | inl used ↦
            inl (rw (lookup-upsert_ne number i (λ _. tt) s.consumed_message_numbers ne) used)
        | inr kept ↦ inr kept
      ]
    ];
  }

  -- The key is found; what else is known stays known.
  pub record Found (s : RatchetSession) (number : ℕ) (t : RatchetSession) : Type 0 where
    pub run : message_key_for crypto number s ≡ (ok (key_of number), t)
    pub receives : Receives crypto laws first (use_up number t)
    pub same_consumed : t.consumed_message_numbers ≡ s.consumed_message_numbers
    pub same_outer : outer t ≡ outer s

  old_key :
      (number : ℕ) (s : RatchetSession)
      → Receives crypto laws first s
      → number < s.recv_count
      → contains_key number s.consumed_message_numbers ≡ false
      → (t : RatchetSession) × Found s number t
  unfolding message_key_for
  old_key number s r below fresh =
      let kept : lookup number s.skipped_message_keys ≡ some (key_of number) =
        elim (r.known number below) [ inl used ↦ absurd cc | inr kept ↦ kept ] in
      let t = record s { skipped_message_keys = remove number s.skipped_message_keys } in
      (
        t,
        record {
          run = rw kept refl;
          receives =
              use_up-Receives number t r.chain
                (λ e m. r.skipped_below e (Member-remove number e s.skipped_message_keys m))
                r.consumed_below below
                (λ i lt ne. elim (r.known i lt) [
                  | inl used ↦ inl used
                  | inr there ↦ inr (lookup-remove number i _ s.skipped_message_keys ne there)
                ]);
          same_consumed = refl;
          same_outer = refl;
        },
      )

  pub next_key :
      (number : ℕ) (s : RatchetSession)
      → Receives crypto laws first s
      → s.recv_count ≤ number
      → (number - s.recv_count) + length s.skipped_message_keys ≤ 8
      → number + 1 < 2 ^ 64
      → (t : RatchetSession) × Found s number t
        × (t.recv_count ≡ suc number)
        × ((e : ℕ × List ℕ) → Member e t.skipped_message_keys → e.0 < number)
  unfolding message_key_for skip_to
  next_key number s r low few room =
      let (t, run, reached) =
        skip_until_lem crypto laws first (number - s.recv_count) number s r low (omega arith) few
          room in
      let absent : lookup number s.skipped_message_keys ≡ none =
        elim (Option-cases (lookup number s.skipped_message_keys)) [
          | inl e ↦ e
          | inr (v, e) ↦ absurd (
              omega (
                arith,
                low,
                r.skipped_below (number, v) (Member-lookup number v s.skipped_message_keys e),
              ))
        ] in
      let not_old : ltb number s.recv_count ≡ false = ground (arith, low) in
      let u = record t {
        recv_chain_key = chain_at crypto laws first (suc t.recv_count);
        recv_count = suc t.recv_count;
      } in
      let here = reached.receives in
      (
        u,
        record {
          run =
              rw
                (
                  absent,
                  not_old,
                  run,
                  next_recv_lem crypto laws first t here.chain (omega (arith, reached.count, room)),
                )
                (ap (λ n. (ok (key_of n), u)) reached.count);
          receives =
              use_up-Receives number u refl (λ e m. omega (arith, here.skipped_below e m))
                (λ e m. omega (arith, here.consumed_below e m)) (omega (arith, reached.count))
                (λ i lt ne. elim (lt_or_eq i t.recv_count lt) [
                  | inl before ↦ here.known i before
                  | inr e ↦ absurd (ne (sym (e ∙ reached.count)))
                ]);
          same_consumed = reached.same_consumed;
          same_outer = reached.same_outer;
        },
        ap suc reached.count,
        λ e m. omega (arith, here.skipped_below e m, reached.count),
      )

  pub found :
      (number : ℕ) (s : RatchetSession)
      → Receives crypto laws first s
      → contains_key number s.consumed_message_numbers ≡ false
      → (number - s.recv_count) + length s.skipped_message_keys ≤ 8
      → number + 1 < 2 ^ 64
      → (t : RatchetSession) × Found s number t
  found number s r fresh few room = elim (le_or_lt s.recv_count number) [
    | inl low ↦ (let (t, here, _, _) = next_key number s r low few room in (t, here))
    | inr below ↦ old_key number s r below fresh
  ]
