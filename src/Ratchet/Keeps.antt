-- ===== src/Ratchet/Keeps.antt =====
-- What the steps that find a message key in src/lib.rs keep of a session.
use ciphermesh.Prelude.{
  ℕ, zero, suc, ◌-◌, List, length, leb, ltb, Bool-cases, inl, inr, Option-cases, nat_ord,
}
use ciphermesh.BTree.{BTreeMap, lookup}
use ciphermesh.Crypto.{Crypto, Result, ok, err}
use ciphermesh.Ratchet.Stateful.{Exec, continue}
use ciphermesh.Ratchet.State.{
  RatchetSession, max_skipped_message_keys, advance_chain, next_recv_message_key,
}
use ciphermesh.Ratchet.Receive.{skip_one, skip_until, skip_to, message_key_for}

-- What a step keeps, whatever comes of it, the steps after a success keep.
pub continue-Keeps :
    {S A B : Type 0} (I : S → Type 0) (r : Result A) (f : A → Exec S B) (s : S)
    → I s
    → ((a : A) → I (f a s).1)
    → I (continue r f s).1
continue-Keeps I (ok a) f s h k = k a
continue-Keeps I (err e) f s h k = h

-- A property that does not look at the receiving chain or the skipped keys.
abbrev Unchained : (RatchetSession → Type 0) → Type 0
Unchained I =
    (s : RatchetSession) (chain : List ℕ) (count : ℕ) (skipped : BTreeMap ℕ (List ℕ))
    → I s
    → I (record s { recv_chain_key = chain; recv_count = count; skipped_message_keys = skipped })

module _ (crypto : Crypto) (I : RatchetSession → Type 0) (stable : Unchained I) where
  next_recv-Keeps : (s : RatchetSession) → I s → I (next_recv_message_key crypto s).1
  unfolding next_recv_message_key
  next_recv-Keeps s h =
      continue-Keeps I (advance_chain crypto s.recv_chain_key) _ s h
        (λ (chain, key). stable s chain _ s.skipped_message_keys h)

  skip_one-Keeps : (s : RatchetSession) → I s → I (skip_one crypto s).1
  unfolding skip_one
  skip_one-Keeps s h =
      elim (Bool-cases (leb max_skipped_message_keys (length s.skipped_message_keys))) [
        | inl full ↦ rw full h
        | inr room ↦
            let t = next_recv_message_key crypto s in
            let kept = next_recv-Keeps s h in
            rw room (
              continue-Keeps I t.0 _ t.1 kept
                (λ key. stable t.1 t.1.recv_chain_key t.1.recv_count _ kept))
      ]

  skip_until-Keeps :
      (rounds number : ℕ) (s : RatchetSession) → I s → I (skip_until crypto rounds number s).1
  unfolding skip_until
  skip_until-Keeps zero number s h = h
  skip_until-Keeps (suc rounds) number s h = elim (Bool-cases (ltb s.recv_count number)) [
    | inr done ↦ rw (skip_until, done) h
    | inl more ↦
        let t = skip_one crypto s in
        let kept = skip_one-Keeps s h in
        rw (skip_until, more)
          (continue-Keeps I t.0 _ t.1 kept (λ _. skip_until-Keeps rounds number t.1 kept))
  ]

  pub message_key_for-Keeps :
      (number : ℕ) (s : RatchetSession) → I s → I (message_key_for crypto number s).1
  unfolding message_key_for skip_to
  message_key_for-Keeps number s h = elim (Option-cases (lookup number s.skipped_message_keys)) [
    | inr (key, e) ↦ rw e (stable s s.recv_chain_key s.recv_count _ h)
    | inl e ↦ elim (Bool-cases (ltb number s.recv_count)) [
      | inl old ↦ rw (e, old) h
      | inr new ↦
          let t = skip_until crypto (number - s.recv_count) number s in
          let kept = skip_until-Keeps (number - s.recv_count) number s h in
          rw (e, new) (continue-Keeps I t.0 _ t.1 kept (λ _. next_recv-Keeps t.1 kept))
    ]
  ]
