-- ===== src/Ratchet/Replay.antt =====
-- No message is opened twice under one ratchet key (`decrypt` of src/lib.rs).
use ciphermesh.Prelude.{
  ℕ, List, [], ◌∷◌, true, ◌≡◌, refl, ◌∙◌, arith, Bool-cases, inl, inr, nat_ord, Member, same_self,
  sym, subst,
}
use ciphermesh.BTree.{insert, contains_key}
use ciphermesh.BTree.Laws.{contains_key-insert}
use ciphermesh.Crypto.{Crypto, CryptoError, Result, ok, err, ok_or}
use ciphermesh.Crypto.Bytes.{same_bytes, same_bytes_self, eq_of_same_bytes}
use ciphermesh.Ratchet.Stateful.{Exec, continue}
use ciphermesh.Ratchet.State.{
  RatchetSession, RatchetMessage, nonce_for, ratchet_aad, receive_dh_ratchet, apply_dh_ratchet,
  derive_dh_ratchet_state,
}
use ciphermesh.Ratchet.Receive.{message_key_for, open_message, decrypt_current, decrypt, from_utf8}
use ciphermesh.Ratchet.Keeps.{continue-Keeps, message_key_for-Keeps}

-- The key that the session follows, with the number used up.
abbrev pub UsedUp : ℕ → List ℕ → RatchetSession → Type 0
UsedUp number public s =
    (s.peer_ratchet_public_key ≡ public) × (contains_key number s.consumed_message_numbers ≡ true)

-- What holds of the session that a success leaves.
abbrev OnSuccess : {A : Type 0} → (RatchetSession → Type 0) → Result A → RatchetSession → Type 0
OnSuccess P (ok a) s = P s
OnSuccess P (err e) s = Unit {0}

always-OnSuccess :
    {A : Type 0} (P : RatchetSession → Type 0) (r : Result A) (s : RatchetSession)
    → P s
    → OnSuccess P r s
always-OnSuccess P (ok a) s h = h
always-OnSuccess P (err e) s h = tt

continue-OnSuccess :
    {A B : Type 0} (P : RatchetSession → Type 0) (r : Result A) (f : A → Exec RatchetSession B)
    (s : RatchetSession)
    → ((a : A) → OnSuccess P (f a s).0 (f a s).1)
    → OnSuccess P (continue r f s).0 (continue r f s).1
continue-OnSuccess P (ok a) f s k = k a
continue-OnSuccess P (err e) f s k = tt

module _ (crypto : Crypto) where
  abbrev opening : RatchetMessage → List ℕ → Result (List ℕ)
  opening m key = ok_or CryptoError.decrypt (
      crypto.aead_decrypt key (nonce_for m.number) (ratchet_aad m.number m.ratchet_public_key)
        m.ciphertext)

  open_message-UsedUp :
      (number : ℕ) (public : List ℕ) (m : RatchetMessage) (key : List ℕ) (s : RatchetSession)
      → UsedUp number public s
      → UsedUp number public (open_message crypto m key s).1
  unfolding open_message
  open_message-UsedUp number public m key s (p, used) =
      continue-Keeps (UsedUp number public) (opening m key) _ s (p, used)
        (λ text. (
          p,
          contains_key-insert m.number number tt s.consumed_message_numbers ∙ ground (arith, used),
        ))

  decrypt_current-UsedUp :
      (number : ℕ) (public : List ℕ) (m : RatchetMessage) (s : RatchetSession)
      → UsedUp number public s
      → UsedUp number public (decrypt_current crypto m s).1
  unfolding decrypt_current
  decrypt_current-UsedUp number public m s h =
      elim (Bool-cases (contains_key m.number s.consumed_message_numbers)) [
        | inl used ↦ rw used h
        | inr fresh ↦
            let t = message_key_for crypto m.number s in
            let kept =
              message_key_for-Keeps crypto (UsedUp number public) (λ s c n k h. h) m.number s h in
            rw fresh (
              continue-Keeps (UsedUp number public) t.0 _ t.1 kept
                (λ key. open_message-UsedUp number public m key t.1 kept))
      ]

  -- Under the session's own key nothing else is followed.
  decrypt-UsedUp :
      (number : ℕ) (public : List ℕ) (m : RatchetMessage) (s : RatchetSession)
      → m.ratchet_public_key ≡ public
      → UsedUp number public s
      → UsedUp number public (decrypt crypto m s).1
  unfolding decrypt
  decrypt-UsedUp number public m s e h =
      let current : same_bytes m.ratchet_public_key s.peer_ratchet_public_key ≡ true =
        rw (e, h.0) (same_bytes_self public) in
      rw current (decrypt_current-UsedUp number public m s h)

  refused :
      (m : RatchetMessage) (s : RatchetSession)
      → UsedUp m.number m.ratchet_public_key s
      → decrypt crypto m s ≡ (err CryptoError.replay, s)
  unfolding decrypt decrypt_current
  refused m s (p, used) =
      let current : same_bytes m.ratchet_public_key s.peer_ratchet_public_key ≡ true =
        rw p (same_bytes_self m.ratchet_public_key) in
      rw (current, used) refl

  -- What follows a peer's key leaves the session at that key.
  receive-peer :
      (public : List ℕ) (s : RatchetSession)
      → (receive_dh_ratchet crypto public s).1.peer_ratchet_public_key ≡ public
  unfolding receive_dh_ratchet apply_dh_ratchet
  receive-peer public s =
      continue-Keeps (λ t. t.peer_ratchet_public_key ≡ public)
        (derive_dh_ratchet_state crypto s.root_key (crypto.diffie_hellman s.dh_keys public)) _
        (record s { peer_ratchet_public_key = public }) refl (λ keys. refl)

  open_message-OnSuccess :
      (m : RatchetMessage) (key : List ℕ) (s : RatchetSession)
      → s.peer_ratchet_public_key ≡ m.ratchet_public_key
      → OnSuccess
          (UsedUp m.number m.ratchet_public_key)
          (open_message crypto m key s).0
          (open_message crypto m key s).1
  unfolding open_message
  open_message-OnSuccess m key s p =
      continue-OnSuccess (UsedUp m.number m.ratchet_public_key) (opening m key) _ s (λ text.
        always-OnSuccess (UsedUp m.number m.ratchet_public_key) (from_utf8 text)
          (record s { consumed_message_numbers = insert m.number tt s.consumed_message_numbers })
          (
            p,
            contains_key-insert m.number m.number tt s.consumed_message_numbers
                ∙ ground (arith, same_self m.number),
          ))

  current-UsedUp :
      (m : RatchetMessage) (s : RatchetSession)
      → s.peer_ratchet_public_key ≡ m.ratchet_public_key
      → OnSuccess
          (UsedUp m.number m.ratchet_public_key)
          (decrypt_current crypto m s).0
          (decrypt_current crypto m s).1
  unfolding decrypt_current
  current-UsedUp m s p = elim (Bool-cases (contains_key m.number s.consumed_message_numbers)) [
    | inl used ↦ rw used tt
    | inr fresh ↦
        let t = message_key_for crypto m.number s in
        let kept =
          message_key_for-Keeps crypto (λ t. t.peer_ratchet_public_key ≡ m.ratchet_public_key)
            (λ s c n k h. h) m.number s p in
        rw fresh (
          continue-OnSuccess (UsedUp m.number m.ratchet_public_key) t.0 _ t.1
            (λ key. open_message-OnSuccess m key t.1 kept))
  ]

  success-UsedUp :
      (m : RatchetMessage) (s : RatchetSession)
      → OnSuccess
          (UsedUp m.number m.ratchet_public_key)
          (decrypt crypto m s).0
          (decrypt crypto m s).1
  unfolding decrypt
  success-UsedUp m s =
      elim (Bool-cases (same_bytes m.ratchet_public_key s.peer_ratchet_public_key)) [
        | inl current ↦
            rw current (current-UsedUp m s (sym (eq_of_same_bytes m.ratchet_public_key _ current)))
        | inr other ↦
            let t = receive_dh_ratchet crypto m.ratchet_public_key s in
            rw other (
              continue-OnSuccess (UsedUp m.number m.ratchet_public_key) t.0 _ t.1
                (λ _. current-UsedUp m t.1 (receive-peer m.ratchet_public_key s)))
      ]

  -- The session after it was given the messages, whatever came of each.
  abbrev pub after : List RatchetMessage → RatchetSession → RatchetSession
  after [] s = s
  after (m ∷ ms) s = after ms (decrypt crypto m s).1

  after-UsedUp :
      (number : ℕ) (public : List ℕ) (ms : List RatchetMessage) (s : RatchetSession)
      → ((m : RatchetMessage) → Member m ms → m.ratchet_public_key ≡ public)
      → UsedUp number public s
      → UsedUp number public (after ms s)
  after-UsedUp number public [] s all h = h
  after-UsedUp number public (m ∷ ms) s all h =
      after-UsedUp number public ms (decrypt crypto m s).1 (λ n k. all n (inr k))
        (decrypt-UsedUp number public m s (all m (inl refl)) h)

  -- Once a message was opened, a message with its number and its ratchet key is refused as a
  -- replay, and changes nothing, whatever other messages under that key came in between.
  pub replay_refused :
      (m copy : RatchetMessage) (text : List ℕ) (s t : RatchetSession) (ms : List RatchetMessage)
      → decrypt crypto m s ≡ (ok text, t)
      → copy.number ≡ m.number
      → copy.ratchet_public_key ≡ m.ratchet_public_key
      → ((n : RatchetMessage) → Member n ms → n.ratchet_public_key ≡ m.ratchet_public_key)
      → decrypt crypto copy (after ms t) ≡ (err CryptoError.replay, after ms t)
  replay_refused m copy text s t ms opened number public all =
      let used : UsedUp m.number m.ratchet_public_key t =
        subst
          (λ (r : Result (List ℕ) × RatchetSession).
            OnSuccess (UsedUp m.number m.ratchet_public_key) r.0 r.1)
          opened (success-UsedUp m s) in
      refused copy (after ms t)
        (rw (number, public) (after-UsedUp m.number m.ratchet_public_key ms t all used))
