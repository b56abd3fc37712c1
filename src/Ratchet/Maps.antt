-- ===== src/Ratchet/Maps.antt =====
-- What the methods of a session in src/lib.rs keep of its skipped keys and its consumed numbers.
use ciphermesh.Prelude.{
  ℕ, subst, [], false, zero, suc, ◌-◌, List, ◌≡◌, refl, length, leb, ltb, Bool-cases, inl, inr,
  none, some, Option, nat_ord,
}
use ciphermesh.BTree.{lookup, contains_key, insert, remove, BTreeMap, BTreeSet}
use ciphermesh.Crypto.{Crypto, CryptoError, ok_or}
use ciphermesh.Crypto.Bytes.{same_bytes}
use ciphermesh.Ratchet.Keeps.{continue-Keeps}
use ciphermesh.Ratchet.State.{
  RatchetSession, RatchetMessage, minus_one, nonce_for, ratchet_aad, derive_dh_ratchet_state,
  max_skipped_message_keys, advance_chain, next_send_message_key, next_recv_message_key, encrypt,
  apply_dh_ratchet, rotate_sending_ratchet, receive_dh_ratchet,
}
use ciphermesh.Ratchet.Receive.{
  skip_one, skip_until, skip_to, message_key_for, open_message, decrypt_current, decrypt,
}

-- A property of the two maps that every change of them keeps.
pub record Kept (J : BTreeMap ℕ (List ℕ) → BTreeSet ℕ → Type 0) : Type 0 where
  pub after_skip :
      (number : ℕ) (key : List ℕ) (skipped : BTreeMap ℕ (List ℕ)) (consumed : BTreeSet ℕ)
      → leb max_skipped_message_keys (length skipped) ≡ false
      → J skipped consumed
      → J (insert number key skipped) consumed
  pub after_take :
      (number : ℕ) (skipped : BTreeMap ℕ (List ℕ)) (consumed : BTreeSet ℕ)
      → J skipped consumed
      → J (remove number skipped) consumed
  pub after_use :
      (number : ℕ) (skipped : BTreeMap ℕ (List ℕ)) (consumed : BTreeSet ℕ)
      → J skipped consumed
      → J skipped (insert number tt consumed)
  pub after_reset : J [] []

module _ (crypto : Crypto) (J : BTreeMap ℕ (List ℕ) → BTreeSet ℕ → Type 0) (kept_by : Kept J) where
  abbrev pub Holds : RatchetSession → Type 0
  Holds s = J s.skipped_message_keys s.consumed_message_numbers

  next_recv-Holds : (s : RatchetSession) → Holds s → Holds (next_recv_message_key crypto s).1
  unfolding next_recv_message_key
  next_recv-Holds s h = continue-Keeps Holds (advance_chain crypto s.recv_chain_key) _ s h (λ a. h)

  abbrev maps : RatchetSession → BTreeMap ℕ (List ℕ) × BTreeSet ℕ
  maps s = (s.skipped_message_keys, s.consumed_message_numbers)

  next_recv-maps : (s : RatchetSession) → maps s ≡ maps (next_recv_message_key crypto s).1
  unfolding next_recv_message_key
  next_recv-maps s =
      continue-Keeps (λ t. maps s ≡ maps t) (advance_chain crypto s.recv_chain_key) _ s refl
        (λ a. refl)

  skip_one-Holds : (s : RatchetSession) → Holds s → Holds (skip_one crypto s).1
  unfolding skip_one
  skip_one-Holds s h =
      elim (Bool-cases (leb max_skipped_message_keys (length s.skipped_message_keys))) [
        | inl full ↦ rw full h
        | inr room ↦ rw room (
            continue-Keeps Holds (next_recv_message_key crypto s).0 _
              (next_recv_message_key crypto s).1 (next_recv-Holds s h)
              (λ key.
                let number = minus_one (next_recv_message_key crypto s).1.recv_count in
                subst (λ (m : BTreeMap ℕ (List ℕ) × BTreeSet ℕ). J (insert number key m.0) m.1)
                  (next_recv-maps s)
                  (kept_by.after_skip number key s.skipped_message_keys s.consumed_message_numbers
                    room h)))
      ]

  skip_until-Holds :
      (rounds number : ℕ) (s : RatchetSession)
      → Holds s
      → Holds (skip_until crypto rounds number s).1
  unfolding skip_until
  skip_until-Holds zero number s h = h
  skip_until-Holds (suc rounds) number s h = elim (Bool-cases (ltb s.recv_count number)) [
    | inr done ↦ rw (skip_until, done) h
    | inl more ↦
        rw (skip_until, more)
          (continue-Keeps Holds (skip_one crypto s).0 _ (skip_one crypto s).1 (skip_one-Holds s h)
            (λ _. skip_until-Holds rounds number (skip_one crypto s).1 (skip_one-Holds s h)))
  ]

  message_key_for-Holds :
      (number : ℕ) (s : RatchetSession) → Holds s → Holds (message_key_for crypto number s).1
  unfolding message_key_for skip_to
  message_key_for-Holds number s h = from_skipped (lookup number s.skipped_message_keys) refl
    where
      from_skipped :
          (o : Option (List ℕ))
          → lookup number s.skipped_message_keys ≡ o
          → Holds (message_key_for crypto number s).1
      from_skipped (some key) e =
          rw e (kept_by.after_take number s.skipped_message_keys s.consumed_message_numbers h)
      from_skipped none e = elim (Bool-cases (ltb number s.recv_count)) [
        | inl old ↦ rw (e, old) h
        | inr new ↦
            let t = skip_until crypto (number - s.recv_count) number s in
            let kept = skip_until-Holds (number - s.recv_count) number s h in
            rw (e, new) (continue-Keeps Holds t.0 _ t.1 kept (λ _. next_recv-Holds t.1 kept))
      ]

  open_message-Holds :
      (message : RatchetMessage) (key : List ℕ) (s : RatchetSession)
      → Holds s
      → Holds (open_message crypto message key s).1
  unfolding open_message
  open_message-Holds message key s h =
      continue-Keeps Holds
        (ok_or CryptoError.decrypt (
          crypto.aead_decrypt key (nonce_for message.number)
            (ratchet_aad message.number message.ratchet_public_key) message.ciphertext))
        _ s h
        (λ text.
          kept_by.after_use message.number s.skipped_message_keys s.consumed_message_numbers h)

  decrypt_current-Holds :
      (message : RatchetMessage) (s : RatchetSession)
      → Holds s
      → Holds (decrypt_current crypto message s).1
  unfolding decrypt_current
  decrypt_current-Holds message s h =
      elim (Bool-cases (contains_key message.number s.consumed_message_numbers)) [
        | inl used ↦ rw used h
        | inr fresh ↦
            let t = message_key_for crypto message.number s in
            let kept = message_key_for-Holds message.number s h in
            rw fresh
              (continue-Keeps Holds t.0 _ t.1 kept (λ key. open_message-Holds message key t.1 kept))
      ]

  apply-Holds :
      (dh : List ℕ) (s : RatchetSession) → Holds s → Holds (apply_dh_ratchet crypto dh s).1
  unfolding apply_dh_ratchet
  apply-Holds dh s h =
      continue-Keeps Holds (derive_dh_ratchet_state crypto s.root_key dh) _ s h
        (λ keys. kept_by.after_reset)

  receive-Holds :
      (public : List ℕ) (s : RatchetSession)
      → Holds s
      → Holds (receive_dh_ratchet crypto public s).1
  unfolding receive_dh_ratchet
  receive-Holds public s h = apply-Holds _ _ h

  decrypt-Holds :
      (message : RatchetMessage) (s : RatchetSession) → Holds s → Holds (decrypt crypto message s).1
  unfolding decrypt
  decrypt-Holds message s h =
      elim (Bool-cases (same_bytes message.ratchet_public_key s.peer_ratchet_public_key)) [
        | inl current ↦ rw current (decrypt_current-Holds message s h)
        | inr other ↦
            let t = receive_dh_ratchet crypto message.ratchet_public_key s in
            let kept = receive-Holds message.ratchet_public_key s h in
            rw other
              (continue-Keeps Holds t.0 _ t.1 kept (λ _. decrypt_current-Holds message t.1 kept))
      ]

  next_send-Holds : (s : RatchetSession) → Holds s → Holds (next_send_message_key crypto s).1
  unfolding next_send_message_key
  next_send-Holds s h = continue-Keeps Holds (advance_chain crypto s.send_chain_key) _ s h (λ a. h)

  encrypt-Holds : (text : List ℕ) (s : RatchetSession) → Holds s → Holds (encrypt crypto text s).1
  unfolding encrypt
  encrypt-Holds text s h =
      let t = next_send_message_key crypto s in
      let kept = next_send-Holds s h in
      let public = crypto.x25519_public t.1.dh_keys in
      continue-Keeps Holds t.0 _ t.1 kept (λ key.
        continue-Keeps Holds
          (ok_or CryptoError.encrypt (
            crypto.aead_encrypt key (nonce_for s.send_count) (ratchet_aad s.send_count public)
              text))
          _ t.1 kept (λ ciphertext. kept))

  rotate-Holds :
      (secret : List ℕ) (s : RatchetSession)
      → Holds s
      → Holds (rotate_sending_ratchet crypto secret s).1
  unfolding rotate_sending_ratchet
  rotate-Holds secret s h = apply-Holds _ _ h

  -- However a call ends, an error included.
  pub session-Holds :
      (text secret : List ℕ) (message : RatchetMessage) (s : RatchetSession)
      → Holds s
      → Holds (encrypt crypto text s).1
        × Holds (decrypt crypto message s).1
        × Holds (rotate_sending_ratchet crypto secret s).1
  session-Holds text secret message s h =
      (encrypt-Holds text s h, decrypt-Holds message s h, rotate-Holds secret s h)
