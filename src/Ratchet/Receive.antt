-- ===== src/Ratchet/Receive.antt =====
-- Receiving in src/lib.rs: the skipped messages, the check of replays and `decrypt`.
use ciphermesh.Prelude.{
  ℕ, zero, suc, ◌-◌, Option, none, some, List, Bool, true, false, length, nat_ord, ltb, leb,
  if◌then◌else◌,
}
use ciphermesh.BTree.{lookup, insert, remove, contains_key}
use ciphermesh.Crypto.{Crypto, CryptoError, Result, ok, err, ok_or}
use ciphermesh.Crypto.Utf8.{is_utf8}
use ciphermesh.Crypto.Bytes.{same_bytes}
use ciphermesh.Ratchet.Stateful.{pure, lift, gets, update, fail_if, continue, ◌>>=◌, ◌>>◌}
use ciphermesh.Ratchet.State.{
  RatchetMessage, Session, nonce_for, ratchet_aad, minus_one, max_skipped_message_keys,
  next_recv_message_key, receive_dh_ratchet,
}

-- `String::from_utf8`: the text is its bytes.
unfoldable pub from_utf8 : List ℕ → Result (List ℕ)
from_utf8 bytes = if is_utf8 bytes then ok bytes else err CryptoError.utf8

module _ (crypto : Crypto) where
  open crypto use {aead_decrypt}

  -- The body of the loop over the skipped messages.
  unfoldable pub skip_one : Session (Unit {0})
  unfolding next_recv_message_key
  skip_one = do
    full ← gets (λ s. leb max_skipped_message_keys (length s.skipped_message_keys))
    fail_if full CryptoError.too_many_skipped_messages
    skipped_key ← next_recv_message_key crypto
    update (λ s. record s {
      skipped_message_keys = insert (minus_one s.recv_count) skipped_key s.skipped_message_keys;
    })

  -- `while recv_count < number`; each round adds one to `recv_count`, and `rounds` is how many
  -- are left at most.
  unfoldable pub skip_until : ℕ → ℕ → Session (Unit {0})
  unfolding skip_one
  skip_until zero number s = (ok tt, s)
  skip_until (suc rounds) number s = elim (ltb s.recv_count number) [
    | false ↦ (ok tt, s)
    | true ↦ continue (skip_one s).0 (λ _. skip_until rounds number) (skip_one s).1
  ]

  unfoldable pub skip_to : ℕ → Session (Unit {0})
  unfolding skip_until
  skip_to number s = skip_until (number - s.recv_count) number s

  abbrev new_message_key : ℕ → Session (List ℕ)
  new_message_key number = do
    count ← gets (λ s. s.recv_count)
    fail_if (ltb number count) CryptoError.replay
    skip_to number
    next_recv_message_key crypto

  abbrev take_skipped : ℕ → Option (List ℕ) → Session (List ℕ)
  take_skipped number none = new_message_key number
  take_skipped number (some message_key) = do
    update (λ s. record s { skipped_message_keys = remove number s.skipped_message_keys })
    pure message_key

  -- The key of a message: one that was skipped, or the next one after skipping.
  unfoldable pub message_key_for : ℕ → Session (List ℕ)
  unfolding skip_to next_recv_message_key
  message_key_for number = do
    skipped ← gets (λ s. lookup number s.skipped_message_keys)
    take_skipped number skipped

  abbrev follow_ratchet : Bool → List ℕ → Session (Unit {0})
  follow_ratchet true public = pure tt
  follow_ratchet false public = receive_dh_ratchet crypto public

  -- The last steps: the text is authenticated, and then the number is used up.
  unfoldable pub open_message : RatchetMessage → List ℕ → Session (List ℕ)
  unfolding from_utf8
  open_message message message_key = do
    plaintext ← lift (
        ok_or CryptoError.decrypt (
          aead_decrypt message_key (nonce_for message.number)
            (ratchet_aad message.number message.ratchet_public_key) message.ciphertext))
    update (λ s. record s {
      consumed_message_numbers = insert message.number tt s.consumed_message_numbers;
    })
    lift (from_utf8 plaintext)

  -- `decrypt` once the session follows the sender's ratchet key.
  unfoldable pub decrypt_current : RatchetMessage → Session (List ℕ)
  unfolding message_key_for open_message
  decrypt_current message = do
    consumed ← gets (λ s. contains_key message.number s.consumed_message_numbers)
    fail_if consumed CryptoError.replay
    message_key ← message_key_for message.number
    open_message message message_key

  unfoldable pub decrypt : RatchetMessage → Session (List ℕ)
  unfolding receive_dh_ratchet decrypt_current
  decrypt message = do
    current ← gets (λ s. same_bytes message.ratchet_public_key s.peer_ratchet_public_key)
    follow_ratchet current message.ratchet_public_key
    decrypt_current message
