-- ===== src/Ratchet/AnyOrder.antt =====
-- `decrypt` of src/lib.rs opens what was sealed, in whatever order it comes.
use ciphermesh.Prelude.{
  ℕ, ◌+◌, ◌-◌, ◌^◌, ◌<◌, ◌≤◌, List, ◌≡◌, refl, ap, ◌∙◌, true, false, length, nat_ord, same, ◌||◌,
}
use ciphermesh.BTree.{contains_key}
use ciphermesh.BTree.Laws.{contains_key-insert}
use ciphermesh.Crypto.{Crypto, ok}
use ciphermesh.Crypto.Bytes.{same_bytes, same_bytes_self}
use ciphermesh.Crypto.Utf8.{is_utf8}
use ciphermesh.Ratchet.State.{RatchetSession, RatchetMessage}
use ciphermesh.Ratchet.Receive.{decrypt, decrypt_current, open_message, from_utf8}
use ciphermesh.Ratchet.Chains.{RatchetLaws, Sealed}
use ciphermesh.Ratchet.Delivery.{outer, Receives}
use ciphermesh.Ratchet.Opening.{use_up, found}

module _ (crypto : Crypto) (laws : RatchetLaws crypto) (first : List ℕ) where
  -- The text comes out, its number is used up, and no other is.
  pub record Opened (s : RatchetSession) (text : List ℕ) (m : RatchetMessage) (t : RatchetSession)
      : Type 0 where
    pub run : decrypt crypto m s ≡ (ok text, t)
    pub receives : Receives crypto laws first t
    pub same_outer : outer t ≡ outer s
    pub consumed :
        (i : ℕ)
        → contains_key i t.consumed_message_numbers
          ≡ (same m.number i || contains_key i s.consumed_message_numbers)

  -- A message that the sender sealed under the key that the session follows opens to its text,
  -- whatever came before it, if its number was not used and at most eight keys have to be kept.
  -- Only its number is used up, and the session still receives.
  pub decrypt-Sealed :
      (s : RatchetSession) (text : List ℕ) (m : RatchetMessage)
      → Receives crypto laws first s
      → Sealed crypto laws first s.peer_ratchet_public_key text m
      → contains_key m.number s.consumed_message_numbers ≡ false
      → (m.number - s.recv_count) + length s.skipped_message_keys ≤ 8
      → m.number + 1 < 2 ^ 64
      → is_utf8 text ≡ true
      → (t : RatchetSession) × Opened s text m t
  unfolding decrypt decrypt_current open_message from_utf8
  decrypt-Sealed s text m r sealed fresh few room utf8 =
      let (t, here) = found crypto laws first m.number s r fresh few room in
      let current : same_bytes m.ratchet_public_key s.peer_ratchet_public_key ≡ true =
        rw sealed.key (same_bytes_self s.peer_ratchet_public_key) in
      (
        use_up m.number t,
        record {
          run =
              rw
                (
                  current,
                  fresh,
                  here.run,
                  laws.opens _ _ _ text m.ciphertext sealed.text_sealed,
                  utf8,
                )
                refl;
          receives = here.receives;
          same_outer = here.same_outer;
          consumed = λ i.
              contains_key-insert m.number i tt t.consumed_message_numbers
              ∙ ap (λ c. same m.number i || contains_key i c) here.same_consumed;
        },
      )
