-- ===== src/Ratchet/Chains.antt =====
-- The chain of keys that a session of src/lib.rs walks along, and what the sender seals with it.
use ciphermesh.Prelude.{
  ℕ, zero, suc, ◌+◌, ◌^◌, ◌<◌, List, ◌≡◌, refl, ap, arith, take, drop, some, none, Option, ◌∙◌, sym,
  subst,
}
use ciphermesh.Crypto.{Crypto, CryptoError, ok, ok_or}
use ciphermesh.Ratchet.Stateful.{continue, pure, equal_successes}
use ciphermesh.Ratchet.State.{
  RatchetSession, RatchetMessage, chain_step_info, nonce_for, ratchet_aad, advance_chain, plus_one,
  next_send_message_key, encrypt,
}

-- HKDF gives up to 255 blocks of output, and the cipher opens what it sealed.
pub record RatchetLaws (crypto : Crypto) : Type 0 where
  pub expands :
      (key : List ℕ) → (out : List ℕ) × (crypto.hkdf_expand none key chain_step_info 64 ≡ some out)
  pub opens :
      (key nonce aad text ciphertext : List ℕ)
      → crypto.aead_encrypt key nonce aad text ≡ some ciphertext
      → crypto.aead_decrypt key nonce aad ciphertext ≡ some text

module _ (crypto : Crypto) (laws : RatchetLaws crypto) where
  abbrev output : List ℕ → List ℕ
  output key = (laws.expands key).0

  pub advance_chain-ok :
      (key : List ℕ) → advance_chain crypto key ≡ ok (take 32 (output key), drop 32 (output key))
  unfolding advance_chain
  advance_chain-ok key = rw (laws.expands key).1

  -- The chain key after `n` steps, and the message key of the next step.
  unfoldable pub chain_at : List ℕ → ℕ → List ℕ
  chain_at first zero = first
  chain_at first (suc n) = take 32 (output (chain_at first n))

  abbrev pub key_at : List ℕ → ℕ → List ℕ
  key_at first n = drop 32 (output (chain_at first n))

  pub advance-chain_at :
      (first : List ℕ) (n : ℕ)
      → advance_chain crypto (chain_at first n) ≡ ok (chain_at first (suc n), key_at first n)
  unfolding chain_at
  advance-chain_at first n = advance_chain-ok (chain_at first n)

  -- The message carries the text, sealed with the key of its number.
  pub record Sealed (first public text : List ℕ) (m : RatchetMessage) : Type 0 where
    pub key : m.ratchet_public_key ≡ public
    pub text_sealed :
        crypto.aead_encrypt
          (key_at first m.number)
          (nonce_for m.number)
          (ratchet_aad m.number m.ratchet_public_key)
          text
        ≡ some m.ciphertext

  -- The sender stands at its count.
  abbrev pub Sends : List ℕ → RatchetSession → Type 0
  Sends first s = s.send_chain_key ≡ chain_at first s.send_count

  -- What encryption leaves: the next key of the chain is used up.
  abbrev pub sent_from : List ℕ → RatchetSession → RatchetSession
  sent_from first s = record s {
    send_chain_key = chain_at first (suc s.send_count);
    send_count = plus_one s.send_count;
  }

  encrypt_lem :
      (first text : List ℕ) (s : RatchetSession)
      → Sends first s
      → encrypt crypto text s
        ≡ continue
            (ok_or CryptoError.encrypt (
              crypto.aead_encrypt
                (key_at first s.send_count)
                (nonce_for s.send_count)
                (ratchet_aad s.send_count (crypto.x25519_public s.dh_keys))
                text))
            (λ ciphertext. pure (record {
              number = s.send_count;
              ratchet_public_key = crypto.x25519_public s.dh_keys;
              ciphertext = ciphertext;
            }))
            (sent_from first s)
  unfolding encrypt next_send_message_key
  encrypt_lem first text s sends = rw (sends, advance-chain_at first s.send_count) refl

  -- What a successful encryption makes: a message with the number of the sender's count, sealed
  -- with the key of that number. The sender then stands at the next count.
  abbrev pub IsNext : List ℕ → List ℕ → RatchetSession → RatchetMessage × RatchetSession → Type 0
  IsNext first text s (m, t) =
      Sealed first (crypto.x25519_public s.dh_keys) text m
      × (m.number ≡ s.send_count)
      × (t.send_count ≡ s.send_count + 1)
      × (t ≡ sent_from first s)
      × Sends first t

  pub encrypt-Sealed :
      (first text : List ℕ) (s t : RatchetSession) (m : RatchetMessage)
      → Sends first s
      → s.send_count + 1 < 2 ^ 64
      → encrypt crypto text s ≡ (ok m, t)
      → IsNext first text s (m, t)
  encrypt-Sealed first text s t m sends room h =
      from_cipher
        (crypto.aead_encrypt (key_at first s.send_count) (nonce_for s.send_count)
          (ratchet_aad s.send_count (crypto.x25519_public s.dh_keys)) text)
        refl (sym (encrypt_lem first text s sends) ∙ h)
    where
      from_cipher :
          (c : Option (List ℕ))
          → crypto.aead_encrypt
              (key_at first s.send_count)
              (nonce_for s.send_count)
              (ratchet_aad s.send_count (crypto.x25519_public s.dh_keys))
              text
            ≡ c
          → continue
              (ok_or CryptoError.encrypt c)
              (λ ciphertext. pure (record {
                number = s.send_count;
                ratchet_public_key = crypto.x25519_public s.dh_keys;
                ciphertext = ciphertext;
              }))
              (sent_from first s)
            ≡ (ok m, t)
          → IsNext first text s (m, t)
      from_cipher none e p = absurd cc
      from_cipher (some c) e p = subst (IsNext first text s) (equal_successes _ _ _ _ p) (
        record { key = refl; text_sealed = e },
        refl,
        omega (arith, room),
        refl,
        ap (chain_at first) (omega (arith, room)),
      )
