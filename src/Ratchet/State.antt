-- ===== src/Ratchet/State.antt =====
-- `RatchetSession` of src/lib.rs, the derivation of its keys, and sending.
use ciphermesh.Prelude.{
  ℕ, ◌+◌, ◌-◌, ◌%◌, ◌^◌, Option, none, some, List, [], ◌∷◌, ◌++◌, take, drop, nat_ord,
}
use ciphermesh.BTree.{BTreeMap, BTreeSet}
use ciphermesh.Crypto.{Crypto, CryptoError, Result, ok, err, ok_or}
use ciphermesh.Crypto.Utf8.{as_bytes}
use ciphermesh.Ratchet.Stateful.{Exec, pure, lift, gets, update, ◌>>=◌, ◌>>◌}
use ciphermesh.Crypto.Bytes.{to_be_bytes}

unfoldable pub local_aad : List ℕ
unfolding as_bytes
local_aad = as_bytes "ciphermesh.local.alice-to-bob.v1"

unfoldable pub initial_chain_info : List ℕ
unfolding as_bytes
initial_chain_info = as_bytes "ciphermesh.phase-2d.initial-chains"

unfoldable pub chain_step_info : List ℕ
unfolding as_bytes
chain_step_info = as_bytes "ciphermesh.phase-2d.chain-step"

unfoldable pub dh_ratchet_info : List ℕ
unfolding as_bytes
dh_ratchet_info = as_bytes "ciphermesh.phase-2d.dh-ratchet"

abbrev pub max_skipped_message_keys : ℕ
max_skipped_message_keys = 8

pub data RatchetRole : Type 0 where
  alice bob : RatchetRole

abbrev pub chains {ℓ} : {A : Type ℓ} → RatchetRole → A → A → A × A
chains alice first second = (first, second)
chains bob first second = (second, first)

pub record RatchetMessage : Type 0 where
  pub number : ℕ
  pub ratchet_public_key : List ℕ
  pub ciphertext : List ℕ

-- The key pair is kept as its secret bytes.
pub record RatchetSession : Type 0 where
  pub role : RatchetRole
  pub root_key : List ℕ
  pub send_chain_key : List ℕ
  pub recv_chain_key : List ℕ
  pub send_count : ℕ
  pub recv_count : ℕ
  pub skipped_message_keys : BTreeMap ℕ (List ℕ)
  pub consumed_message_numbers : BTreeSet ℕ
  pub dh_keys : List ℕ
  pub peer_ratchet_public_key : List ℕ

-- `u64` plus and minus one
abbrev pub plus_one : ℕ → ℕ
plus_one n = (n + 1) % 2 ^ 64

abbrev pub minus_one : ℕ → ℕ
minus_one n = (n + 2 ^ 64 - 1) % 2 ^ 64

unfoldable pub nonce_for : ℕ → List ℕ
nonce_for number = 0 ∷ 0 ∷ 0 ∷ 0 ∷ to_be_bytes number

unfoldable pub ratchet_aad : ℕ → List ℕ → List ℕ
ratchet_aad number ratchet_public_key = local_aad ++ (to_be_bytes number ++ ratchet_public_key)

abbrev pub Session : Type 0 → Type 0
Session A = Exec RatchetSession A

module _ (crypto : Crypto) where
  open crypto use {x25519_public, diffie_hellman, hkdf_expand, aead_encrypt, aead_decrypt}

  abbrev split_output : Option (List ℕ) → Result (List ℕ × List ℕ)
  split_output none = err CryptoError.key_derivation
  split_output (some output) = ok (take 32 output, drop 32 output)

  unfoldable pub derive_directional_chains : List ℕ → Result (List ℕ × List ℕ)
  derive_directional_chains root_key =
      split_output (hkdf_expand none root_key initial_chain_info 64)

  -- The next chain key and the message key.
  unfoldable pub advance_chain : List ℕ → Result (List ℕ × List ℕ)
  advance_chain chain_key = split_output (hkdf_expand none chain_key chain_step_info 64)

  abbrev split_three : Option (List ℕ) → Result (List ℕ × List ℕ × List ℕ)
  split_three none = err CryptoError.key_derivation
  split_three (some output) = ok (take 32 output, take 32 (drop 32 output), drop 64 output)

  unfoldable pub derive_dh_ratchet_state : List ℕ → List ℕ → Result (List ℕ × List ℕ × List ℕ)
  derive_dh_ratchet_state root_key dh_output =
      split_three (hkdf_expand (some root_key) dh_output dh_ratchet_info 96)

  abbrev pub new_session :
      List ℕ → RatchetRole → List ℕ → List ℕ → Result (List ℕ × List ℕ) → Result RatchetSession
  new_session root_key role dh_keys peer (err e) = err e
  new_session root_key role dh_keys peer (ok (alice_to_bob, bob_to_alice)) = ok (record {
    role = role;
    root_key = root_key;
    send_chain_key = (chains role alice_to_bob bob_to_alice).0;
    recv_chain_key = (chains role alice_to_bob bob_to_alice).1;
    send_count = 0;
    recv_count = 0;
    skipped_message_keys = [];
    consumed_message_numbers = [];
    dh_keys = dh_keys;
    peer_ratchet_public_key = peer;
  })

  unfoldable pub new : List ℕ → RatchetRole → List ℕ → List ℕ → Result RatchetSession
  unfolding derive_directional_chains
  new root_key role dh_keys peer =
      new_session root_key role dh_keys peer (derive_directional_chains root_key)

  unfoldable pub next_send_message_key : Session (List ℕ)
  unfolding advance_chain
  next_send_message_key = do
    chain ← gets (λ s. s.send_chain_key)
    (next_chain_key, message_key) ← lift (advance_chain chain)
    update (λ s. record s { send_chain_key = next_chain_key; send_count = plus_one s.send_count })
    pure message_key

  unfoldable pub next_recv_message_key : Session (List ℕ)
  unfolding advance_chain
  next_recv_message_key = do
    chain ← gets (λ s. s.recv_chain_key)
    (next_chain_key, message_key) ← lift (advance_chain chain)
    update (λ s. record s { recv_chain_key = next_chain_key; recv_count = plus_one s.recv_count })
    pure message_key

  unfoldable pub encrypt : List ℕ → Session RatchetMessage
  unfolding next_send_message_key
  encrypt message = do
    number ← gets (λ s. s.send_count)
    message_key ← next_send_message_key
    public ← gets (λ s. x25519_public s.dh_keys)
    ciphertext ← lift (
        ok_or CryptoError.encrypt
          (aead_encrypt message_key (nonce_for number) (ratchet_aad number public) message))
    pure (record { number = number; ratchet_public_key = public; ciphertext = ciphertext })

  -- New chains from a new root key; the counters start again.
  unfoldable pub apply_dh_ratchet : List ℕ → Session (Unit {0})
  unfolding derive_dh_ratchet_state
  apply_dh_ratchet dh_output = do
    root ← gets (λ s. s.root_key)
    (root_key, alice_to_bob, bob_to_alice) ← lift (derive_dh_ratchet_state root dh_output)
    update (λ s. record s {
      root_key = root_key;
      send_chain_key = (chains s.role alice_to_bob bob_to_alice).0;
      recv_chain_key = (chains s.role alice_to_bob bob_to_alice).1;
      send_count = 0;
      recv_count = 0;
      skipped_message_keys = [];
      consumed_message_numbers = [];
    })

  -- `secret` is the one that `X25519KeyPair::generate` draws.
  unfoldable pub rotate_sending_ratchet : List ℕ → Session (Unit {0})
  unfolding apply_dh_ratchet
  rotate_sending_ratchet secret = do
    update (λ s. record s { dh_keys = secret })
    peer ← gets (λ s. s.peer_ratchet_public_key)
    apply_dh_ratchet (diffie_hellman secret peer)

  unfoldable pub receive_dh_ratchet : List ℕ → Session (Unit {0})
  unfolding apply_dh_ratchet
  receive_dh_ratchet public = do
    dh_output ← gets (λ s. diffie_hellman s.dh_keys public)
    update (λ s. record s { peer_ratchet_public_key = public })
    apply_dh_ratchet dh_output
