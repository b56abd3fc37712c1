-- ===== src/Tests/Ratchets.antt =====
-- The theorems on the ratchet sessions of src/lib.rs at two sessions made from one root key.
use ciphermesh.Prelude.{
  ℕ, List, [], ◌∷◌, ◌++◌, ◌≡◌, ◌≢◌, refl, ap, arith, take, drop, inr, inl, nat_ord, get_or,
}
use ciphermesh.BTree.{lookup, upsert}
use ciphermesh.Crypto.{CryptoError, ok, err}
use ciphermesh.Crypto.Bytes.{be_bytes, same_bytes}
use ciphermesh.Crypto.Utf8.{as_bytes, char_bytes, is_utf8}
use ciphermesh.Ratchet.Stateful.{value_or}
use ciphermesh.Ratchet.State.{
  RatchetSession, RatchetMessage, alice, bob, new, local_aad, initial_chain_info, chain_step_info,
  dh_ratchet_info, encrypt, rotate_sending_ratchet, nonce_for, ratchet_aad, advance_chain,
  derive_directional_chains, derive_dh_ratchet_state, next_send_message_key, next_recv_message_key,
  apply_dh_ratchet, receive_dh_ratchet,
}
use ciphermesh.Ratchet.Receive.{
  decrypt, decrypt_current, open_message, message_key_for, skip_to, skip_until, skip_one, from_utf8,
}
use ciphermesh.Ratchet.Bounds.{IsBounded, session-IsBounded}
use ciphermesh.Ratchet.Chains.{RatchetLaws, chain_at, Sealed}
use ciphermesh.Ratchet.Delivery.{Receives}
use ciphermesh.Ratchet.AnyOrder.{Opened, decrypt-Sealed}
use ciphermesh.Ratchet.Replay.{after, replay_refused}
use ciphermesh.Ratchet.Forgery.{forgery_burns}
use ciphermesh.Ratchet.Agreement.{Linked, begun, new-Linked}
use ciphermesh.Ratchet.Rotation.{Rotation}
use ciphermesh.Ratchet.Exchange.{decrypt-encrypt, decrypt-rotated}
use ciphermesh.Tests.Toy.{toy, sum_of, stretch, strip, strip_lem}

unfoldable pub toy_laws : RatchetLaws toy
toy_laws = record {
  expands = λ key. (_, refl);
  opens =
      λ key nonce aad text c h. rw (← ap (get_or []) h) (strip_lem (key ++ (nonce ++ aad)) text);
}

unfoldable pub program : Unit {0}
unfolding lookup upsert be_bytes same_bytes is_utf8 new encrypt rotate_sending_ratchet nonce_for
    ratchet_aad advance_chain derive_directional_chains derive_dh_ratchet_state
    next_send_message_key next_recv_message_key apply_dh_ratchet receive_dh_ratchet decrypt
    decrypt_current open_message message_key_for skip_to skip_until skip_one from_utf8 chain_at
    strip toy_laws local_aad initial_chain_info chain_step_info dh_ratchet_info as_bytes char_bytes
program = tt

pub toy_rotation : Rotation toy toy_laws
toy_rotation s t = ap (λ n. n ∷ []) (omega arith)

abbrev root : List ℕ
root = 1 ∷ 2 ∷ []

abbrev alice_keys : List ℕ
alice_keys = 4 ∷ []

abbrev bob_keys : List ℕ
bob_keys = 5 ∷ []

abbrev chains_output : List ℕ
chains_output = stretch 64 (sum_of (initial_chain_info ++ root))

abbrev sessions_chain : List ℕ
sessions_chain = take 32 chains_output

abbrev pub a : RatchetSession
a =
    begun toy toy_laws alice root (take 32 chains_output) (drop 32 chains_output) alice_keys
      bob_keys

abbrev pub b : RatchetSession
b = begun toy toy_laws bob root (take 32 chains_output) (drop 32 chains_output) bob_keys alice_keys

pub sessions : Linked toy toy_laws a b
unfolding program
sessions = new-Linked toy toy_laws root alice_keys bob_keys a b refl refl

abbrev pub text : List ℕ
text = 72 ∷ 105 ∷ []

abbrev nothing : RatchetMessage
nothing = record { number = 0; ratchet_public_key = []; ciphertext = [] }

abbrev message : RatchetMessage
message = value_or nothing (encrypt toy text a).0

abbrev a_sent : RatchetSession
a_sent = (encrypt toy text a).1

decrypt-encrypt_example :
    (b' : RatchetSession) × (decrypt toy message b ≡ (ok text, b')) × Linked toy toy_laws a_sent b'
unfolding program
decrypt-encrypt_example =
    decrypt-encrypt toy toy_laws text a a_sent b message sessions (omega arith) refl refl
      (omega arith) refl

abbrev second : RatchetMessage
second = value_or nothing (encrypt toy text a_sent).0

-- The second message comes first.
second-Sealed : Sealed toy toy_laws sessions_chain b.peer_ratchet_public_key text second
unfolding program
second-Sealed = record { key = refl; text_sealed = refl }

b-Receives : Receives toy toy_laws sessions_chain b
unfolding program
b-Receives = record {
  chain = refl;
  skipped_below = λ e m. absurd (m tt);
  consumed_below = λ e m. absurd (m tt);
  known = λ i lt. absurd (omega (arith, lt));
}

decrypt-Sealed_example : (t : RatchetSession) × Opened toy toy_laws sessions_chain b text second t
unfolding program
decrypt-Sealed_example =
    decrypt-Sealed toy toy_laws sessions_chain b text second b-Receives second-Sealed refl
      (omega arith) (omega arith) refl

replay_refused_example :
    decrypt toy message (after toy (second ∷ []) (decrypt toy message b).1)
    ≡ (err CryptoError.replay, after toy (second ∷ []) (decrypt toy message b).1)
unfolding program
replay_refused_example =
    replay_refused toy message message text b (decrypt toy message b).1 (second ∷ []) refl refl refl
      (λ n k. elim k [ inl e ↦ rw (← e) refl | inr m ↦ absurd (m tt) ])

abbrev forged : RatchetMessage
forged = record message { ciphertext = 9 ∷ [] }

forgery_burns_example :
    (t : RatchetSession) × (decrypt toy forged b ≡ (err CryptoError.decrypt, t))
    × (decrypt toy message t ≡ (err CryptoError.replay, t))
unfolding program
forgery_burns_example =
    forgery_burns toy toy_laws sessions_chain b forged message b-Receives refl (omega arith)
      (omega arith) (omega arith) refl refl refl

session-IsBounded_example :
    IsBounded (encrypt toy text b).1
    × IsBounded (decrypt toy second b).1
    × IsBounded (rotate_sending_ratchet toy (8 ∷ []) b).1
session-IsBounded_example = session-IsBounded toy text (8 ∷ []) second b (omega arith)

abbrev a_rotated : RatchetSession
a_rotated = (rotate_sending_ratchet toy (8 ∷ []) a).1

abbrev rotated_message : RatchetMessage
rotated_message = value_or nothing (encrypt toy text a_rotated).0

new_key : 8 ∷ [] ≢ alice_keys
new_key e = absurd cc

decrypt-rotated_example :
    (b' : RatchetSession) × (decrypt toy rotated_message b ≡ (ok text, b'))
    × Linked toy toy_laws (encrypt toy text a_rotated).1 b'
unfolding program
decrypt-rotated_example =
    decrypt-rotated toy toy_laws toy_rotation (8 ∷ []) text a a_rotated
      (encrypt toy text a_rotated).1 b rotated_message sessions refl new_key refl refl
