-- ===== src/Tests/Handshakes.antt =====
-- The theorems on Alice, Bob and the prekeys of src/lib.rs at two parties.
use ciphermesh.Prelude.{List, [], ◌∷◌, none, some, ◌≡◌, refl, nat_ord}
use ciphermesh.BTree.{lookup, upsert}
use ciphermesh.Crypto.{CryptoError, ok, err}
use ciphermesh.Crypto.Bytes.{be_bytes, same_bytes}
use ciphermesh.Crypto.Utf8.{as_bytes, char_bytes, is_utf8}
use ciphermesh.Ratchet.Stateful.{value_or}
use ciphermesh.Ratchet.State.{
  RatchetSession, new, encrypt, local_aad, initial_chain_info, chain_step_info, nonce_for,
  ratchet_aad, advance_chain, derive_directional_chains, next_send_message_key,
  next_recv_message_key,
}
use ciphermesh.Ratchet.Receive.{
  decrypt, decrypt_current, open_message, message_key_for, skip_to, skip_until, from_utf8,
}
use ciphermesh.Ratchet.Agreement.{Linked}
use ciphermesh.Handshake.Keys.{
  PreKeyBundle, InitialMessage, OneTimePreKey, hkdf_info, prekey_hkdf_info, signed_prekey_context,
  signed_key_exchange_context, signed_prekey_bytes, signed_key_exchange_bytes, derive_aead_key,
  derive_prekey_aead_key, sign_prekey, sign_key_exchange, verify_signed_prekey,
  verify_signed_key_exchange,
}
use ciphermesh.Handshake.Parties.{
  Alice, Bob, alice_exchange, bob_exchange, alice_derive_session_key, bob_derive_session_key,
  encrypt_initial_message, encrypt_for_bob, prekey_bundle, decrypt_initial_message,
  decrypt_from_alice,
}
use ciphermesh.Handshake.Prekeys.{prekey_used_once}
use ciphermesh.Handshake.FirstMessage.{decrypt_initial_message-encrypt_initial_message}
use ciphermesh.Handshake.Exchanged.{derived-Linked}
use ciphermesh.Handshake.States.{
  ratchet_state, ratchet_from_state, alice_export_state, alice_from_state, bob_export_state,
  bob_from_state, device_session_export_state, device_session_from_state,
}
use ciphermesh.Handshake.Stored.{
  SessionCall, encrypting, rotating, decrypting, after_calls, from_state-export_state,
}
use ciphermesh.Ratchet.State
use ciphermesh.Tests.Toy.{toy, toy_signatures, strip}
use ciphermesh.Tests.Ratchets.{toy_laws, toy_rotation, text}

program : Unit {0}
unfolding lookup upsert be_bytes same_bytes as_bytes char_bytes is_utf8 new encrypt local_aad
    initial_chain_info chain_step_info nonce_for ratchet_aad advance_chain derive_directional_chains
    next_send_message_key next_recv_message_key decrypt decrypt_current open_message message_key_for
    skip_to skip_until from_utf8 hkdf_info prekey_hkdf_info signed_prekey_context
    signed_key_exchange_context signed_prekey_bytes signed_key_exchange_bytes derive_aead_key
    derive_prekey_aead_key sign_prekey sign_key_exchange verify_signed_prekey
    verify_signed_key_exchange alice_exchange bob_exchange alice_derive_session_key
    bob_derive_session_key encrypt_initial_message encrypt_for_bob prekey_bundle
    decrypt_initial_message decrypt_from_alice strip
program = tt

abbrev alice : Alice
alice = record { identity = 2 ∷ []; keys = 4 ∷ []; session = none }

abbrev prekey : OneTimePreKey
prekey = record { id = 1; keys = 7 ∷ [] }

abbrev bob : Bob
bob = record {
  identity = 1 ∷ [];
  keys = 5 ∷ [];
  signed_prekey = 6 ∷ [];
  one_time_prekey = some prekey;
  session = none;
}

abbrev no_bundle : PreKeyBundle
no_bundle = record {
  identity_public_key = [];
  signed_prekey_public_key = [];
  signed_prekey_signature = [];
  one_time_prekey_id = 0;
  one_time_prekey_public_key = [];
}

abbrev bundle : PreKeyBundle
bundle = value_or no_bundle (prekey_bundle toy bob)

abbrev no_message : InitialMessage
no_message = record {
  alice_initial_public_key = [];
  one_time_prekey_id = 2;
  message = record { number = 0; ratchet_public_key = []; ciphertext = [] };
}

abbrev first : InitialMessage
first = value_or no_message (encrypt_initial_message toy (9 ∷ []) bundle text alice).0

abbrev alice_after : Alice
alice_after = (encrypt_initial_message toy (9 ∷ []) bundle text alice).1

decrypt_initial_message_example :
    (b' : Bob) × (s : RatchetSession) × (t : RatchetSession) × (decrypt_initial_message toy first
        bob
      ≡ (ok text, b'))
    × (b'.one_time_prekey ≡ none)
    × (alice_after.session ≡ some s)
    × (b'.session ≡ some t)
    × Linked toy toy_laws s t
unfolding program
decrypt_initial_message_example =
    decrypt_initial_message-encrypt_initial_message toy toy_laws toy_rotation (9 ∷ []) text prekey
      bundle first alice alice_after bob refl refl refl refl

prekey_used_once_example :
    decrypt_initial_message toy first (decrypt_initial_message toy first bob).1
    ≡ (err CryptoError.prekey_unavailable, (decrypt_initial_message toy first bob).1)
unfolding program
prekey_used_once_example = prekey_used_once toy first first prekey bob refl refl

abbrev alice_derived : Alice
alice_derived = (alice_derive_session_key toy (bob_exchange toy bob) alice).1

derived-Linked_example :
    (b' : Bob) × (s : RatchetSession) × (t : RatchetSession) × (bob_derive_session_key toy
        (alice_exchange toy alice)
        bob
      ≡ (ok tt, b'))
    × (alice_derived.session ≡ some s)
    × (b'.session ≡ some t)
    × Linked toy toy_laws s t
unfolding program
derived-Linked_example =
    derived-Linked toy toy_signatures toy_laws toy_rotation alice alice_derived bob refl

abbrev no_session : RatchetSession
no_session = record {
  role = State.alice;
  root_key = [];
  send_chain_key = [];
  recv_chain_key = [];
  send_count = 0;
  recv_count = 0;
  skipped_message_keys = [];
  consumed_message_numbers = [];
  dh_keys = [];
  peer_ratchet_public_key = [];
}

abbrev chain_session : RatchetSession
chain_session = value_or no_session (new toy (1 ∷ []) State.alice (4 ∷ []) (5 ∷ []))

abbrev calls : List SessionCall
calls = encrypting text ∷ rotating (8 ∷ []) ∷ decrypting first.message ∷ []

abbrev used : RatchetSession
used = after_calls toy calls chain_session

from_state-export_state_example :
    (ratchet_from_state (ratchet_state used) ≡ used)
    × (alice_from_state (alice_export_state (record alice { session = some used }))
        ≡ record alice { session = some used })
    × (bob_from_state (bob_export_state (record bob { session = some used }))
        ≡ record bob { session = some used })
    × (device_session_from_state (
          device_session_export_state
            (record { local_device_id = "phone"; remote_device_id = "laptop"; session = used }))
        ≡ record { local_device_id = "phone"; remote_device_id = "laptop"; session = used })
unfolding program
from_state-export_state_example =
    from_state-export_state toy State.alice (1 ∷ []) (4 ∷ []) (5 ∷ []) chain_session calls alice bob
      "phone" "laptop" refl
