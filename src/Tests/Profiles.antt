-- ===== src/Tests/Profiles.antt =====
-- The theorems on what src/main.rs and src/storage.rs keep of a profile, at a revoked device and at a
-- delivery that does not open, and at a contact whose conversation another peer has.
use ciphermesh.Prelude.{
  ℕ, ◌≢◌, ◌⊎◌, List, length, arith, none, some, [], ◌∷◌, ◌≡◌, refl, string_ord, nat_ord,
}
use ciphermesh.BTree.{lookup, upsert}
use ciphermesh.Crypto.Utf8.{as_bytes}
use ciphermesh.Crypto.{CryptoError}
use ciphermesh.App.{AppResult, ok, err, crypto_error, storage_error}
use ciphermesh.Handshake.Parties.{Bob, decrypt_from_alice}
use ciphermesh.Storage.Accepted.{accept_message_once}
use ciphermesh.Storage.Database.{OutboxItem, OutboxStatus, empty_database, Database}
use ciphermesh.Storage.Devices.{no_devices, save_device_revocation}
use ciphermesh.Storage.Devices.Revocations.{Saving, save_all, Revoked, revocation_stays}
use ciphermesh.Profile.{DurableAppEnvelope, ProfileCodec, BobStore, deliver_outbox_item_to_bob}
use ciphermesh.Profile.Deliveries.{failed_delivery_acknowledged}
use ciphermesh.Profile.{saved_contact, saved_peer, save_contact_for_chat}
use ciphermesh.Profile.Contacts.{Saved, save_contact_for_chat_lem}
use ciphermesh.Storage.Peers.{load_contact, save_known_peer}
use ciphermesh.Storage.Peers.Unique.{IsUnique}
use ciphermesh.Storage.Conversations.{merge_contact_into}
use ciphermesh.Storage.Sql.{select_where, count_where}
use ciphermesh.Tests.Toy.{toy, stretch}

abbrev older : Saving
older = record {
  account_id = "acct";
  device_id = "phone";
  revocation_counter = 1;
  revocation = 7 ∷ [];
  now = 20;
}

revocation_stays_example :
    Revoked "acct" "phone" 3
      (save_all (older ∷ []) (save_device_revocation "acct" "phone" 3 (9 ∷ []) 10 no_devices))
revocation_stays_example = revocation_stays "acct" "phone" 3 (9 ∷ []) 10 (older ∷ []) no_devices

abbrev no_session : Bob
no_session = record {
  identity = 1 ∷ [];
  keys = 5 ∷ [];
  signed_prekey = 6 ∷ [];
  one_time_prekey = none;
  session = none;
}

abbrev envelope : DurableAppEnvelope
envelope = record {
  message_id = "m1";
  message = record { number = 0; ratchet_public_key = []; ciphertext = [] };
}

abbrev codec : ProfileCodec
codec = record {
  serialize_certificate = λ c. none;
  deserialize_certificate = λ b. none;
  deserialize_revocation = λ b. none;
  serialize_delivery = λ d. none;
  serialize_device_session = λ d. none;
  deserialize_envelope = λ b. some envelope;
  serialize_bob_state = λ b. some [];
  serialize_session = λ s. some [];
}

abbrev item : OutboxItem
item = record {
  message_id = "m1";
  recipient_id = "bob";
  payload = 3 ∷ [];
  status = OutboxStatus.pending;
  retry_count = 0;
  created_at_unix_secs = 5;
  last_attempt_unix_secs = none;
}

abbrev start : BobStore
start = record { bob = no_session; db = empty_database }

abbrev clock : ℕ → ℕ
clock n = n

abbrev after : BobStore
after = (deliver_outbox_item_to_bob toy codec "talk" item clock start).1

failed_delivery_acknowledged_example :
    (after.db.messages ≡ start.db.messages)
    × (deliver_outbox_item_to_bob toy codec "talk" item clock after ≡ (ok "m1", after))
unfolding deliver_outbox_item_to_bob accept_message_once decrypt_from_alice lookup
failed_delivery_acknowledged_example =
    failed_delivery_acknowledged toy codec "talk" item envelope clock clock
      (crypto_error CryptoError.missing_session_key) start refl refl

abbrev key_of : ℕ → List ℕ
key_of n = stretch 32 n

abbrev with_contact : AppResult (Unit {0}) × Database
with_contact = save_contact_for_chat toy "c1" "Bob" (key_of 7) "lan" clock empty_database

no_peers-IsUnique : IsUnique empty_database.known_peers
unfolding select_where
no_peers-IsUnique = record { sorted = tt; one_peer = λ c. omega arith }

with_contact-IsUnique : IsUnique with_contact.1.known_peers
with_contact-IsUnique =
    (save_contact_for_chat_lem toy "c1" "Bob" (key_of 7) "lan" clock empty_database
      no_peers-IsUnique).1

-- Another peer with the id of the contact
abbrev second : AppResult (Unit {0}) × Database
second = save_contact_for_chat toy "c1" "Eve" (key_of 9) "lan" clock with_contact.1

save_contact_for_chat_lem_example :
    (load_contact "c1" second.1 ≡ some (saved_contact "c1" "Eve" (key_of 9) "lan" (clock 0)))
    × IsUnique second.1.known_peers
    × (((length (key_of 9) ≢ 32)
          × (second.0 ≡ ok tt)
          × (second.1.known_peers ≡ with_contact.1.known_peers))
        ⊎ ((length (key_of 9) ≡ 32)
            × Saved (saved_peer toy "c1" "Eve" (key_of 9) (clock 1)) with_contact.1 second))
save_contact_for_chat_lem_example =
    save_contact_for_chat_lem toy "c1" "Eve" (key_of 9) "lan" clock with_contact.1
      with_contact-IsUnique

second_fails : second.0 ≡ err storage_error
unfolding save_contact_for_chat save_known_peer count_where merge_contact_into as_bytes upsert
second_fails = refl
