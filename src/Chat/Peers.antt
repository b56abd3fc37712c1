-- ===== src/Chat/Peers.antt =====
-- Ids of contacts and messages in src/main.rs, and which peer a conversation has.
use Prim.Native.String.{◌++◌ as append_str}
use ciphermesh.Prelude.{
  ℕ, String, Option, none, some, List, [], ◌++◌, take, length, ◌==◌, if◌then◌else◌,
}
use ciphermesh.Crypto.{Crypto}
use ciphermesh.Crypto.Utf8.{as_bytes}
use ciphermesh.Crypto.Bytes.{to_be_bytes}
use ciphermesh.Devices.{hex}
use ciphermesh.Storage.Database.{
  Database, MessageDirection, ContactRecord, KnownPeerRecord, PendingPeerMessage, MessageRecord,
}
use ciphermesh.Storage.Database
use ciphermesh.Storage.Messages.{insert_message}
use ciphermesh.Storage.Peers.{load_contact, known_peer_for_conversation, queue_pending_peer_message}
use ciphermesh.Chat.Names.{display_name_or_anonymous}

abbrev pub direction_bytes : MessageDirection → List ℕ
direction_bytes MessageDirection.sent = as_bytes "sent"
direction_bytes MessageDirection.received = as_bytes "received"

abbrev pub counter_bytes : Option ℕ → List ℕ
counter_bytes none = []
counter_bytes (some n) = to_be_bytes n

module _ (crypto : Crypto) where
  open crypto use {sha256}

  unfoldable pub chat_message_id : String → MessageDirection → Option ℕ → List ℕ → String
  unfolding hex
  chat_message_id conversation_id direction protocol_counter ciphertext = hex (
      take 16 (
        sha256 (
          as_bytes "ciphermesh.local-history.v1"
          ++ (as_bytes conversation_id
              ++ (direction_bytes direction ++ (counter_bytes protocol_counter ++ ciphertext))))))

  -- `random` is what `fill_random` draws.
  unfoldable pub pending_peer_message_id : String → List ℕ → ℕ → List ℕ → String
  unfolding hex
  pending_peer_message_id peer_id plaintext now random = hex (
      take 16 (
        sha256 (
          as_bytes "ciphermesh.pending-peer-message.v1"
          ++ (as_bytes peer_id ++ (to_be_bytes now ++ (plaintext ++ random))))))

  unfoldable pub contact_id_for_identity : List ℕ → String
  unfolding hex
  contact_id_for_identity identity_public_key =
      append_str "contact-" (hex (take 8 (sha256 identity_public_key)))

  unfoldable pub contact_id_for_display_name : String → String
  unfolding hex display_name_or_anonymous
  contact_id_for_display_name display_name = append_str "contact-" (
      hex (
        take 8 (
          sha256 (
            as_bytes "ciphermesh.display-contact.v1"
            ++ as_bytes (display_name_or_anonymous display_name)))))

  -- A contact whose key has 32 bytes is a peer, too.
  abbrev peer_of_contact : Option ContactRecord → Option KnownPeerRecord
  peer_of_contact none = none
  peer_of_contact (some c) =
      if length c.identity_public_key == 32
      then some (record {
        peer_id = contact_id_for_identity c.identity_public_key;
        identity_public_key = c.identity_public_key;
        display_name = c.display_name;
        conversation_id = c.contact_id;
        last_seen_at_unix_secs = c.saved_at_unix_secs;
      })
      else none

  abbrev known_or_contact : Option KnownPeerRecord → Option ContactRecord → Option KnownPeerRecord
  known_or_contact (some peer) contact = some peer
  known_or_contact none contact = peer_of_contact contact

  unfoldable pub load_known_peer_for_conversation : String → Database → Option KnownPeerRecord
  unfolding known_peer_for_conversation load_contact contact_id_for_identity
  load_known_peer_for_conversation conversation_id db =
      known_or_contact (known_peer_for_conversation conversation_id db)
        (load_contact conversation_id db)

  abbrev peer_id_or : String → Option KnownPeerRecord → String
  peer_id_or conversation_id none = conversation_id
  peer_id_or conversation_id (some peer) = peer.peer_id

  unfoldable pub pending_peer_id_for_conversation : String → Database → String
  unfolding load_known_peer_for_conversation
  pending_peer_id_for_conversation conversation_id db =
      peer_id_or conversation_id (load_known_peer_for_conversation conversation_id db)

  -- `created` is the time of the message, `now` the one that its id is made of.
  unfoldable pub queue_offline_peer_message :
      KnownPeerRecord → List ℕ → List ℕ → ℕ → ℕ → Database → Database
  unfolding pending_peer_message_id queue_pending_peer_message insert_message
  queue_offline_peer_message peer plaintext random now created db =
      let message_id = pending_peer_message_id peer.peer_id plaintext now random in
      let waiting : PendingPeerMessage = record {
        message_id = message_id;
        peer_id = peer.peer_id;
        conversation_id = peer.conversation_id;
        plaintext = plaintext;
        created_at_unix_secs = created;
        retry_count = 0;
        last_attempt_unix_secs = none;
      } in
      let message : MessageRecord = record {
        message_id = message_id;
        conversation_id = peer.conversation_id;
        sender_id = "you";
        recipient_id = peer.display_name;
        direction = MessageDirection.sent;
        status = Database.stored;
        protocol_counter = none;
        ciphertext = plaintext;
        plaintext = some plaintext;
        created_at_unix_secs = created;
      } in
      insert_message message (queue_pending_peer_message waiting db)

  abbrev queue_for : Option KnownPeerRecord → List ℕ → List ℕ → ℕ → ℕ → Database → Database
  queue_for none line random now created db = db
  queue_for (some peer) line random now created db =
      queue_offline_peer_message peer line random now created db

  unfoldable pub queue_message_after_peer_disconnect :
      String → List ℕ → List ℕ → ℕ → ℕ → Database → Database
  unfolding load_known_peer_for_conversation queue_offline_peer_message
  queue_message_after_peer_disconnect conversation_id line random now created db =
      queue_for (load_known_peer_for_conversation conversation_id db) line random now created db
