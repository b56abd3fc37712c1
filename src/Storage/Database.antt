-- ===== src/Storage/Database.antt =====
-- The rows and the tables of src/storage.rs that chats use. A table is a map from its primary key;
-- a text that is encrypted is kept as its UTF-8 bytes. Every statement is taken to
-- succeed, but the one that UNIQUE can refuse (Storage/Peers).
use ciphermesh.Prelude.{ℕ, String, Option, List, []}
use ciphermesh.BTree.{BTreeMap}
use ciphermesh.Storage.Events.{EventTables, no_events}
use ciphermesh.Storage.Accepted.{AcceptedTable}

pub data MessageDirection : Type 0 where
  sent received : MessageDirection

pub data MessageStatus : Type 0 where
  stored sent received : MessageStatus

pub data OutboxStatus : Type 0 where
  pending delivered : OutboxStatus

pub record MessageRecord : Type 0 where
  pub message_id : String
  pub conversation_id : String
  pub sender_id : String
  pub recipient_id : String
  pub direction : MessageDirection
  pub status : MessageStatus
  pub protocol_counter : Option ℕ
  pub ciphertext : List ℕ
  pub plaintext : Option (List ℕ)
  pub created_at_unix_secs : ℕ

pub record OutboxItem : Type 0 where
  pub message_id : String
  pub recipient_id : String
  pub payload : List ℕ
  pub status : OutboxStatus
  pub retry_count : ℕ
  pub created_at_unix_secs : ℕ
  pub last_attempt_unix_secs : Option ℕ

pub record ContactRecord : Type 0 where
  pub contact_id : String
  pub display_name : String
  pub identity_public_key : List ℕ
  pub discovery_hint : String
  pub saved_at_unix_secs : ℕ

pub record KnownPeerRecord : Type 0 where
  pub peer_id : String
  pub identity_public_key : List ℕ
  pub display_name : String
  pub conversation_id : String
  pub last_seen_at_unix_secs : ℕ

pub record PendingPeerMessage : Type 0 where
  pub message_id : String
  pub peer_id : String
  pub conversation_id : String
  pub plaintext : List ℕ
  pub created_at_unix_secs : ℕ
  pub retry_count : ℕ
  pub last_attempt_unix_secs : Option ℕ

-- A row of `local_identity`
pub record LocalIdentity : Type 0 where
  pub role : String
  pub state : List ℕ
  pub updated_at_unix_secs : ℕ

-- A row of `sessions`, beside its conversation
pub record SessionRow : Type 0 where
  pub peer_id : String
  pub role : String
  pub state : List ℕ
  pub updated_at_unix_secs : ℕ

-- A row of `new_messages`, beside its message
pub record NewMessage : Type 0 where
  pub conversation_id : String
  pub marked_at_unix_secs : ℕ

-- A row of `device_pair_sessions`, beside its two devices
pub record PairSession : Type 0 where
  pub state : List ℕ
  pub updated_at_unix_secs : ℕ

pub record Database : Type 0 where
  pub local_identity : BTreeMap String LocalIdentity
  pub sessions : BTreeMap String SessionRow
  pub device_pair_sessions : BTreeMap (String × String) PairSession
  pub messages : BTreeMap String MessageRecord
  pub outbox : BTreeMap String OutboxItem
  pub accepted_messages : AcceptedTable
  pub new_messages : BTreeMap String NewMessage
  pub contacts : BTreeMap String ContactRecord
  pub known_peers : BTreeMap String KnownPeerRecord
  pub pending_peer_messages : BTreeMap String PendingPeerMessage
  pub events : EventTables

abbrev pub empty_database : Database
empty_database = record {
  local_identity = [];
  sessions = [];
  device_pair_sessions = [];
  messages = [];
  outbox = [];
  accepted_messages = [];
  new_messages = [];
  contacts = [];
  known_peers = [];
  pending_peer_messages = [];
  events = no_events;
}
