-- ===== src/Chat/Records.antt =====
-- The data of a chat in src/main.rs and src/pairing.rs.
use ciphermesh.Prelude.{ℕ, String, Option, List}
use ciphermesh.Ratchet.State.{RatchetMessage}
use ciphermesh.Ratchet.Stateful.{Exec}
use ciphermesh.Handshake.States.{AliceState, BobState}
use ciphermesh.Storage.Database.{Database, MessageDirection, MessageStatus}

pub data ChatFrame : Type 0 where
  message : String → String → RatchetMessage → ChatFrame
  ack : String → ChatFrame

-- `bincode` on what a chat sends and stores
pub record ChatCodec : Type 0 where
  pub serialize_frame : ChatFrame → Option (List ℕ)
  pub deserialize_frame : List ℕ → Option ChatFrame
  pub serialize_message : RatchetMessage → Option (List ℕ)
  pub serialize_alice : AliceState → Option (List ℕ)
  pub serialize_bob : BobState → Option (List ℕ)

-- What the chat of `Alice` and that of `Bob` do in their own ways.
pub record ChatParty (S : Type 0) : Type 0 where
  pub encrypt_for_peer : List ℕ → Exec S RatchetMessage
  pub decrypt_from_peer : RatchetMessage → Exec S (List ℕ)
  pub serialize_state : S → Option (List ℕ)
  pub identity_slot : String
  pub role_name : String

pub record PairingChatContext : Type 0 where
  pub local_display_name : String
  pub remote_display_name : String
  pub conversation_id : String

pub record ChatHistoryEntry : Type 0 where
  pub message_id : Option String
  pub conversation_id : String
  pub sender_display_name : String
  pub peer_display_name : String
  pub direction : MessageDirection
  pub status : MessageStatus
  pub protocol_counter : Option ℕ
  pub ciphertext : List ℕ
  pub plaintext : List ℕ

-- What a chat does outside: it sends a frame to its peer, acknowledges one, or prints a text.
pub data Output : Type 0 where
  request : List ℕ → Output
  acknowledged : String → Output
  printed : String → List ℕ → Output

-- `Alice` or `Bob`, the profile's database, and what was done outside so far, in order.
pub record Chat (S : Type 0) : Type 0 where
  pub party : S
  pub db : Database
  pub output : List Output

-- What happens to a chat from the network. Requests of other kinds, and responses that are not
-- acknowledgements, are `other`.
pub data AppEvent : Type 0 where
  chat_frame : String → List ℕ → AppEvent
  ack_response : String → String → AppEvent
  outbound_failure : String → AppEvent
  other : AppEvent
