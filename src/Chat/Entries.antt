-- ===== src/Chat/Entries.antt =====
-- What src/main.rs saves of a message in a chat, `ChatHistoryEntry` and `persist_chat_message`, and
-- what it changes when it prints the chat.
use ciphermesh.Prelude.{ℕ, String, none, some, List, [], ◌∷◌, get_or, string_ord}
use ciphermesh.Crypto.{Crypto}
use ciphermesh.Ratchet.State.{RatchetMessage}
use ciphermesh.Storage.Database.{Database, MessageRecord, MessageDirection, MessageStatus}
use ciphermesh.Storage.Messages.{
  insert_message, new_messages_for_conversation, mark_new_messages_read,
}
use ciphermesh.Chat.Names.{display_name_or_anonymous}
use ciphermesh.Chat.Records.{PairingChatContext, ChatHistoryEntry}
use ciphermesh.Chat.Peers.{chat_message_id}

abbrev pub sender_and_recipient : ChatHistoryEntry → String × String
sender_and_recipient entry = elim entry.direction [
  | MessageDirection.sent ↦ ("you", entry.peer_display_name)
  | MessageDirection.received ↦ (entry.sender_display_name, "you")
]

abbrev pub sent_entry : String → String → String → String → List ℕ → List ℕ → ChatHistoryEntry
sent_entry message_id local_display_name remote_display_name conversation_id bytes plaintext =
    record {
      message_id = some message_id;
      conversation_id = conversation_id;
      sender_display_name = local_display_name;
      peer_display_name = remote_display_name;
      direction = MessageDirection.sent;
      status = MessageStatus.sent;
      protocol_counter = none;
      ciphertext = bytes;
      plaintext = plaintext;
    }

abbrev pub received_entry :
    PairingChatContext → List ℕ → String → String → RatchetMessage → List ℕ → ChatHistoryEntry
received_entry context bytes message_id sender_display_name m plaintext = record {
  message_id = some message_id;
  conversation_id = context.conversation_id;
  sender_display_name = sender_display_name;
  peer_display_name = context.local_display_name;
  direction = MessageDirection.received;
  status = MessageStatus.received;
  protocol_counter = some m.number;
  ciphertext = bytes;
  plaintext = plaintext;
}

abbrev read_messages : List MessageRecord → String → Database → Database
read_messages [] conversation_id db = db
read_messages (_ ∷ _) conversation_id db = (mark_new_messages_read conversation_id db).1

-- What printing a conversation does to the tables: its new messages are new no longer.
unfoldable pub print_conversation : String → Database → Database
unfolding new_messages_for_conversation mark_new_messages_read
print_conversation conversation_id db =
    read_messages (new_messages_for_conversation conversation_id db) conversation_id db

unfoldable pub print_conversation_history : String → Database → Database
unfolding print_conversation
print_conversation_history conversation_id db = print_conversation conversation_id db

module _ (crypto : Crypto) where
  abbrev pub record_of_entry : ChatHistoryEntry → ℕ → MessageRecord
  record_of_entry entry now = record {
    message_id =
        get_or
          (chat_message_id crypto entry.conversation_id entry.direction entry.protocol_counter
            entry.ciphertext)
          entry.message_id;
    conversation_id = entry.conversation_id;
    sender_id = display_name_or_anonymous (sender_and_recipient entry).0;
    recipient_id = display_name_or_anonymous (sender_and_recipient entry).1;
    direction = entry.direction;
    status = entry.status;
    protocol_counter = entry.protocol_counter;
    ciphertext = entry.ciphertext;
    plaintext = some entry.plaintext;
    created_at_unix_secs = now;
  }

  unfoldable pub persist_chat_message : ChatHistoryEntry → ℕ → Database → Database
  unfolding chat_message_id display_name_or_anonymous insert_message
  persist_chat_message entry now db = insert_message (record_of_entry entry now) db
