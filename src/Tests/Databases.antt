-- ===== src/Tests/Databases.antt =====
-- The theorems on conversations and messages of src/storage.rs at a database with two conversations.
use ciphermesh.Prelude.{ℕ, ◌+◌, String, none, some, [], ◌∷◌, ◌||◌, map, Member, ◌≡◌, ◌≢◌, ◌↔◌}
use ciphermesh.Storage.Sql.{select_where}
use ciphermesh.Storage.Sql.Ordered.{last, IsAscending}
use ciphermesh.Storage.Events.Vector.{IsSound}
use ciphermesh.Storage.Database.{
  Database, MessageRecord, MessageDirection, MessageStatus, PendingPeerMessage, empty_database,
}
use ciphermesh.Storage.Messages.{
  insert_message, messages_for_conversation, last_message_for_conversation, message_ord,
  message_key, message_in,
}
use ciphermesh.Storage.Peers.{queue_pending_peer_message, pending_in}
use ciphermesh.Storage.Conversations.{
  event_in, move_message, move_pending, move_event, delete_conversation, merge_contact_into,
}
use ciphermesh.Storage.Conversations.Deleted.{
  rows_of, no_rows, row_count, SameElsewhere, delete_conversation_lem,
}
use ciphermesh.Storage.Conversations.Merged.{merge_contact_into_lem}
use ciphermesh.Storage.Conversations.Vectors.{merge_contact_into-IsSound}
use ciphermesh.Storage.Messages.Sorted.{IsStored, last_message-eq-last}
use ciphermesh.Tests.Conversations.{laptop, laptop-IsSound}

abbrev row : String → String → ℕ → MessageRecord
row id conversation time = record {
  message_id = id;
  conversation_id = conversation;
  sender_id = "you";
  recipient_id = "bob";
  direction = MessageDirection.sent;
  status = MessageStatus.stored;
  protocol_counter = none;
  ciphertext = [];
  plaintext = some [];
  created_at_unix_secs = time;
}

abbrev waiting : PendingPeerMessage
waiting = record {
  message_id = "m2";
  peer_id = "bob";
  conversation_id = "talk";
  plaintext = 72 ∷ [];
  created_at_unix_secs = 5;
  retry_count = 0;
  last_attempt_unix_secs = none;
}

abbrev db : Database
db =
    record (queue_pending_peer_message waiting (
      insert_message (row "m3" "other" 9)
        (insert_message (row "m1" "talk" 7) (insert_message (row "m2" "talk" 5) empty_database)))) {
          events = laptop;
        }

abbrev talk : String
talk = "talk"

abbrev other : String
other = "other"

different : talk ≢ other
different e = absurd cc

delete_conversation_lem_example :
    (rows_of talk (delete_conversation talk db).1 ≡ no_rows)
    × ((d : String) → talk ≢ d → rows_of d (delete_conversation talk db).1 ≡ rows_of d db)
    × (row_count db ≡ (delete_conversation talk db).0 + row_count (delete_conversation talk db).1)
    × SameElsewhere db (delete_conversation talk db).1
delete_conversation_lem_example = delete_conversation_lem talk db

abbrev merged : Database
merged = merge_contact_into talk other db

merge_contact_into_lem_example :
    (select_where (message_in other) merged.messages
      ≡ map
          (move_message other)
          (select_where (λ row. message_in talk row || message_in other row) db.messages))
    × (select_where (pending_in other) merged.pending_peer_messages
        ≡ map (move_pending other) (
            select_where
              (λ row. pending_in talk row || pending_in other row)
              db.pending_peer_messages))
    × (select_where (event_in other) merged.events.event_history
        ≡ map
            (move_event other)
            (select_where (λ row. event_in talk row || event_in other row) db.events.event_history))
    × (rows_of talk merged ≡ record no_rows { new_messages = (rows_of talk db).new_messages })
    × ((d : String) → talk ≢ d → other ≢ d → rows_of d merged ≡ rows_of d db)
unfolding rows_of
merge_contact_into_lem_example = merge_contact_into_lem talk other db different

merge_contact_into-IsSound_example : IsSound merged.events
merge_contact_into-IsSound_example = merge_contact_into-IsSound talk other db laptop-IsSound

last_message-eq-last_example :
    IsAscending ⦃o = message_ord⦄ message_key (messages_for_conversation talk db)
    × ((m : MessageRecord)
        → Member m (messages_for_conversation talk db)
          ↔ ((m.conversation_id ≡ talk) × IsStored m db))
    × (last_message_for_conversation talk db ≡ last (messages_for_conversation talk db))
last_message-eq-last_example = last_message-eq-last talk db
