-- ===== src/Storage/Messages.antt =====
-- The messages of src/storage.rs, and which of them are new.
pub mod Sorted
use ciphermesh.Prelude.{
  ℕ, String, Option, none, some, List, [], ◌∷◌, Bool, true, false, ◌&&◌, Ord, pair_ord, string_ord,
  i64_ord, null_first_ord, same, is_some, if◌then◌else◌,
}
use ciphermesh.BTree.{BTreeMap, lookup, or_insert, modify, contains_key}
use ciphermesh.Storage.Sql.{select_where, delete_where, count_where, order_by, greatest}
use ciphermesh.Storage.Database.{
  Database, MessageRecord, MessageStatus, MessageDirection, NewMessage,
}

unfoldable pub insert_message : MessageRecord → Database → Database
insert_message message db = record db {
  messages = or_insert message.message_id message db.messages;
}

unfoldable pub update_message_status : String → MessageStatus → Database → Database
update_message_status message_id status db = record db {
  messages = modify message_id (λ m. record m { status = status }) db.messages;
}

unfoldable pub message_exists : String → Database → Bool
message_exists message_id db = contains_key message_id db.messages

-- ORDER BY created_at_unix_secs, protocol_counter, message_id
abbrev pub message_ord : Ord (ℕ × (Option ℕ × String))
message_ord = pair_ord i64_ord (pair_ord (null_first_ord i64_ord) string_ord)

abbrev pub message_key : MessageRecord → ℕ × (Option ℕ × String)
message_key m = (m.created_at_unix_secs, (m.protocol_counter, m.message_id))

abbrev pub message_in : String → String × MessageRecord → Bool
message_in conversation_id (_, m) = same m.conversation_id conversation_id

unfoldable pub messages_for_conversation : String → Database → List MessageRecord
unfolding select_where order_by
messages_for_conversation conversation_id db =
    order_by ⦃o = message_ord⦄ message_key (select_where (message_in conversation_id) db.messages)

unfoldable pub last_message_for_conversation : String → Database → Option MessageRecord
unfolding select_where greatest
last_message_for_conversation conversation_id db =
    greatest ⦃o = message_ord⦄ message_key (select_where (message_in conversation_id) db.messages)

unfoldable pub mark_message_new : String → String → ℕ → Database → Database
mark_message_new conversation_id message_id now db =
    let row : NewMessage = record {
      conversation_id = conversation_id;
      marked_at_unix_secs = now;
    } in
    record db { new_messages = or_insert message_id row db.new_messages }

abbrev pub new_in : String → String × NewMessage → Bool
new_in conversation_id (_, n) = same n.conversation_id conversation_id

abbrev pub is_received : MessageRecord → Bool
is_received m = elim m.direction [
  | MessageDirection.received ↦ true
  | MessageDirection.sent ↦ false
]

abbrev pub with_received : Option MessageRecord → List MessageRecord → List MessageRecord
with_received none ms = ms
with_received (some m) ms = if is_received m then m ∷ ms else ms

-- new_messages JOIN messages, of those that were received
unfoldable pub joined_new :
    String → BTreeMap String MessageRecord → BTreeMap String NewMessage → List MessageRecord
joined_new conversation_id messages [] = []
joined_new conversation_id messages ((id, n) ∷ rows) =
    let rest = joined_new conversation_id messages rows in
    if new_in conversation_id (id, n) then with_received (lookup id messages) rest else rest

unfoldable pub new_messages_for_conversation : String → Database → List MessageRecord
unfolding joined_new order_by
new_messages_for_conversation conversation_id db =
    order_by ⦃o = message_ord⦄ message_key (joined_new conversation_id db.messages db.new_messages)

-- How many marks are taken away, and the tables without them.
unfoldable pub mark_new_messages_read : String → Database → ℕ × Database
unfolding count_where delete_where
mark_new_messages_read conversation_id db = (
  count_where (new_in conversation_id) db.new_messages,
  record db { new_messages = delete_where (new_in conversation_id) db.new_messages },
)
