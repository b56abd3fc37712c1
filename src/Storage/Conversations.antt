-- ===== src/Storage/Conversations.antt =====
-- The operations of src/storage.rs on a whole conversation: to clear its history, to delete it, and
-- to merge a contact into another one.
pub mod Deleted
pub mod Merged
pub mod Vectors
use ciphermesh.Prelude.{
  ℕ, ◌+◌, String, Option, none, some, List, [], ◌∷◌, Bool, string_ord, same, ltb, if◌then◌else◌,
}
use ciphermesh.BTree.{BTreeMap, lookup, insert, or_insert, remove}
use ciphermesh.Storage.Records.{EventRecord}
use ciphermesh.Storage.Events.{EventTables, vector_key_ord, vector_rows}
use ciphermesh.Storage.Sql.{delete_where, count_where, update_where}
use ciphermesh.Storage.Database.{
  Database, MessageRecord, PendingPeerMessage, SessionRow, ContactRecord,
}
use ciphermesh.Storage.Messages.{message_in, new_in}
use ciphermesh.Storage.Peers.{peer_in, pending_in}

abbrev pub event_in : String → (String × ℕ) × EventRecord → Bool
event_in conversation_id (_, e) = same e.conversation_id conversation_id

abbrev pub vector_in : String → (String × String) × ℕ → Bool
vector_in conversation_id ((c, _), _) = same c conversation_id

abbrev pub session_in : String → String × SessionRow → Bool
session_in conversation_id (c, _) = same c conversation_id

abbrev pub contact_in : String → String × ContactRecord → Bool
contact_in contact_id (c, _) = same c contact_id

-- How many messages were removed, and the tables without them.
unfoldable pub clear_conversation_history : String → Database → ℕ × Database
unfolding delete_where count_where
clear_conversation_history conversation_id db = (
  count_where (message_in conversation_id) db.messages,
  record db {
    messages = delete_where (message_in conversation_id) db.messages;
    new_messages = delete_where (new_in conversation_id) db.new_messages;
  },
)

-- How many rows were removed, and the tables without them.
unfoldable pub delete_conversation : String → Database → ℕ × Database
unfolding delete_where count_where
delete_conversation conversation_id db = (
  count_where (message_in conversation_id) db.messages
      + (count_where (new_in conversation_id) db.new_messages
          + (count_where (pending_in conversation_id) db.pending_peer_messages
              + (count_where (event_in conversation_id) db.events.event_history
                  + (count_where (vector_in conversation_id) db.events.version_vectors
                      + (count_where (session_in conversation_id) db.sessions
                          + (count_where (peer_in conversation_id) db.known_peers
                              + count_where (contact_in conversation_id) db.contacts)))))),
  record db {
    messages = delete_where (message_in conversation_id) db.messages;
    new_messages = delete_where (new_in conversation_id) db.new_messages;
    pending_peer_messages = delete_where (pending_in conversation_id) db.pending_peer_messages;
    events = record db.events {
      event_history = delete_where (event_in conversation_id) db.events.event_history;
      version_vectors = delete_where (vector_in conversation_id) db.events.version_vectors;
    };
    sessions = delete_where (session_in conversation_id) db.sessions;
    known_peers = delete_where (peer_in conversation_id) db.known_peers;
    contacts = delete_where (contact_in conversation_id) db.contacts;
  },
)

-- SET conversation_id = …
abbrev pub move_message : String → MessageRecord → MessageRecord
move_message conversation_id m = record m { conversation_id = conversation_id }

abbrev pub move_pending : String → PendingPeerMessage → PendingPeerMessage
move_pending conversation_id p = record p { conversation_id = conversation_id }

abbrev pub move_event : String → EventRecord → EventRecord
move_event conversation_id e = record e { conversation_id = conversation_id }

-- The session of the old contact goes where the new one has a session, and is renamed otherwise.
abbrev renamed_session :
    String → Option SessionRow → BTreeMap String SessionRow → BTreeMap String SessionRow
renamed_session new none rows = rows
renamed_session new (some row) rows = insert new row rows

unfoldable pub merge_sessions :
    String → String → BTreeMap String SessionRow → BTreeMap String SessionRow
unfolding count_where delete_where
merge_sessions old new rows =
    if ltb 0 (count_where (session_in new) rows)
    then delete_where (session_in old) rows
    else renamed_session new (lookup old rows) (delete_where (session_in old) rows)

-- INSERT OR IGNORE … SELECT
unfoldable pub add_vectors :
    String → List (String × ℕ) → BTreeMap (String × String) ℕ → BTreeMap (String × String) ℕ
add_vectors new [] rows = rows
add_vectors new ((device, n) ∷ found) rows = add_vectors new found (or_insert (new, device) n rows)

unfoldable pub merge_events : String → String → EventTables → EventTables
unfolding update_where delete_where add_vectors vector_rows
merge_events old new t = record t {
  event_history = update_where (event_in old) (move_event new) t.event_history;
  version_vectors =
      delete_where (vector_in old)
        (add_vectors new (vector_rows old t.version_vectors) t.version_vectors);
}

abbrev merge_other_contact : String → String → Database → Database
merge_other_contact old new db = record db {
  messages = update_where (message_in old) (move_message new) db.messages;
  pending_peer_messages = update_where (pending_in old) (move_pending new) db.pending_peer_messages;
  events = merge_events old new db.events;
  sessions = merge_sessions old new db.sessions;
  known_peers = delete_where (peer_in old) db.known_peers;
  contacts = delete_where (contact_in old) db.contacts;
}

unfoldable pub merge_contact_into : String → String → Database → Database
unfolding update_where delete_where merge_events merge_sessions
merge_contact_into old_contact_id new_contact_id db =
    if same old_contact_id new_contact_id
    then db
    else merge_other_contact old_contact_id new_contact_id db
