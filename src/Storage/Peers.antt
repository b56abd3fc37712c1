-- ===== src/Storage/Peers.antt =====
-- Contacts, known peers and the messages that wait for a peer, of src/storage.rs.
pub mod Unique
use ciphermesh.Prelude.{
  ℕ, ◌+◌, ◌%◌, ◌^◌, String, Option, some, List, Bool, Ord, pair_ord, string_ord, i64_ord, same,
  ◌&&◌, not, ltb, if◌then◌else◌,
}
use ciphermesh.BTree.{lookup, insert, or_insert, modify, remove}
use ciphermesh.App.{ok, err, storage_error}
use ciphermesh.App.Run.{Run}
use ciphermesh.Storage.Sql.{select_where, count_where, first_row, order_by}
use ciphermesh.Storage.Database.{Database, ContactRecord, KnownPeerRecord, PendingPeerMessage}

unfoldable pub save_contact : ContactRecord → Database → Database
save_contact contact db = record db { contacts = insert contact.contact_id contact db.contacts }

unfoldable pub load_contact : String → Database → Option ContactRecord
load_contact contact_id db = lookup contact_id db.contacts

abbrev pub peer_in : String → String × KnownPeerRecord → Bool
peer_in conversation_id (_, p) = same p.conversation_id conversation_id

-- `conversation_id` is UNIQUE: whether another peer has the one that is to be saved.
abbrev pub clashes : KnownPeerRecord → String × KnownPeerRecord → Bool
clashes peer (id, p) = peer_in peer.conversation_id (id, p) && not (same id peer.peer_id)

-- ON CONFLICT(peer_id) DO UPDATE
unfoldable pub save_known_peer : KnownPeerRecord → Run Database (Unit {0})
unfolding count_where
save_known_peer peer db =
    if ltb 0 (count_where (clashes peer) db.known_peers)
    then (err storage_error, db)
    else (ok tt, record db { known_peers = insert peer.peer_id peer db.known_peers })

-- At most one row, as the column is UNIQUE.
unfoldable pub known_peer_for_conversation : String → Database → Option KnownPeerRecord
unfolding select_where
known_peer_for_conversation conversation_id db =
    first_row (select_where (peer_in conversation_id) db.known_peers)

abbrev pub pending_in : String → String × PendingPeerMessage → Bool
pending_in conversation_id (_, p) = same p.conversation_id conversation_id

unfoldable pub pending_peer_message_count : String → Database → ℕ
unfolding count_where
pending_peer_message_count conversation_id db =
    count_where (pending_in conversation_id) db.pending_peer_messages

unfoldable pub queue_pending_peer_message : PendingPeerMessage → Database → Database
queue_pending_peer_message message db = record db {
  pending_peer_messages = or_insert message.message_id message db.pending_peer_messages;
}

abbrev pub pending_for : String → String × PendingPeerMessage → Bool
pending_for peer_id (_, p) = same p.peer_id peer_id

-- ORDER BY created_at_unix_secs, message_id
abbrev pub pending_ord : Ord (ℕ × String)
pending_ord = pair_ord i64_ord string_ord

abbrev pub pending_key : PendingPeerMessage → ℕ × String
pending_key p = (p.created_at_unix_secs, p.message_id)

unfoldable pub pending_peer_messages_for_peer : String → Database → List PendingPeerMessage
unfolding select_where order_by
pending_peer_messages_for_peer peer_id db =
    order_by ⦃o = pending_ord⦄ pending_key
      (select_where (pending_for peer_id) db.pending_peer_messages)

-- The count is an `i64`; SQLite would make a floating number of a sum past 2 ^ 63 - 1, here it
-- wraps.
abbrev pub attempted : ℕ → PendingPeerMessage → PendingPeerMessage
attempted now p = record p {
  retry_count = (p.retry_count + 1) % 2 ^ 64;
  last_attempt_unix_secs = some now;
}

unfoldable pub record_pending_peer_message_attempt : String → ℕ → Database → Database
record_pending_peer_message_attempt message_id now db = record db {
  pending_peer_messages = modify message_id (attempted now) db.pending_peer_messages;
}

unfoldable pub remove_pending_peer_message : String → Database → Database
remove_pending_peer_message message_id db = record db {
  pending_peer_messages = remove message_id db.pending_peer_messages;
}
