-- ===== src/Storage/Outbox.antt =====
-- The outbox, the sessions and the local identities of src/storage.rs, with the transactions that
-- write several tables.
use ciphermesh.Prelude.{
  ℕ, ◌+◌, ◌%◌, ◌^◌, String, Option, none, some, List, Bool, true, false, Ord, pair_ord, string_ord,
  i64_ord, map_some,
}
use ciphermesh.BTree.{lookup, insert, upsert, modify}
use ciphermesh.Storage.Sql.{select_where, order_by}
use ciphermesh.Storage.Database.{
  Database, MessageRecord, OutboxItem, OutboxStatus, LocalIdentity, SessionRow, PairSession,
}
use ciphermesh.Storage.Messages.{insert_message}

unfoldable pub save_local_identity : String → String → List ℕ → ℕ → Database → Database
save_local_identity id role state now db =
    let row : LocalIdentity = record { role = role; state = state; updated_at_unix_secs = now } in
    record db { local_identity = insert id row db.local_identity }

unfoldable pub load_local_identity : String → Database → Option (List ℕ)
load_local_identity id db = map_some (λ row. LocalIdentity.state row) (lookup id db.local_identity)

unfoldable pub save_session : String → String → String → List ℕ → ℕ → Database → Database
save_session conversation_id peer_id role state now db =
    let row : SessionRow = record {
      peer_id = peer_id;
      role = role;
      state = state;
      updated_at_unix_secs = now;
    } in
    record db { sessions = insert conversation_id row db.sessions }

unfoldable pub load_session : String → Database → Option (List ℕ)
load_session conversation_id db =
    map_some (λ row. SessionRow.state row) (lookup conversation_id db.sessions)

instance abbrev pub pair_session_ord : Ord (String × String)
pair_session_ord = pair_ord string_ord string_ord

unfoldable pub save_device_pair_session : String → String → List ℕ → ℕ → Database → Database
save_device_pair_session local_device_id remote_device_id state now db =
    let row : PairSession = record { state = state; updated_at_unix_secs = now } in
    record db {
      device_pair_sessions = insert (local_device_id, remote_device_id) row db.device_pair_sessions;
    }

unfoldable pub load_device_pair_session : String → String → Database → Option (List ℕ)
load_device_pair_session local_device_id remote_device_id db =
    map_some (λ row. PairSession.state row)
      (lookup (local_device_id, remote_device_id) db.device_pair_sessions)

-- ON CONFLICT the times and the count of a known item stay.
abbrev pub outbox_row : OutboxItem → Option OutboxItem → OutboxItem
outbox_row item none = item
outbox_row item (some old) = record old {
  recipient_id = item.recipient_id;
  payload = item.payload;
  status = item.status;
}

abbrev pub save_outbox_item : OutboxItem → Database → Database
save_outbox_item item db = record db { outbox = upsert item.message_id (outbox_row item) db.outbox }

unfoldable pub save_state_session_and_insert_message :
    String
    → String
    → List ℕ
    → String
    → String
    → String
    → List ℕ
    → MessageRecord
    → ℕ
    → Database
    → Database
unfolding save_local_identity save_session insert_message
save_state_session_and_insert_message id role state conversation_id peer_id session_role
      session_state message now db =
    insert_message message (
      save_session conversation_id peer_id session_role session_state now
        (save_local_identity id role state now db))

unfoldable pub save_state_session_message_and_outbox :
    String
    → String
    → List ℕ
    → String
    → String
    → String
    → List ℕ
    → MessageRecord
    → OutboxItem
    → ℕ
    → Database
    → Database
unfolding save_state_session_and_insert_message
save_state_session_message_and_outbox id role state conversation_id peer_id session_role
      session_state message item now db =
    save_outbox_item item (
      save_state_session_and_insert_message id role state conversation_id peer_id session_role
        session_state message now db)

unfoldable pub save_device_pair_session_and_outbox :
    String → String → List ℕ → OutboxItem → ℕ → Database → Database
unfolding save_device_pair_session
save_device_pair_session_and_outbox local_device_id remote_device_id session_state item now db =
    save_outbox_item item
      (save_device_pair_session local_device_id remote_device_id session_state now db)

abbrev pub outbox_ord : Ord (ℕ × String)
outbox_ord = pair_ord i64_ord string_ord

abbrev pub outbox_key : OutboxItem → ℕ × String
outbox_key item = (item.created_at_unix_secs, item.message_id)

abbrev pub is_outbox_pending : OutboxItem → Bool
is_outbox_pending item = elim item.status [
  | OutboxStatus.pending ↦ true
  | OutboxStatus.delivered ↦ false
]

unfoldable pub pending_outbox_items : Database → List OutboxItem
unfolding select_where order_by
pending_outbox_items db =
    order_by ⦃o = outbox_ord⦄ outbox_key (select_where (λ row. is_outbox_pending row.1) db.outbox)

unfoldable pub outbox_item : String → Database → Option OutboxItem
outbox_item message_id db = lookup message_id db.outbox

-- The count is an `i64`; SQLite would make a floating number of a sum past 2 ^ 63 - 1, here it
-- wraps.
abbrev pub outbox_attempted : ℕ → OutboxItem → OutboxItem
outbox_attempted now item = record item {
  retry_count = (item.retry_count + 1) % 2 ^ 64;
  last_attempt_unix_secs = some now;
}

unfoldable pub record_outbox_attempt : String → ℕ → Database → Database
record_outbox_attempt message_id now db = record db {
  outbox = modify message_id (outbox_attempted now) db.outbox;
}

abbrev pub outbox_delivered : ℕ → OutboxItem → OutboxItem
outbox_delivered now item = record item {
  status = OutboxStatus.delivered;
  last_attempt_unix_secs = some now;
}

unfoldable pub mark_outbox_delivered : String → ℕ → Database → Database
mark_outbox_delivered message_id now db = record db {
  outbox = modify message_id (outbox_delivered now) db.outbox;
}
