-- ===== src/Storage/Conversations/Deleted.antt =====
-- What delete_conversation (src/storage.rs) takes away, and what it leaves.
use ciphermesh.Prelude.{
  ℕ, ◌+◌, String, List, [], ◌∷◌, true, false, ◌≡◌, ◌≢◌, refl, arith, length, same, eq_of_same,
  string_ord,
}
use ciphermesh.BTree.{BTreeMap}
use ciphermesh.Storage.Records.{EventRecord}
use ciphermesh.Storage.Events.{vector_rows}
use ciphermesh.Storage.Sql.{select_where, delete_where}
use ciphermesh.Storage.Sql.Laws.{select-delete_self, select-delete_other, length-delete}
use ciphermesh.Storage.Database.{
  Database, MessageRecord, NewMessage, PendingPeerMessage, SessionRow, KnownPeerRecord,
  ContactRecord,
}
use ciphermesh.Storage.Messages.{message_in, new_in}
use ciphermesh.Storage.Peers.{peer_in, pending_in}
use ciphermesh.Storage.Conversations.{
  event_in, vector_in, session_in, contact_in, delete_conversation,
}

-- All that the tables hold of a conversation.
pub record ConversationRows : Type 0 where
  pub messages : List MessageRecord
  pub new_messages : List NewMessage
  pub pending : List PendingPeerMessage
  pub events : List EventRecord
  pub vectors : List (String × ℕ)
  pub sessions : List SessionRow
  pub known_peers : List KnownPeerRecord
  pub contacts : List ContactRecord

unfoldable pub rows_of : String → Database → ConversationRows
unfolding select_where vector_rows
rows_of c db = record {
  messages = select_where (message_in c) db.messages;
  new_messages = select_where (new_in c) db.new_messages;
  pending = select_where (pending_in c) db.pending_peer_messages;
  events = select_where (event_in c) db.events.event_history;
  vectors = vector_rows c db.events.version_vectors;
  sessions = select_where (session_in c) db.sessions;
  known_peers = select_where (peer_in c) db.known_peers;
  contacts = select_where (contact_in c) db.contacts;
}

abbrev pub no_rows : ConversationRows
no_rows = record {
  messages = [];
  new_messages = [];
  pending = [];
  events = [];
  vectors = [];
  sessions = [];
  known_peers = [];
  contacts = [];
}

-- How many rows the eight tables have.
abbrev pub row_count : Database → ℕ
row_count db =
    length db.messages
    + (length db.new_messages
        + (length db.pending_peer_messages
            + (length db.events.event_history
                + (length db.events.version_vectors
                    + (length db.sessions + (length db.known_peers + length db.contacts))))))

-- What the deletion does not touch.
abbrev pub SameElsewhere : Database → Database → Type 0
SameElsewhere db db' =
    (db'.local_identity ≡ db.local_identity)
    × (db'.device_pair_sessions ≡ db.device_pair_sessions)
    × (db'.outbox ≡ db.outbox)
    × (db'.accepted_messages ≡ db.accepted_messages)
    × (db'.events.device_counters ≡ db.events.device_counters)

pub vector_rows-delete_self :
    (c : String) (m : BTreeMap (String × String) ℕ)
    → vector_rows c (delete_where (vector_in c) m) ≡ []
unfolding vector_rows delete_where
vector_rows-delete_self c [] = refl
vector_rows-delete_self c (((d, x), n) ∷ m) = ground (arith, vector_rows-delete_self c m)

module _ (c d : String) (differ : c ≢ d) where
  pub apart : (x : String) → same x d ≡ true → same x c ≡ false
  apart x h = ground (arith, eq_of_same x d, eq_of_same x c)

  pub vector_rows-delete_other :
      (m : BTreeMap (String × String) ℕ)
      → vector_rows d (delete_where (vector_in c) m) ≡ vector_rows d m
  unfolding vector_rows delete_where
  vector_rows-delete_other [] = refl
  vector_rows-delete_other (((x, y), n) ∷ m) = ground (arith, apart x, vector_rows-delete_other m)

  rows_of-delete_other : (db : Database) → rows_of d (delete_conversation c db).1 ≡ rows_of d db
  unfolding rows_of delete_conversation
  rows_of-delete_other db = λ i. record {
    messages =
        select-delete_other (message_in c) (message_in d) db.messages
          (λ row. apart row.1.conversation_id) i;
    new_messages =
        select-delete_other (new_in c) (new_in d) db.new_messages
          (λ row. apart row.1.conversation_id) i;
    pending =
        select-delete_other (pending_in c) (pending_in d) db.pending_peer_messages
          (λ row. apart row.1.conversation_id) i;
    events =
        select-delete_other (event_in c) (event_in d) db.events.event_history
          (λ row. apart row.1.conversation_id) i;
    vectors = vector_rows-delete_other db.events.version_vectors i;
    sessions = select-delete_other (session_in c) (session_in d) db.sessions (λ row. apart row.0) i;
    known_peers =
        select-delete_other (peer_in c) (peer_in d) db.known_peers
          (λ row. apart row.1.conversation_id) i;
    contacts = select-delete_other (contact_in c) (contact_in d) db.contacts (λ row. apart row.0) i;
  }

rows_of-delete_self :
    (c : String) (db : Database) → rows_of c (delete_conversation c db).1 ≡ no_rows
unfolding rows_of delete_conversation
rows_of-delete_self c db = simp (select-delete_self, vector_rows-delete_self)

row_count-delete :
    (c : String) (db : Database)
    → row_count db ≡ (delete_conversation c db).0 + row_count (delete_conversation c db).1
unfolding delete_conversation
row_count-delete c db = omega (
  arith,
  length-delete (message_in c) db.messages,
  length-delete (new_in c) db.new_messages,
  length-delete (pending_in c) db.pending_peer_messages,
  length-delete (event_in c) db.events.event_history,
  length-delete (vector_in c) db.events.version_vectors,
  length-delete (session_in c) db.sessions,
  length-delete (peer_in c) db.known_peers,
  length-delete (contact_in c) db.contacts,
)

SameElsewhere-delete : (c : String) (db : Database) → SameElsewhere db (delete_conversation c db).1
unfolding delete_conversation
SameElsewhere-delete c db = (refl, refl, refl, refl, refl)

-- After `delete_conversation` no table of conversations has a row of the conversation, all that the
-- tables hold of every other conversation is as it was, the number that is returned is that of the
-- rows that went, and the identities, the outbox, the accepted messages, the sessions of devices and
-- the counters of events stay.
pub delete_conversation_lem :
    (c : String) (db : Database)
    → (rows_of c (delete_conversation c db).1 ≡ no_rows)
      × ((d : String) → c ≢ d → rows_of d (delete_conversation c db).1 ≡ rows_of d db)
      × (row_count db ≡ (delete_conversation c db).0 + row_count (delete_conversation c db).1)
      × SameElsewhere db (delete_conversation c db).1
delete_conversation_lem c db = (
  rows_of-delete_self c db,
  λ d differ. rows_of-delete_other c d differ db,
  row_count-delete c db,
  SameElsewhere-delete c db,
)
