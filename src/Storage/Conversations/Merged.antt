-- ===== src/Storage/Conversations/Merged.antt =====
-- What merge_contact_into (src/storage.rs) moves from a conversation to another, and what it leaves.
use ciphermesh.Prelude.{
  ℕ, String, List, [], ◌∷◌, map, true, false, ◌||◌, ◌≡◌, ◌≢◌, refl, sym, ◌∙◌, arith, same,
  same_self, eq_of_same, Bool-cases, Option-cases, inl, inr, string_ord, ltb,
}
use ciphermesh.BTree.{BTreeMap, lookup, or_insert, upsert}
use ciphermesh.Storage.Events.{EventTables, vector_key_ord, vector_rows}
use ciphermesh.Storage.Sql.{select_where, delete_where, count_where}
use ciphermesh.Storage.Sql.Laws.{
  select-delete_self, select-delete_other, select-update_other, select-update_self,
  select-update_moved, select-upsert_other,
}
use ciphermesh.Storage.Database.{Database, SessionRow}
use ciphermesh.Storage.Messages.{message_in, new_in}
use ciphermesh.Storage.Peers.{peer_in, pending_in}
use ciphermesh.Storage.Conversations.{
  event_in, session_in, contact_in, add_vectors, merge_events, merge_sessions, move_message,
  move_pending, move_event, merge_contact_into,
}
use ciphermesh.Storage.Conversations.Deleted.{
  rows_of, no_rows, apart, vector_rows-delete_self, vector_rows-delete_other,
}

vector_rows-or_insert_other :
    (new d device : String) (n : ℕ) (rows : BTreeMap (String × String) ℕ)
    → new ≢ d
    → vector_rows d (or_insert (new, device) n rows) ≡ vector_rows d rows
unfolding vector_rows upsert
vector_rows-or_insert_other new d device n [] differ = ground (arith, eq_of_same new d)
vector_rows-or_insert_other new d device n (((x, y), m) ∷ rows) differ = ground (
  arith,
  vector_key_ord.eq_of_cmp (new, device) (x, y),
  eq_of_same new d,
  vector_rows-or_insert_other new d device n rows differ,
)

module _ (old new : String) (differ : old ≢ new) where
  not_same : same old new ≡ false
  not_same = ground (arith, eq_of_same old new)

  not_same' : same new old ≡ false
  not_same' = ground (arith, eq_of_same new old)

  merge_sessions_old :
      (rows : BTreeMap String SessionRow)
      → select_where (session_in old) (merge_sessions old new rows) ≡ []
  unfolding merge_sessions
  merge_sessions_old rows = elim (Bool-cases (ltb 0 (count_where (session_in new) rows))) [
    | inl has ↦ rw has (select-delete_self (session_in old) rows)
    | inr free ↦ elim (Option-cases (lookup old rows)) [
      | inl absent ↦ rw (free, absent) (select-delete_self (session_in old) rows)
      | inr (row, found) ↦
          rw (free, found)
            (select-upsert_other (session_in old) new (λ _. row)
                (delete_where (session_in old) rows) (λ _. not_same')
              ∙ select-delete_self (session_in old) rows)
    ]
  ]

  module _ (d : String) (not_old : old ≢ d) (not_new : new ≢ d) where
    merge_sessions_other :
        (rows : BTreeMap String SessionRow)
        → select_where (session_in d) (merge_sessions old new rows)
          ≡ select_where (session_in d) rows
    unfolding merge_sessions
    merge_sessions_other rows =
        let deleted =
          select-delete_other (session_in old) (session_in d) rows
            (λ row. apart old d not_old row.0) in
        elim (Bool-cases (ltb 0 (count_where (session_in new) rows))) [
          | inl has ↦ rw has deleted
          | inr free ↦ elim (Option-cases (lookup old rows)) [
            | inl absent ↦ rw (free, absent) deleted
            | inr (row, found) ↦
                rw (free, found)
                  (select-upsert_other (session_in d) new (λ _. row)
                      (delete_where (session_in old) rows) (λ _. ground (arith, eq_of_same new d))
                    ∙ deleted)
          ]
        ]

    vector_rows-add_other :
        (found : List (String × ℕ)) (rows : BTreeMap (String × String) ℕ)
        → vector_rows d (add_vectors new found rows) ≡ vector_rows d rows
    unfolding add_vectors
    vector_rows-add_other [] rows = refl
    vector_rows-add_other ((device, n) ∷ found) rows =
        vector_rows-add_other found (or_insert (new, device) n rows)
        ∙ vector_rows-or_insert_other new d device n rows not_new

    d_not_old : (x : String) → same x old ≡ true → same x d ≡ false
    d_not_old = apart d old (λ e. not_old (sym e))

    new_not_d : same new d ≡ false
    new_not_d = ground (arith, eq_of_same new d)

    vectors_other :
        (t : EventTables)
        → vector_rows d (merge_events old new t).version_vectors ≡ vector_rows d t.version_vectors
    unfolding merge_events
    vectors_other t =
        vector_rows-delete_other old d not_old
          (add_vectors new (vector_rows old t.version_vectors) t.version_vectors)
        ∙ vector_rows-add_other (vector_rows old t.version_vectors) t.version_vectors

    events_other :
        (t : EventTables)
        → select_where (event_in d) (merge_events old new t).event_history
          ≡ select_where (event_in d) t.event_history
    unfolding merge_events
    events_other t =
        select-update_other (event_in old) (move_event new) (event_in d) t.event_history
          (λ k e. d_not_old e.conversation_id) (λ k e h. new_not_d)

    -- A conversation that is neither of the two keeps all its rows.
    rows_of-merge_other : (db : Database) → rows_of d (merge_contact_into old new db) ≡ rows_of d db
    unfolding rows_of merge_contact_into
    rows_of-merge_other db = rw not_same (λ i. record {
      messages =
          select-update_other (message_in old) (move_message new) (message_in d) db.messages
            (λ k m. d_not_old m.conversation_id) (λ k m h. new_not_d) i;
      new_messages = select_where (new_in d) db.new_messages;
      pending =
          select-update_other (pending_in old) (move_pending new) (pending_in d)
            db.pending_peer_messages (λ k p. d_not_old p.conversation_id) (λ k p h. new_not_d) i;
      events = events_other db.events i;
      vectors = vectors_other db.events i;
      sessions = merge_sessions_other db.sessions i;
      known_peers =
          select-delete_other (peer_in old) (peer_in d) db.known_peers
            (λ row. apart old d not_old row.1.conversation_id) i;
      contacts =
          select-delete_other (contact_in old) (contact_in d) db.contacts
            (λ row. apart old d not_old row.0) i;
    })

  events_old :
      (t : EventTables) → select_where (event_in old) (merge_events old new t).event_history ≡ []
  unfolding merge_events
  events_old t =
      select-update_self (event_in old) (move_event new) t.event_history (λ k e. not_same')

  vectors_old : (t : EventTables) → vector_rows old (merge_events old new t).version_vectors ≡ []
  unfolding merge_events
  vectors_old t =
      vector_rows-delete_self old
        (add_vectors new (vector_rows old t.version_vectors) t.version_vectors)

  -- The old conversation keeps the marks of its new messages, and nothing else.
  rows_of-merge_old :
      (db : Database)
      → rows_of old (merge_contact_into old new db)
        ≡ record no_rows { new_messages = select_where (new_in old) db.new_messages }
  unfolding rows_of merge_contact_into
  rows_of-merge_old db = rw not_same (λ i. record {
    messages =
        select-update_self (message_in old) (move_message new) db.messages (λ k m. not_same') i;
    new_messages = select_where (new_in old) db.new_messages;
    pending =
        select-update_self (pending_in old) (move_pending new) db.pending_peer_messages
          (λ k p. not_same') i;
    events = events_old db.events i;
    vectors = vectors_old db.events i;
    sessions = merge_sessions_old db.sessions i;
    known_peers = select-delete_self (peer_in old) db.known_peers i;
    contacts = select-delete_self (contact_in old) db.contacts i;
  })

  messages_merged :
      (db : Database)
      → select_where (message_in new) (merge_contact_into old new db).messages
        ≡ map
            (move_message new)
            (select_where (λ row. message_in old row || message_in new row) db.messages)
  unfolding merge_contact_into
  messages_merged db = rw not_same (
      select-update_moved (message_in old) (move_message new) (message_in new) db.messages
        (λ k m. same_self new)
        (λ k m h i. record m { conversation_id = sym (eq_of_same m.conversation_id new h) i }))

  pending_merged :
      (db : Database)
      → select_where (pending_in new) (merge_contact_into old new db).pending_peer_messages
        ≡ map (move_pending new) (
            select_where (λ row. pending_in old row || pending_in new row) db.pending_peer_messages)
  unfolding merge_contact_into
  pending_merged db = rw not_same (
      select-update_moved (pending_in old) (move_pending new) (pending_in new)
        db.pending_peer_messages (λ k p. same_self new)
        (λ k p h i. record p { conversation_id = sym (eq_of_same p.conversation_id new h) i }))

  events_merged :
      (db : Database)
      → select_where (event_in new) (merge_contact_into old new db).events.event_history
        ≡ map
            (move_event new)
            (select_where (λ row. event_in old row || event_in new row) db.events.event_history)
  unfolding merge_contact_into merge_events
  events_merged db = rw not_same (
      select-update_moved (event_in old) (move_event new) (event_in new) db.events.event_history
        (λ k e. same_self new)
        (λ k e h i. record e { conversation_id = sym (eq_of_same e.conversation_id new h) i }))

-- Merging a contact into another one moves the old conversation's messages, waiting messages and
-- events to the new one, beside those that it has; the old conversation keeps no row but the marks
-- of its new messages, which are not moved; and every other conversation keeps all its rows.
pub merge_contact_into_lem :
    (old new : String) (db : Database)
    → old ≢ new
    → let db' = merge_contact_into old new db in
      (select_where (message_in new) db'.messages
        ≡ map
            (move_message new)
            (select_where (λ row. message_in old row || message_in new row) db.messages))
      × (select_where (pending_in new) db'.pending_peer_messages
          ≡ map (move_pending new) (
              select_where
                (λ row. pending_in old row || pending_in new row)
                db.pending_peer_messages))
      × (select_where (event_in new) db'.events.event_history
          ≡ map
              (move_event new)
              (select_where (λ row. event_in old row || event_in new row) db.events.event_history))
      × (rows_of old db'
          ≡ record no_rows { new_messages = select_where (new_in old) db.new_messages })
      × ((d : String) → old ≢ d → new ≢ d → rows_of d db' ≡ rows_of d db)
merge_contact_into_lem old new db differ = (
  messages_merged old new differ db,
  pending_merged old new differ db,
  events_merged old new differ db,
  rows_of-merge_old old new differ db,
  λ d not_old not_new. rows_of-merge_other old new differ d not_old not_new db,
)
