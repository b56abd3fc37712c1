-- ===== src/Chat/Delivery.antt =====
-- A message from one chat of src/pairing.rs to the other: `prepare_alice_frame` on Alice's side and
-- `handle_bob_pairing_app_event` on Bob's.
use ciphermesh.Prelude.{
  ℕ, ◌+◌, ◌-◌, ◌^◌, ◌<◌, ◌≤◌, String, Option, none, some, List, [], ◌∷◌, ◌++◌, ◌≡◌, refl, ap, ◌∙◌,
  true, false, arith, get_or, length, nat_ord, string_ord, same_self, Option-cases, inl, inr,
}
use ciphermesh.BTree.{BTreeMap, lookup, contains_key}
use ciphermesh.BTree.Laws.{lookup-upsert_self}
use ciphermesh.Crypto
use ciphermesh.Crypto.{Crypto}
use ciphermesh.Crypto.Utf8.{is_utf8}
use ciphermesh.App.{ok}
use ciphermesh.Ratchet.State.{RatchetSession, Session, RatchetMessage, encrypt}
use ciphermesh.Ratchet.Receive.{decrypt}
use ciphermesh.Ratchet.Chains.{RatchetLaws}
use ciphermesh.Ratchet.Agreement.{Linked}
use ciphermesh.Ratchet.Exchange.{decrypt-encrypt}
use ciphermesh.Handshake.States.{BobState, bob_export_state}
use ciphermesh.Handshake.Parties.{
  Alice, Bob, on_bob, with_session, encrypt_for_bob, decrypt_from_alice,
}
use ciphermesh.Storage.Database.{Database, MessageRecord, MessageDirection}
use ciphermesh.Storage.Accepted.{accept_message_once}
use ciphermesh.Storage.Outbox.{save_local_identity}
use ciphermesh.Storage.Messages.{insert_message, message_exists}
use ciphermesh.Chat.Names.{display_name_or_anonymous, remote_sender_label}
use ciphermesh.Chat.Records.{
  ChatFrame, message, ChatCodec, ChatParty, PairingChatContext, Chat, chat_frame, acknowledged,
  printed,
}
use ciphermesh.Chat.Frames.{Clock, save_identity, accept_frame, receive_frame, handle_app_event}
use ciphermesh.Chat.Entries.{received_entry, record_of_entry, persist_chat_message}
use ciphermesh.Chat.Loop.{prepare_alice_frame, alice_party, bob_party, handle_bob_pairing_app_event}
use ciphermesh.Chat.Prepared.{prepared, on_alice-some}

-- The message as the chat saves it.
pub record Holds (context : PairingChatContext) (sender id : String) (text : List ℕ) (db : Database)
    : Type 0 where
  pub row : MessageRecord
  pub there : lookup id db.messages ≡ some row
  pub plaintext : row.plaintext ≡ some text
  pub direction : row.direction ≡ MessageDirection.received
  pub conversation : row.conversation_id ≡ context.conversation_id
  pub sender_shown : row.sender_id ≡ display_name_or_anonymous sender

module _ {S : Type 0} (crypto : Crypto) (codec : ChatCodec) (party : ChatParty S) where
  absent :
      (id : String) (m : BTreeMap String MessageRecord)
      → contains_key id m ≡ false
      → lookup id m ≡ none
  absent id m h = elim (Option-cases (lookup id m)) [
    | inl e ↦ e
    | inr (v, e) ↦ absurd (ground arith)
  ]

  persist-Holds :
      (context : PairingChatContext) (bytes : List ℕ) (id sender : String) (m : RatchetMessage)
      (text : List ℕ) (now : ℕ) (db : Database)
      → contains_key id db.messages ≡ false
      → Holds context sender id text
          (persist_chat_message crypto (received_entry context bytes id sender m text) now db)
  unfolding persist_chat_message insert_message
  persist-Holds context bytes id sender m text now db fresh =
      let row = record_of_entry crypto (received_entry context bytes id sender m text) now in
      record {
        row = row;
        there =
            lookup-upsert_self id (get_or row) db.messages
            ∙ ap (λ (o : Option MessageRecord). some (get_or row o)) (absent id db.messages fresh);
        plaintext = refl;
        direction = refl;
        conversation = refl;
        sender_shown = refl;
      }

  module _ (context : PairingChatContext) (now : Clock) (bytes : List ℕ) (id sender : String)
      (m : RatchetMessage) (text state : List ℕ) (s : Chat S) (p : S) where
    -- The chat after it has taken the frame.
    abbrev kept_state : Database
    kept_state = save_local_identity party.identity_slot party.role_name state (now 0) s.db

    abbrev saved_message : Database
    saved_message =
        persist_chat_message crypto (received_entry context bytes id sender m text) (now 1)
          kept_state

    abbrev taken : Chat S
    taken = record {
      party = p;
      db = record saved_message {
        accepted_messages = (accept_message_once id (now 2) saved_message.accepted_messages).1;
      };
      output =
          (s.output ++ printed (remote_sender_label sender context.remote_display_name) text ∷ [])
          ++ acknowledged id ∷ [];
    }

    receive-taken :
        party.decrypt_from_peer m s.party ≡ (Crypto.ok text, p)
        → party.serialize_state p ≡ some state
        → contains_key id s.db.messages ≡ false
        → codec.deserialize_frame bytes ≡ some (message id sender m)
        → receive_frame crypto codec party context now bytes s ≡ (ok tt, taken)
    unfolding receive_frame accept_frame save_identity message_exists
    receive-taken opens writes fresh reads = rw (reads, fresh, opens, writes) refl

    taken-Holds : contains_key id s.db.messages ≡ false → Holds context sender id text taken.db
    unfolding save_local_identity
    taken-Holds fresh =
        let held = persist-Holds context bytes id sender m text (now 1) kept_state fresh in
        record {
          row = held.row;
          there = held.there;
          plaintext = held.plaintext;
          direction = held.direction;
          conversation = held.conversation;
          sender_shown = held.sender_shown;
        }

on_bob-some :
    {A : Type 0} (f : Session A) (p : Bob) (s t : RatchetSession) (v : A)
    → p.session ≡ some s
    → f s ≡ (Crypto.ok v, t)
    → on_bob f p ≡ (Crypto.ok v, record p { session = some t })
on_bob-some f p s t v e h =
    ap (λ o. ((with_session f o).0, record p { session = (with_session f o).1 })) e
    ∙ ap (λ (r : Crypto.Result _ × RatchetSession). (r.0, record p { session = some r.1 })) h

-- A text that Alice prepares a frame for, with sessions that belong together, is read by Bob from
-- the bytes of the frame: he saves it, prints it, acknowledges it, in this order, and the sessions
-- still belong together. The message id is not saved at Bob's yet, the number is new to his
-- session, at most eight keys have to be kept, and `bincode` reads the frames that it writes and
-- can write Bob's state.
pub text_delivered :
    (crypto : Crypto) (laws : RatchetLaws crypto) (codec : ChatCodec)
    (target local remote c id : String) (text bytes : List ℕ) (known : Option String)
    (context : PairingChatContext) (now later : Clock) (a a' : Chat Alice) (b : Chat Bob)
    (sa sb : RatchetSession)
    → ((f : ChatFrame) (bs : List ℕ)
        → codec.serialize_frame f ≡ some bs
        → codec.deserialize_frame bs ≡ some f)
    → ((st : BobState) → (bs : List ℕ) × (codec.serialize_bob st ≡ some bs))
    → a.party.session ≡ some sa
    → b.party.session ≡ some sb
    → Linked crypto laws sa sb
    → sa.send_count + 1 < 2 ^ 64
    → contains_key sa.send_count sb.consumed_message_numbers ≡ false
    → (sa.send_count - sb.recv_count) + length sb.skipped_message_keys ≤ 8
    → is_utf8 text ≡ true
    → prepare_alice_frame crypto codec local remote c text known now a ≡ (ok (id, bytes), a')
    → contains_key id b.db.messages ≡ false
    → (b' : Chat Bob) × (sa' : RatchetSession) × (sb' : RatchetSession)
      × (handle_bob_pairing_app_event crypto codec target context later (chat_frame target bytes) b
          ≡ (ok tt, b'))
      × Holds context local id text b'.db
      × (b'.output
          ≡ (b.output ++ printed (remote_sender_label local context.remote_display_name) text ∷ [])
            ++ acknowledged id ∷ [])
      × (a'.party.session ≡ some sa')
      × (b'.party.session ≡ some sb')
      × Linked crypto laws sa' sb'
unfolding prepare_alice_frame encrypt_for_bob decrypt_from_alice handle_bob_pairing_app_event
    handle_app_event
text_delivered crypto laws codec target local remote c id text bytes known context now later a a' b
      sa sb reads writes ea eb linked room fresh few utf8 sent unsaved =
    let p =
      prepared crypto codec (alice_party crypto codec) local remote c text known now id bytes a a'
        sent in
    let (sealed, ea') =
      on_alice-some (encrypt crypto text) a.party a'.party sa p.sealed ea p.encrypted in
    let (sb', opened, linked') =
      decrypt-encrypt crypto laws text sa (encrypt crypto text sa).1 sb p.sealed linked room sealed
        fresh few utf8 in
    let q = record (b.party) { session = some sb' } in
    let (state, written) = writes (bob_export_state q) in
    let b' =
      taken crypto codec (bob_party crypto codec) context later bytes id local p.sealed text state b
        q in
    let runs =
      receive-taken crypto codec (bob_party crypto codec) context later bytes id local p.sealed text
        state b q (on_bob-some (decrypt crypto p.sealed) b.party sb sb' text eb opened) written
        unsaved (reads _ bytes p.frame) in
    (
      b',
      (encrypt crypto text sa).1,
      sb',
      rw (same_self target) runs,
      taken-Holds crypto codec (bob_party crypto codec) context later bytes id local p.sealed text
          state b q unsaved,
      refl,
      ea',
      refl,
      linked',
    )
