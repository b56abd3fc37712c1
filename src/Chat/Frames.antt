-- ===== src/Chat/Frames.antt =====
-- Sending and receiving in a chat of src/main.rs and src/pairing.rs, over `Alice` or `Bob`.
use ciphermesh.Prelude.{
  ℕ, ◌+◌, String, Option, none, some, List, [], ◌∷◌, ◌++◌, Bool, true, false, get_or, same,
  string_ord, if◌then◌else◌,
}
use ciphermesh.Crypto.{Crypto}
use ciphermesh.App.{from_crypto, from_codec}
use ciphermesh.App.Run.{Run, pure, lift, gets, update, ◌>>=◌, ◌>>◌}
use ciphermesh.Ratchet.State.{RatchetMessage}
use ciphermesh.Storage.Database.{Database, MessageDirection, MessageStatus, PendingPeerMessage}
use ciphermesh.Storage.Accepted.{accept_message_once}
use ciphermesh.Storage.Messages.{update_message_status, message_exists}
use ciphermesh.Storage.Peers.{
  queue_pending_peer_message, pending_peer_messages_for_peer, record_pending_peer_message_attempt,
  remove_pending_peer_message,
}
use ciphermesh.Storage.Outbox.{save_local_identity}
use ciphermesh.Chat.Names.{remote_sender_label}
use ciphermesh.Chat.Records.{
  ChatFrame, message, ack, ChatCodec, ChatParty, PairingChatContext, Output, request, acknowledged,
  printed, Chat, AppEvent, chat_frame, ack_response, outbound_failure, other,
}
use ciphermesh.Chat.Entries.{sent_entry, received_entry, persist_chat_message}
use ciphermesh.Chat.Peers.{chat_message_id, pending_peer_id_for_conversation}

-- The `i`-th time that a call reads the clock.
abbrev pub Clock : Type 0
Clock = ℕ → ℕ

abbrev pub later : ℕ → Clock → Clock
later n now i = now (i + n)

unfoldable pub mark_delivered_if_pending : String → Database → Database
unfolding remove_pending_peer_message update_message_status
mark_delivered_if_pending message_id db =
    update_message_status message_id MessageStatus.sent (remove_pending_peer_message message_id db)

module _ {S : Type 0} (crypto : Crypto) (codec : ChatCodec) (party : ChatParty S) where
  open codec use {serialize_frame, deserialize_frame, serialize_message}
  open party use {encrypt_for_peer, decrypt_from_peer, serialize_state, identity_slot, role_name}

  abbrev pub on_db : (Database → Database) → Run (Chat S) (Unit {0})
  on_db f = update (λ s. record s { db = f s.db })

  abbrev pub emit : Output → Run (Chat S) (Unit {0})
  emit o = update (λ s. record s { output = s.output ++ o ∷ [] })

  -- `save_alice_identity`, `save_bob_identity`
  unfoldable pub save_identity : ℕ → Run (Chat S) (Unit {0})
  unfolding save_local_identity
  save_identity now = do
    state ← gets (λ s. serialize_state s.party)
    bytes ← lift (from_codec state)
    on_db (save_local_identity identity_slot role_name bytes now)

  abbrev pub encrypt_text : List ℕ → Run (Chat S) RatchetMessage
  encrypt_text text s =
      let (r, p) = encrypt_for_peer text s.party in (from_crypto r, record s { party = p })

  abbrev pub decrypt_message : RatchetMessage → Run (Chat S) (List ℕ)
  decrypt_message m s =
      let (r, p) = decrypt_from_peer m s.party in (from_crypto r, record s { party = p })

  unfoldable pub prepare_outgoing_frame :
      RatchetMessage
      → String
      → String
      → String
      → List ℕ
      → Option String
      → ℕ
      → Run (Chat S) (String × List ℕ)
  unfolding chat_message_id persist_chat_message
  prepare_outgoing_frame m local_display_name remote_display_name conversation_id plaintext
        existing_message_id now =
      do
        message_bytes ← lift (from_codec (serialize_message m))
        let message_id =
            get_or
              (chat_message_id crypto conversation_id MessageDirection.sent (some m.number)
                message_bytes)
              existing_message_id
        bytes ← lift (from_codec (serialize_frame (message message_id local_display_name m)))
        on_db (
            persist_chat_message crypto
              (sent_entry message_id local_display_name remote_display_name conversation_id bytes
                plaintext)
              now)
        pure (message_id, bytes)

  -- `prepare_alice_frame`, `prepare_bob_frame`
  unfoldable pub prepare_frame :
      String → String → String → List ℕ → Option String → Clock → Run (Chat S) (String × List ℕ)
  unfolding save_identity prepare_outgoing_frame
  prepare_frame local_display_name remote_display_name conversation_id plaintext existing_message_id
        now =
      do
        m ← encrypt_text plaintext
        save_identity (now 0)
        prepare_outgoing_frame m local_display_name remote_display_name conversation_id plaintext
            existing_message_id (now 1)

  unfoldable pub track_pending_chat_delivery :
      String → String → List ℕ → ℕ → Run (Chat S) (Unit {0})
  unfolding pending_peer_id_for_conversation queue_pending_peer_message
  track_pending_chat_delivery conversation_id message_id plaintext now = on_db (λ db.
      let waiting : PendingPeerMessage = record {
        message_id = message_id;
        peer_id = pending_peer_id_for_conversation crypto conversation_id db;
        conversation_id = conversation_id;
        plaintext = plaintext;
        created_at_unix_secs = now;
        retry_count = 0;
        last_attempt_unix_secs = none;
      } in
      queue_pending_peer_message waiting db)

  -- The loop of `send_pending_as_alice` and `send_pending_as_bob`.
  unfoldable pub resend :
      PairingChatContext → List PendingPeerMessage → Clock → Run (Chat S) (Unit {0})
  unfolding prepare_frame record_pending_peer_message_attempt
  resend context [] now = pure tt
  resend context (item ∷ items) now = do
    on_db (record_pending_peer_message_attempt item.message_id (now 0))
    (_, bytes) ←
        prepare_frame context.local_display_name "peer" context.conversation_id item.plaintext
          (some item.message_id) (later 1 now)
    emit (request bytes)
    resend context items (later 3 now)

  unfoldable pub send_pending : PairingChatContext → Clock → Run (Chat S) (Unit {0})
  unfolding resend pending_peer_messages_for_peer
  send_pending context now = do
    pending ← gets (λ s. pending_peer_messages_for_peer context.conversation_id s.db)
    resend context pending now

  -- A frame that was not saved is decrypted, saved and shown.
  unfoldable pub accept_frame :
      PairingChatContext
      → Clock
      → List ℕ
      → String
      → String
      → RatchetMessage
      → Run (Chat S) (Unit {0})
  unfolding save_identity persist_chat_message accept_message_once remote_sender_label
  accept_frame context now bytes message_id sender_display_name m = do
    plaintext ← decrypt_message m
    save_identity (now 0)
    on_db (
        persist_chat_message crypto
          (received_entry context bytes message_id sender_display_name m plaintext) (now 1))
    on_db (λ db. record db {
      accepted_messages = (accept_message_once message_id (now 2) db.accepted_messages).1;
    })
    emit (printed (remote_sender_label sender_display_name context.remote_display_name) plaintext)

  abbrev pub accept_unless :
      Bool
      → PairingChatContext
      → Clock
      → List ℕ
      → String
      → String
      → RatchetMessage
      → Run (Chat S) (Unit {0})
  accept_unless true context now bytes message_id sender m = pure tt
  accept_unless false context now bytes message_id sender m =
      accept_frame context now bytes message_id sender m

  abbrev pub on_frame : PairingChatContext → Clock → List ℕ → ChatFrame → Run (Chat S) (Unit {0})
  on_frame context now bytes (ack _) = pure tt
  on_frame context now bytes (message message_id sender m) = do
    saved ← gets (λ s. message_exists message_id s.db)
    accept_unless saved context now bytes message_id sender m
    emit (acknowledged message_id)

  unfoldable pub receive_frame : PairingChatContext → Clock → List ℕ → Run (Chat S) (Unit {0})
  unfolding accept_frame message_exists
  receive_frame context now bytes = do
    frame ← lift (from_codec (deserialize_frame bytes))
    on_frame context now bytes frame

  -- `handle_alice_app_event`, `handle_bob_pairing_app_event`
  unfoldable pub handle_app_event :
      String → PairingChatContext → Clock → AppEvent → Run (Chat S) (Unit {0})
  unfolding receive_frame mark_delivered_if_pending
  handle_app_event target context now (chat_frame peer bytes) =
      if same peer target then receive_frame context now bytes else pure tt
  handle_app_event target context now (ack_response peer message_id) =
      if same peer target then on_db (mark_delivered_if_pending message_id) else pure tt
  handle_app_event target context now (outbound_failure peer) = pure tt
  handle_app_event target context now other = pure tt
