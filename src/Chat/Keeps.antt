-- ===== src/Chat/Keeps.antt =====
-- A message that a chat of src/main.rs and src/pairing.rs has saved stays saved.
use ciphermesh.Prelude.{
  ℕ, String, Option, List, [], ◌∷◌, ◌≡◌, ap, ◌∙◌, true, arith, get_or, string_ord, same_self,
  Option-cases, some, inl, inr, same, Bool-cases,
}
use ciphermesh.BTree.{BTreeMap, or_insert, contains_key}
use ciphermesh.BTree.Laws.{contains_key-or_insert, contains_key-modify}
use ciphermesh.Crypto.{Crypto}
use ciphermesh.App.{AppResult, ok, err, from_codec, from_crypto}
use ciphermesh.App.Run.{Run, continue}
use ciphermesh.Ratchet.State.{RatchetMessage}
use ciphermesh.Storage.Database.{
  Database, MessageRecord, MessageDirection, MessageStatus, PendingPeerMessage,
}
use ciphermesh.Storage.Messages.{insert_message, update_message_status, message_exists}
use ciphermesh.Storage.Peers.{
  queue_pending_peer_message, record_pending_peer_message_attempt, pending_peer_messages_for_peer,
}
use ciphermesh.Storage.Outbox.{save_local_identity}
use ciphermesh.Chat.Records.{
  ChatFrame, message, ack, ChatCodec, ChatParty, PairingChatContext, ChatHistoryEntry, Chat,
  AppEvent, chat_frame, ack_response, outbound_failure, other,
}
use ciphermesh.Chat.Peers.{
  chat_message_id, queue_offline_peer_message, queue_message_after_peer_disconnect,
  load_known_peer_for_conversation,
}
use ciphermesh.Chat.Frames.{
  Clock, later, mark_delivered_if_pending, save_identity, prepare_outgoing_frame, prepare_frame,
  resend, send_pending, accept_frame, receive_frame, handle_app_event, on_frame,
}
use ciphermesh.Chat.Entries.{persist_chat_message, sent_entry, received_entry}

abbrev pub IsSaved : String → Database → Type 0
IsSaved id db = contains_key id db.messages ≡ true

module _ (id : String) where
  or_insert-keeps :
      (k : String) (v : MessageRecord) (m : BTreeMap String MessageRecord)
      → contains_key id m ≡ true
      → contains_key id (or_insert k v m) ≡ true
  or_insert-keeps k v m h = contains_key-or_insert k id v m ∙ ground (arith, h)

  insert-IsSaved :
      (m : MessageRecord) (db : Database) → IsSaved id db → IsSaved id (insert_message m db)
  unfolding insert_message
  insert-IsSaved m db h = or_insert-keeps m.message_id m db.messages h

  insert-there :
      (m : MessageRecord) (db : Database) → m.message_id ≡ id → IsSaved id (insert_message m db)
  unfolding insert_message
  insert-there m db e = contains_key-or_insert m.message_id id m db.messages ∙ rw (e, same_self id)

  delivered-IsSaved :
      (acked : String) (db : Database)
      → IsSaved id db
      → IsSaved id (mark_delivered_if_pending acked db)
  unfolding mark_delivered_if_pending update_message_status
  delivered-IsSaved acked db h =
      contains_key-modify acked id (λ m. record m { status = MessageStatus.sent }) db.messages ∙ h

  persist-IsSaved :
      (crypto : Crypto) (e : ChatHistoryEntry) (now : ℕ) (db : Database)
      → IsSaved id db
      → IsSaved id (persist_chat_message crypto e now db)
  unfolding persist_chat_message
  persist-IsSaved crypto e now db h = insert-IsSaved _ db h

  pub persist-there :
      (crypto : Crypto) (e : ChatHistoryEntry) (now : ℕ) (db : Database)
      → e.message_id ≡ some id
      → IsSaved id (persist_chat_message crypto e now db)
  unfolding persist_chat_message
  persist-there crypto e now db known = insert-there _ db (ap (get_or _) known)

  pub queue-IsSaved :
      (crypto : Crypto) (c : String) (text random : List ℕ) (now created : ℕ) (db : Database)
      → IsSaved id db
      → IsSaved id (queue_message_after_peer_disconnect crypto c text random now created db)
  unfolding queue_message_after_peer_disconnect queue_offline_peer_message
      queue_pending_peer_message
  queue-IsSaved crypto c text random now created db h =
      elim (Option-cases (load_known_peer_for_conversation crypto c db)) [
        | inl nobody ↦ rw nobody h
        | inr (peer, known) ↦ rw known (or_insert-keeps _ _ db.messages h)
      ]

  module _ {S : Type 0} (crypto : Crypto) (codec : ChatCodec) (party : ChatParty S) where
    -- Whether the call succeeds or not.
    abbrev pub Keeps : {A : Type 0} → Run (Chat S) A → Type 0
    Keeps f = (s : Chat S) → IsSaved id s.db → IsSaved id (f s).1.db

    pub continue-Keeps :
        {A B : Type 0} (r : AppResult A) (f : A → Run (Chat S) B)
        → ((a : A) → Keeps (f a))
        → Keeps (continue r f)
    continue-Keeps (ok a) f next s h = next a s h
    continue-Keeps (err e) f next s h = h

    save_identity-Keeps : (now : ℕ) → Keeps (save_identity crypto codec party now)
    unfolding save_identity save_local_identity
    save_identity-Keeps now s h =
        continue-Keeps (from_codec (party.serialize_state s.party)) _ (λ bytes t k. k) s h

    prepare_outgoing-Keeps :
        (m : RatchetMessage) (local remote c : String) (text : List ℕ) (known : Option String)
        (now : ℕ)
        → Keeps (prepare_outgoing_frame crypto codec party m local remote c text known now)
    unfolding prepare_outgoing_frame
    prepare_outgoing-Keeps m local remote c text known now s h =
        continue-Keeps (from_codec (codec.serialize_message m)) _
          (λ bytes t k.
            let id' =
              get_or (chat_message_id crypto c MessageDirection.sent (some m.number) bytes) known in
            continue-Keeps (from_codec (codec.serialize_frame (message id' local m))) _
              (λ frame u j.
                persist-IsSaved crypto (sent_entry id' local remote c frame text) now u.db j)
              t k)
          s h

    pub prepare_frame-Keeps :
        (local remote c : String) (text : List ℕ) (known : Option String) (now : Clock)
        → Keeps (prepare_frame crypto codec party local remote c text known now)
    unfolding prepare_frame
    prepare_frame-Keeps local remote c text known now s h =
        continue-Keeps (from_crypto (party.encrypt_for_peer text s.party).0) _
          (λ m t k.
            continue-Keeps (save_identity crypto codec party (now 0) t).0 _
              (λ done. prepare_outgoing-Keeps m local remote c text known (now 1))
              (save_identity crypto codec party (now 0) t).1 (save_identity-Keeps (now 0) t k))
          (record s { party = (party.encrypt_for_peer text s.party).1 }) h

    resend-Keeps :
        (context : PairingChatContext) (items : List PendingPeerMessage) (now : Clock)
        → Keeps (resend crypto codec party context items now)
    unfolding resend record_pending_peer_message_attempt
    resend-Keeps context [] now s h = h
    resend-Keeps context (item ∷ items) now s h =
        let t = record s {
          db = record_pending_peer_message_attempt item.message_id (now 0) s.db;
        } in
        let f =
          prepare_frame crypto codec party context.local_display_name "peer" context.conversation_id
            item.plaintext (some item.message_id) (later 1 now) in
        continue-Keeps (f t).0 _ (λ sent u k. resend-Keeps context items (later 3 now) _ k) (f t).1
          (prepare_frame-Keeps context.local_display_name "peer" context.conversation_id
            item.plaintext (some item.message_id) (later 1 now) t h)

    pub send_pending-Keeps :
        (context : PairingChatContext) (now : Clock)
        → Keeps (send_pending crypto codec party context now)
    unfolding send_pending
    send_pending-Keeps context now s h =
        resend-Keeps context (pending_peer_messages_for_peer context.conversation_id s.db) now s h

    accept_frame-Keeps :
        (context : PairingChatContext) (now : Clock) (bytes : List ℕ) (i sender : String)
        (m : RatchetMessage)
        → Keeps (accept_frame crypto codec party context now bytes i sender m)
    unfolding accept_frame
    accept_frame-Keeps context now bytes i sender m s h =
        continue-Keeps (from_crypto (party.decrypt_from_peer m s.party).0) _
          (λ text t k.
            continue-Keeps (save_identity crypto codec party (now 0) t).0 _
              (λ done u j.
                persist-IsSaved crypto (received_entry context bytes i sender m text) (now 1) u.db
                  j)
              (save_identity crypto codec party (now 0) t).1 (save_identity-Keeps (now 0) t k))
          (record s { party = (party.decrypt_from_peer m s.party).1 }) h

    on_frame-Keeps :
        (context : PairingChatContext) (now : Clock) (bytes : List ℕ) (frame : ChatFrame)
        → Keeps (on_frame crypto codec party context now bytes frame)
    on_frame-Keeps context now bytes (ack _) s h = h
    on_frame-Keeps context now bytes (message i sender m) s h =
        elim (Bool-cases (message_exists i s.db)) [
          | inl saved ↦ rw saved h
          | inr fresh ↦
              let f = accept_frame crypto codec party context now bytes i sender m in
              rw fresh (
                continue-Keeps (f s).0 _ (λ done t k. k) (f s).1
                  (accept_frame-Keeps context now bytes i sender m s h))
        ]

    receive_frame-Keeps :
        (context : PairingChatContext) (now : Clock) (bytes : List ℕ)
        → Keeps (receive_frame crypto codec party context now bytes)
    unfolding receive_frame
    receive_frame-Keeps context now bytes s h =
        continue-Keeps (from_codec (codec.deserialize_frame bytes)) _
          (λ frame. on_frame-Keeps context now bytes frame) s h

    pub handle-Keeps :
        (target : String) (context : PairingChatContext) (now : Clock) (e : AppEvent)
        → Keeps (handle_app_event crypto codec party target context now e)
    unfolding handle_app_event
    handle-Keeps target context now (chat_frame peer bytes) s h =
        elim (Bool-cases (same peer target)) [
          | inl here ↦ rw here (receive_frame-Keeps context now bytes s h)
          | inr elsewhere ↦ rw elsewhere h
        ]
    handle-Keeps target context now (ack_response peer i) s h =
        elim (Bool-cases (same peer target)) [
          | inl here ↦ rw here (delivered-IsSaved i s.db h)
          | inr elsewhere ↦ rw elsewhere h
        ]
    handle-Keeps target context now (outbound_failure peer) s h = h
    handle-Keeps target context now other s h = h
