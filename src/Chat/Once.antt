-- ===== src/Chat/Once.antt =====
-- A chat of src/pairing.rs takes each message once, however often its frame comes.
use ciphermesh.Prelude.{
  ℕ, String, none, some, List, [], ◌∷◌, ◌++◌, ◌≡◌, refl, sym, subst, if◌then◌else◌, ap, ◌∙◌, Bool,
  true, false, Bool-cases, inl, inr, same, same_self, string_ord,
}
use ciphermesh.Crypto.{Crypto}
use ciphermesh.Crypto.Utf8.{as_bytes}
use ciphermesh.App.{AppResult, ok, err, from_crypto}
use ciphermesh.App.Run.{Run, pure, continue}
use ciphermesh.Ratchet.State.{RatchetMessage}
use ciphermesh.Storage.Messages.{message_exists}
use ciphermesh.Storage.Peers.{queue_pending_peer_message}
use ciphermesh.Chat.Names.{is_chat_back_command, is_empty}
use ciphermesh.Chat.Records.{
  message, ChatCodec, ChatParty, PairingChatContext, Chat, chat_frame, acknowledged,
}
use ciphermesh.Chat.Frames.{
  Clock, save_identity, prepare_frame, track_pending_chat_delivery, accept_frame, on_frame,
  receive_frame, handle_app_event,
}
use ciphermesh.Chat.Entries.{received_entry}
use ciphermesh.Chat.Loop.{
  ChatLoop, ChatEvent, line, no_more_lines, interrupted, other_event, app_event,
  connection_established, connection_closed, send_line, type_line, come_online, chat_step,
  chat_steps, peer_lost_all_connections,
}
use ciphermesh.Chat.Keeps.{
  IsSaved, persist-there, continue-Keeps, prepare_frame-Keeps, queue-IsSaved, send_pending-Keeps,
  handle-Keeps,
}

-- The loop at its start
abbrev pub running : {S : Type 0} → Chat S → ChatLoop S
running c = record { chat = c; online = true; done = false }

module _ {S : Type 0} (crypto : Crypto) (codec : ChatCodec) (party : ChatParty S)
    (id : String) where
  -- Where the call succeeds, the message is saved after it.
  abbrev Saves : Run (Chat S) (Unit {0}) → Type 0
  Saves f = (s : Chat S) → (f s).0 ≡ ok tt → IsSaved id (f s).1.db

  continue-Saves :
      {A : Type 0} (r : AppResult A) (f : A → Run (Chat S) (Unit {0}))
      → ((a : A) → Saves (f a))
      → Saves (continue r f)
  continue-Saves (ok a) f saves s h = saves a s h
  continue-Saves (err e) f saves s h = absurd cc

  after-Saves :
      (r : AppResult (Unit {0})) (t : Chat S) (g : Run (Chat S) (Unit {0}))
      → ((u : Chat S) → IsSaved id u.db → IsSaved id (g u).1.db)
      → (r ≡ ok tt → IsSaved id t.db)
      → (continue r (λ _. g) t).0 ≡ ok tt
      → IsSaved id (continue r (λ _. g) t).1.db
  after-Saves (ok tt) t g keeps there h = keeps t (there refl)
  after-Saves (err e) t g keeps there h = absurd cc

  accept_frame-Saves :
      (context : PairingChatContext) (now : Clock) (bytes : List ℕ) (sender : String)
      (m : RatchetMessage)
      → Saves (accept_frame crypto codec party context now bytes id sender m)
  unfolding accept_frame
  accept_frame-Saves context now bytes sender m s =
      continue-Saves (from_crypto (party.decrypt_from_peer m s.party).0) _
        (λ text t.
          continue-Saves (save_identity crypto codec party (now 0) t).0 _
            (λ done u h.
              persist-there id crypto (received_entry context bytes id sender m text) (now 1) u.db
                refl)
            (save_identity crypto codec party (now 0) t).1)
        (record s { party = (party.decrypt_from_peer m s.party).1 })

  on_frame-Saves :
      (context : PairingChatContext) (now : Clock) (bytes : List ℕ) (sender : String)
      (m : RatchetMessage)
      → Saves (on_frame crypto codec party context now bytes (message id sender m))
  unfolding message_exists
  on_frame-Saves context now bytes sender m s = elim (Bool-cases (message_exists id s.db)) [
    | inl saved ↦ rw saved (λ h. saved)
    | inr fresh ↦
        let f = accept_frame crypto codec party context now bytes id sender m in
        rw fresh (
          after-Saves (f s).0 (f s).1 _ (λ u k. k)
            (accept_frame-Saves context now bytes sender m s))
  ]

  receive_frame-Saves :
      (context : PairingChatContext) (now : Clock) (bytes : List ℕ) (sender : String)
      (m : RatchetMessage)
      → codec.deserialize_frame bytes ≡ some (message id sender m)
      → Saves (receive_frame crypto codec party context now bytes)
  unfolding receive_frame
  receive_frame-Saves context now bytes sender m e s =
      rw e (on_frame-Saves context now bytes sender m s)

  -- A frame of a saved message is acknowledged, and changes nothing.
  pub saved_again :
      (context : PairingChatContext) (now : Clock) (bytes : List ℕ) (sender : String)
      (m : RatchetMessage) (c : Chat S)
      → codec.deserialize_frame bytes ≡ some (message id sender m)
      → IsSaved id c.db
      → receive_frame crypto codec party context now bytes c
        ≡ (ok tt, record c { output = c.output ++ acknowledged id ∷ [] })
  unfolding receive_frame message_exists
  saved_again context now bytes sender m c e saved = rw (e, saved) refl

  module _ (target : String) (context : PairingChatContext) where
    -- Whether the call succeeds or not.
    abbrev KeepsIt : Run (ChatLoop S) (Unit {0}) → Type 0
    KeepsIt f = (s : ChatLoop S) → IsSaved id s.chat.db → IsSaved id (f s).1.chat.db

    send_line-Keeps :
        (text : String) (now : Clock) (c : Chat S)
        → IsSaved id c.db
        → IsSaved id (send_line crypto codec party target context text now c).1.db
    unfolding send_line track_pending_chat_delivery queue_pending_peer_message
    send_line-Keeps text now c h =
        let f =
          prepare_frame crypto codec party context.local_display_name context.remote_display_name
            context.conversation_id (as_bytes text) none now in
        continue-Keeps id crypto codec party (f c).0 _ (λ sent u k. k) (f c).1
          (prepare_frame-Keeps id crypto codec party context.local_display_name
            context.remote_display_name context.conversation_id (as_bytes text) none now c h)

    type_line-Keeps :
        (online : Bool) (text : String) (random : List ℕ) (now : Clock) (c : Chat S)
        → IsSaved id c.db
        → IsSaved id (type_line crypto codec party target context online text random now c).1.db
    type_line-Keeps true text random now c h = send_line-Keeps text now c h
    type_line-Keeps false text random now c h =
        queue-IsSaved id crypto context.conversation_id (as_bytes text) random (now 0) (now 1) c.db
          h

    come_online-Keeps :
        (online : Bool) (now : Clock)
        → KeepsIt (come_online crypto codec party target context online now)
    come_online-Keeps true now s h = h
    come_online-Keeps false now s h = send_pending-Keeps id crypto codec party context now s.chat h

    chat_step-Keeps :
        (e : ChatEvent) (now : Clock) → KeepsIt (chat_step crypto codec party target context e now)
    unfolding chat_step
    chat_step-Keeps (line text random) now s h = elim (Bool-cases (is_chat_back_command text)) [
      | inl back ↦ rw back h
      | inr stays ↦ elim (Bool-cases (is_empty text)) [
        | inl empty ↦ rw (stays, empty) h
        | inr typed ↦ rw (stays, typed) (type_line-Keeps s.online text random now s.chat h)
      ]
    ]
    chat_step-Keeps no_more_lines now s h = h
    chat_step-Keeps interrupted now s h = h
    chat_step-Keeps other_event now s h = h
    chat_step-Keeps (app_event e) now s h =
        handle-Keeps id crypto codec party target context now e s.chat h
    chat_step-Keeps (connection_established peer) now s h = elim (Bool-cases (same peer target)) [
      | inl here ↦ rw here (come_online-Keeps s.online now s h)
      | inr elsewhere ↦ rw elsewhere h
    ]
    chat_step-Keeps (connection_closed peer n) now s h =
        elim (Bool-cases (peer_lost_all_connections peer target n)) [
          | inl lost ↦ rw lost h
          | inr kept ↦ rw kept h
        ]

    unless_done :
        (b : Bool) (f : Run (ChatLoop S) (Unit {0}))
        → KeepsIt f
        → KeepsIt (if b then pure tt else f)
    unless_done true f keeps s h = h
    unless_done false f keeps s h = keeps s h

    continue_steps :
        (r : AppResult (Unit {0})) (s : ChatLoop S) (f : Run (ChatLoop S) (Unit {0}))
        → KeepsIt f
        → IsSaved id s.chat.db
        → IsSaved id (continue r (λ _. f) s).1.chat.db
    continue_steps (ok tt) s f keeps h = keeps s h
    continue_steps (err e) s f keeps h = h

    chat_steps-Keeps :
        (events : List (ChatEvent × Clock))
        → KeepsIt (chat_steps crypto codec party target context events)
    unfolding chat_steps
    chat_steps-Keeps [] s h = h
    chat_steps-Keeps ((e, now) ∷ events) s h =
        unless_done s.done _
          (λ t k.
            let f = chat_step crypto codec party target context e now in
            continue_steps (f t).0 (f t).1 (chat_steps crypto codec party target context events)
              (chat_steps-Keeps events) (chat_step-Keeps e now t k))
          s h

    pub handle_chat_frame :
        (now : Clock) (bytes : List ℕ)
        → handle_app_event crypto codec party target context now (chat_frame target bytes)
          ≡ receive_frame crypto codec party context now bytes
    unfolding handle_app_event
    handle_chat_frame now bytes = rw (same_self target) refl

-- A frame whose message a chat has taken without an error is not taken again: whatever the chat
-- does in between, another frame with the same message id, from the peer, is acknowledged, and
-- neither the session nor the database changes, nor is anything printed.
pub frame_taken_once :
    {S : Type 0} (crypto : Crypto) (codec : ChatCodec) (party : ChatParty S) (target : String)
    (context : PairingChatContext) (id sender again : String) (m n : RatchetMessage)
    (bytes more : List ℕ) (now later : Clock) (events : List (ChatEvent × Clock)) (c : Chat S)
    → codec.deserialize_frame bytes ≡ some (message id sender m)
    → codec.deserialize_frame more ≡ some (message id again n)
    → (handle_app_event crypto codec party target context now (chat_frame target bytes) c).0 ≡ ok tt
    → let handle = handle_app_event crypto codec party target context in
      let first = (handle now (chat_frame target bytes) c).1 in
      let c' = (chat_steps crypto codec party target context events (running first)).1.chat in
      handle later (chat_frame target more) c'
      ≡ (ok tt, record c' { output = c'.output ++ acknowledged id ∷ [] })
frame_taken_once crypto codec party target context id sender again m n bytes more now later events c
      e f taken =
    let at = handle_chat_frame crypto codec party id target context in
    let first =
      (handle_app_event crypto codec party target context now (chat_frame target bytes) c).1 in
    let saved : IsSaved id first.db =
      subst (λ (g : Run (Chat _) (Unit {0})). (g c).0 ≡ ok tt → IsSaved id (g c).1.db)
        (sym (at now bytes))
        (receive_frame-Saves crypto codec party id context now bytes sender m e c) taken in
    let c' = (chat_steps crypto codec party target context events (running first)).1.chat in
    ap (λ (g : Run (Chat _) (Unit {0})). g c') (at later more)
    ∙ saved_again crypto codec party id context later more again n c' f
        (chat_steps-Keeps crypto codec party id target context events (running first) saved)
