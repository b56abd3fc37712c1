-- ===== src/Chat/Loop.antt =====
-- The loop of a chat in src/pairing.rs, `run_pairing_chat`, one step for each event, and its two
-- roles.
use ciphermesh.Prelude.{
  ℕ, String, Option, none, List, [], ◌∷◌, Bool, true, false, ◌&&◌, ◌==◌, same, string_ord,
  if◌then◌else◌,
}
use ciphermesh.Crypto.{Crypto}
use ciphermesh.Crypto.Utf8.{as_bytes}
use ciphermesh.App.{AppResult}
use ciphermesh.App.Run.{Run, pure, gets, update, ◌>>=◌, ◌>>◌}
use ciphermesh.Handshake.Parties.{
  Alice, Bob, encrypt_for_bob, decrypt_from_bob, encrypt_for_alice, decrypt_from_alice,
}
use ciphermesh.Handshake.States.{alice_export_state, bob_export_state}
use ciphermesh.Chat.Names.{is_empty, is_chat_back_command}
use ciphermesh.Chat.Records.{ChatCodec, ChatParty, PairingChatContext, Chat, AppEvent, request}
use ciphermesh.Chat.Peers.{queue_message_after_peer_disconnect}
use ciphermesh.Chat.Entries.{print_conversation_history}
use ciphermesh.Chat.Frames.{
  Clock, on_db, emit, prepare_frame, track_pending_chat_delivery, send_pending, handle_app_event,
}

abbrev pub local_alice_identity_id : String
local_alice_identity_id = "alice"

abbrev pub local_bob_identity_id : String
local_bob_identity_id = "bob"

-- `PairingChatRole::Alice`, and `save_alice_identity`
abbrev pub alice_party : Crypto → ChatCodec → ChatParty Alice
alice_party crypto codec = record {
  encrypt_for_peer = encrypt_for_bob crypto;
  decrypt_from_peer = decrypt_from_bob crypto;
  serialize_state = λ a. codec.serialize_alice (alice_export_state a);
  identity_slot = local_alice_identity_id;
  role_name = "alice";
}

-- `PairingChatRole::Bob`, and `save_bob_identity`
abbrev pub bob_party : Crypto → ChatCodec → ChatParty Bob
bob_party crypto codec = record {
  encrypt_for_peer = encrypt_for_alice crypto;
  decrypt_from_peer = decrypt_from_alice crypto;
  serialize_state = λ b. codec.serialize_bob (bob_export_state b);
  identity_slot = local_bob_identity_id;
  role_name = "bob";
}

unfoldable pub prepare_alice_frame :
    Crypto
    → ChatCodec
    → String
    → String
    → String
    → List ℕ
    → Option String
    → Clock
    → Run (Chat Alice) (String × List ℕ)
unfolding prepare_frame
prepare_alice_frame crypto codec = prepare_frame crypto codec (alice_party crypto codec)

unfoldable pub prepare_bob_frame :
    Crypto
    → ChatCodec
    → String
    → String
    → String
    → List ℕ
    → Option String
    → Clock
    → Run (Chat Bob) (String × List ℕ)
unfolding prepare_frame
prepare_bob_frame crypto codec = prepare_frame crypto codec (bob_party crypto codec)

unfoldable pub send_pending_as_alice :
    Crypto → ChatCodec → PairingChatContext → Clock → Run (Chat Alice) (Unit {0})
unfolding send_pending
send_pending_as_alice crypto codec = send_pending crypto codec (alice_party crypto codec)

unfoldable pub send_pending_as_bob :
    Crypto → ChatCodec → PairingChatContext → Clock → Run (Chat Bob) (Unit {0})
unfolding send_pending
send_pending_as_bob crypto codec = send_pending crypto codec (bob_party crypto codec)

unfoldable pub handle_alice_app_event :
    Crypto
    → ChatCodec
    → String
    → PairingChatContext
    → Clock
    → AppEvent
    → Run (Chat Alice) (Unit {0})
unfolding handle_app_event
handle_alice_app_event crypto codec = handle_app_event crypto codec (alice_party crypto codec)

unfoldable pub handle_bob_pairing_app_event :
    Crypto → ChatCodec → String → PairingChatContext → Clock → AppEvent → Run (Chat Bob) (Unit {0})
unfolding handle_app_event
handle_bob_pairing_app_event crypto codec = handle_app_event crypto codec (bob_party crypto codec)

unfoldable pub peer_lost_all_connections : String → String → ℕ → Bool
peer_lost_all_connections peer_id target num_established =
    same peer_id target && num_established == 0

-- The loop's variables, and whether it has returned.
pub record ChatLoop (S : Type 0) : Type 0 where
  pub chat : Chat S
  pub online : Bool
  pub done : Bool

-- What the loop waits for. A line comes with what `fill_random` would draw for its id; the events
-- that only print or dial, reconnection among them, are `other_event`.
pub data ChatEvent : Type 0 where
  line : String → List ℕ → ChatEvent
  no_more_lines interrupted other_event : ChatEvent
  app_event : AppEvent → ChatEvent
  connection_established : String → ChatEvent
  connection_closed : String → ℕ → ChatEvent

module _ {S : Type 0} (crypto : Crypto) (codec : ChatCodec) (party : ChatParty S) (target : String)
    (context : PairingChatContext) where
  abbrev pub on_chat : Run (Chat S) (Unit {0}) → Run (ChatLoop S) (Unit {0})
  on_chat f s = let (r, c) = f s.chat in (r, record s { chat = c })

  unfoldable pub send_line : String → Clock → Run (Chat S) (Unit {0})
  unfolding prepare_frame track_pending_chat_delivery
  send_line text now = do
    (message_id, bytes) ←
        prepare_frame crypto codec party context.local_display_name context.remote_display_name
          context.conversation_id (as_bytes text) none now
    track_pending_chat_delivery crypto codec party context.conversation_id message_id
        (as_bytes text) (now 2)
    emit crypto codec party (request bytes)

  abbrev pub type_line : Bool → String → List ℕ → Clock → Run (Chat S) (Unit {0})
  type_line true text random now = send_line text now
  type_line false text random now = on_db crypto codec party (
      queue_message_after_peer_disconnect crypto context.conversation_id (as_bytes text) random
        (now 0) (now 1))

  abbrev pub come_online : Bool → Clock → Run (ChatLoop S) (Unit {0})
  come_online true now = pure tt
  come_online false now = do
    update (λ s. record s { online = true })
    on_chat (send_pending crypto codec party context now)

  unfoldable pub chat_step : ChatEvent → Clock → Run (ChatLoop S) (Unit {0})
  unfolding send_line queue_message_after_peer_disconnect send_pending handle_app_event
      is_chat_back_command peer_lost_all_connections
  chat_step (line text random) now =
      if is_chat_back_command text
      then update (λ s. record s { done = true })
      else if is_empty text
      then pure tt
      else (do online ← gets (λ s. s.online); on_chat (type_line online text random now))
  chat_step no_more_lines now = update (λ s. record s { done = true })
  chat_step interrupted now = update (λ s. record s { done = true })
  chat_step other_event now = pure tt
  chat_step (app_event e) now = on_chat (handle_app_event crypto codec party target context now e)
  chat_step (connection_established peer) now =
      if same peer target
      then (do online ← gets (λ s. s.online); come_online online now)
      else pure tt
  chat_step (connection_closed peer num_established) now =
      if peer_lost_all_connections peer target num_established
      then update (λ s. record s { online = false })
      else pure tt

  -- The events of a chat in turn, each with its clock; an error or the end of the chat ends it.
  unfoldable pub chat_steps : List (ChatEvent × Clock) → Run (ChatLoop S) (Unit {0})
  unfolding chat_step
  chat_steps [] = pure tt
  chat_steps ((e, now) ∷ events) = do
    done ← gets (λ s. s.done)
    (if done then pure tt else (do chat_step e now; chat_steps events))

  -- `run_pairing_chat` up to the events that have come: what waits is sent first, then the chat is
  -- printed.
  unfoldable pub run_pairing_chat :
      Clock → List (ChatEvent × Clock) → Chat S → AppResult (Unit {0}) × ChatLoop S
  unfolding send_pending chat_steps print_conversation_history
  run_pairing_chat now events c =
      (do
        on_chat (send_pending crypto codec party context now)
        on_chat (on_db crypto codec party (print_conversation_history context.conversation_id))
        chat_steps events)
        (record { chat = c; online = true; done = false })
