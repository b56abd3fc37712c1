-- ===== src/Tests/Chats.antt =====
-- The theorems on chats of src/pairing.rs at two parties that share a session.
use ciphermesh.Prelude.{
  ℕ, zero, suc, ◌+◌, ◌++◌, String, none, some, List, [], ◌∷◌, ◌≡◌, refl, ap, sym, subst, arith,
  nat_ord, string_ord,
}
use ciphermesh.Crypto.{CryptoError, Result}
use ciphermesh.App.{AppResult, ok, err, crypto_error}
use ciphermesh.Devices.{hex}
use ciphermesh.Ratchet.Stateful.{value_or}
use ciphermesh.Ratchet.State.{RatchetSession, RatchetMessage, encrypt}
use ciphermesh.Ratchet.Exchange.{decrypt-encrypt}
use ciphermesh.Ratchet.Receive.{decrypt}
use ciphermesh.Ratchet.Agreement.{Linked}
use ciphermesh.Handshake.Parties.{Alice, Bob, encrypt_for_bob, decrypt_from_alice}
use ciphermesh.Storage.Database.{empty_database}
use ciphermesh.Storage.Accepted.{accept_message_once}
use ciphermesh.Storage.Outbox.{save_local_identity}
use ciphermesh.Storage.Messages.{insert_message, message_exists}
use ciphermesh.Chat.Names.{remote_sender_label, display_name_or_anonymous}
use ciphermesh.Chat.Records.{PairingChatContext, Chat, chat_frame, acknowledged, printed}
use ciphermesh.Chat.Peers.{chat_message_id}
use ciphermesh.Chat.Frames.{
  Clock, save_identity, prepare_frame, prepare_outgoing_frame, accept_frame, receive_frame,
  handle_app_event,
}
use ciphermesh.Chat.Entries.{persist_chat_message}
use ciphermesh.Chat.Loop.{
  prepare_alice_frame, ChatLoop, ChatEvent, line, connection_closed, connection_established,
  bob_party, chat_steps, handle_bob_pairing_app_event,
}
use ciphermesh.Chat.Once.{running, frame_taken_once}
use ciphermesh.Chat.Delivery.{Holds, text_delivered}
use ciphermesh.Chat.Resending.{Resent, event_of, arrive, acknowledgements, resending_desynchronises}
use ciphermesh.Tests.Toy.{toy}
use ciphermesh.Tests.Ratchets.{toy_laws, text, a as alice_session, b as bob_session, sessions}
use ciphermesh.Tests.Ratchets
use ciphermesh.Tests.Frames.{toy_codec, toy_reads, toy_writes}

program : Unit {0}
unfolding Ratchets.program hex encrypt_for_bob decrypt_from_alice save_identity save_local_identity
    chat_message_id persist_chat_message insert_message message_exists display_name_or_anonymous
    handle_bob_pairing_app_event prepare_alice_frame prepare_frame prepare_outgoing_frame
    accept_frame receive_frame handle_app_event accept_message_once
program = tt

abbrev alice : Chat Alice
alice = record {
  party = record { identity = 2 ∷ []; keys = 4 ∷ []; session = some alice_session };
  db = empty_database;
  output = [];
}

abbrev bob : Chat Bob
bob = record {
  party = record {
    identity = 1 ∷ [];
    keys = 5 ∷ [];
    signed_prekey = 6 ∷ [];
    one_time_prekey = none;
    session = some bob_session;
  };
  db = empty_database;
  output = [];
}

abbrev context : PairingChatContext
context = record {
  local_display_name = "bob";
  remote_display_name = "alice";
  conversation_id = "talk";
}

abbrev clock : Clock
clock n = n + 100

abbrev target : String
target = "peer"

abbrev sent_or : {S : Type 0} → AppResult (String × List ℕ) × Chat S → String × List ℕ
sent_or (ok r, s) = r
sent_or (err e, s) = ("", [])

abbrev prepare_as : String → Chat Alice → AppResult (String × List ℕ) × Chat Alice
prepare_as id a = prepare_alice_frame toy toy_codec "alice" "bob" "talk" text (some id) clock a

abbrev bytes_of : String → Chat Alice → List ℕ
bytes_of id a = (sent_or (prepare_as id a)).1

abbrev after : String → Chat Alice → Chat Alice
after id a = (prepare_as id a).1

abbrev first : List ℕ
first = bytes_of "m1" alice

abbrev on_chat_frame : List ℕ → Chat Bob → AppResult (Unit {0}) × Chat Bob
on_chat_frame bytes c =
    handle_bob_pairing_app_event toy toy_codec target context clock (chat_frame target bytes) c

text_delivered_example :
    (b' : Chat Bob) × (sa' : RatchetSession) × (sb' : RatchetSession) × (on_chat_frame first bob
      ≡ (ok tt, b'))
    × Holds context "alice" "m1" text b'.db
    × (b'.output
        ≡ (bob.output ++ printed (remote_sender_label "alice" "alice") text ∷ [])
          ++ acknowledged "m1" ∷ [])
    × ((after "m1" alice).party.session ≡ some sa')
    × (b'.party.session ≡ some sb')
    × Linked toy toy_laws sa' sb'
unfolding program
text_delivered_example =
    text_delivered toy toy_laws toy_codec target "alice" "bob" "talk" "m1" text first (some "m1")
      context clock clock alice (after "m1" alice) bob alice_session bob_session toy_reads
      toy_writes refl refl sessions (omega arith) refl (omega arith) refl refl refl

abbrev nothing : RatchetMessage
nothing = record { number = 0; ratchet_public_key = []; ciphertext = [] }

abbrev sealed : RatchetMessage
sealed = value_or nothing (encrypt toy text alice_session).0

abbrev sealed_again : RatchetMessage
sealed_again = value_or nothing (encrypt toy text (encrypt toy text alice_session).1).0

-- Bob loses Alice, writes a line, and finds her again.
abbrev meanwhile : List (ChatEvent × Clock)
meanwhile =
    (connection_closed "peer" 0, clock)
    ∷ (line "hi" (3 ∷ []), clock)
    ∷ (connection_established "peer", clock)
    ∷ []

abbrev bob_later : Chat Bob
bob_later =
    (chat_steps toy toy_codec (bob_party toy toy_codec) target context meanwhile (
      running
        (handle_app_event toy toy_codec (bob_party toy toy_codec) target context clock
          (chat_frame target first) bob).1)).1.chat

frame_taken_once_example :
    handle_app_event toy toy_codec
      (bob_party toy toy_codec)
      target
      context
      clock
      (chat_frame target (bytes_of "m1" (after "m1" alice)))
      bob_later
    ≡ (ok tt, record bob_later { output = bob_later.output ++ acknowledged "m1" ∷ [] })
unfolding program
frame_taken_once_example =
    frame_taken_once toy toy_codec (bob_party toy toy_codec) target context "m1" "alice" "alice"
      sealed sealed_again first (bytes_of "m1" (after "m1" alice)) clock clock meanwhile bob refl
      refl refl

-- Alice after she has sent the message `n` times
abbrev alice_at : ℕ → Chat Alice
alice_at zero = alice
alice_at (suc n) = after "m1" (alice_at n)

-- the frames that she then sends again
abbrev frames_from : ℕ → ℕ → List (List ℕ)
frames_from zero n = []
frames_from (suc k) n = bytes_of "m1" (alice_at n) ∷ frames_from k (suc n)

abbrev Sent : ℕ → Type 0
Sent n = prepare_as "m1" (alice_at n) ≡ (ok ("m1", bytes_of "m1" (alice_at n)), alice_at (suc n))

abbrev AllSent : ℕ → ℕ → Type 0
AllSent zero n = Unit {0}
AllSent (suc k) n = Sent n × AllSent k (suc n)

abbrev last_of : ℕ → ℕ → ℕ
last_of zero n = n
last_of (suc k) n = last_of k (suc n)

resent :
    (k n : ℕ)
    → AllSent k n
    → Resent toy toy_codec "m1" (frames_from k n) (alice_at n) (alice_at (last_of k n))
unfolding prepare_frame prepare_alice_frame
resent zero n h = refl
resent (suc k) n (e, h) =
    ("alice", "bob", "talk", text, clock, alice_at (suc n), e, resent k (suc n) h)

abbrev bob_has : Chat Bob
bob_has = (on_chat_frame first bob).1

abbrev bob_has_session : RatchetSession
bob_has_session = (decrypt toy sealed bob_session).1

linked : Linked toy toy_laws (encrypt toy text alice_session).1 bob_has_session
unfolding program
linked =
    let sent = (encrypt toy text alice_session).1 in
    let (b', run, l) =
      decrypt-encrypt toy toy_laws text alice_session sent bob_session sealed sessions (omega arith)
        refl refl (omega arith) refl in
    subst (Linked toy toy_laws sent) (ap (λ (r : Result (List ℕ) × RatchetSession). r.1) (sym run))
      l

resending_desynchronises_example :
    (s : ChatLoop Bob) × (chat_steps toy toy_codec
        (bob_party toy toy_codec)
        target
        context
        (arrive target clock
          (frames_from 9 1)
          (event_of target clock (bytes_of "m2" (alice_at 10)) ∷ []))
        (running bob_has)
      ≡ (err (crypto_error CryptoError.too_many_skipped_messages), s))
    × (s.chat.db ≡ bob_has.db)
    × (s.chat.output ≡ acknowledgements "m1" (frames_from 9 1) bob_has.output)
unfolding program
resending_desynchronises_example =
    resending_desynchronises toy toy_laws toy_codec target "alice" "bob" "talk" "m1" "m2" text
      (bytes_of "m2" (alice_at 10)) (frames_from 9 1) context clock clock (alice_at 1) (alice_at 10)
      (after "m2" (alice_at 10)) bob_has (encrypt toy text alice_session).1 bob_has_session
      toy_reads refl refl linked (omega arith) (omega arith) (omega arith) refl refl
      (resent 9 1 (refl, (refl, (refl, (refl, (refl, (refl, (refl, (refl, (refl, tt)))))))))) refl
