-- ===== src/Chat/Resending.antt =====
-- Messages that Alice sends again in a chat of src/pairing.rs, and the session of Bob, who has them.
use ciphermesh.Prelude.{
  ℕ, ◌+◌, ◌^◌, ◌<◌, ◌≤◌, String, some, List, [], ◌∷◌, ◌++◌, ◌≡◌, refl, sym, ap, ◌∙◌, true, false,
  arith, length, nat_ord, string_ord,
}
use ciphermesh.Crypto
use ciphermesh.Crypto.{Crypto, CryptoError}
use ciphermesh.App.{ok, err, crypto_error}
use ciphermesh.App.Run.{Run}
use ciphermesh.Ratchet.State.{RatchetSession, RatchetMessage, encrypt}
use ciphermesh.Ratchet.Receive.{decrypt}
use ciphermesh.Ratchet.Chains.{RatchetLaws, Sends, encrypt-Sealed}
use ciphermesh.Ratchet.Agreement.{Linked}
use ciphermesh.Ratchet.Gap.{gap_refused}
use ciphermesh.Handshake.Parties.{Alice, Bob, encrypt_for_bob, decrypt_from_alice}
use ciphermesh.Storage.Messages.{message_exists}
use ciphermesh.Chat.Records.{
  ChatFrame, message, ChatCodec, ChatParty, PairingChatContext, Chat, Output, chat_frame,
  acknowledged,
}
use ciphermesh.Chat.Frames.{Clock, prepare_frame, accept_frame, receive_frame, handle_app_event}
use ciphermesh.Chat.Loop.{
  prepare_alice_frame, ChatLoop, ChatEvent, app_event, alice_party, bob_party, chat_step,
  chat_steps,
}
use ciphermesh.Chat.Keeps.{IsSaved}
use ciphermesh.Chat.Once.{running, saved_again, handle_chat_frame}
use ciphermesh.Chat.Prepared.{prepared, on_alice-some}

abbrev pub event_of : String → Clock → List ℕ → ChatEvent × Clock
event_of target now bytes = (app_event (chat_frame target bytes), now)

-- The frames come one after the other, and `rest` after them.
abbrev pub arrive :
    String → Clock → List (List ℕ) → List (ChatEvent × Clock) → List (ChatEvent × Clock)
arrive target now [] rest = rest
arrive target now (bytes ∷ frames) rest = event_of target now bytes ∷ arrive target now frames rest

abbrev pub acknowledgements : String → List (List ℕ) → List Output → List Output
acknowledgements id [] output = output
acknowledgements id (bytes ∷ frames) output =
    acknowledgements id frames (output ++ acknowledged id ∷ [])

module _ (crypto : Crypto) (codec : ChatCodec) where
  -- Alice prepares the frames in turn, each for the message with this id.
  abbrev pub Resent : String → List (List ℕ) → Chat Alice → Chat Alice → Type 0
  Resent id [] a z = a ≡ z
  Resent id (bytes ∷ frames) a z =
      (local : String) × (remote : String) × (c : String) × (text : List ℕ) × (now : Clock)
      × (b : Chat Alice) × (prepare_frame crypto codec (alice_party crypto codec) local remote c
            text (some id) now a
          ≡ (ok (id, bytes), b))
      × Resent id frames b z

  abbrev AllFor : String → List (List ℕ) → Type 0
  AllFor id [] = Unit {0}
  AllFor id (bytes ∷ frames) =
      ((sender : String) × (m : RatchetMessage) × (codec.deserialize_frame bytes
          ≡ some (message id sender m)))
      × AllFor id frames

  abbrev Reads : Type 0
  Reads =
      (f : ChatFrame) (bs : List ℕ)
      → codec.serialize_frame f ≡ some bs
      → codec.deserialize_frame bs ≡ some f

  Resent-AllFor :
      Reads
      → (id : String) (frames : List (List ℕ)) (a z : Chat Alice) → Resent id frames a z
      → AllFor id frames
  Resent-AllFor reads id [] a z h = tt
  Resent-AllFor reads id (bytes ∷ frames) a z (local, remote, c, text, now, b, e, h) =
      let p =
        prepared crypto codec (alice_party crypto codec) local remote c text (some id) now id bytes
          a b e in
      ((local, p.sealed, reads _ bytes p.frame), Resent-AllFor reads id frames b z h)

  -- Frames of a saved message are acknowledged one by one.
  saved_frames :
      {S : Type 0} (party : ChatParty S) (target id : String) (context : PairingChatContext)
      (now : Clock) (frames : List (List ℕ)) (rest : List (ChatEvent × Clock)) (c : Chat S)
      → AllFor id frames
      → IsSaved id c.db
      → chat_steps crypto codec party target context (arrive target now frames rest) (running c)
        ≡ chat_steps crypto codec party target context rest
            (running (record c { output = acknowledgements id frames c.output }))
  unfolding chat_steps chat_step
  saved_frames party target id context now [] rest c for saved = refl
  saved_frames party target id context now (bytes ∷ frames) rest c ((sender, m, e), for) saved =
      let handled : (handle_app_event crypto codec party target context now
            (chat_frame target bytes) c)
          ≡ (ok tt, record c { output = c.output ++ acknowledged id ∷ [] }) =
        ap (λ (g : Run (Chat _) (Unit {0})). g c)
          (handle_chat_frame crypto codec party id target context now bytes)
        ∙ saved_again crypto codec party id context now bytes sender m c e saved in
      rw handled (
        saved_frames party target id context now frames rest
          (record c { output = c.output ++ acknowledged id ∷ [] }) for saved)

  -- Each frame takes one step of Alice's chain.
  record Advanced (laws : RatchetLaws crypto) (first : List ℕ) (n : ℕ) (s : RatchetSession)
      (a : Chat Alice) : Type 0 where
    session : RatchetSession
    there : a.party.session ≡ some session
    sends : Sends crypto laws first session
    count : session.send_count ≡ s.send_count + n
    keys : session.dh_keys ≡ s.dh_keys

  Resent-Advanced :
      (laws : RatchetLaws crypto) (first : List ℕ) (id : String) (frames : List (List ℕ))
      (a z : Chat Alice) (s : RatchetSession)
      → a.party.session ≡ some s
      → Sends crypto laws first s
      → s.send_count + length frames < 2 ^ 64
      → Resent id frames a z
      → Advanced laws first (length frames) s z
  unfolding encrypt_for_bob
  Resent-Advanced laws first id [] a z s e sends room h = record {
    session = s;
    there = ap (λ (c : Chat Alice). c.party.session) (sym h) ∙ e;
    sends = sends;
    count = omega arith;
    keys = refl;
  }
  Resent-Advanced laws first id (bytes ∷ frames) a z s e sends room
        (local, remote, c, text, now, b, done, h) =
      let p =
        prepared crypto codec (alice_party crypto codec) local remote c text (some id) now id bytes
          a b done in
      let (sealed, there) =
        on_alice-some (encrypt crypto text) a.party b.party s p.sealed e p.encrypted in
      let t = (encrypt crypto text s).1 in
      let (_, _, count, left, sends') =
        encrypt-Sealed crypto laws first text s t p.sealed sends (omega (arith, room)) sealed in
      let later =
        Resent-Advanced laws first id frames b z t there sends' (omega (arith, count, room)) h in
      record {
        session = later.session;
        there = later.there;
        sends = later.sends;
        count = omega (arith, later.count, count);
        keys = later.keys ∙ ap (λ (s : RatchetSession). s.dh_keys) left;
      }

  bob_refuses :
      (context : PairingChatContext) (now : Clock) (bytes : List ℕ) (id sender : String)
      (m : RatchetMessage) (b : Chat Bob) (s t : RatchetSession) (e : CryptoError)
      → codec.deserialize_frame bytes ≡ some (message id sender m)
      → message_exists id b.db ≡ false
      → b.party.session ≡ some s
      → decrypt crypto m s ≡ (Crypto.err e, t)
      → receive_frame crypto codec (bob_party crypto codec) context now bytes b
        ≡ (err (crypto_error e), record b { party = record (b.party) { session = some t } })
  unfolding receive_frame accept_frame decrypt_from_alice
  bob_refuses context now bytes id sender m b s t e reads fresh there h =
      rw (reads, fresh, there, h) refl

-- Where Bob has a message, and Alice sends it again nine times or more, for want of his
-- acknowledgement, Bob acknowledges each frame, and Alice's chain goes on while his stays. The next
-- message that Alice then sends, and that Bob does not have, ends his chat with the error
-- `TooManySkippedMessages`, and his database is as it was. The sessions belonged together, and
-- Bob's was not ahead.
pub resending_desynchronises :
    (crypto : Crypto) (laws : RatchetLaws crypto) (codec : ChatCodec)
    (target local remote c id new_id : String) (text bytes : List ℕ) (frames : List (List ℕ))
    (context : PairingChatContext) (now later : Clock) (a a' a'' : Chat Alice) (b : Chat Bob)
    (sa sb : RatchetSession)
    → ((f : ChatFrame) (bs : List ℕ)
        → codec.serialize_frame f ≡ some bs
        → codec.deserialize_frame bs ≡ some f)
    → a.party.session ≡ some sa
    → b.party.session ≡ some sb
    → Linked crypto laws sa sb
    → sb.recv_count ≤ sa.send_count
    → 8 < length frames
    → sa.send_count + length frames + 1 < 2 ^ 64
    → message_exists id b.db ≡ true
    → message_exists new_id b.db ≡ false
    → Resent crypto codec id frames a a'
    → prepare_alice_frame crypto codec local remote c text (some new_id) now a'
      ≡ (ok (new_id, bytes), a'')
    → (s : ChatLoop Bob) × (chat_steps crypto codec
          (bob_party crypto codec)
          target
          context
          (arrive target later frames (event_of target later bytes ∷ []))
          (running b)
        ≡ (err (crypto_error CryptoError.too_many_skipped_messages), s))
      × (s.chat.db ≡ b.db)
      × (s.chat.output ≡ acknowledgements id frames b.output)
unfolding prepare_alice_frame chat_steps chat_step encrypt_for_bob message_exists
resending_desynchronises crypto laws codec target local remote c id new_id text bytes frames context
      now later a a' a'' b sa sb reads ea eb linked behind many room saved fresh resent sent =
    let sender =
      Resent-Advanced crypto codec laws linked.forth_chain id frames a a' sa ea linked.forth_sends
        (omega (arith, room)) resent in
    let p =
      prepared crypto codec (alice_party crypto codec) local remote c text (some new_id) now new_id
        bytes a' a'' sent in
    let (sealed, _) =
      on_alice-some (encrypt crypto text) a'.party a''.party sender.session p.sealed sender.there
        p.encrypted in
    let (m, number, _, _, _) =
      encrypt-Sealed crypto laws linked.forth_chain text sender.session
        (encrypt crypto text sender.session).1 p.sealed sender.sends
        (omega (arith, sender.count, room)) sealed in
    let key = m.key ∙ (ap crypto.x25519_public sender.keys ∙ sym linked.follows_a) in
    let (t, refused, _) =
      gap_refused crypto laws linked.forth_chain sb p.sealed linked.forth_receives key
        (omega (arith, number, sender.count, behind, many))
        (omega (arith, number, sender.count, behind, many))
        (omega (arith, number, sender.count, room)) in
    let b' = record b { output = acknowledgements id frames b.output } in
    let party = bob_party crypto codec in
    let handled =
      ap (λ (g : Run (Chat _) (Unit {0})). g b')
        (handle_chat_frame crypto codec party new_id target context later bytes)
      ∙ bob_refuses crypto codec context later bytes new_id local p.sealed b' sb t
          CryptoError.too_many_skipped_messages (reads _ bytes p.frame) fresh eb refused in
    (
      running (record b' { party = record (b.party) { session = some t } }),
      saved_frames crypto codec party target id context later frames
            (event_of target later bytes ∷ []) b
            (Resent-AllFor crypto codec reads id frames a a' resent) saved
          ∙ rw handled refl,
      refl,
      refl,
    )
