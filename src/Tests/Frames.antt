-- ===== src/Tests/Frames.antt =====
-- A format for the frames of a chat that reads back what it writes. States are not kept.
use ciphermesh.Prelude.{
  ℕ, zero, suc, Option, none, some, List, [], ◌∷◌, ◌≡◌, refl, ap, sym, ◌∙◌, get_or,
}
use ciphermesh.Handshake.States.{BobState}
use ciphermesh.Chat.Records.{ChatFrame, message, ack, ChatCodec}
use ciphermesh.Tests.Codec.{
  get_then, put_text, get_text, get-put_text, put_bytes, get_bytes, get-put_bytes, get_number,
}

abbrev put_frame : ChatFrame → List ℕ
put_frame (ack id) = 0 ∷ put_text id []
put_frame (message id sender m) =
    1
    ∷ put_text id
        (put_text sender (m.number ∷ put_bytes m.ratchet_public_key (put_bytes m.ciphertext [])))

abbrev get_frame : List ℕ → Option (ChatFrame × List ℕ)
get_frame [] = none
get_frame (zero ∷ k) = get_then (get_text k) (λ id k'. some (ack id, k'))
get_frame (suc n ∷ k) = get_then (get_text k) (λ id k1. get_then (get_text k1) (λ sender k2.
    get_then (get_number k2) (λ number k3. get_then (get_bytes k3) (λ public k4.
      get_then (get_bytes k4) (λ ciphertext k5. some (
        message id sender
            (record { number = number; ratchet_public_key = public; ciphertext = ciphertext }),
        k5,
      ))))))

abbrev frame_only : Option (ChatFrame × List ℕ) → Option ChatFrame
frame_only none = none
frame_only (some (f, k)) = some f

abbrev pub toy_codec : ChatCodec
toy_codec = record {
  serialize_frame = λ f. some (put_frame f);
  deserialize_frame = λ bytes. frame_only (get_frame bytes);
  serialize_message = λ m. some (put_bytes m.ciphertext []);
  serialize_alice = λ a. some [];
  serialize_bob = λ b. some [];
}

get-put_frame : (f : ChatFrame) → get_frame (put_frame f) ≡ some (f, [])
get-put_frame (ack id) = rw (get-put_text id []) refl
get-put_frame (message id sender m) =
    rw
      (
        get-put_text id _,
        get-put_text sender _,
        get-put_bytes m.ratchet_public_key _,
        get-put_bytes m.ciphertext [],
      )
      refl

pub toy_reads :
    (f : ChatFrame) (bytes : List ℕ)
    → toy_codec.serialize_frame f ≡ some bytes
    → toy_codec.deserialize_frame bytes ≡ some f
toy_reads f bytes h =
    ap toy_codec.deserialize_frame (sym (ap (get_or []) h)) ∙ ap frame_only (get-put_frame f)

pub toy_writes : (b : BobState) → (bytes : List ℕ) × (toy_codec.serialize_bob b ≡ some bytes)
toy_writes b = ([], refl)
