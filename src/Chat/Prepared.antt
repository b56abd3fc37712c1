-- ===== src/Chat/Prepared.antt =====
-- What `prepare_alice_frame` of src/pairing.rs makes where it succeeds.
use ciphermesh.Prelude.{
  ℕ, String, Option, none, some, List, ◌≡◌, refl, sym, ap, ◌∙◌, subst, arith, get_or, nat_ord,
  string_ord,
}
use ciphermesh.Crypto
use ciphermesh.Crypto.{Crypto}
use ciphermesh.App.{AppResult, ok, err, from_codec, from_crypto}
use ciphermesh.App.Run.{Run, continue}
use ciphermesh.Ratchet.State.{RatchetSession, Session, RatchetMessage}
use ciphermesh.Handshake.Parties.{Alice, on_alice, with_session}
use ciphermesh.Storage.Database.{MessageDirection}
use ciphermesh.Chat.Records.{message, ChatCodec, ChatParty, Chat}
use ciphermesh.Chat.Peers.{chat_message_id}
use ciphermesh.Chat.Frames.{Clock, save_identity, prepare_outgoing_frame, prepare_frame}

-- Where a step and what follows it succeed, the step did.
step_ok :
    {S A B : Type 0} (r : AppResult A) (f : A → Run S B) (s t : S) (b : B)
    → ◌≡◌ {A = AppResult B × S} (continue r f s) (ok b, t)
    → (a : A) × (r ≡ ok a) × (◌≡◌ {A = AppResult B × S} (f a s) (ok b, t))
step_ok (ok a) f s t b h = (a, refl, h)
step_ok (err e) f s t b h = absurd (cc (ap (λ (r : AppResult _ × _). r.0) h))

ok_of_codec : {A : Type 0} (o : Option A) (a : A) → from_codec o ≡ ok a → o ≡ some a
ok_of_codec none a h = cc
ok_of_codec (some b) a h = cc

ok_of_crypto : {A : Type 0} (r : Crypto.Result A) (a : A) → from_crypto r ≡ ok a → r ≡ Crypto.ok a
ok_of_crypto (Crypto.ok b) a h = cc
ok_of_crypto (Crypto.err e) a h = cc

abbrev value_or : {A : Type 0} → A → AppResult A → A
value_or a (ok b) = b
value_or a (err e) = a

module _ {S : Type 0} (crypto : Crypto) (codec : ChatCodec) (party : ChatParty S) where
  save_identity-party :
      (now : ℕ) (s : Chat S) → (save_identity crypto codec party now s).1.party ≡ s.party
  unfolding save_identity
  save_identity-party now s = ground arith

  -- What a prepared frame is made of.
  pub record Prepared (local : String) (text : List ℕ) (a : S) (id : String) (bytes : List ℕ)
      (a' : S) : Type 0 where
    pub sealed : RatchetMessage
    pub encrypted : party.encrypt_for_peer text a ≡ (Crypto.ok sealed, a')
    pub frame : codec.serialize_frame (message id local sealed) ≡ some bytes

  pub prepared :
      (local remote c : String) (text : List ℕ) (known : Option String) (now : Clock) (id : String)
      (bytes : List ℕ) (s t : Chat S)
      → prepare_frame crypto codec party local remote c text known now s ≡ (ok (id, bytes), t)
      → Prepared local text s.party id bytes t.party
  unfolding prepare_frame prepare_outgoing_frame
  prepared local remote c text known now id bytes s t h =
      let sent : String × List ℕ = (id, bytes) in
      let (m, e, h1) = step_ok (from_crypto (party.encrypt_for_peer text s.party).0) _ _ t sent h in
      let s1 = record s { party = (party.encrypt_for_peer text s.party).1 } in
      let (_, _, h2) = step_ok (save_identity crypto codec party (now 0) s1).0 _ _ t sent h1 in
      let (mb, _, h3) = step_ok (from_codec (codec.serialize_message m)) _ _ t sent h2 in
      let id' = get_or (chat_message_id crypto c MessageDirection.sent (some m.number) mb) known in
      let (frame, f, h4) =
        step_ok (from_codec (codec.serialize_frame (message id' local m))) _ _ t sent h3 in
      let same_sent = ap (λ (r : AppResult (String × List ℕ) × Chat S). value_or sent r.0) h4 in
      let same_party = ap (λ (r : AppResult (String × List ℕ) × Chat S). r.1.party) h4 in
      record {
        sealed = m;
        encrypted =
            λ i. (ok_of_crypto _ m e i, (sym (save_identity-party (now 0) s1) ∙ same_party) i);
        frame =
            subst (λ (x : String × List ℕ). codec.serialize_frame (message x.0 local m) ≡ some x.1)
              same_sent (ok_of_codec _ frame f);
      }

pub on_alice-some :
    {A : Type 0} (f : Session A) (p q : Alice) (s : RatchetSession) (v : A)
    → p.session ≡ some s
    → on_alice f p ≡ (Crypto.ok v, q)
    → (f s ≡ (Crypto.ok v, (f s).1)) × (q.session ≡ some (f s).1)
on_alice-some f p q s v e h =
    let opened : (f s).0 ≡ Crypto.ok v =
      sym (ap (λ o. (with_session f o).0) e) ∙ ap (λ (r : Crypto.Result _ × Alice). r.0) h in
    (
      λ i. (opened i, (f s).1),
      sym (ap (λ (r : Crypto.Result _ × Alice). r.1.session) h) ∙ ap (λ o. (with_session f o).1) e,
    )
