-- ===== src/Profile/Deliveries.antt =====
-- A delivery of the outbox in src/main.rs that fails.
use ciphermesh.Prelude.{
  ℕ, String, some, ◌≡◌, refl, sym, ap, ◌∙◌, Bool, true, same_self, string_ord, Bool-cases, inl, inr,
  subst,
}
use ciphermesh.BTree.{contains_key}
use ciphermesh.BTree.Laws.{or_insert-present}
use ciphermesh.Crypto.{Crypto}
use ciphermesh.App.{AppResult, AppError, ok, err, from_crypto, from_codec}
use ciphermesh.App.Run.{Run, continue}
use ciphermesh.Handshake.Parties.{decrypt_from_alice}
use ciphermesh.Handshake.States.{bob_export_state}
use ciphermesh.Storage.Accepted.{accept_message_once, contains_key-accept}
use ciphermesh.Storage.Database.{Database, OutboxItem}
use ciphermesh.Profile.{
  DurableAppEnvelope, ProfileCodec, BobStore, process_delivery, session_bytes,
  deliver_outbox_item_to_bob,
}

-- What holds before a step that fails, and after all that may fail behind it, holds after it.
continue-fails :
    {S A B : Type 0} (P : S → Type 0) (x : AppError) (r : AppResult A) (f : A → Run S B) (s : S)
    → P s
    → ((a : A) → (f a s).0 ≡ err x → P (f a s).1)
    → (continue r f s).0 ≡ err x
    → P (continue r f s).1
continue-fails P x (ok a) f s h k e = k a e
continue-fails P x (err y) f s h k e = h

module _ (crypto : Crypto) (codec : ProfileCodec) (c : String) (item : OutboxItem)
    (e : DurableAppEnvelope) where
  -- A delivery that fails saves nothing.
  process-fails :
      (now : ℕ → ℕ) (x : AppError) (s : BobStore)
      → (process_delivery crypto codec true c item e now s).0 ≡ err x
      → (process_delivery crypto codec true c item e now s).1.db ≡ s.db
  process-fails now x s =
      let (r, b) = decrypt_from_alice crypto e.message s.bob in
      let t = record s { bob = b } in
      let P = λ (u : BobStore). u.db ≡ s.db in
      continue-fails P x (from_crypto r) _ t refl (λ text.
        continue-fails P x (from_codec (codec.serialize_bob_state (bob_export_state b))) _ t refl
          (λ state.
            continue-fails P x (session_bytes crypto codec b) _ t refl
              (λ session k. absurd (cc k))))

  abbrev accepted_now : (ℕ → ℕ) → BobStore → BobStore
  accepted_now now s = record s {
    db = record (s.db) {
      accepted_messages = (accept_message_once e.message_id (now 0) s.db.accepted_messages).1;
    };
  }

  deliver-process :
      (now : ℕ → ℕ) (s : BobStore)
      → codec.deserialize_envelope item.payload ≡ some e
      → deliver_outbox_item_to_bob crypto codec c item now s
        ≡ process_delivery crypto codec
            (accept_message_once e.message_id (now 0) s.db.accepted_messages).0
            c
            item
            e
            now
            (accepted_now now s)
  unfolding deliver_outbox_item_to_bob
  deliver-process now s reads = rw reads refl

  known_again :
      (now : ℕ → ℕ) (s : BobStore)
      → codec.deserialize_envelope item.payload ≡ some e
      → contains_key e.message_id s.db.accepted_messages ≡ true
      → deliver_outbox_item_to_bob crypto codec c item now s ≡ (ok e.message_id, s)
  unfolding accept_message_once
  known_again now s reads known =
      deliver-process now s reads
      ∙ rw (known, or_insert-present e.message_id (now 0) s.db.accepted_messages known) refl

  abbrev Delivered : Type 0
  Delivered = AppResult String × BobStore

  accepted-there :
      (now : ℕ → ℕ) (s : BobStore)
      → contains_key e.message_id (accepted_now now s).db.accepted_messages ≡ true
  accepted-there now s =
      contains_key-accept e.message_id e.message_id (now 0) s.db.accepted_messages
      ∙ rw (same_self e.message_id) refl

  fails-accepted :
      (now : ℕ → ℕ) (x : AppError) (s : BobStore)
      → codec.deserialize_envelope item.payload ≡ some e
      → (deliver_outbox_item_to_bob crypto codec c item now s).0 ≡ err x
      → (deliver_outbox_item_to_bob crypto codec c item now s).1.db ≡ (accepted_now now s).db
  fails-accepted now x s reads fails =
      let fresh = (accept_message_once e.message_id (now 0) s.db.accepted_messages).0 in
      let process : Bool → Delivered =
        λ b. process_delivery crypto codec b c item e now (accepted_now now s) in
      elim (Bool-cases fresh) [
        | inr old ↦
            let done = deliver-process now s reads ∙ ap process old in
            absurd (cc (sym (ap (λ (r : Delivered). r.0) done) ∙ fails))
        | inl new ↦
            let done = deliver-process now s reads ∙ ap process new in
            ap (λ (r : Delivered). r.1.db) done
            ∙ process-fails now x (accepted_now now s)
                (sym (ap (λ (r : Delivered). r.0) done) ∙ fails)
      ]

-- Where the delivery of a message to Bob fails, after its envelope was read, the message is not
-- saved, and every later delivery of it, though nothing was done with it, is acknowledged and
-- changes nothing: it counts as accepted before it is decrypted.
pub failed_delivery_acknowledged :
    (crypto : Crypto) (codec : ProfileCodec) (c : String) (item : OutboxItem)
    (e : DurableAppEnvelope) (now later : ℕ → ℕ) (x : AppError) (s : BobStore)
    → codec.deserialize_envelope item.payload ≡ some e
    → (deliver_outbox_item_to_bob crypto codec c item now s).0 ≡ err x
    → let s' = (deliver_outbox_item_to_bob crypto codec c item now s).1 in
      (s'.db.messages ≡ s.db.messages)
      × (deliver_outbox_item_to_bob crypto codec c item later s' ≡ (ok e.message_id, s'))
failed_delivery_acknowledged crypto codec c item e now later x s reads fails =
    let left = fails-accepted crypto codec c item e now x s reads fails in
    let s' = (deliver_outbox_item_to_bob crypto codec c item now s).1 in
    (
      ap (λ (db : Database). db.messages) left,
      known_again crypto codec c item e later s' reads (
          subst (λ (db : Database). contains_key e.message_id db.accepted_messages ≡ true)
            (sym left) (accepted-there crypto codec c item e now s)),
    )
