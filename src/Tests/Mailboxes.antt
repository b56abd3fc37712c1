-- ===== src/Tests/Mailboxes.antt =====
-- The theorems on src/mailbox_storage.rs at a mailbox with one envelope.
use ciphermesh.Prelude.{
  ℕ, String, some, List, [], ◌∷◌, ◌≡◌, refl, false, arith, Member, inl, inr, string_ord, subst,
}
use ciphermesh.BTree.{lookup, upsert}
use ciphermesh.Mailbox.Store.{
  MailboxEnvelopeRecord, MailboxRow, MailboxStorage, ok, open_in_memory, insert_envelope, deposit,
  fetch_pending, acknowledge_retrieval, expire_rows, count_pending, select_rows, order_by, place,
}
use ciphermesh.Mailbox.Requests.{
  OfflineEnvelope, MailboxRequest, deposit_request, fetch_request, handle_mailbox_request,
}
use ciphermesh.Mailbox.Bounds.{IsBounded, handle-IsBounded}
use ciphermesh.Mailbox.Settled.{IsKeyed}
use ciphermesh.Mailbox.Served.{serve, acknowledged_not_fetched}

program : Unit {0}
unfolding lookup upsert deposit fetch_pending acknowledge_retrieval expire_rows count_pending
    select_rows order_by place handle_mailbox_request
program = tt

abbrev envelope : String → MailboxEnvelopeRecord
envelope id = record {
  message_id = id;
  recipient_token = "bob";
  encrypted_payload = 1 ∷ 2 ∷ [];
  created_at_unix_secs = 100;
  expires_at_unix_secs = some 200;
}

-- It takes one envelope, and has two of one id, one after the other.
abbrev one : MailboxStorage
one = insert_envelope (envelope "m1") (open_in_memory 1)

abbrev two : MailboxStorage
two = record (insert_envelope (envelope "m2") one) { max_pending_envelopes = 2 }

again : OfflineEnvelope
again = record {
  recipient_token = "bob";
  message_id = "m1";
  encrypted_payload = 3 ∷ [];
  expires_at_unix_secs = some 900;
}

-- A full mailbox takes a known id, and no new one.
known_only :
    (deposit (envelope "m1") 150 one ≡ (ok false, one))
    × ((deposit (envelope "m2") 150 one).1 ≡ one)
unfolding program
known_only = (refl, refl)

handle-IsBounded_example :
    IsBounded (handle_mailbox_request 150 150 (deposit_request again) one).1
    × ((handle_mailbox_request 150 150 (deposit_request again) one).1.max_pending_envelopes ≡ 1)
unfolding program
handle-IsBounded_example = handle-IsBounded 150 150 (deposit_request again) one (omega arith)

two-IsKeyed : IsKeyed two.mailbox_envelopes
unfolding upsert
two-IsKeyed e (inl p) = subst (λ (x : String × MailboxRow). x.0 ≡ x.1.envelope.message_id) p refl
two-IsKeyed e (inr (inl p)) =
    subst (λ (x : String × MailboxRow). x.0 ≡ x.1.envelope.message_id) p refl
two-IsKeyed e (inr (inr m)) = absurd (m tt)

abbrev calls : List (ℕ × ℕ × MailboxRequest)
calls = (150, 150, deposit_request again) ∷ (151, 151, fetch_request "bob") ∷ []

m2_there :
    Member
      (envelope "m2")
      (fetch_pending "bob" 160 (serve calls (acknowledge_retrieval "m1" 140 two))).0
unfolding program again
m2_there = inl refl

acknowledged_not_fetched_example : ¬ ((envelope "m2").message_id ≡ "m1")
unfolding program
acknowledged_not_fetched_example =
    acknowledged_not_fetched "m1" "bob" 140 160 calls two (envelope "m2") two-IsKeyed refl m2_there
