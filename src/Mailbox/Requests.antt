-- ===== src/Mailbox/Requests.antt =====
-- The requests that a mailbox answers: `handle_mailbox_request` of src/main.rs.
use ciphermesh.Prelude.{ℕ, String, Option, List, map}
use ciphermesh.Mailbox.Store.{
  MailboxEnvelopeRecord, MailboxStorage, MailboxResult, MailboxError, ok, err, deposit,
  fetch_pending, acknowledge_retrieval,
}

pub record OfflineEnvelope : Type 0 where
  pub recipient_token : String
  pub message_id : String
  pub encrypted_payload : List ℕ
  pub expires_at_unix_secs : Option ℕ

pub data MailboxRequest : Type 0 where
  deposit_request : OfflineEnvelope → MailboxRequest
  fetch_request acknowledge_request : String → MailboxRequest

pub data MailboxResponse : Type 0 where
  deposited : String → MailboxResponse
  pending_envelopes : List OfflineEnvelope → MailboxResponse
  acknowledged : String → MailboxResponse
  error : MailboxError → MailboxResponse

abbrev pub to_record : ℕ → OfflineEnvelope → MailboxEnvelopeRecord
to_record created e = record {
  message_id = e.message_id;
  recipient_token = e.recipient_token;
  encrypted_payload = e.encrypted_payload;
  created_at_unix_secs = created;
  expires_at_unix_secs = e.expires_at_unix_secs;
}

abbrev pub from_record : MailboxEnvelopeRecord → OfflineEnvelope
from_record r = record {
  recipient_token = r.recipient_token;
  message_id = r.message_id;
  encrypted_payload = r.encrypted_payload;
  expires_at_unix_secs = r.expires_at_unix_secs;
}

abbrev answer : {A : Type 0} → MailboxResponse → MailboxResult A → MailboxResponse
answer response (ok _) = response
answer response (err e) = error e

-- `created` and `now` are what the clock says at the two readings of a deposit.
unfoldable pub handle_mailbox_request :
    ℕ → ℕ → MailboxRequest → MailboxStorage → MailboxResponse × MailboxStorage
unfolding deposit fetch_pending acknowledge_retrieval
handle_mailbox_request created now (deposit_request e) m =
    let (result, m') = deposit (to_record created e) now m in
    (answer (deposited e.message_id) result, m')
handle_mailbox_request created now (fetch_request token) m =
    let (records, m') = fetch_pending token now m in
    (pending_envelopes (map from_record records), m')
handle_mailbox_request created now (acknowledge_request id) m =
    (acknowledged id, acknowledge_retrieval id now m)
