-- ===== src/Mailbox/Bounds.antt =====
-- The bound on pending envelopes of src/mailbox_storage.rs.
use ciphermesh.Prelude.{
  ℕ, suc, ◌≤◌, String, [], ◌∷◌, ◌≡◌, refl, arith, Bool-cases, inl, inr, string_ord,
}
use ciphermesh.BTree.{upsert, or_insert}
use ciphermesh.BTree.Laws.{or_insert-present}
use ciphermesh.Mailbox.Store.{
  MailboxEnvelopeRecord, MailboxRow, MailboxTable, MailboxStorage, new_row, set_delivered, expire,
  expire_rows, count_pending, pending_count, has_envelope, deposit, deposit_expired, fetch_pending,
  update_where, acknowledge_retrieval,
}
use ciphermesh.Mailbox.Requests.{
  MailboxRequest, deposit_request, fetch_request, acknowledge_request, to_record,
  handle_mailbox_request,
}

-- No more envelopes are pending than the mailbox takes.
abbrev pub IsBounded : MailboxStorage → Type 0
IsBounded m = pending_count m ≤ m.max_pending_envelopes

count-expire : (now : ℕ) (t : MailboxTable) → count_pending (expire_rows now t) ≤ count_pending t
unfolding expire_rows count_pending
count-expire now [] = omega arith
count-expire now ((id, row) ∷ t) = ground (arith, count-expire now t)

count-or_insert :
    (id : String) (row : MailboxRow) (t : MailboxTable)
    → count_pending (or_insert id row t) ≤ suc (count_pending t)
unfolding upsert count_pending
count-or_insert id row [] = ground arith
count-or_insert id row ((j, r) ∷ t) = ground (arith, count-or_insert id row t)

count-delivered :
    (id : String) (now : ℕ) (t : MailboxTable)
    → count_pending (update_where id (set_delivered now) t) ≤ count_pending t
unfolding update_where count_pending
count-delivered id now [] = omega arith
count-delivered id now ((j, r) ∷ t) = ground (arith, count-delivered id now t)

deposit_expired-IsBounded :
    (e : MailboxEnvelopeRecord) (m : MailboxStorage)
    → IsBounded m
    → IsBounded (deposit_expired e m).1
deposit_expired-IsBounded e m h = elim (Bool-cases (has_envelope e.message_id m)) [
  | inl there ↦
      rw (there, or_insert-present e.message_id (new_row e) m.mailbox_envelopes there)
        (ground (arith, h))
  | inr new ↦
      rw new (ground (arith, h, count-or_insert e.message_id (new_row e) m.mailbox_envelopes))
]

deposit_expired_max :
    (e : MailboxEnvelopeRecord) (m : MailboxStorage)
    → (deposit_expired e m).1.max_pending_envelopes ≡ m.max_pending_envelopes
deposit_expired_max e m = ground arith

-- Whatever a request is and however it ends, at most as many envelopes are pending afterwards as
-- the mailbox takes, if so before; and what it takes does not change.
pub handle-IsBounded :
    (created now : ℕ) (request : MailboxRequest) (m : MailboxStorage)
    → IsBounded m
    → IsBounded (handle_mailbox_request created now request m).1
      × ((handle_mailbox_request created now request m).1.max_pending_envelopes
          ≡ m.max_pending_envelopes)
unfolding handle_mailbox_request deposit fetch_pending acknowledge_retrieval
handle-IsBounded created now (deposit_request e) m h = (
  deposit_expired-IsBounded (to_record created e) (expire now m)
      (omega (arith, h, count-expire now m.mailbox_envelopes)),
  deposit_expired_max (to_record created e) (expire now m),
)
handle-IsBounded created now (fetch_request token) m h =
    (omega (arith, h, count-expire now m.mailbox_envelopes), refl)
handle-IsBounded created now (acknowledge_request id) m h =
    (omega (arith, h, count-delivered id now m.mailbox_envelopes), refl)
