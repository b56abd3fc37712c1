-- ===== src/Mailbox/Served.antt =====
-- What a mailbox (src/mailbox_storage.rs) gives out after an acknowledgement, whatever it is asked.
use ciphermesh.Prelude.{
  ℕ, String, List, [], ◌∷◌, ◌≡◌, refl, ap, arith, true, false, Bool-cases, inl, inr, string_ord,
  Member, ◌⊎◌, subst, ◌∙◌, leb, not, ◌&&◌,
}
use ciphermesh.Mailbox.Store.{
  insert_envelope, new_row, MailboxEnvelopeRecord, ok, MailboxRow, MailboxTable, MailboxStorage,
  expire, is_pending, pending_count, has_envelope, deposit, deposit_expired, fetch_pending,
  acknowledge_retrieval, select_rows, order_by, place,
}
use ciphermesh.Mailbox.Requests.{
  MailboxRequest, deposit_request, fetch_request, acknowledge_request, to_record,
  handle_mailbox_request,
}
use ciphermesh.BTree.Laws.{or_insert-present}
use ciphermesh.Mailbox.Settled.{
  contains-expire, IsKeyed, Settled, expire-IsKeyed, expire-Settled, update-IsKeyed, update-Settled,
  acknowledged-Settled, insert-IsKeyed, insert-Settled,
}

-- What is kept of the table of a mailbox
abbrev Kept : String → MailboxStorage → Type 0
Kept id m = IsKeyed m.mailbox_envelopes × Settled id m.mailbox_envelopes

deposit-Kept :
    (e : MailboxEnvelopeRecord) (id : String) (m : MailboxStorage)
    → Kept id m
    → Kept id (deposit_expired e m).1
deposit-Kept e id m (keyed, settled) =
    elim (Bool-cases
      (leb m.max_pending_envelopes (pending_count m) && not (has_envelope e.message_id m))) [
        | inl full ↦ rw full (keyed, settled)
        | inr room ↦ rw room (
          insert-IsKeyed e m.mailbox_envelopes keyed,
          insert-Settled e id m.mailbox_envelopes settled,
        )
      ]

handle-Kept :
    (created now : ℕ) (id : String) (request : MailboxRequest) (m : MailboxStorage)
    → Kept id m
    → Kept id (handle_mailbox_request created now request m).1
unfolding handle_mailbox_request deposit fetch_pending acknowledge_retrieval
handle-Kept created now id (deposit_request e) m (keyed, settled) =
    deposit-Kept (to_record created e) id (expire now m) (
      expire-IsKeyed now m.mailbox_envelopes keyed,
      expire-Settled now id m.mailbox_envelopes settled,
    )
handle-Kept created now id (fetch_request token) m (keyed, settled) = (
  expire-IsKeyed now m.mailbox_envelopes keyed,
  expire-Settled now id m.mailbox_envelopes settled,
)
handle-Kept created now id (acknowledge_request key) m (keyed, settled) = (
  update-IsKeyed key now m.mailbox_envelopes keyed,
  update-Settled key id now m.mailbox_envelopes settled,
)

-- Requests, each with the two readings of the clock, answered one after the other.
abbrev pub serve : List (ℕ × ℕ × MailboxRequest) → MailboxStorage → MailboxStorage
serve [] m = m
serve ((created, now, request) ∷ calls) m =
    serve calls (handle_mailbox_request created now request m).1

serve-Kept :
    (id : String) (calls : List (ℕ × ℕ × MailboxRequest)) (m : MailboxStorage)
    → Kept id m
    → Kept id (serve calls m)
serve-Kept id [] m h = h
serve-Kept id ((created, now, request) ∷ calls) m h =
    serve-Kept id calls (handle_mailbox_request created now request m).1
      (handle-Kept created now id request m h)

Member-place :
    (x e : MailboxEnvelopeRecord) (es : List MailboxEnvelopeRecord)
    → Member x (place e es)
    → (e ≡ x) ⊎ Member x es
unfolding place
Member-place x e [] m = m
Member-place x e (f ∷ es) m = ground (arith, Member-place x e es)

Member-order_by :
    (x : MailboxEnvelopeRecord) (es : List MailboxEnvelopeRecord)
    → Member x (order_by es)
    → Member x es
unfolding order_by
Member-order_by x [] m = m
Member-order_by x (e ∷ es) m = elim (Member-place x e (order_by es) m) [
  | inl p ↦ inl p
  | inr later ↦ inr (Member-order_by x es later)
]

select_rows_cases :
    (token : String) (now : ℕ) (x : MailboxEnvelopeRecord) (id : String) (row : MailboxRow)
    (t : MailboxTable)
    → Member x (select_rows token now ((id, row) ∷ t))
    → ((row.envelope ≡ x) × (is_pending row ≡ true)) ⊎ Member x (select_rows token now t)
unfolding select_rows
select_rows_cases token now x id row t m = ground arith

Member-select_rows :
    (token : String) (now : ℕ) (x : MailboxEnvelopeRecord) (t : MailboxTable)
    → Member x (select_rows token now t)
    → (e : String × MailboxRow) × Member e t × (e.1.envelope ≡ x) × (is_pending e.1 ≡ true)
unfolding select_rows
Member-select_rows token now x [] m = absurd (m tt)
Member-select_rows token now x ((id, row) ∷ t) m = elim (select_rows_cases token now x id row t m) [
  | inl (p, q) ↦ ((id, row), inl refl, p, q)
  | inr later ↦ let (e, n, p, q) = Member-select_rows token now x t later in (e, inr n, p, q)
]

fetched-Settled :
    (token id : String) (now : ℕ) (m : MailboxStorage) (x : MailboxEnvelopeRecord)
    → Kept id m
    → Member x (fetch_pending token now m).0
    → ¬ (x.message_id ≡ id)
unfolding fetch_pending
fetched-Settled token id now m x (keyed, settled) there named =
    let t = (expire now m).mailbox_envelopes in
    let (e, n, p, q) =
      Member-select_rows token now x t (Member-order_by x (select_rows token now t) there) in
    let key : e.0 ≡ id =
      expire-IsKeyed now m.mailbox_envelopes keyed e n
      ∙ ap (λ (r : MailboxEnvelopeRecord). r.message_id) p
      ∙ named in
    let done : is_pending e.1 ≡ false =
      (expire-Settled now id m.mailbox_envelopes settled).1 e.1
        (subst (λ (k : String). Member (k, e.1) t) key n) in
    absurd cc

-- Once an envelope that is there was acknowledged, no fetch gives it out again, whatever requests
-- come in between: also if it is deposited again.
pub acknowledged_not_fetched :
    (id token : String) (at now : ℕ) (calls : List (ℕ × ℕ × MailboxRequest)) (m : MailboxStorage)
    (x : MailboxEnvelopeRecord)
    → IsKeyed m.mailbox_envelopes
    → has_envelope id m ≡ true
    → Member x (fetch_pending token now (serve calls (acknowledge_retrieval id at m))).0
    → ¬ (x.message_id ≡ id)
unfolding acknowledge_retrieval
acknowledged_not_fetched id token at now calls m x keyed there =
    let acknowledged = acknowledge_retrieval id at m in
    fetched-Settled token id now (serve calls acknowledged) x (
      serve-Kept id calls acknowledged (
        update-IsKeyed id at m.mailbox_envelopes keyed,
        acknowledged-Settled id at m.mailbox_envelopes there,
      ))

-- The deposit of an id that is there succeeds, even in a full mailbox, reports that nothing is
-- new, and changes nothing but what has expired.
pub deposit-known :
    (e : MailboxEnvelopeRecord) (now : ℕ) (m : MailboxStorage)
    → has_envelope e.message_id m ≡ true
    → deposit e now m ≡ (ok false, expire now m)
unfolding deposit
deposit-known e now m there =
    let known : has_envelope e.message_id (expire now m) ≡ true =
      contains-expire now e.message_id m.mailbox_envelopes ∙ there in
    let no_row_added : insert_envelope e (expire now m) ≡ expire now m =
      ap (λ t. record (expire now m) { mailbox_envelopes = t })
        (or_insert-present e.message_id (new_row e) (expire now m).mailbox_envelopes known) in
    elim (Bool-cases (leb m.max_pending_envelopes (pending_count (expire now m)))) [
      | inl full ↦ rw (full, known, no_row_added) refl
      | inr room ↦ rw (room, known, no_row_added) refl
    ]
