-- ===== src/Mailbox/Store.antt =====
-- The mailbox of src/mailbox_storage.rs, and `handle_mailbox_request` of src/main.rs. The table is
-- a map from its primary key; every statement is taken to succeed.
use ciphermesh.Prelude.{
  ℕ, suc, String, Option, none, some, List, [], ◌∷◌, Bool, true, false, ◌&&◌, not, leb, same, Ord,
  Ordering, pair_ord, string_ord, i64_ord, signed_key, if◌then◌else◌,
}
use ciphermesh.BTree.{BTreeMap, or_insert, contains_key}

pub record MailboxEnvelopeRecord : Type 0 where
  pub message_id : String
  pub recipient_token : String
  pub encrypted_payload : List ℕ
  pub created_at_unix_secs : ℕ
  pub expires_at_unix_secs : Option ℕ

-- The texts of the column `status`
pub data Status : Type 0 where
  pending expired delivered : Status

-- A row of `mailbox_envelopes`
pub record MailboxRow : Type 0 where
  pub envelope : MailboxEnvelopeRecord
  pub status : Status
  pub delivered_at_unix_secs : Option ℕ

abbrev pub MailboxTable : Type 0
MailboxTable = BTreeMap String MailboxRow

pub record MailboxStorage : Type 0 where
  pub mailbox_envelopes : MailboxTable
  pub max_pending_envelopes : ℕ

-- `storage.init()` makes an empty table.
abbrev pub open_in_memory : ℕ → MailboxStorage
open_in_memory max = record { mailbox_envelopes = []; max_pending_envelopes = max }

abbrev pub is_pending : MailboxRow → Bool
is_pending row = elim row.status [ pending ↦ true | expired ↦ false | delivered ↦ false ]

-- `expires_at_unix_secs IS NOT NULL AND expires_at_unix_secs <= now`, of `i64`s
abbrev pub is_due : ℕ → Option ℕ → Bool
is_due now none = false
is_due now (some at) = leb (signed_key at) (signed_key now)

abbrev pub expire_row : ℕ → MailboxRow → MailboxRow
expire_row now row =
    if is_pending row && is_due now row.envelope.expires_at_unix_secs
    then record row { status = expired }
    else row

unfoldable pub expire_rows : ℕ → MailboxTable → MailboxTable
expire_rows now [] = []
expire_rows now ((id, row) ∷ rows) = (id, expire_row now row) ∷ expire_rows now rows

abbrev pub expire : ℕ → MailboxStorage → MailboxStorage
expire now m = record m { mailbox_envelopes = expire_rows now m.mailbox_envelopes }

-- SELECT COUNT(*) … WHERE status = 'pending'
unfoldable pub count_pending : MailboxTable → ℕ
count_pending [] = 0
count_pending ((id, row) ∷ rows) =
    let rest = count_pending rows in if is_pending row then suc rest else rest

abbrev pub pending_count : MailboxStorage → ℕ
pending_count m = count_pending m.mailbox_envelopes

abbrev pub has_envelope : String → MailboxStorage → Bool
has_envelope id m = contains_key id m.mailbox_envelopes

pub data MailboxError : Type 0 where
  mailbox_storage_is_full : MailboxError

pub data MailboxResult {ℓ} (A : Type ℓ) : Type ℓ where
  ok : A → MailboxResult A
  err : MailboxError → MailboxResult A

abbrev pub new_row : MailboxEnvelopeRecord → MailboxRow
new_row envelope = record { envelope = envelope; status = pending; delivered_at_unix_secs = none }

-- INSERT OR IGNORE; the flag says whether the row is new.
abbrev pub insert_envelope : MailboxEnvelopeRecord → MailboxStorage → MailboxStorage
insert_envelope envelope m = record m {
  mailbox_envelopes = or_insert envelope.message_id (new_row envelope) m.mailbox_envelopes;
}

abbrev pub deposit_expired :
    MailboxEnvelopeRecord → MailboxStorage → MailboxResult Bool × MailboxStorage
deposit_expired envelope m =
    if leb m.max_pending_envelopes (pending_count m) && not (has_envelope envelope.message_id m)
    then (err mailbox_storage_is_full, m)
    else (ok (not (has_envelope envelope.message_id m)), insert_envelope envelope m)

unfoldable pub deposit :
    MailboxEnvelopeRecord → ℕ → MailboxStorage → MailboxResult Bool × MailboxStorage
unfolding expire_rows count_pending
deposit envelope now m = deposit_expired envelope (expire now m)

-- The condition of the query in `fetch_pending`
abbrev pub is_fetched : String → ℕ → MailboxRow → Bool
is_fetched token now row =
    same row.envelope.recipient_token token
    && (is_pending row && not (is_due now row.envelope.expires_at_unix_secs))

unfoldable pub select_rows : String → ℕ → MailboxTable → List MailboxEnvelopeRecord
select_rows token now [] = []
select_rows token now ((id, row) ∷ rows) =
    let rest = select_rows token now rows in
    if is_fetched token now row then row.envelope ∷ rest else rest

-- ORDER BY created_at_unix_secs, message_id
abbrev pub created_ord : Ord (ℕ × String)
created_ord = pair_ord i64_ord string_ord

abbrev pub order_key : MailboxEnvelopeRecord → ℕ × String
order_key e = (e.created_at_unix_secs, e.message_id)

unfoldable pub place :
    MailboxEnvelopeRecord → List MailboxEnvelopeRecord → List MailboxEnvelopeRecord
place e [] = e ∷ []
place e (f ∷ es) = elim (created_ord.cmp (order_key e) (order_key f)) [
  | Ordering.gt ↦ f ∷ place e es
  | _ ↦ e ∷ f ∷ es
]

unfoldable pub order_by : List MailboxEnvelopeRecord → List MailboxEnvelopeRecord
unfolding place
order_by [] = []
order_by (e ∷ es) = place e (order_by es)

unfoldable pub fetch_pending :
    String → ℕ → MailboxStorage → List MailboxEnvelopeRecord × MailboxStorage
unfolding expire_rows select_rows order_by
fetch_pending token now m =
    (order_by (select_rows token now (expire now m).mailbox_envelopes), expire now m)

abbrev pub set_delivered : ℕ → MailboxRow → MailboxRow
set_delivered now row = record row { status = delivered; delivered_at_unix_secs = some now }

-- UPDATE … WHERE message_id = …
unfoldable pub update_where : String → (MailboxRow → MailboxRow) → MailboxTable → MailboxTable
update_where id f [] = []
update_where id f ((key, row) ∷ rows) =
    (key, if same key id then f row else row) ∷ update_where id f rows

unfoldable pub acknowledge_retrieval : String → ℕ → MailboxStorage → MailboxStorage
unfolding update_where
acknowledge_retrieval id now m = record m {
  mailbox_envelopes = update_where id (set_delivered now) m.mailbox_envelopes;
}
