-- ===== src/Storage/Invites.antt =====
-- The invites of src/storage.rs: a table by the hash of the code. Every statement is taken to
-- succeed.
pub mod Once
use ciphermesh.Prelude.{
  ℕ, String, Option, none, some, [], Bool, false, ◌&&◌, not, is_some, ltb, signed_key, string_ord,
  if◌then◌else◌,
}
use ciphermesh.BTree.{BTreeMap, lookup, insert, modify}

pub record InviteRecord : Type 0 where
  pub code_hash : String
  pub rendezvous_payload : String
  pub expires_at_unix_secs : ℕ
  pub consumed_at_unix_secs : Option ℕ
  pub created_at_unix_secs : ℕ

-- PRIMARY KEY (code_hash)
abbrev pub InviteTable : Type 0
InviteTable = BTreeMap String InviteRecord

unfoldable pub save_invite_record : InviteRecord → InviteTable → InviteTable
save_invite_record invite t = insert invite.code_hash invite t

-- `consumed_at_unix_secs IS NULL AND expires_at_unix_secs > now`, of `i64`s
unfoldable pub is_open : ℕ → InviteRecord → Bool
is_open now invite =
    not (is_some invite.consumed_at_unix_secs)
    && ltb (signed_key now) (signed_key invite.expires_at_unix_secs)

-- Whether the UPDATE changes a row
unfoldable pub has_open : String → ℕ → InviteTable → Bool
unfolding is_open
has_open code_hash now t = elim (lookup code_hash t) [
  | none ↦ false
  | some invite ↦ is_open now invite
]

abbrev pub consumed_at : ℕ → InviteRecord → InviteRecord
consumed_at now invite = record invite { consumed_at_unix_secs = some now }

-- The row is read again after the UPDATE.
unfoldable pub consume_invite_record : String → ℕ → InviteTable → Option InviteRecord × InviteTable
unfolding has_open
consume_invite_record code_hash now t =
    if has_open code_hash now t
    then (
      lookup code_hash (modify code_hash (consumed_at now) t),
      modify code_hash (consumed_at now) t,
    )
    else (none, t)
