-- ===== src/Storage/Records.antt =====
-- The rows of src/storage.rs. An integer column is an `i64`; it is kept as the `u64` with the same
-- bits, which is what the code casts it to when it reads a row.
use ciphermesh.Prelude.{ℕ, String, Option, List}
use ciphermesh.BTree.{BTreeMap}

pub record EventRecord : Type 0 where
  pub device_id : String
  pub counter : ℕ
  pub conversation_id : String
  pub event_type : String
  pub message_id : Option String
  pub payload : List ℕ
  pub created_at_unix_secs : ℕ

abbrev pub VersionVector : Type 0
VersionVector = BTreeMap String ℕ
