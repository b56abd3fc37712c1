-- ===== src/Storage/Devices.antt =====
-- The tables of src/storage.rs for accounts, devices, certificates, revocations and settings. A table
-- is a map from its primary key; every statement is taken to succeed.
pub mod Revocations
use ciphermesh.Prelude.{
  ℕ, String, Option, none, some, List, [], ◌∷◌, map, map_some, Bool, same, Ord, Ordering,
  string_ord, pair_ord, i64_ord, if◌then◌else◌,
}
use ciphermesh.BTree.{BTreeMap, lookup, insert, upsert}
use ciphermesh.Storage.Sql.{select_where, order_by}

pub record AccountRow : Type 0 where
  pub account_public_key : List ℕ
  pub account_secret_key : Option (List ℕ)
  pub updated_at_unix_secs : ℕ

pub record DeviceRow : Type 0 where
  pub account_id : String
  pub device_ed25519_public_key : List ℕ
  pub device_ed25519_secret_key : List ℕ
  pub device_x25519_public_key : List ℕ
  pub device_x25519_private_key : List ℕ
  pub updated_at_unix_secs : ℕ

pub record CertificateRow : Type 0 where
  pub account_id : String
  pub device_id : String
  pub certificate : List ℕ
  pub updated_at_unix_secs : ℕ

pub record RevocationRow : Type 0 where
  pub account_id : String
  pub device_id : String
  pub revocation_counter : ℕ
  pub revocation : List ℕ
  pub updated_at_unix_secs : ℕ

pub record DeviceTables : Type 0 where
  pub account_identities : BTreeMap String AccountRow
  pub device_identities : BTreeMap String DeviceRow
  pub device_certificates : BTreeMap (String × String) CertificateRow
  pub device_revocations : BTreeMap (String × String) RevocationRow
  pub local_settings : BTreeMap String String

abbrev pub no_devices : DeviceTables
no_devices = record {
  account_identities = [];
  device_identities = [];
  device_certificates = [];
  device_revocations = [];
  local_settings = [];
}

instance abbrev pub device_key_ord : Ord (String × String)
device_key_ord = pair_ord string_ord string_ord

unfoldable pub save_display_name : String → DeviceTables → DeviceTables
save_display_name display_name t = record t {
  local_settings = insert "display_name" display_name t.local_settings;
}

unfoldable pub load_display_name : DeviceTables → Option String
load_display_name t = lookup "display_name" t.local_settings

unfoldable pub save_account_identity :
    String → List ℕ → Option (List ℕ) → ℕ → DeviceTables → DeviceTables
save_account_identity account_id public secret now t =
    let row : AccountRow = record {
      account_public_key = public;
      account_secret_key = secret;
      updated_at_unix_secs = now;
    } in
    record t { account_identities = insert account_id row t.account_identities }

-- `optional()` and `Option::flatten`
abbrev pub secret_of : Option AccountRow → Option (List ℕ)
secret_of none = none
secret_of (some row) = row.account_secret_key

unfoldable pub load_account_secret_key : String → DeviceTables → Option (List ℕ)
load_account_secret_key account_id t = secret_of (lookup account_id t.account_identities)

unfoldable pub save_device_identity : String → DeviceRow → DeviceTables → DeviceTables
save_device_identity device_id row t = record t {
  device_identities = insert device_id row t.device_identities;
}

-- What the bytes that are returned are made of: the account, the device and its two secrets.
abbrev pub identity_of : String → DeviceRow → String × String × List ℕ × List ℕ
identity_of device_id row =
    (row.account_id, device_id, row.device_ed25519_secret_key, row.device_x25519_private_key)

unfoldable pub load_device_identity :
    String → DeviceTables → Option (String × String × List ℕ × List ℕ)
load_device_identity device_id t =
    map_some (identity_of device_id) (lookup device_id t.device_identities)

unfoldable pub save_device_certificate : String → String → List ℕ → ℕ → DeviceTables → DeviceTables
save_device_certificate account_id device_id certificate now t =
    let row : CertificateRow = record {
      account_id = account_id;
      device_id = device_id;
      certificate = certificate;
      updated_at_unix_secs = now;
    } in
    record t { device_certificates = insert (account_id, device_id) row t.device_certificates }

abbrev pub certificate_of : String → (String × String) × CertificateRow → Bool
certificate_of account_id (key, row) = same row.account_id account_id

unfoldable pub device_certificates_for_account : String → DeviceTables → List (List ℕ)
unfolding select_where order_by
device_certificates_for_account account_id t =
    map (λ row. CertificateRow.certificate row)
      (order_by (λ row. CertificateRow.device_id row)
        (select_where (certificate_of account_id) t.device_certificates))

-- ON CONFLICT the greater counter stays, and the revocation of the greater one; of two equal ones
-- the new one. The column is an INTEGER and compared as such.
abbrev pub is_newer : ℕ → ℕ → Ordering
is_newer new old = i64_ord.cmp new old

abbrev pub replace_if : Ordering → RevocationRow → RevocationRow → RevocationRow
replace_if Ordering.lt new old = record new {
  revocation_counter = old.revocation_counter;
  revocation = old.revocation;
}
replace_if Ordering.eq new old = new
replace_if Ordering.gt new old = new

abbrev pub newest_revocation : RevocationRow → Option RevocationRow → RevocationRow
newest_revocation new none = new
newest_revocation new (some old) =
    replace_if (is_newer new.revocation_counter old.revocation_counter) new old

unfoldable pub save_device_revocation :
    String → String → ℕ → List ℕ → ℕ → DeviceTables → DeviceTables
save_device_revocation account_id device_id revocation_counter revocation now t =
    let row : RevocationRow = record {
      account_id = account_id;
      device_id = device_id;
      revocation_counter = revocation_counter;
      revocation = revocation;
      updated_at_unix_secs = now;
    } in
    record t {
      device_revocations =
          upsert (account_id, device_id) (newest_revocation row) t.device_revocations;
    }

abbrev pub revocation_of : String → (String × String) × RevocationRow → Bool
revocation_of account_id (key, row) = same row.account_id account_id

unfoldable pub device_revocations_for_account : String → DeviceTables → List (List ℕ)
unfolding select_where order_by
device_revocations_for_account account_id t =
    map (λ row. RevocationRow.revocation row)
      (order_by (λ row. RevocationRow.device_id row)
        (select_where (revocation_of account_id) t.device_revocations))
