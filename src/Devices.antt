-- ===== src/Devices.antt =====
-- Accounts, devices, certificates and revocations of src/lib.rs.
pub mod Authorization
use Prim.Native.String.{◌++◌ as append_str, slice}
use ciphermesh.Prelude.{
  ℕ, zero, suc, ◌+◌, ◌/◌, ◌%◌, ◌^◌, String, List, [], ◌∷◌, ◌++◌, Bool, true, false, take, same, not,
  string_ord, if◌then◌else◌, ◌&&◌, ◌||◌,
}
use ciphermesh.Crypto.{Crypto, CryptoError, Result, ok, err, ◌>>=◌, ◌>>◌, guard}
use ciphermesh.Crypto.Utf8.{as_bytes}
use ciphermesh.Crypto.Bytes.{be_bytes, to_be_bytes}

pub record DeviceCertificate : Type 0 where
  pub account_id : String
  pub device_id : String
  pub device_ed25519_public_key : List ℕ
  pub device_x25519_public_key : List ℕ
  pub signature : List ℕ

pub record DeviceRevocation : Type 0 where
  pub account_id : String
  pub device_id : String
  pub revocation_counter : ℕ
  pub signature : List ℕ

-- Key pairs are kept as their secret bytes.
pub record AccountIdentity : Type 0 where
  pub account_id : String
  pub identity : List ℕ

pub record DeviceIdentity : Type 0 where
  pub account_id : String
  pub device_id : String
  pub signing : List ℕ
  pub x25519 : List ℕ

unfoldable pub device_certificate_context : List ℕ
unfolding as_bytes
device_certificate_context = as_bytes "ciphermesh.phase-5a.device-certificate"

unfoldable pub device_revocation_context : List ℕ
unfolding as_bytes
device_revocation_context = as_bytes "ciphermesh.phase-5d.device-revocation"

unfoldable pub device_certificate_bytes : DeviceCertificate → List ℕ
device_certificate_bytes c =
    device_certificate_context
    ++ (as_bytes c.account_id
        ++ (0
            ∷ (as_bytes c.device_id
                ++ (0 ∷ (c.device_ed25519_public_key ++ c.device_x25519_public_key)))))

unfoldable pub device_revocation_bytes : DeviceRevocation → List ℕ
unfolding be_bytes
device_revocation_bytes r =
    device_revocation_context
    ++ (as_bytes r.account_id
        ++ (0 ∷ (as_bytes r.device_id ++ (0 ∷ to_be_bytes r.revocation_counter))))

-- `{byte:02x}` of each byte
unfoldable pub hex : List ℕ → String
hex [] = ""
hex (b ∷ bytes) =
    append_str (slice "0123456789abcdef" (b / 16) (b / 16 + 1))
      (append_str (slice "0123456789abcdef" (b % 16) (b % 16 + 1)) (hex bytes))

abbrev pub names_device : DeviceRevocation → DeviceCertificate → Bool
names_device r c = same r.account_id c.account_id && same r.device_id c.device_id

module _ (crypto : Crypto) where
  open crypto use {
    sha256, ed25519_public, x25519_public, sign, is_verifying_key, is_signature, verify,
  }

  unfoldable pub short_hash : List ℕ → String
  unfolding hex
  short_hash bytes = hex (take 16 (sha256 bytes))

  unfoldable pub account_id_for_public_key : List ℕ → String
  unfolding short_hash
  account_id_for_public_key key = append_str "acct-" (short_hash key)

  unfoldable pub device_id_for_public_key : List ℕ → String
  unfolding short_hash
  device_id_for_public_key key = append_str "dev-" (short_hash key)

  -- A generated account has the identity that its random secret gives it.
  unfoldable pub generate_account : List ℕ → AccountIdentity
  unfolding account_id_for_public_key
  generate_account secret = record {
    account_id = account_id_for_public_key (ed25519_public secret);
    identity = secret;
  }

  unfoldable pub generate_device : String → List ℕ → List ℕ → DeviceIdentity
  unfolding device_id_for_public_key
  generate_device account_id signing x25519 = record {
    account_id = account_id;
    device_id = device_id_for_public_key (ed25519_public signing);
    signing = signing;
    x25519 = x25519;
  }

  abbrev unsigned_certificate : AccountIdentity → DeviceIdentity → DeviceCertificate
  unsigned_certificate a d = record {
    account_id = a.account_id;
    device_id = d.device_id;
    device_ed25519_public_key = ed25519_public d.signing;
    device_x25519_public_key = x25519_public d.x25519;
    signature = [];
  }

  unfoldable pub authorize_device : AccountIdentity → DeviceIdentity → DeviceCertificate
  unfolding device_certificate_bytes
  authorize_device a d = record (unsigned_certificate a d) {
    signature = sign a.identity (device_certificate_bytes (unsigned_certificate a d));
  }

  abbrev unsigned_revocation : AccountIdentity → String → ℕ → DeviceRevocation
  unsigned_revocation a device n = record {
    account_id = a.account_id;
    device_id = device;
    revocation_counter = n;
    signature = [];
  }

  unfoldable pub revoke_device : AccountIdentity → String → ℕ → DeviceRevocation
  unfolding device_revocation_bytes
  revoke_device a device n = record (unsigned_revocation a device n) {
    signature = sign a.identity (device_revocation_bytes (unsigned_revocation a device n));
  }

  -- The key and the signature are read, and then the bytes are checked.
  abbrev check_signature : List ℕ → List ℕ → List ℕ → Result (Unit {0})
  check_signature key bytes signature = do
    guard (is_verifying_key key) CryptoError.signature_verification
    guard (is_signature signature) CryptoError.signature_verification
    guard (verify key bytes signature) CryptoError.signature_verification

  unfoldable pub verify_device_certificate : List ℕ → DeviceCertificate → Result (Unit {0})
  unfolding account_id_for_public_key device_certificate_bytes
  verify_device_certificate key c = do
    guard (same c.account_id (account_id_for_public_key key)) CryptoError.signature_verification
    check_signature key (device_certificate_bytes c) c.signature

  unfoldable pub verify_device_revocation : List ℕ → DeviceRevocation → Result (Unit {0})
  unfolding account_id_for_public_key device_revocation_bytes
  verify_device_revocation key r = do
    guard (same r.account_id (account_id_for_public_key key)) CryptoError.signature_verification
    check_signature key (device_revocation_bytes r) r.signature

  unfoldable pub verify_authorized_sibling_devices :
      List ℕ → DeviceCertificate → DeviceCertificate → Result (Unit {0})
  unfolding verify_device_certificate
  verify_authorized_sibling_devices key first second = do
    verify_device_certificate key first
    verify_device_certificate key second
    guard
        (not
          (not (same first.account_id second.account_id) || same first.device_id second.device_id))
        CryptoError.signature_verification

  -- The loop over the revocations: the first that names the device decides.
  unfoldable pub not_revoked : List ℕ → DeviceCertificate → List DeviceRevocation → Result Bool
  unfolding verify_device_revocation
  not_revoked key c [] = ok true
  not_revoked key c (r ∷ rs) =
      if names_device r c
      then (do verify_device_revocation key r; ok false)
      else not_revoked key c rs

  unfoldable pub is_device_currently_authorized :
      List ℕ → DeviceCertificate → List DeviceRevocation → Result Bool
  unfolding verify_device_certificate not_revoked
  is_device_currently_authorized key c rs = do verify_device_certificate key c; not_revoked key c rs

  -- `filter_map` and `collect`: the first error ends it.
  unfoldable pub active_device_certificates :
      List ℕ → List DeviceCertificate → List DeviceRevocation → Result (List DeviceCertificate)
  unfolding is_device_currently_authorized
  active_device_certificates key [] rs = ok []
  active_device_certificates key (c ∷ cs) rs =
      let rest = active_device_certificates key cs rs in
      do
        active ← is_device_currently_authorized key c rs
        if active then (do out ← rest; ok (c ∷ out)) else rest
