-- ===== src/Tests/Siblings.antt =====
-- The theorems on the certificates of src/lib.rs at an account with two devices.
use ciphermesh.Prelude.{ℕ, List, [], ◌∷◌, ◌++◌, ◌≡◌, refl, Member, inl, inr, true, false}
use ciphermesh.Crypto.{ok}
use ciphermesh.Crypto.Bytes.{be_bytes, same_bytes}
use ciphermesh.Crypto.Utf8.{as_bytes, char_bytes}
use ciphermesh.Devices.{
  device_certificate_context, device_revocation_context, DeviceCertificate, DeviceRevocation,
  AccountIdentity, DeviceIdentity, generate_account, generate_device, authorize_device,
  revoke_device, verify_device_certificate, verify_device_revocation,
  is_device_currently_authorized, active_device_certificates, short_hash, account_id_for_public_key,
  device_id_for_public_key, device_certificate_bytes, device_revocation_bytes,
  verify_authorized_sibling_devices, not_revoked, hex,
}
use ciphermesh.Devices.Authorization.{is_revoked, unrevoked, active-ok, authorized_until_revoked}
use ciphermesh.Sync.{check_siblings, ok as ok_app}
use ciphermesh.Tests.Toy.{toy, toy_signatures}

program : Unit {0}
unfolding generate_account generate_device authorize_device revoke_device verify_device_certificate
    verify_device_revocation is_device_currently_authorized active_device_certificates short_hash
    account_id_for_public_key device_id_for_public_key device_certificate_bytes
    device_revocation_bytes verify_authorized_sibling_devices not_revoked hex be_bytes same_bytes
    device_certificate_context device_revocation_context as_bytes char_bytes is_revoked unrevoked
    check_siblings
program = tt

abbrev pub key : List ℕ
key = 1 ∷ 2 ∷ 3 ∷ []

abbrev pub account : AccountIdentity
account = generate_account toy key

abbrev pub phone : DeviceIdentity
phone = generate_device toy account.account_id (4 ∷ []) (5 ∷ [])

abbrev pub laptop : DeviceIdentity
laptop = generate_device toy account.account_id (6 ∷ []) (7 ∷ [])

abbrev pub phone_certificate : DeviceCertificate
phone_certificate = authorize_device toy account phone

abbrev pub laptop_certificate : DeviceCertificate
laptop_certificate = authorize_device toy account laptop

abbrev pub phone_revocation : DeviceRevocation
phone_revocation = revoke_device toy account phone.device_id 1

abbrev certificates : List DeviceCertificate
certificates = phone_certificate ∷ laptop_certificate ∷ []

active :
    active_device_certificates toy key certificates (phone_revocation ∷ [])
    ≡ ok (laptop_certificate ∷ [])
unfolding program
active = refl

active-ok_example :
    (laptop_certificate ∷ [] ≡ unrevoked (phone_revocation ∷ []) certificates)
    × ((c : DeviceCertificate)
        → Member c certificates
        → verify_device_certificate toy key c ≡ ok tt)
active-ok_example =
    active-ok toy key certificates (laptop_certificate ∷ []) (phone_revocation ∷ []) active

certificates_verify :
    (c : DeviceCertificate) → Member c certificates → verify_device_certificate toy key c ≡ ok tt
certificates_verify =
    (active-ok toy key certificates (laptop_certificate ∷ []) (phone_revocation ∷ []) active).1

revocation_verifies : verify_device_revocation toy key phone_revocation ≡ ok tt
unfolding program
revocation_verifies = refl

revocations_verify :
    (r : DeviceRevocation)
    → Member r (phone_revocation ∷ [])
    → verify_device_revocation toy key r ≡ ok tt
revocations_verify r (inl e) = rw (← e) revocation_verifies
revocations_verify r (inr m) = absurd (m tt)

authorized_until_revoked_example :
    (is_device_currently_authorized toy key laptop_certificate (phone_revocation ∷ []) ≡ ok true)
    × (is_device_currently_authorized toy key laptop_certificate
          ((phone_revocation ∷ []) ++ revoke_device toy account laptop.device_id 2 ∷ [])
        ≡ ok false)
unfolding program
authorized_until_revoked_example =
    authorized_until_revoked toy toy_signatures key laptop 2 (phone_revocation ∷ []) [] refl

pub siblings_checked : check_siblings toy key phone_certificate laptop_certificate [] ≡ ok_app tt
unfolding program
siblings_checked = refl

pub phone_is_revoked : is_revoked (phone_revocation ∷ []) phone_certificate ≡ true
unfolding program
phone_is_revoked = refl
