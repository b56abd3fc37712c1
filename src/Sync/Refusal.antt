-- ===== src/Sync/Refusal.antt =====
-- A revoked device is not synchronized (src/main.rs).
use ciphermesh.Prelude.{ℕ, String, List, ◌≡◌, refl, Bool, true, false, arith, not, ◌||◌}
use ciphermesh.Crypto.{Crypto, Result-cases, ok as ok_crypto}
use ciphermesh.Devices.{
  DeviceCertificate, DeviceRevocation, verify_device_certificate, verify_authorized_sibling_devices,
  is_device_currently_authorized,
}
use ciphermesh.Devices.Authorization.{is_revoked, not_revoked-ok}
use ciphermesh.Storage.Events.{EventTables}
use ciphermesh.Sync.{
  Wire, AppResult, AppError, ok, err, check_siblings, sync_authorized_sibling_devices,
}

module _ (crypto : Crypto) (key : List ℕ) (lc rc : DeviceCertificate)
    (revocations : List DeviceRevocation) where
  is_authorized-ok :
      (c : DeviceCertificate) (b : Bool)
      → is_device_currently_authorized crypto key c revocations ≡ ok_crypto b
      → b ≡ not (is_revoked revocations c)
  unfolding is_device_currently_authorized
  is_authorized-ok c b h = ground (
    arith,
    Result-cases (verify_device_certificate crypto key c),
    not_revoked-ok crypto key c revocations b,
  )

  check-ok :
      check_siblings crypto key lc rc revocations ≡ ok tt
      → (is_revoked revocations lc || is_revoked revocations rc) ≡ false
  unfolding check_siblings
  check-ok h = ground (
    arith,
    Result-cases (verify_authorized_sibling_devices crypto key lc rc),
    Result-cases (is_device_currently_authorized crypto key lc revocations),
    Result-cases (is_device_currently_authorized crypto key rc revocations),
    is_authorized-ok lc true,
    is_authorized-ok rc true,
  )

  -- Where a revocation names one of the two devices there is an error, and neither side changes.
  pub sync_refused :
      (wire : Wire) (left right : EventTables) (conversation : String)
      → (is_revoked revocations lc || is_revoked revocations rc) ≡ true
      → (e : AppError) × (sync_authorized_sibling_devices crypto wire key lc rc revocations left
            right conversation
          ≡ (err e, left, right))
  unfolding sync_authorized_sibling_devices
  sync_refused wire left right conversation revoked =
      from_check (check_siblings crypto key lc rc revocations) refl
    where
      from_check :
          (r : AppResult (Unit {0}))
          → check_siblings crypto key lc rc revocations ≡ r
          → (e : AppError) × (sync_authorized_sibling_devices crypto wire key lc rc revocations left
                right conversation
              ≡ (err e, left, right))
      from_check (ok d) h = absurd (ground (arith, check-ok h))
      from_check (err e) h = (e, rw h)
