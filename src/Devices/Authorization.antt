-- ===== src/Devices/Authorization.antt =====
-- Which certificates src/lib.rs takes to be current.
use ciphermesh.Prelude.{
  ℕ, List, [], ◌∷◌, ◌++◌, ◌≡◌, refl, inl, inr, Bool, true, false, arith, Member, same_self,
  string_ord, not, ◌||◌, if◌then◌else◌,
}
use ciphermesh.Crypto.{Crypto, ok, Result-cases}
use ciphermesh.Devices.{
  DeviceCertificate, DeviceRevocation, DeviceIdentity, generate_account, authorize_device,
  revoke_device, verify_device_certificate, verify_device_revocation, names_device, not_revoked,
  is_device_currently_authorized, active_device_certificates,
}

-- Whether some revocation names the device of the certificate.
unfoldable pub is_revoked : List DeviceRevocation → DeviceCertificate → Bool
is_revoked [] c = false
is_revoked (r ∷ rs) c = names_device r c || is_revoked rs c

-- The certificates whose devices no revocation names, in order.
unfoldable pub unrevoked : List DeviceRevocation → List DeviceCertificate → List DeviceCertificate
unrevoked rs [] = []
unrevoked rs (c ∷ cs) = let rest = unrevoked rs cs in if is_revoked rs c then rest else c ∷ rest

-- A signature that an account makes is one that its public key accepts.
pub record SignatureLaws (crypto : Crypto) : Type 0 where
  pub key_read : (s : List ℕ) → crypto.is_verifying_key (crypto.ed25519_public s) ≡ true
  pub signature_read : (s m : List ℕ) → crypto.is_signature (crypto.sign s m) ≡ true
  pub verifies : (s m : List ℕ) → crypto.verify (crypto.ed25519_public s) m (crypto.sign s m) ≡ true

module _ (crypto : Crypto) (key : List ℕ) where
  pub not_revoked-ok :
      (c : DeviceCertificate) (rs : List DeviceRevocation) (b : Bool)
      → not_revoked crypto key c rs ≡ ok b
      → b ≡ not (is_revoked rs c)
  unfolding not_revoked is_revoked
  not_revoked-ok c [] b h = ground arith
  not_revoked-ok c (r ∷ rs) b h = ground (arith, not_revoked-ok c rs b)

  not_revoked_of_verified :
      (c : DeviceCertificate) (rs : List DeviceRevocation)
      → ((r : DeviceRevocation) → Member r rs → verify_device_revocation crypto key r ≡ ok tt)
      → not_revoked crypto key c rs ≡ ok (not (is_revoked rs c))
  unfolding not_revoked is_revoked
  not_revoked_of_verified c [] h = refl
  not_revoked_of_verified c (r ∷ rs) h =
      ground (arith, h r (inl refl), not_revoked_of_verified c rs (λ s m. h s (inr m)))

  -- Every certificate that was given verifies, and those that are returned are the ones whose
  -- devices no revocation names, in order.
  pub active-ok :
      (cs out : List DeviceCertificate) (rs : List DeviceRevocation)
      → active_device_certificates crypto key cs rs ≡ ok out
      → (out ≡ unrevoked rs cs)
        × ((c : DeviceCertificate) → Member c cs → verify_device_certificate crypto key c ≡ ok tt)
  unfolding active_device_certificates is_device_currently_authorized unrevoked
  active-ok [] out rs h = (ground arith, λ c m. absurd (m tt))
  active-ok (c ∷ cs) out rs h = elim (Result-cases (verify_device_certificate crypto key c)) [
    | inr (e, bad) ↦ absurd (ground arith)
    | inl (_, verified) ↦ elim (Result-cases (not_revoked crypto key c rs)) [
      | inr (e, bad) ↦ absurd (ground arith)
      | inl (b, current) ↦ elim (Result-cases (active_device_certificates crypto key cs rs)) [
        | inr (e, bad) ↦ absurd (ground arith)
        | inl (rest, later) ↦
            let (kept, all) = active-ok cs rest rs later in
            (ground (arith, not_revoked-ok c rs b current), verified_all verified all)
      ]
    ]
  ]
    where
      verified_all :
          {d : Unit {0}}
          → verify_device_certificate crypto key c ≡ ok d
          → ((x : DeviceCertificate) → Member x cs → verify_device_certificate crypto key x ≡ ok tt)
          → (x : DeviceCertificate) → Member x (c ∷ cs)
          → verify_device_certificate crypto key x ≡ ok tt
      verified_all v all x (inl e) = rw (← e) v
      verified_all v all x (inr m) = all x m

  -- Where all certificates and revocations verify, there is no error.
  pub active_of_verified :
      (cs : List DeviceCertificate) (rs : List DeviceRevocation)
      → ((c : DeviceCertificate) → Member c cs → verify_device_certificate crypto key c ≡ ok tt)
      → ((r : DeviceRevocation) → Member r rs → verify_device_revocation crypto key r ≡ ok tt)
      → active_device_certificates crypto key cs rs ≡ ok (unrevoked rs cs)
  unfolding active_device_certificates is_device_currently_authorized unrevoked
  active_of_verified [] rs hc hr = refl
  active_of_verified (c ∷ cs) rs hc hr = ground (
    arith,
    hc c (inl refl),
    not_revoked_of_verified c rs hr,
    active_of_verified cs rs (λ d m. hc d (inr m)) hr,
  )

module _ (crypto : Crypto) (laws : SignatureLaws crypto) (secret : List ℕ)
    (device : DeviceIdentity) where
  -- What an account authorizes verifies under its public key.
  pub verify-authorize :
      verify_device_certificate crypto
        (crypto.ed25519_public secret)
        (authorize_device crypto (generate_account crypto secret) device)
      ≡ ok tt
  unfolding verify_device_certificate authorize_device generate_account
  verify-authorize =
      rw (same_self _, laws.key_read secret, laws.signature_read secret _, laws.verifies secret _)

  pub verify-revoke :
      (n : ℕ)
      → verify_device_revocation crypto
          (crypto.ed25519_public secret)
          (revoke_device crypto (generate_account crypto secret) device.device_id n)
        ≡ ok tt
  unfolding verify_device_revocation revoke_device generate_account
  verify-revoke n =
      rw (same_self _, laws.key_read secret, laws.signature_read secret _, laws.verifies secret _)

not_revoked-append :
    (crypto : Crypto) (key : List ℕ) (c : DeviceCertificate) (rs : List DeviceRevocation)
    (r : DeviceRevocation) (more : List DeviceRevocation)
    → is_revoked rs c ≡ false
    → names_device r c ≡ true
    → verify_device_revocation crypto key r ≡ ok tt
    → (not_revoked crypto key c rs ≡ ok true)
      × (not_revoked crypto key c (rs ++ r ∷ more) ≡ ok false)
unfolding not_revoked is_revoked
not_revoked-append crypto key c [] r more free named verified = ground arith
not_revoked-append crypto key c (x ∷ rs) r more free named verified =
    ground (arith, not_revoked-append crypto key c rs r more)

module _ (crypto : Crypto) (laws : SignatureLaws crypto) where
  -- A certificate that an account made for a device is current as long as no revocation names the
  -- device, and is no longer once the account's revocation follows, whatever comes after it.
  pub authorized_until_revoked :
      (secret : List ℕ) (device : DeviceIdentity) (n : ℕ) (rs more : List DeviceRevocation)
      → let account = generate_account crypto secret in
        let key = crypto.ed25519_public secret in
        let c = authorize_device crypto account device in
        is_revoked rs c ≡ false
        → (is_device_currently_authorized crypto key c rs ≡ ok true)
          × (is_device_currently_authorized crypto key c
                (rs ++ revoke_device crypto account device.device_id n ∷ more)
              ≡ ok false)
  unfolding is_device_currently_authorized
  authorized_until_revoked secret device n rs more free =
      let account = generate_account crypto secret in
      rw (verify-authorize crypto laws secret device) (
        not_revoked-append crypto _ (authorize_device crypto account device) rs
          (revoke_device crypto account device.device_id n) more free
          (unfold authorize_device revoke_device in
            rw (same_self account.account_id, same_self device.device_id))
          (verify-revoke crypto laws secret device n))
