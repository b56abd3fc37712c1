-- ===== src/Crypto.antt =====
-- The primitives that src/lib.rs takes from other crates, and its error type. Keys, signatures and
-- texts are byte lists.
pub mod Utf8
pub mod Bytes
use ciphermesh.Prelude.{
  ℕ, String, Option, none, some, List, Bool, true, false, ◌≡◌, ◌⊎◌, inl, inr, refl,
}

-- x25519-dalek, ed25519-dalek, hkdf with SHA-256, chacha20poly1305 and sha2.
pub record Crypto : Type 0 where
  -- the public key of an X25519 secret, and the shared secret
  pub x25519_public : List ℕ → List ℕ
  pub diffie_hellman : List ℕ → List ℕ → List ℕ
  -- `Hkdf::new(salt, material)` and `expand(info, length)`
  pub hkdf_expand : Option (List ℕ) → List ℕ → List ℕ → ℕ → Option (List ℕ)
  -- key, nonce, associated data and text
  pub aead_encrypt : List ℕ → List ℕ → List ℕ → List ℕ → Option (List ℕ)
  pub aead_decrypt : List ℕ → List ℕ → List ℕ → List ℕ → Option (List ℕ)
  -- the public key of an Ed25519 secret, `sign`, and the three steps of a verification
  pub ed25519_public : List ℕ → List ℕ
  pub sign : List ℕ → List ℕ → List ℕ
  pub is_verifying_key : List ℕ → Bool
  pub is_signature : List ℕ → Bool
  pub verify : List ℕ → List ℕ → List ℕ → Bool
  pub sha256 : List ℕ → List ℕ

pub data CryptoError : Type 0 where
  encrypt decrypt key_derivation missing_session_key prekey_unavailable : CryptoError
  replay signature_verification too_many_skipped_messages utf8 : CryptoError

pub data Result {ℓ} (A : Type ℓ) : Type ℓ where
  ok : A → Result A
  err : CryptoError → Result A

-- `?`
infixl 5 ◌>>=◌ ◌>>◌
abbrev pub ◌>>=◌ {ℓ κ} : {A : Type ℓ} {B : Type κ} (r : Result A) (next : A → Result B) → Result B
err e >>= next = err e
ok a >>= next = next a

abbrev pub ◌>>◌ {ℓ} : {B : Type ℓ} (r : Result (Unit {0})) (next : Result B) → Result B
r >> next = r >>= (λ _. next)

-- `if !b { return Err(e) }`
abbrev pub guard : Bool → CryptoError → Result (Unit {0})
guard false e = err e
guard true e = ok tt

-- `ok_or(e)`, and `map_err(|_| e)`
abbrev pub ok_or {ℓ} : {A : Type ℓ} → CryptoError → Option A → Result A
ok_or e none = err e
ok_or e (some a) = ok a

pub Result-cases {ℓ} :
    {A : Type ℓ} (r : Result A) → ((a : A) × (r ≡ ok a)) ⊎ ((e : CryptoError) × (r ≡ err e))
Result-cases (ok a) = inl (a, refl)
Result-cases (err e) = inr (e, refl)
