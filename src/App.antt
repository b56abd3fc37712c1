-- ===== src/App.antt =====
-- Errors of src/main.rs: `AppResult`.
pub mod Run
use ciphermesh.Prelude.{String, Option, none, some, Bool, true, false}
use ciphermesh.Crypto
use ciphermesh.Crypto.{CryptoError}

pub data AppError : Type 0 where
  crypto_error : CryptoError → AppError
  codec_error storage_error sibling_revoked : AppError
  text_error : String → AppError

pub data AppResult {ℓ} (A : Type ℓ) : Type ℓ where
  ok : A → AppResult A
  err : AppError → AppResult A

-- `?`
infixl 5 ◌>>=◌ ◌>>◌
abbrev pub ◌>>=◌ {ℓ κ} :
    {A : Type ℓ} {B : Type κ} (r : AppResult A) (next : A → AppResult B) → AppResult B
err e >>= next = err e
ok a >>= next = next a

abbrev pub ◌>>◌ {ℓ} : {B : Type ℓ} (r : AppResult (Unit {0})) (next : AppResult B) → AppResult B
r >> next = r >>= (λ _. next)

-- `?` on a `CryptoError`, and on a `bincode` error
abbrev pub from_crypto {ℓ} : {A : Type ℓ} → Crypto.Result A → AppResult A
from_crypto (Crypto.ok a) = ok a
from_crypto (Crypto.err e) = err (crypto_error e)

abbrev pub from_codec {ℓ} : {A : Type ℓ} → Option A → AppResult A
from_codec none = err codec_error
from_codec (some a) = ok a
