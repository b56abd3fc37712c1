-- ===== src/Ratchet/Stateful.antt =====
-- Methods that change an object and may fail: what was written before an error stays written.
use ciphermesh.Prelude.{Bool, true, false, ◌≡◌, refl, ap}
use ciphermesh.Crypto.{CryptoError, Result, ok, err}

abbrev pub Exec {ℓ} : Type ℓ → Type ℓ → Type ℓ
Exec S A = S → Result A × S

module _ {ℓ} {S A : Type ℓ} where
  abbrev pub pure : A → Exec S A
  pure a s = (ok a, s)

  abbrev pub raise : CryptoError → Exec S A
  raise e s = (err e, s)

  abbrev pub lift : Result A → Exec S A
  lift r s = (r, s)

  abbrev pub gets : (S → A) → Exec S A
  gets f s = (ok (f s), s)

module _ {ℓ} {S A B : Type ℓ} where
  abbrev pub continue : Result A → (A → Exec S B) → S → Result B × S
  continue (ok a) f s = f a s
  continue (err e) f s = (err e, s)

  infixl 5 ◌>>=◌ ◌>>◌
  abbrev pub ◌>>=◌ : Exec S A → (A → Exec S B) → Exec S B
  ◌>>=◌ m f s = continue (m s).0 f (m s).1

  abbrev pub ◌>>◌ : Exec S A → Exec S B → Exec S B
  m >> k = m >>= λ _. k

module _ {S : Type 0} where
  abbrev pub update : (S → S) → Exec S (Unit {0})
  update f s = (ok tt, f s)

  -- `if b { return Err(e) }`
  abbrev pub fail_if : Bool → CryptoError → Exec S (Unit {0})
  fail_if true e s = (err e, s)
  fail_if false e s = (ok tt, s)

abbrev pub value_or {ℓ} : {A : Type ℓ} → A → Result A → A
value_or a (ok b) = b
value_or a (err e) = a

-- What two equal successes return and leave is equal.
pub equal_successes {ℓ} :
    {S A : Type ℓ} (a b : A) (s t : S)
    → ◌≡◌ {A = Result A × S} (ok a, s) (ok b, t)
    → ◌≡◌ {A = A × S} (a, s) (b, t)
equal_successes a b s t h = ap (λ r. (value_or a r.0, r.1)) h

-- Where a step and what follows it succeed, the step did.
pub step_of_success :
    {S A B : Type 0} (r : Result A) (f : A → Exec S B) (s t : S) (b : B)
    → ◌≡◌ {A = Result B × S} (continue r f s) (ok b, t)
    → (a : A) × (r ≡ ok a) × (◌≡◌ {A = Result B × S} (f a s) (ok b, t))
step_of_success (ok a) f s t b h = (a, refl, h)
step_of_success (err e) f s t b h = absurd (cc (ap (λ r. r.0) h))
