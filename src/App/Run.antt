-- ===== src/App/Run.antt =====
-- A function of src/main.rs that changes what it is given and may fail: what was written before an
-- error stays written.
use ciphermesh.App.{AppResult, ok, err}

abbrev pub Run : Type 0 → Type 0 → Type 0
Run S A = S → AppResult A × S

module _ {S A : Type 0} where
  abbrev pub pure : A → Run S A
  pure a s = (ok a, s)

  abbrev pub lift : AppResult A → Run S A
  lift r s = (r, s)

  abbrev pub gets : (S → A) → Run S A
  gets f s = (ok (f s), s)

module _ {S : Type 0} where
  abbrev pub update : (S → S) → Run S (Unit {0})
  update f s = (ok tt, f s)

module _ {S A B : Type 0} where
  abbrev pub continue : AppResult A → (A → Run S B) → S → AppResult B × S
  continue (ok a) f s = f a s
  continue (err e) f s = (err e, s)

  infixl 5 ◌>>=◌ ◌>>◌
  abbrev pub ◌>>=◌ : Run S A → (A → Run S B) → Run S B
  ◌>>=◌ m f s = continue (m s).0 f (m s).1

  abbrev pub ◌>>◌ : Run S A → Run S B → Run S B
  m >> k = m >>= λ _. k
