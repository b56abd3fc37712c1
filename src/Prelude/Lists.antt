-- ===== src/Prelude/Lists.antt =====
-- Lists measured by native numbers, under the library's names, and membership by recursion.
use Prim.Native.Nat.{ℕ, zero, suc}
use mathlib.Core.Path.{◌≡◌}
use mathlib.Core.Logic.{◌⊎◌, inr}
use mathlib.Core.List.{List, [], ◌∷◌, ◌++◌}
use native.Mathlib.Omega.{arith}

module _ {ℓ} {A : Type ℓ} where
  abbrev pub length : List A → ℕ
  length [] = 0
  length (x ∷ xs) = suc (length xs)

  abbrev pub take : ℕ → List A → List A
  take zero xs = []
  take (suc n) [] = []
  take (suc n) (x ∷ xs) = x ∷ take n xs

  abbrev pub drop : ℕ → List A → List A
  drop zero xs = xs
  drop (suc n) [] = []
  drop (suc n) (x ∷ xs) = drop n xs

  -- `a` stands in the list.
  abbrev pub Member : A → List A → Type ℓ
  Member a [] = ¬ Unit {ℓ}
  Member a (x ∷ xs) = (x ≡ a) ⊎ Member a xs

  pub Member-append : (a : A) (xs ys : List A) → Member a (xs ++ ys) → Member a xs ⊎ Member a ys
  Member-append a [] ys h = inr h
  Member-append a (x ∷ xs) ys h = ground (arith, Member-append a xs ys)

  pub append-Member_left : (a : A) (xs ys : List A) → Member a xs → Member a (xs ++ ys)
  append-Member_left a [] ys h = absurd (h tt)
  append-Member_left a (x ∷ xs) ys h = ground (arith, append-Member_left a xs ys)

  pub append-Member_right : (a : A) (xs ys : List A) → Member a ys → Member a (xs ++ ys)
  append-Member_right a [] ys h = h
  append-Member_right a (x ∷ xs) ys h = inr (append-Member_right a xs ys h)
