-- ===== src/Prelude/Nulls.antt =====
-- The order of a column that may be NULL: SQLite puts NULL before every value.
use Prim.Native.Nat.{Ordering}
use mathlib.Core.Path.{◌≡◌, refl, ap}
use mathlib.Core.Option.{Option, none, some}
use ciphermesh.Prelude.Order.{Ord, flip}

module _ {ℓ} {K : Type ℓ} (o : Ord K) where
  abbrev pub cmp_option : Option K → Option K → Ordering
  cmp_option none none = Ordering.eq
  cmp_option none (some b) = Ordering.lt
  cmp_option (some a) none = Ordering.gt
  cmp_option (some a) (some b) = o.cmp a b

  pub cmp_option_refl : (a : Option K) → cmp_option a a ≡ Ordering.eq
  cmp_option_refl none = refl
  cmp_option_refl (some a) = o.cmp_refl a

  pub eq_of_cmp_option : (a b : Option K) → cmp_option a b ≡ Ordering.eq → a ≡ b
  eq_of_cmp_option none none h = refl
  eq_of_cmp_option none (some b) h = cc
  eq_of_cmp_option (some a) none h = cc
  eq_of_cmp_option (some a) (some b) h = ap some (o.eq_of_cmp a b h)

  pub cmp_option-flip : (a b : Option K) → cmp_option b a ≡ flip (cmp_option a b)
  cmp_option-flip none none = refl
  cmp_option-flip none (some b) = refl
  cmp_option-flip (some a) none = refl
  cmp_option-flip (some a) (some b) = o.cmp_flip a b

  pub cmp_option_trans :
      (a b c : Option K)
      → cmp_option a b ≡ Ordering.lt
      → cmp_option b c ≡ Ordering.lt
      → cmp_option a c ≡ Ordering.lt
  cmp_option_trans none none c p q = q
  cmp_option_trans none (some b) none p q = cc
  cmp_option_trans none (some b) (some c) p q = refl
  cmp_option_trans (some a) none c p q = cc
  cmp_option_trans (some a) (some b) none p q = q
  cmp_option_trans (some a) (some b) (some c) p q = o.cmp_trans a b c p q

  abbrev pub null_first_ord : Ord (Option K)
  null_first_ord = record {
    cmp = cmp_option;
    cmp_refl = cmp_option_refl;
    eq_of_cmp = eq_of_cmp_option;
    cmp_flip = cmp_option-flip;
    cmp_trans = cmp_option_trans;
  }
