-- ===== src/Prelude/Order.antt =====
-- Ordered keys: the interface that the maps take, and its instances for numbers, texts and pairs.
use Prim.Native.Nat.{ℕ, ◌+◌, ◌-◌, ◌^◌, Ordering, compare as compare_ℕ}
use Prim.Native.Char.{code}
use Prim.Native.String.{String, compare, then}
use Prim.Native.String.compare as compare_lem
use mathlib.Core.Path.{◌≡◌, refl, sym, ◌∙◌}
use mathlib.Core.Logic.{◌≢◌, ◌⊎◌}
use mathlib.Core.Bool.{Bool, true, false}
use native.Mathlib.Omega.{arith}
use text.Mathlib.TextEquality.{path_by_compare}
use text.Mathlib.TextPositions.{compare_refl}

abbrev pub flip : Ordering → Ordering
flip Ordering.lt = Ordering.gt
flip Ordering.eq = Ordering.eq
flip Ordering.gt = Ordering.lt

-- Rust's `Ord`: a total order with a three-way comparison that finds equal just what is equal.
pub record Ord {ℓ} (K : Type ℓ) : Type ℓ where
  pub cmp : K → K → Ordering
  pub cmp_refl : (a : K) → cmp a a ≡ Ordering.eq
  pub eq_of_cmp : (a b : K) → cmp a b ≡ Ordering.eq → a ≡ b
  pub cmp_flip : (a b : K) → cmp b a ≡ flip (cmp a b)
  pub cmp_trans :
      (a b c : K) → cmp a b ≡ Ordering.lt → cmp b c ≡ Ordering.lt → cmp a c ≡ Ordering.lt

abbrev pub is_same : Ordering → Bool
is_same Ordering.eq = true
is_same _ = false

-- Rust's `==` on an ordered type.
abbrev pub same {ℓ} : {K : Type ℓ} ⦃o : Ord K⦄ → K → K → Bool
same ⦃o⦄ a b = is_same (o.cmp a b)

pub cmp_ℕ_flip : (a b : ℕ) → compare_ℕ b a ≡ flip (compare_ℕ a b)
cmp_ℕ_flip a b = ground arith

pub cmp_ℕ_trans :
    (a b c : ℕ)
    → compare_ℕ a b ≡ Ordering.lt
    → compare_ℕ b c ≡ Ordering.lt
    → compare_ℕ a c ≡ Ordering.lt
cmp_ℕ_trans a b c p q = ground arith

pub cmp_ℕ_refl : (a : ℕ) → compare_ℕ a a ≡ Ordering.eq
cmp_ℕ_refl a = ground arith

pub eq_of_cmp_ℕ : (a b : ℕ) → compare_ℕ a b ≡ Ordering.eq → a ≡ b
eq_of_cmp_ℕ a b h = ground arith

instance abbrev pub nat_ord : Ord ℕ
nat_ord = record {
  cmp = compare_ℕ;
  cmp_refl = cmp_ℕ_refl;
  eq_of_cmp = eq_of_cmp_ℕ;
  cmp_flip = cmp_ℕ_flip;
  cmp_trans = cmp_ℕ_trans;
}

then_reversed : (o r o' r' : Ordering) → o' ≡ flip o → r' ≡ flip r → then o' r' ≡ flip (then o r)
then_reversed Ordering.lt r o' r' p q = rw p
then_reversed Ordering.eq r o' r' p q = rw (p, q)
then_reversed Ordering.gt r o' r' p q = rw p

then_trans :
    (o o' o'' r r' r'' : Ordering)
    → (o ≡ Ordering.lt → o' ≡ Ordering.lt → o'' ≡ Ordering.lt)
    → (o ≡ Ordering.eq → o'' ≡ o')
    → (o' ≡ Ordering.eq → o'' ≡ o)
    → (r ≡ Ordering.lt → r' ≡ Ordering.lt → r'' ≡ Ordering.lt)
    → then o r ≡ Ordering.lt
    → then o' r' ≡ Ordering.lt
    → then o'' r'' ≡ Ordering.lt
then_trans o o' o'' r r' r'' both left right rest p q = ground arith

pub then_eq : (o r : Ordering) → then o r ≡ Ordering.eq → (o ≡ Ordering.eq) × (r ≡ Ordering.eq)
then_eq o r h = ground arith

pub compare_reversed : (s t : String) → compare t s ≡ flip (compare s t)
compare_reversed String.[] String.[] = refl
compare_reversed String.[] (String.◌∷◌ d t) =
    rw (compare_lem.cons-nil d t, compare_lem.nil-cons d t)
compare_reversed (String.◌∷◌ c s) String.[] =
    rw (compare_lem.cons-nil c s, compare_lem.nil-cons c s)
compare_reversed (String.◌∷◌ c s) (String.◌∷◌ d t) =
    rw (compare_lem.cons-cons c d s t, compare_lem.cons-cons d c t s)
      (then_reversed (compare_ℕ (code c) (code d)) (compare s t) _ _ (cmp_ℕ_flip (code c) (code d))
        (compare_reversed s t))

pub compare_trans :
    (s t u : String)
    → compare s t ≡ Ordering.lt
    → compare t u ≡ Ordering.lt
    → compare s u ≡ Ordering.lt
compare_trans String.[] String.[] u p q = q
compare_trans String.[] (String.◌∷◌ d t) String.[] p q = cc (compare_lem.cons-nil d t)
compare_trans String.[] (String.◌∷◌ d t) (String.◌∷◌ e u) p q = compare_lem.nil-cons e u
compare_trans (String.◌∷◌ c s) String.[] u p q = cc (compare_lem.cons-nil c s)
compare_trans (String.◌∷◌ c s) (String.◌∷◌ d t) String.[] p q = cc (compare_lem.cons-nil d t)
compare_trans (String.◌∷◌ c s) (String.◌∷◌ d t) (String.◌∷◌ e u) p q =
    compare_lem.cons-cons c e s u
    ∙ then_trans (compare_ℕ (code c) (code d)) (compare_ℕ (code d) (code e))
        (compare_ℕ (code c) (code e)) (compare s t) (compare t u) (compare s u)
        (cmp_ℕ_trans (code c) (code d) (code e)) (λ h. ground arith) (λ h. ground arith)
        (compare_trans s t u) (sym (compare_lem.cons-cons c d s t) ∙ p)
        (sym (compare_lem.cons-cons d e t u) ∙ q)

-- Texts in the order of their code points, which is that of their UTF-8 bytes.
instance abbrev pub string_ord : Ord String
string_ord = record {
  cmp = compare;
  cmp_refl = compare_refl;
  eq_of_cmp = path_by_compare;
  cmp_flip = compare_reversed;
  cmp_trans = compare_trans;
}

-- The order by a key that determines the value.
module _ {ℓ} {K L : Type ℓ} (f : K → L) (injective : (a b : K) → f a ≡ f b → a ≡ b)
    (o : Ord L) where
  pub eq_of_cmp_key : (a b : K) → o.cmp (f a) (f b) ≡ Ordering.eq → a ≡ b
  eq_of_cmp_key a b h = injective a b (o.eq_of_cmp (f a) (f b) h)

  abbrev pub ord_by_key : Ord K
  ord_by_key = record {
    cmp = λ a b. o.cmp (f a) (f b);
    cmp_refl = λ a. o.cmp_refl (f a);
    eq_of_cmp = eq_of_cmp_key;
    cmp_flip = λ a b. o.cmp_flip (f a) (f b);
    cmp_trans = λ a b c. o.cmp_trans (f a) (f b) (f c);
  }

-- Pairs, the first parts compared first: a derived `Ord`.
module _ {ℓ} {K L : Type ℓ} (o : Ord K) (l : Ord L) where
  abbrev cmp_pair : K × L → K × L → Ordering
  cmp_pair (a, b) (c, d) = then (o.cmp a c) (l.cmp b d)

  pub cmp_pair_refl : (p : K × L) → cmp_pair p p ≡ Ordering.eq
  cmp_pair_refl (a, b) = rw (o.cmp_refl a) (l.cmp_refl b)

  pub eq_of_cmp_pair : (p q : K × L) → cmp_pair p q ≡ Ordering.eq → p ≡ q
  eq_of_cmp_pair (a, b) (c, d) h =
      let parts = then_eq (o.cmp a c) (l.cmp b d) h in
      λ i. (o.eq_of_cmp a c parts.0 i, l.eq_of_cmp b d parts.1 i)

  pub cmp_pair_reversed : (p q : K × L) → cmp_pair q p ≡ flip (cmp_pair p q)
  cmp_pair_reversed (a, b) (c, d) =
      then_reversed (o.cmp a c) (l.cmp b d) _ _ (o.cmp_flip a c) (l.cmp_flip b d)

  pub cmp_pair_trans :
      (p q r : K × L)
      → cmp_pair p q ≡ Ordering.lt
      → cmp_pair q r ≡ Ordering.lt
      → cmp_pair p r ≡ Ordering.lt
  cmp_pair_trans (a, b) (c, d) (e, f) =
      then_trans (o.cmp a c) (o.cmp c e) (o.cmp a e) (l.cmp b d) (l.cmp d f) (l.cmp b f)
        (o.cmp_trans a c e) (λ h. rw (o.eq_of_cmp a c h)) (λ h. rw (o.eq_of_cmp c e h))
        (l.cmp_trans b d f)

  abbrev pub pair_ord : Ord (K × L)
  pair_ord = record {
    cmp = cmp_pair;
    cmp_refl = cmp_pair_refl;
    eq_of_cmp = eq_of_cmp_pair;
    cmp_flip = cmp_pair_reversed;
    cmp_trans = cmp_pair_trans;
  }

-- An SQLite integer is an `i64`, kept here as the `u64` with the same bits; this is the place of
-- that integer in the order of the `i64`. Numbers of more than 64 bits stay above them all.
abbrev pub signed_key : ℕ → ℕ
signed_key n = elim (compare_ℕ n (2 ^ 63)) [
  | Ordering.lt ↦ n + 2 ^ 63
  | _ ↦ elim (compare_ℕ n (2 ^ 64)) [ Ordering.lt ↦ n - 2 ^ 63 | _ ↦ n ]
]

pub signed_key_injective : (a b : ℕ) → signed_key a ≡ signed_key b → a ≡ b
signed_key_injective a b h = ground arith

abbrev pub i64_ord : Ord ℕ
i64_ord = ord_by_key signed_key signed_key_injective nat_ord

module _ {ℓ} {K : Type ℓ} ⦃o : Ord K⦄ where
  ne_of_cmp : (a b : K) → o.cmp a b ≢ Ordering.eq → a ≢ b
  ne_of_cmp a b h e = h (rw e (o.cmp_refl b))

  -- Equality of keys is decided by the comparison.
  pub key_cases : (a b : K) → (a ≡ b) ⊎ (a ≢ b)
  key_cases a b = ground (arith, o.eq_of_cmp a b, ne_of_cmp a b)

  pub same_self : (a : K) → same a a ≡ true
  same_self a = rw (o.cmp_refl a)

  pub eq_of_same : (a b : K) → same a b ≡ true → a ≡ b
  eq_of_same a b h = ground (arith, o.eq_of_cmp a b)
