-- ===== src/Storage/Sql/Ordered.antt =====
-- ORDER BY of src/storage.rs: the last row in ascending order is the first in descending order.
use ciphermesh.Prelude.{
  Ord, Ordering, Option, none, some, List, [], ◌∷◌, ◌≡◌, ◌≢◌, refl, sym, arith, Member, ◌⊎◌, inl,
  inr, ◌↔◌, ◌∙◌, ap,
}
use ciphermesh.Storage.Sql.{place, order_by, greatest}

abbrev pub last {ℓ} : {A : Type ℓ} → List A → Option A
last [] = none
last (a ∷ []) = some a
last (a ∷ b ∷ l) = last (b ∷ l)

module _ {ℓ κ} {K : Type ℓ} {V : Type κ} ⦃o : Ord K⦄ (key : V → K) where
  abbrev NotAbove : V → V → Type 0
  NotAbove v w = o.cmp (key v) (key w) ≢ Ordering.gt

  -- Each row is not above the next one.
  abbrev pub IsAscending : List V → Type 0
  IsAscending [] = Unit
  IsAscending (v ∷ []) = Unit
  IsAscending (v ∷ w ∷ l) = NotAbove v w × IsAscending (w ∷ l)

  NotAbove-trans : (u v w : V) → NotAbove u v → NotAbove v w → NotAbove u w
  NotAbove-trans u v w p q = ground (
    arith,
    o.eq_of_cmp (key u) (key v),
    o.eq_of_cmp (key v) (key w),
    o.cmp_trans (key u) (key v) (key w),
    o.cmp_flip (key u) (key w),
    o.cmp_flip (key u) (key v),
  )

  -- The greater of two, the second one where they are equal.
  abbrev greater : V → Option V → Option V
  greater v none = some v
  greater v (some w) = elim (o.cmp (key v) (key w)) [
    | Ordering.gt ↦ some v
    | Ordering.lt ↦ some w
    | Ordering.eq ↦ some w
  ]

  below_last :
      (v w : V) (l : List V)
      → IsAscending (w ∷ l)
      → NotAbove v w
      → greater v (last (w ∷ l)) ≡ last (w ∷ l)
  below_last v w [] up p = ground arith
  below_last v w (x ∷ l) (q, up) p = below_last v x l up (NotAbove-trans v w x p q)

  last-cons-place : (v w : V) (l : List V) → last (w ∷ place key v l) ≡ last (place key v l)
  unfolding place
  last-cons-place v w [] = refl
  last-cons-place v w (x ∷ l) = ground arith

  last-place : (v : V) (l : List V) → IsAscending l → last (place key v l) ≡ greater v (last l)
  unfolding place
  last-place v [] up = refl
  last-place v (w ∷ []) up = ground arith
  last-place v (w ∷ x ∷ l) (q, up) = ground (
    arith,
    last-cons-place v w (x ∷ l),
    last-place v (x ∷ l) up,
    below_last v x l up,
    NotAbove-trans v w x,
  )

  place-IsAscending : (v : V) (l : List V) → IsAscending l → IsAscending (place key v l)
  unfolding place
  place-IsAscending v [] up = tt
  place-IsAscending v (w ∷ []) up = ground (arith, o.cmp_flip (key v) (key w))
  place-IsAscending v (w ∷ x ∷ l) (q, up) =
      ground (arith, o.cmp_flip (key v) (key w), place-IsAscending v (x ∷ l) up)

  pub order_by-IsAscending : (l : List V) → IsAscending (order_by key l)
  unfolding order_by
  order_by-IsAscending [] = tt
  order_by-IsAscending (v ∷ l) = place-IsAscending v (order_by key l) (order_by-IsAscending l)

  greatest-cons : (v : V) (l : List V) → greatest key (v ∷ l) ≡ greater v (greatest key l)
  unfolding greatest
  greatest-cons v l = ground arith

  pub greatest-eq-last : (l : List V) → greatest key l ≡ last (order_by key l)
  unfolding order_by greatest
  greatest-eq-last [] = refl
  greatest-eq-last (v ∷ l) =
      greatest-cons v l
      ∙ (ap (greater v) (greatest-eq-last l)
          ∙ sym (last-place v (order_by key l) (order_by-IsAscending l)))

  Member-place : (v u : V) (l : List V) → Member u (place key v l) → (v ≡ u) ⊎ Member u l
  unfolding place
  Member-place v u [] h = h
  Member-place v u (w ∷ l) h = ground (arith, Member-place v u l)

  place-Member : (v u : V) (l : List V) → (v ≡ u) ⊎ Member u l → Member u (place key v l)
  unfolding place
  place-Member v u [] h = h
  place-Member v u (w ∷ l) h = ground (arith, place-Member v u l)

  -- Ordering leaves the same rows.
  pub Member-order_by : (u : V) (l : List V) → Member u (order_by key l) ↔ Member u l
  unfolding order_by
  Member-order_by u [] = (λ h. h, λ h. h)
  Member-order_by u (v ∷ l) = (
    λ h. elim (Member-place v u (order_by key l) h) [
      | inl e ↦ inl e
      | inr m ↦ inr ((Member-order_by u l).0 m)
    ],
    λ h.
        place-Member v u (order_by key l)
          (elim h [ inl e ↦ inl e | inr m ↦ inr ((Member-order_by u l).1 m) ]),
  )
