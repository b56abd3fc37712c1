-- ===== src/BTree/Commute.antt =====
-- Updates of different keys commute, and two updates of one key are one update.
use ciphermesh.Prelude.{
  Ord, Option, some, [], ◌∷◌, ◌≡◌, ◌≢◌, refl, arith, map_some, inl, inr, ap, fun_ext, key_cases,
  ◌∙◌,
}
use ciphermesh.BTree.{BTreeMap, upsert, modify}

module _ {ℓ κ} {K : Type ℓ} {V : Type κ} ⦃o : Ord K⦄ where
  pub upsert-upsert_self :
      (k : K) (f g : Option V → V) (m : BTreeMap K V)
      → upsert k f (upsert k g m) ≡ upsert k (λ v. f (some (g v))) m
  unfolding upsert
  upsert-upsert_self k f g [] = ground (arith, o.cmp_refl k)
  upsert-upsert_self k f g ((j, v) ∷ m) = ground (arith, o.cmp_refl k, upsert-upsert_self k f g m)

  pub modify-upsert_self :
      (k : K) (f : V → V) (g : Option V → V) (m : BTreeMap K V)
      → modify k f (upsert k g m) ≡ upsert k (λ v. f (g v)) m
  unfolding upsert modify
  modify-upsert_self k f g [] = ground (arith, o.cmp_refl k)
  modify-upsert_self k f g ((j, v) ∷ m) = ground (arith, o.cmp_refl k, modify-upsert_self k f g m)

  pub modify-modify_self :
      (k : K) (f g : V → V) (m : BTreeMap K V)
      → modify k f (modify k g m) ≡ modify k (λ v. f (g v)) m
  unfolding modify
  modify-modify_self k f g [] = refl
  modify-modify_self k f g ((j, v) ∷ m) = ground (arith, o.cmp_refl k, modify-modify_self k f g m)

  pub upsert-modify_self :
      (k : K) (f : Option V → V) (g : V → V) (m : BTreeMap K V)
      → upsert k f (modify k g m) ≡ upsert k (λ v. f (map_some g v)) m
  unfolding upsert modify
  upsert-modify_self k f g [] = refl
  upsert-modify_self k f g ((j, v) ∷ m) = ground (arith, o.cmp_refl k, upsert-modify_self k f g m)

  module _ (a b : K) (differ : a ≢ b) where
    pub upsert-upsert_comm :
        (f g : Option V → V) (m : BTreeMap K V)
        → upsert a f (upsert b g m) ≡ upsert b g (upsert a f m)
    unfolding upsert
    upsert-upsert_comm f g [] = ground (arith, o.eq_of_cmp a b, o.cmp_flip a b)
    upsert-upsert_comm f g ((j, v) ∷ m) = ground (
      arith,
      o.eq_of_cmp a b,
      o.cmp_flip a b,
      o.eq_of_cmp a j,
      o.eq_of_cmp b j,
      o.cmp_trans a b j,
      o.cmp_trans b a j,
      o.cmp_flip a j,
      o.cmp_flip b j,
      o.cmp_trans a j b,
      o.cmp_trans b j a,
      upsert-upsert_comm f g m,
    )

    pub modify-upsert_comm :
        (f : V → V) (g : Option V → V) (m : BTreeMap K V)
        → modify a f (upsert b g m) ≡ upsert b g (modify a f m)
    unfolding upsert modify
    modify-upsert_comm f g [] = ground (arith, o.eq_of_cmp a b, o.cmp_flip a b)
    modify-upsert_comm f g ((j, v) ∷ m) = ground (
      arith,
      o.eq_of_cmp a b,
      o.cmp_flip a b,
      o.eq_of_cmp a j,
      o.eq_of_cmp b j,
      o.cmp_trans a b j,
      o.cmp_trans b a j,
      o.cmp_flip a j,
      o.cmp_flip b j,
      o.cmp_trans a j b,
      o.cmp_trans b j a,
      modify-upsert_comm f g m,
    )

    pub modify-modify_comm :
        (f g : V → V) (m : BTreeMap K V) → modify a f (modify b g m) ≡ modify b g (modify a f m)
    unfolding modify
    modify-modify_comm f g [] = refl
    modify-modify_comm f g ((j, v) ∷ m) = ground (
      arith,
      o.eq_of_cmp a b,
      o.cmp_flip a b,
      o.eq_of_cmp a j,
      o.eq_of_cmp b j,
      o.cmp_trans a b j,
      o.cmp_trans b a j,
      o.cmp_flip a j,
      o.cmp_flip b j,
      o.cmp_trans a j b,
      o.cmp_trans b j a,
      modify-modify_comm f g m,
    )

  -- Updates of any two keys commute if they do so on one entry when the keys are equal.
  module _ (a b : K) where
    pub upsert-upsert_agree :
        (f g : Option V → V) (m : BTreeMap K V)
        → (a ≡ b → (v : Option V) → f (some (g v)) ≡ g (some (f v)))
        → upsert a f (upsert b g m) ≡ upsert b g (upsert a f m)
    upsert-upsert_agree f g m h = elim (key_cases a b) [
      | inl e ↦
          rw (e, upsert-upsert_self b f g m, upsert-upsert_self b g f m)
            (ap (λ u. upsert b u m) (fun_ext (h e)))
      | inr ne ↦ upsert-upsert_comm a b ne f g m
    ]

    pub modify-upsert_agree :
        (f : V → V) (g g' : Option V → V) (m : BTreeMap K V)
        → (a ≡ b → (v : Option V) → f (g v) ≡ g' (map_some f v))
        → (a ≢ b → g ≡ g')
        → modify a f (upsert b g m) ≡ upsert b g' (modify a f m)
    modify-upsert_agree f g g' m h k = elim (key_cases a b) [
      | inl e ↦
          rw (e, modify-upsert_self b f g m, upsert-modify_self b g' f m)
            (ap (λ u. upsert b u m) (fun_ext (h e)))
      | inr ne ↦ modify-upsert_comm a b ne f g m ∙ ap (λ u. upsert b u (modify a f m)) (k ne)
    ]

    pub modify-modify_agree :
        (f g : V → V) (m : BTreeMap K V)
        → (a ≡ b → (v : V) → f (g v) ≡ g (f v))
        → modify a f (modify b g m) ≡ modify b g (modify a f m)
    modify-modify_agree f g m h = elim (key_cases a b) [
      | inl e ↦
          rw (e, modify-modify_self b f g m, modify-modify_self b g f m)
            (ap (λ u. modify b u m) (fun_ext (h e)))
      | inr ne ↦ modify-modify_comm a b ne f g m
    ]
