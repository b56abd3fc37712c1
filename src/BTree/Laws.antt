-- ===== src/BTree/Laws.antt =====
-- What a lookup finds after each operation of a map.
use ciphermesh.Prelude.{
  Ord, Option, some, true, [], ◌∷◌, ◌≡◌, ◌≢◌, refl, arith, map_some, same, same_self, eq_of_same,
  key_cases, inl, inr, ◌||◌, get_or,
}
use ciphermesh.BTree.{BTreeMap, lookup, upsert, modify, insert, or_insert, contains_key}

module _ {ℓ κ} {K : Type ℓ} {V : Type κ} ⦃o : Ord K⦄ where
  pub lookup-upsert_self :
      (k : K) (f : Option V → V) (m : BTreeMap K V)
      → lookup k (upsert k f m) ≡ some (f (lookup k m))
  unfolding lookup upsert
  lookup-upsert_self k f [] = ground (arith, o.cmp_refl k)
  lookup-upsert_self k f ((j, v) ∷ m) = ground (arith, o.cmp_refl k, lookup-upsert_self k f m)

  pub lookup-upsert_ne :
      (k j : K) (f : Option V → V) (m : BTreeMap K V) → k ≢ j → lookup j (upsert k f m) ≡ lookup j m
  unfolding lookup upsert
  lookup-upsert_ne k j f [] h = ground (arith, o.eq_of_cmp j k)
  lookup-upsert_ne k j f ((i, v) ∷ m) h = ground (
    arith,
    o.eq_of_cmp j k,
    o.eq_of_cmp k i,
    o.eq_of_cmp j i,
    o.cmp_flip k j,
    o.cmp_trans j k i,
    lookup-upsert_ne k j f m,
  )

  pub lookup-modify_self :
      (k : K) (f : V → V) (m : BTreeMap K V) → lookup k (modify k f m) ≡ map_some f (lookup k m)
  unfolding lookup modify
  lookup-modify_self k f [] = refl
  lookup-modify_self k f ((j, v) ∷ m) = ground (arith, o.cmp_refl k, lookup-modify_self k f m)

  pub lookup-modify_ne :
      (k j : K) (f : V → V) (m : BTreeMap K V) → k ≢ j → lookup j (modify k f m) ≡ lookup j m
  unfolding lookup modify
  lookup-modify_ne k j f [] h = refl
  lookup-modify_ne k j f ((i, v) ∷ m) h =
      ground (arith, o.eq_of_cmp j k, o.eq_of_cmp k i, o.eq_of_cmp j i, lookup-modify_ne k j f m)

  -- What a set has after an insertion.
  pub contains_key-insert :
      (k j : K) (v : V) (m : BTreeMap K V)
      → contains_key j (insert k v m) ≡ (same k j || contains_key j m)
  contains_key-insert k j v m = elim (key_cases k j) [
    | inl e ↦ rw (e, lookup-upsert_self j (λ _. v) m, same_self j)
    | inr ne ↦ rw (lookup-upsert_ne k j (λ _. v) m ne) (ground (arith, eq_of_same k j))
  ]

  pub contains_key-or_insert :
      (k j : K) (v : V) (m : BTreeMap K V)
      → contains_key j (or_insert k v m) ≡ (same k j || contains_key j m)
  contains_key-or_insert k j v m = elim (key_cases k j) [
    | inl e ↦ rw (e, lookup-upsert_self j (get_or v) m, same_self j)
    | inr ne ↦ rw (lookup-upsert_ne k j (get_or v) m ne) (ground (arith, eq_of_same k j))
  ]

  -- What a change of the values keeps, a lookup keeps.
  pub lookup-modify_keeps {μ} :
      {B : Type μ} (g : V → B) (k j : K) (f : V → V) (m : BTreeMap K V)
      → ((v : V) → g (f v) ≡ g v)
      → map_some g (lookup j (modify k f m)) ≡ map_some g (lookup j m)
  unfolding lookup modify
  lookup-modify_keeps g k j f [] keep = refl
  lookup-modify_keeps g k j f ((i, v) ∷ m) keep =
      ground (arith, keep v, o.eq_of_cmp k i, lookup-modify_keeps g k j f m keep)

  pub contains_key-modify :
      (k j : K) (f : V → V) (m : BTreeMap K V) → contains_key j (modify k f m) ≡ contains_key j m
  unfolding lookup modify
  contains_key-modify k j f [] = refl
  contains_key-modify k j f ((i, v) ∷ m) =
      ground (arith, o.eq_of_cmp k i, contains_key-modify k j f m)

  -- INSERT OR IGNORE leaves a table that has the key as it is.
  pub or_insert-present :
      (k : K) (v : V) (m : BTreeMap K V) → contains_key k m ≡ true → or_insert k v m ≡ m
  unfolding lookup upsert
  or_insert-present k v [] h = absurd cc
  or_insert-present k v ((j, w) ∷ m) h = ground (arith, o.eq_of_cmp k j, or_insert-present k v m)
