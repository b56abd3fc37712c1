-- ===== src/BTree/Sorted.antt =====
-- The order of the entries of a map. Every map that the program makes is in order, as it starts empty
-- and is changed by the operations here.
use ciphermesh.Prelude.{
  Ord, Ordering, flip, Option, none, some, [], ◌∷◌, ◌++◌, ◌≡◌, refl, sym, ap, ◌∙◌, arith, subst,
}
use ciphermesh.BTree.{BTreeMap, lookup, upsert, insert, remove, extend, collect}

module _ {ℓ κ} {K : Type ℓ} {V : Type κ} ⦃o : Ord K⦄ where
  -- Every key of the map is greater.
  abbrev pub AllAbove : K → BTreeMap K V → Type 0
  AllAbove k [] = Unit {0}
  AllAbove k ((j, v) ∷ m) = (o.cmp k j ≡ Ordering.lt) × AllAbove k m

  abbrev pub IsSorted : BTreeMap K V → Type 0
  IsSorted [] = Unit {0}
  IsSorted ((k, v) ∷ m) = AllAbove k m × IsSorted m

  pub AllAbove-trans :
      (k j : K) (m : BTreeMap K V) → o.cmp k j ≡ Ordering.lt → AllAbove j m → AllAbove k m
  AllAbove-trans k j [] lt above = tt
  AllAbove-trans k j ((i, v) ∷ m) lt (here, above) =
      (o.cmp_trans k j i lt here, AllAbove-trans k j m lt above)

  pub lookup-AllAbove : (k : K) (m : BTreeMap K V) → AllAbove k m → lookup k m ≡ none
  unfolding lookup
  lookup-AllAbove k [] above = refl
  lookup-AllAbove k ((j, v) ∷ m) (here, above) = ground (arith, here)

  -- A removed key is not there.
  pub lookup-remove_self : (k : K) (m : BTreeMap K V) → IsSorted m → lookup k (remove k m) ≡ none
  unfolding lookup remove
  lookup-remove_self k [] sorted = refl
  lookup-remove_self k ((j, v) ∷ m) (above, sorted) =
      ground (arith, o.eq_of_cmp k j, lookup-AllAbove k m, lookup-remove_self k m sorted)

  AllAbove-upsert :
      (k j : K) (f : Option V → V) (m : BTreeMap K V)
      → o.cmp k j ≡ Ordering.lt
      → AllAbove k m
      → AllAbove k (upsert j f m)
  unfolding upsert
  AllAbove-upsert k j f [] lt above = (lt, tt)
  AllAbove-upsert k j f ((i, v) ∷ m) lt (here, above) =
      ground (arith, AllAbove-upsert k j f m lt above)

  pub IsSorted-upsert :
      (k : K) (f : Option V → V) (m : BTreeMap K V) → IsSorted m → IsSorted (upsert k f m)
  unfolding upsert
  IsSorted-upsert k f [] sorted = (tt, tt)
  IsSorted-upsert k f ((j, v) ∷ m) (above, sorted) =
      go (o.cmp k j) refl (λ e. AllAbove-upsert j k f m e above) (IsSorted-upsert k f m sorted)
    where
      go :
          (r : Ordering)
          → o.cmp k j ≡ r
          → (o.cmp j k ≡ Ordering.lt → AllAbove j (upsert k f m))
          → IsSorted (upsert k f m)
          → IsSorted (elim r [
            | Ordering.lt ↦ (k, f none) ∷ (j, v) ∷ m
            | Ordering.eq ↦ (k, f (some v)) ∷ m
            | Ordering.gt ↦ (j, v) ∷ upsert k f m
          ])
      go Ordering.lt e keeps rest = ((e, AllAbove-trans k j m e above), (above, sorted))
      go Ordering.eq e keeps rest =
          (subst (λ i. AllAbove i m) (sym (o.eq_of_cmp k j e)) above, sorted)
      go Ordering.gt e keeps rest = (keeps (o.cmp_flip k j ∙ ap flip e), rest)

  AllAbove-remove : (k j : K) (m : BTreeMap K V) → AllAbove k m → AllAbove k (remove j m)
  unfolding remove
  AllAbove-remove k j [] above = tt
  AllAbove-remove k j ((i, v) ∷ m) (here, above) = ground (arith, AllAbove-remove k j m above)

  pub IsSorted-remove : (k : K) (m : BTreeMap K V) → IsSorted m → IsSorted (remove k m)
  unfolding remove
  IsSorted-remove k [] sorted = tt
  IsSorted-remove k ((j, v) ∷ m) (above, sorted) =
      ground (arith, AllAbove-remove j k m above, IsSorted-remove k m sorted)

  -- A removal makes nothing appear.
  pub lookup-remove_absent :
      (k j : K) (m : BTreeMap K V) → IsSorted m → lookup j m ≡ none → lookup j (remove k m) ≡ none
  unfolding lookup remove
  lookup-remove_absent k j [] sorted h = refl
  lookup-remove_absent k j ((i, w) ∷ m) (above, sorted) h =
      let before : o.cmp j i ≡ Ordering.lt → lookup j m ≡ none =
        λ e. lookup-AllAbove j m (AllAbove-trans j i m e above) in
      ground (arith, before, lookup-remove_absent k j m sorted)

  above_last :
      (j k : K) (v : V) (m l : BTreeMap K V)
      → AllAbove j (m ++ (k, v) ∷ l)
      → o.cmp j k ≡ Ordering.lt
  above_last j k v [] l (here, above) = here
  above_last j k v (e ∷ m) l (here, above) = above_last j k v m l above

  append_nil : (m : BTreeMap K V) → m ++ [] ≡ m
  append_nil [] = refl
  append_nil (e ∷ m) = ap (λ l. e ∷ l) (append_nil m)

  append_one : (m : BTreeMap K V) (e : K × V) (l : BTreeMap K V) → (m ++ e ∷ []) ++ l ≡ m ++ e ∷ l
  append_one [] e l = refl
  append_one (d ∷ m) e l = ap (λ l. d ∷ l) (append_one m e l)

  insert_last :
      (k : K) (v : V) (m l : BTreeMap K V)
      → IsSorted (m ++ (k, v) ∷ l)
      → insert k v m ≡ m ++ (k, v) ∷ []
  unfolding upsert
  insert_last k v [] l sorted = refl
  insert_last k v ((j, w) ∷ m) l (above, sorted) =
      ground (arith, insert_last k v m l sorted, above_last j k v m l above, o.cmp_flip j k)

  extend-IsSorted : (m l : BTreeMap K V) → IsSorted (m ++ l) → extend l m ≡ m ++ l
  unfolding extend
  extend-IsSorted m [] sorted = sym (append_nil m)
  extend-IsSorted m ((k, v) ∷ l) sorted =
      ap (extend l) (insert_last k v m l sorted)
      ∙ (extend-IsSorted (m ++ (k, v) ∷ []) l (subst IsSorted (sym (append_one m (k, v) l)) sorted)
          ∙ append_one m (k, v) l)

  -- The entries of a map, inserted one after the other, make the map again.
  pub collect-IsSorted : (m : BTreeMap K V) → IsSorted m → collect m ≡ m
  collect-IsSorted m sorted = extend-IsSorted [] m sorted
