-- ===== src/BTree/Members.antt =====
-- The entries of a map, as a list: what an update keeps and what it adds.
use ciphermesh.Prelude.{
  Ord, some, List, [], ◌∷◌, ◌≡◌, ◌⊎◌, arith, Member, get_or, inl, inr, key_cases, ◌∙◌, sym,
}
use ciphermesh.BTree.{BTreeMap, lookup, upsert, insert, or_insert, extend}
use ciphermesh.BTree.Laws.{lookup-upsert_self, lookup-upsert_ne}

module _ {ℓ} {K V : Type ℓ} ⦃o : Ord K⦄ where
  pub Member-insert :
      (k : K) (v : V) (e : K × V) (m : BTreeMap K V)
      → Member e (insert k v m)
      → ((k, v) ≡ e) ⊎ Member e m
  unfolding upsert
  Member-insert k v e [] h = h
  Member-insert k v e ((j, w) ∷ m) h = ground (arith, Member-insert k v e m)

  pub Member-or_insert :
      (k : K) (v : V) (e : K × V) (m : BTreeMap K V)
      → Member e (or_insert k v m)
      → ((k, v) ≡ e) ⊎ Member e m
  unfolding upsert
  Member-or_insert k v e [] h = h
  Member-or_insert k v e ((j, w) ∷ m) h = ground (arith, o.eq_of_cmp k j, Member-or_insert k v e m)

  -- INSERT OR IGNORE loses no row.
  pub or_insert-Member :
      (k : K) (v : V) (e : K × V) (m : BTreeMap K V) → Member e m → Member e (or_insert k v m)
  unfolding upsert
  or_insert-Member k v e [] h = absurd (h tt)
  or_insert-Member k v e ((j, w) ∷ m) h = ground (arith, o.eq_of_cmp k j, or_insert-Member k v e m)

  pub Member-lookup : (k : K) (v : V) (m : BTreeMap K V) → lookup k m ≡ some v → Member (k, v) m
  unfolding lookup
  Member-lookup k v [] h = ground arith
  Member-lookup k v ((j, w) ∷ m) h = ground (arith, o.eq_of_cmp k j, Member-lookup k v m)

  -- Afterwards there is a row under the key.
  pub or_insert-there :
      (k : K) (v : V) (m : BTreeMap K V) → (w : V) × Member (k, w) (or_insert k v m)
  or_insert-there k v m = (
    get_or v (lookup k m),
    Member-lookup k _ (or_insert k v m) (lookup-upsert_self k (get_or v) m),
  )

  pub lookup-extend :
      (k : K) (v : V) (l : List (K × V)) (m : BTreeMap K V)
      → lookup k (extend l m) ≡ some v
      → Member (k, v) l ⊎ (lookup k m ≡ some v)
  unfolding extend
  lookup-extend k v [] m h = inr h
  lookup-extend k v ((j, w) ∷ l) m h = elim (lookup-extend k v l (insert j w m) h) [
    | inl there ↦ inl (inr there)
    | inr e ↦ elim (key_cases j k) [
      | inl p ↦ ground (arith, lookup-upsert_self k (λ _. w) m)
      | inr ne ↦ inr (sym (lookup-upsert_ne j k (λ _. w) m ne) ∙ e)
    ]
  ]
