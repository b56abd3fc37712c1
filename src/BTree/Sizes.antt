-- ===== src/BTree/Sizes.antt =====
-- Removal from a map, and how many entries an operation leaves.
use ciphermesh.Prelude.{
  suc, ◌≤◌, Ord, Option, none, some, refl, Member, [], ◌∷◌, ◌≡◌, ◌≢◌, arith, length,
}
use ciphermesh.BTree.{BTreeMap, lookup, upsert, remove}

module _ {ℓ κ} {K : Type ℓ} {V : Type κ} ⦃o : Ord K⦄ where
  -- The other entries that were found are found.
  pub lookup-remove :
      (k j : K) (v : V) (m : BTreeMap K V)
      → k ≢ j
      → lookup j m ≡ some v
      → lookup j (remove k m) ≡ some v
  unfolding lookup remove
  lookup-remove k j v [] ne h = h
  lookup-remove k j v ((i, w) ∷ m) ne h =
      ground (arith, o.eq_of_cmp k i, o.eq_of_cmp j i, lookup-remove k j v m ne)

  pub length-upsert_le :
      (k : K) (f : Option V → V) (m : BTreeMap K V) → length (upsert k f m) ≤ suc (length m)
  unfolding upsert
  length-upsert_le k f [] = ground arith
  length-upsert_le k f ((j, v) ∷ m) = ground (arith, length-upsert_le k f m)

  -- A new key adds one entry.
  pub length-upsert_absent :
      (k : K) (f : Option V → V) (m : BTreeMap K V)
      → lookup k m ≡ none
      → length (upsert k f m) ≡ suc (length m)
  unfolding upsert lookup
  length-upsert_absent k f [] h = refl
  length-upsert_absent k f ((j, v) ∷ m) h = ground (arith, length-upsert_absent k f m)

  pub length-remove_le : (k : K) (m : BTreeMap K V) → length (remove k m) ≤ length m
  unfolding remove
  length-remove_le k [] = ground arith
  length-remove_le k ((j, v) ∷ m) = ground (arith, length-remove_le k m)

module _ {ℓ} {K V : Type ℓ} ⦃o : Ord K⦄ where
  pub Member-remove : (k : K) (e : K × V) (m : BTreeMap K V) → Member e (remove k m) → Member e m
  unfolding remove
  Member-remove k e [] h = h
  Member-remove k e ((j, w) ∷ m) h = ground (arith, Member-remove k e m)
