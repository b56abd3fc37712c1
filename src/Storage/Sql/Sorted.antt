-- ===== src/Storage/Sql/Sorted.antt =====
-- The order of the rows that DELETE leaves of a table of src/storage.rs.
use ciphermesh.Prelude.{Ord, Ordering, none, [], ◌∷◌, Bool, ◌≡◌, refl, arith, Bool-cases, inl, inr}
use ciphermesh.BTree.{BTreeMap, lookup}
use ciphermesh.BTree.Sorted.{AllAbove, IsSorted, AllAbove-trans, lookup-AllAbove}
use ciphermesh.Storage.Sql.{delete_where}

module _ {ℓ κ} {K : Type ℓ} {V : Type κ} ⦃o : Ord K⦄ (test : K × V → Bool) where
  AllAbove-delete : (k : K) (m : BTreeMap K V) → AllAbove k m → AllAbove k (delete_where test m)
  unfolding delete_where
  AllAbove-delete k [] above = tt
  AllAbove-delete k ((j, v) ∷ m) (here, above) = elim (Bool-cases (test (j, v))) [
    | inl goes ↦ rw goes (AllAbove-delete k m above)
    | inr stays ↦ rw stays (here, AllAbove-delete k m above)
  ]

  pub IsSorted-delete : (m : BTreeMap K V) → IsSorted m → IsSorted (delete_where test m)
  unfolding delete_where
  IsSorted-delete [] sorted = tt
  IsSorted-delete ((j, v) ∷ m) (above, sorted) = elim (Bool-cases (test (j, v))) [
    | inl goes ↦ rw goes (IsSorted-delete m sorted)
    | inr stays ↦ rw stays (AllAbove-delete j m above, IsSorted-delete m sorted)
  ]

  -- A deletion makes nothing appear.
  pub lookup-delete_absent :
      (k : K) (m : BTreeMap K V)
      → IsSorted m
      → lookup k m ≡ none
      → lookup k (delete_where test m) ≡ none
  unfolding lookup delete_where
  lookup-delete_absent k [] sorted h = refl
  lookup-delete_absent k ((j, v) ∷ m) (above, sorted) h =
      let before : o.cmp k j ≡ Ordering.lt → lookup k (delete_where test m) ≡ none = λ e.
        lookup-AllAbove k (delete_where test m)
          (AllAbove-delete k m (AllAbove-trans k j m e above)) in
      ground (arith, before, lookup-delete_absent k m sorted)
