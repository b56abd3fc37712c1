-- ===== src/Storage/Sql.antt =====
-- The statements of src/storage.rs on one table: rows under their primary key, chosen by a test.
pub mod Laws
pub mod Sorted
pub mod Ordered
use ciphermesh.Prelude.{
  ℕ, suc, Option, none, some, List, [], ◌∷◌, Bool, Ord, Ordering, if◌then◌else◌,
}
use ciphermesh.BTree.{BTreeMap}

module _ {ℓ κ} {K : Type ℓ} {V : Type κ} where
  -- SELECT … WHERE
  unfoldable pub select_where : (K × V → Bool) → BTreeMap K V → List V
  select_where test [] = []
  select_where test ((k, v) ∷ rows) =
      let rest = select_where test rows in if test (k, v) then v ∷ rest else rest

  -- DELETE … WHERE, what is left
  unfoldable pub delete_where : (K × V → Bool) → BTreeMap K V → BTreeMap K V
  delete_where test [] = []
  delete_where test ((k, v) ∷ rows) =
      let rest = delete_where test rows in if test (k, v) then rest else (k, v) ∷ rest

  -- SELECT COUNT(*) … WHERE, and how many rows a DELETE or an UPDATE changes
  unfoldable pub count_where : (K × V → Bool) → BTreeMap K V → ℕ
  count_where test [] = 0
  count_where test ((k, v) ∷ rows) =
      let rest = count_where test rows in if test (k, v) then suc rest else rest

  -- UPDATE … SET … WHERE, of columns that are not the key
  unfoldable pub update_where : (K × V → Bool) → (V → V) → BTreeMap K V → BTreeMap K V
  update_where test f [] = []
  update_where test f ((k, v) ∷ rows) =
      (k, if test (k, v) then f v else v) ∷ update_where test f rows

-- `query_row` and `optional()`: the first row.
abbrev pub first_row {ℓ} : {V : Type ℓ} → List V → Option V
first_row [] = none
first_row (v ∷ _) = some v

-- ORDER BY
module _ {ℓ κ} {K : Type ℓ} {V : Type κ} ⦃o : Ord K⦄ (key : V → K) where
  unfoldable pub place : V → List V → List V
  place v [] = v ∷ []
  place v (w ∷ ws) = elim (o.cmp (key v) (key w)) [
    | Ordering.gt ↦ w ∷ place v ws
    | Ordering.lt ↦ v ∷ w ∷ ws
    | Ordering.eq ↦ v ∷ w ∷ ws
  ]

  unfoldable pub order_by : List V → List V
  unfolding place
  order_by [] = []
  order_by (v ∷ vs) = place v (order_by vs)

  -- ORDER BY … DESC LIMIT 1: a row that no later one exceeds.
  unfoldable pub greatest : List V → Option V
  greatest [] = none
  greatest (v ∷ vs) =
      let rest = greatest vs in
      elim rest [
        | none ↦ some v
        | some w ↦ elim (o.cmp (key v) (key w)) [
          | Ordering.gt ↦ some v
          | Ordering.lt ↦ some w
          | Ordering.eq ↦ some w
        ]
      ]
