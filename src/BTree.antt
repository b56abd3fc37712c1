-- ===== src/BTree.antt =====
-- `std::collections::BTreeMap` and `BTreeSet`, as the program uses them: entries in the order of
-- their keys, searched by comparison. An SQLite table with a primary key is kept in the same way.
pub mod Laws
pub mod Commute
pub mod Members
pub mod Sizes
pub mod Sorted
use ciphermesh.Prelude.{Ord, Ordering, Option, none, some, List, [], ◌∷◌, Bool, is_some, get_or}

abbrev pub BTreeMap {ℓ κ} : Type ℓ → Type κ → Type (ℓ ⊔ κ)
BTreeMap K V = List (K × V)

abbrev pub BTreeSet {ℓ} : Type ℓ → Type ℓ
BTreeSet K = BTreeMap K (Unit {0})

module _ {ℓ κ} {K : Type ℓ} {V : Type κ} ⦃o : Ord K⦄ where
  -- `get`
  unfoldable pub lookup : K → BTreeMap K V → Option V
  lookup k [] = none
  lookup k ((j, v) ∷ m) = elim (o.cmp k j) [
    | Ordering.lt ↦ none
    | Ordering.eq ↦ some v
    | Ordering.gt ↦ lookup k m
  ]

  -- `*entry(k) = f(entry(k))`: the entry is created where there is none.
  unfoldable pub upsert : K → (Option V → V) → BTreeMap K V → BTreeMap K V
  upsert k f [] = (k, f none) ∷ []
  upsert k f ((j, v) ∷ m) = elim (o.cmp k j) [
    | Ordering.lt ↦ (k, f none) ∷ (j, v) ∷ m
    | Ordering.eq ↦ (k, f (some v)) ∷ m
    | Ordering.gt ↦ (j, v) ∷ upsert k f m
  ]

  -- `if let Some(v) = get_mut(k) { *v = f(*v) }`
  unfoldable pub modify : K → (V → V) → BTreeMap K V → BTreeMap K V
  modify k f [] = []
  modify k f ((j, v) ∷ m) = elim (o.cmp k j) [
    | Ordering.lt ↦ (j, v) ∷ m
    | Ordering.eq ↦ (k, f v) ∷ m
    | Ordering.gt ↦ (j, v) ∷ modify k f m
  ]

  -- `remove(k)`, the map that is left
  unfoldable pub remove : K → BTreeMap K V → BTreeMap K V
  remove k [] = []
  remove k ((j, v) ∷ m) = elim (o.cmp k j) [
    | Ordering.lt ↦ (j, v) ∷ m
    | Ordering.eq ↦ m
    | Ordering.gt ↦ (j, v) ∷ remove k m
  ]

  abbrev pub insert : K → V → BTreeMap K V → BTreeMap K V
  insert k v = upsert k (λ _. v)

  -- `entry(k).or_insert(v)`, and SQL's INSERT OR IGNORE on a primary key
  abbrev pub or_insert : K → V → BTreeMap K V → BTreeMap K V
  or_insert k v = upsert k (get_or v)

  abbrev pub contains_key : K → BTreeMap K V → Bool
  contains_key k m = is_some (lookup k m)

  unfoldable pub extend : List (K × V) → BTreeMap K V → BTreeMap K V
  extend [] m = m
  extend ((k, v) ∷ l) m = extend l (insert k v m)

  -- `collect()` of pairs: they are inserted one after the other.
  abbrev pub collect : List (K × V) → BTreeMap K V
  collect l = extend l []
