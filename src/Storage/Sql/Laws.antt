-- ===== src/Storage/Sql/Laws.antt =====
-- What the statements of src/storage.rs leave of a table.
use ciphermesh.Prelude.{
  ◌+◌, ◌≤◌, [], ◌∷◌, Bool, Bool-cases, ltb, true, false, ◌≡◌, refl, arith, length, Member, inl, inr,
  ◌||◌, map, ap, subst, Option, none, some, Ord, if◌then◌else◌,
}
use ciphermesh.BTree.{BTreeMap, upsert}
use ciphermesh.Storage.Sql.{select_where, delete_where, count_where, update_where}

module _ {ℓ κ} {K : Type ℓ} {V : Type κ} (test : K × V → Bool) where
  pub select-delete_self : (m : BTreeMap K V) → select_where test (delete_where test m) ≡ []
  unfolding select_where delete_where
  select-delete_self [] = refl
  select-delete_self ((k, v) ∷ m) = ground (arith, select-delete_self m)

  -- A selection that excludes what is deleted is as before.
  pub select-delete_other :
      (other : K × V → Bool) (m : BTreeMap K V)
      → ((row : K × V) → other row ≡ true → test row ≡ false)
      → select_where other (delete_where test m) ≡ select_where other m
  unfolding select_where delete_where
  select-delete_other other [] apart = refl
  select-delete_other other ((k, v) ∷ m) apart =
      ground (arith, apart (k, v), select-delete_other other m apart)

  pub length-delete :
      (m : BTreeMap K V) → length m ≡ count_where test m + length (delete_where test m)
  unfolding count_where delete_where
  length-delete [] = refl
  length-delete ((k, v) ∷ m) = ground (arith, length-delete m)

  -- A row is counted where one passes the test.
  pub counted-Member :
      (m : BTreeMap K V)
      → ltb 0 (count_where test m) ≡ true
      → (row : K × V) × Member row m × (test row ≡ true)
  unfolding count_where
  counted-Member [] h = absurd (cc h)
  counted-Member ((k, v) ∷ m) h = elim (Bool-cases (test (k, v))) [
    | inl passes ↦ ((k, v), inl refl, passes)
    | inr fails ↦
        let (row, there, passes) = counted-Member m (ground (arith, h, fails)) in
        (row, inr there, passes)
  ]

  pub uncounted-Member :
      (row : K × V) (m : BTreeMap K V)
      → ltb 0 (count_where test m) ≡ false
      → Member row m
      → test row ≡ false
  unfolding count_where
  uncounted-Member row [] h there = absurd (there tt)
  uncounted-Member row ((k, v) ∷ m) h there = ground (arith, uncounted-Member row m)

  pub count-delete_other :
      (other : K × V → Bool) (m : BTreeMap K V)
      → ((row : K × V) → other row ≡ true → test row ≡ false)
      → count_where other (delete_where test m) ≡ count_where other m
  unfolding count_where delete_where
  count-delete_other other [] apart = refl
  count-delete_other other ((k, v) ∷ m) apart =
      ground (arith, apart (k, v), count-delete_other other m apart)

  pub length-select-delete :
      (other : K × V → Bool) (m : BTreeMap K V)
      → length (select_where other (delete_where test m)) ≤ length (select_where other m)
  unfolding select_where delete_where
  length-select-delete other [] = omega arith
  length-select-delete other ((k, v) ∷ m) = ground (arith, length-select-delete other m)

  pub length-update : (f : V → V) (m : BTreeMap K V) → length (update_where test f m) ≡ length m
  unfolding update_where
  length-update f [] = refl
  length-update f ((k, v) ∷ m) = ground (arith, length-update f m)

  -- What an UPDATE does to a selection that reads other rows, or that reads none after it.
  pub select-update_other :
      (f : V → V) (other : K × V → Bool) (m : BTreeMap K V)
      → ((k : K) (v : V) → test (k, v) ≡ true → other (k, v) ≡ false)
      → ((k : K) (v : V) → test (k, v) ≡ true → other (k, f v) ≡ false)
      → select_where other (update_where test f m) ≡ select_where other m
  unfolding select_where update_where
  select-update_other f other [] before after = refl
  select-update_other f other ((k, v) ∷ m) before after =
      ground (arith, before k v, after k v, select-update_other f other m before after)

  pub select-update_self :
      (f : V → V) (m : BTreeMap K V)
      → ((k : K) (v : V) → test (k, f v) ≡ false)
      → select_where test (update_where test f m) ≡ []
  unfolding select_where update_where
  select-update_self f [] moved = refl
  select-update_self f ((k, v) ∷ m) moved = ground (arith, moved k v, select-update_self f m moved)

  -- Where an UPDATE moves the rows of one selection to another, that one has both.
  pub select-update_moved :
      (f : V → V) (other : K × V → Bool) (m : BTreeMap K V)
      → ((k : K) (v : V) → other (k, f v) ≡ true)
      → ((k : K) (v : V) → other (k, v) ≡ true → f v ≡ v)
      → select_where other (update_where test f m)
        ≡ map f (select_where (λ row. test row || other row) m)
  unfolding select_where update_where
  select-update_moved f other [] there stays = refl
  select-update_moved f other ((k, v) ∷ m) there stays =
      ground (arith, there k v, stays k v, select-update_moved f other m there stays)

  pub select-upsert_other :
      ⦃o : Ord K⦄ (k : K) (f : Option V → V) (m : BTreeMap K V)
      → ((v : V) → test (k, v) ≡ false)
      → select_where test (upsert k f m) ≡ select_where test m
  unfolding select_where upsert
  select-upsert_other k f [] none_there = rw (none_there (f none))
  select-upsert_other ⦃o⦄ k f ((j, v) ∷ m) none_there = ground (
    arith,
    o.eq_of_cmp k j,
    none_there v,
    none_there (f none),
    none_there (f (some v)),
    select-upsert_other k f m none_there,
  )

  pub Member-delete :
      (row : K × V) (m : BTreeMap K V)
      → Member row (delete_where test m)
      → Member row m × (test row ≡ false)
  unfolding delete_where
  Member-delete row [] h = absurd (h tt)
  Member-delete row ((k, v) ∷ m) h = ground (arith, Member-delete row m)

  pub Member-update :
      (f : V → V) (k : K) (v : V) (m : BTreeMap K V)
      → Member (k, v) m
      → Member (k, if test (k, v) then f v else v) (update_where test f m)
  unfolding update_where
  Member-update f k v [] h = absurd (h tt)
  Member-update f k v ((j, w) ∷ m) (inl p) =
      inl (ap (λ (row : K × V). (row.0, if test row then f row.1 else row.1)) p)
  Member-update f k v ((j, w) ∷ m) (inr h) = inr (Member-update f k v m h)

  pub update-Member :
      (f : V → V) (row : K × V) (m : BTreeMap K V)
      → Member row (update_where test f m)
      → (v : V) × Member (row.0, v) m × ((if test (row.0, v) then f v else v) ≡ row.1)
  unfolding update_where
  update-Member f row [] h = absurd (h tt)
  update-Member f row ((j, w) ∷ m) (inl p) =
      subst
        (λ (r : K × V).
          (v : V) × Member (r.0, v) ((j, w) ∷ m) × ((if test (r.0, v) then f v else v) ≡ r.1))
        p (w, inl refl, refl)
  update-Member f row ((j, w) ∷ m) (inr h) =
      let (v, there, e) = update-Member f row m h in (v, inr there, e)
