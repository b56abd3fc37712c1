-- ===== src/Storage/Devices/Revocations.antt =====
-- A revocation that src/storage.rs has saved is never lost.
use ciphermesh.Prelude.{
  ℕ, String, Option, none, some, List, [], ◌∷◌, ◌≡◌, ◌≢◌, refl, sym, ap, ◌∙◌, subst, Ordering, flip,
  string_ord, i64_ord, key_cases, inl, inr,
}
use ciphermesh.BTree.{lookup, upsert}
use ciphermesh.BTree.Laws.{lookup-upsert_self, lookup-upsert_ne}
use ciphermesh.Storage.Devices.{
  RevocationRow, DeviceTables, device_key_ord, newest_revocation, replace_if,
  save_device_revocation,
}

-- A call of `save_device_revocation`
pub record Saving : Type 0 where
  pub account_id : String
  pub device_id : String
  pub revocation_counter : ℕ
  pub revocation : List ℕ
  pub now : ℕ

abbrev pub save_all : List Saving → DeviceTables → DeviceTables
save_all [] t = t
save_all (s ∷ rest) t =
    save_all rest
      (save_device_revocation s.account_id s.device_id s.revocation_counter s.revocation s.now t)

-- The counter is no less, as SQLite compares.
abbrev pub AtLeast : ℕ → ℕ → Type 0
AtLeast n m = i64_ord.cmp m n ≢ Ordering.lt

-- The device is revoked by a row with this counter or a greater one.
pub record Revoked (account_id device_id : String) (counter : ℕ) (t : DeviceTables) : Type 0 where
  pub row : RevocationRow
  pub there : lookup (account_id, device_id) t.device_revocations ≡ some row
  pub counts : AtLeast counter row.revocation_counter

newest-AtLeast :
    (n : ℕ) (new old : RevocationRow) (r : Ordering)
    → i64_ord.cmp new.revocation_counter old.revocation_counter ≡ r
    → AtLeast n old.revocation_counter
    → AtLeast n (replace_if r new old).revocation_counter
newest-AtLeast n new old Ordering.lt e h = h
newest-AtLeast n new old Ordering.eq e h =
    subst (AtLeast n) (sym (i64_ord.eq_of_cmp new.revocation_counter old.revocation_counter e)) h
newest-AtLeast n new old Ordering.gt e h = λ less. h (
    i64_ord.cmp_trans old.revocation_counter new.revocation_counter n
      (i64_ord.cmp_flip new.revocation_counter old.revocation_counter ∙ ap flip e) less)

own-AtLeast :
    (new : RevocationRow) (o : Option RevocationRow)
    → AtLeast new.revocation_counter (newest_revocation new o).revocation_counter
own-AtLeast new none = λ less. absurd (cc (sym less ∙ i64_ord.cmp_refl new.revocation_counter))
own-AtLeast new (some old) = go (i64_ord.cmp new.revocation_counter old.revocation_counter) refl
  where
    go :
        (r : Ordering)
        → i64_ord.cmp new.revocation_counter old.revocation_counter ≡ r
        → AtLeast new.revocation_counter (replace_if r new old).revocation_counter
    go Ordering.lt e = λ less. absurd (
        cc
          (sym less ∙ (i64_ord.cmp_flip new.revocation_counter old.revocation_counter ∙ ap flip e)))
    go Ordering.eq e = λ less. absurd (cc (sym less ∙ i64_ord.cmp_refl new.revocation_counter))
    go Ordering.gt e = λ less. absurd (cc (sym less ∙ i64_ord.cmp_refl new.revocation_counter))

saved-Revoked :
    (account_id device_id : String) (n : ℕ) (revocation : List ℕ) (now : ℕ) (t : DeviceTables)
    → Revoked account_id device_id n
        (save_device_revocation account_id device_id n revocation now t)
unfolding save_device_revocation
saved-Revoked account_id device_id n revocation now t =
    let new : RevocationRow = record {
      account_id = account_id;
      device_id = device_id;
      revocation_counter = n;
      revocation = revocation;
      updated_at_unix_secs = now;
    } in
    record {
      row = newest_revocation new (lookup (account_id, device_id) t.device_revocations);
      there =
          lookup-upsert_self (account_id, device_id) (newest_revocation new) t.device_revocations;
      counts = own-AtLeast new (lookup (account_id, device_id) t.device_revocations);
    }

save-Revoked :
    (account_id device_id : String) (n : ℕ) (s : Saving) (t : DeviceTables)
    → Revoked account_id device_id n t
    → Revoked account_id device_id n
        (save_device_revocation s.account_id s.device_id s.revocation_counter s.revocation s.now t)
unfolding save_device_revocation
save-Revoked account_id device_id n s t h =
    let new : RevocationRow = record {
      account_id = s.account_id;
      device_id = s.device_id;
      revocation_counter = s.revocation_counter;
      revocation = s.revocation;
      updated_at_unix_secs = s.now;
    } in
    let key : String × String = (s.account_id, s.device_id) in
    let mine : String × String = (account_id, device_id) in
    elim (key_cases key mine) [
      | inr other ↦ record {
        row = h.row;
        there =
            lookup-upsert_ne key mine (newest_revocation new) t.device_revocations other ∙ h.there;
        counts = h.counts;
      }
      | inl same ↦ record {
        row = newest_revocation new (some h.row);
        there =
            ap (λ k. lookup k (upsert key (newest_revocation new) t.device_revocations)) (sym same)
            ∙ (lookup-upsert_self key (newest_revocation new) t.device_revocations
                ∙ ap (λ o. some (newest_revocation new o))
                    (ap (λ k. lookup k t.device_revocations) same ∙ h.there));
        counts =
            newest-AtLeast n new h.row (i64_ord.cmp s.revocation_counter h.row.revocation_counter)
              refl h.counts;
      }
    ]

save_all-Revoked :
    (account_id device_id : String) (n : ℕ) (later : List Saving) (t : DeviceTables)
    → Revoked account_id device_id n t
    → Revoked account_id device_id n (save_all later t)
save_all-Revoked account_id device_id n [] t h = h
save_all-Revoked account_id device_id n (s ∷ later) t h =
    save_all-Revoked account_id device_id n later
      (save_device_revocation s.account_id s.device_id s.revocation_counter s.revocation s.now t)
      (save-Revoked account_id device_id n s t h)

-- Once a revocation of a device is saved, the device stays revoked, by a row with its counter or a
-- greater one: whatever revocations are saved later, of this device or another, an older one takes
-- nothing back.
pub revocation_stays :
    (account_id device_id : String) (counter : ℕ) (revocation : List ℕ) (now : ℕ)
    (later : List Saving) (t : DeviceTables)
    → Revoked account_id device_id counter
        (save_all later (save_device_revocation account_id device_id counter revocation now t))
revocation_stays account_id device_id counter revocation now later t =
    save_all-Revoked account_id device_id counter later
      (save_device_revocation account_id device_id counter revocation now t)
      (saved-Revoked account_id device_id counter revocation now t)
