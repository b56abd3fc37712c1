-- ===== src/Mailbox/Settled.antt =====
-- An envelope of src/mailbox_storage.rs that was acknowledged, or has expired, is fetched no more.
use ciphermesh.Prelude.{
  ℕ, String, [], ◌∷◌, ◌≡◌, refl, ap, arith, true, false, Bool-cases, inl, inr, string_ord, Member,
  ◌⊎◌, same_self, key_cases, subst, sym, ◌∙◌, get_or, same,
}
use ciphermesh.BTree.{lookup, or_insert, contains_key}
use ciphermesh.BTree.Laws.{or_insert-present, lookup-upsert_ne}
use ciphermesh.BTree.Members.{Member-or_insert}
use ciphermesh.Mailbox.Store.{
  MailboxEnvelopeRecord, MailboxRow, MailboxTable, new_row, set_delivered, is_pending, expire_rows,
  update_where, expire_row,
}

-- A row stands under the id of its envelope.
abbrev pub IsKeyed : MailboxTable → Type 0
IsKeyed t = (e : String × MailboxRow) → Member e t → e.0 ≡ e.1.envelope.message_id

-- There are rows of the id, and none of them is pending.
abbrev pub Settled : String → MailboxTable → Type 0
Settled id t =
    (contains_key id t ≡ true) × ((row : MailboxRow) → Member (id, row) t → is_pending row ≡ false)

-- A row after `expire`
expired_from :
    (now : ℕ) (e : String × MailboxRow) (t : MailboxTable)
    → Member e (expire_rows now t)
    → (row : MailboxRow) × Member (e.0, row) t × (expire_row now row ≡ e.1)
unfolding expire_rows
expired_from now e [] m = absurd (m tt)
expired_from now e ((id, row) ∷ t) (inl p) = (row, inl (λ i. ((p i).0, row)), ap (λ x. x.1) p)
expired_from now e ((id, row) ∷ t) (inr m) = let (r, n, p) = expired_from now e t m in (r, inr n, p)

pub contains-expire :
    (now : ℕ) (id : String) (t : MailboxTable)
    → contains_key id (expire_rows now t) ≡ contains_key id t
unfolding expire_rows lookup
contains-expire now id [] = refl
contains-expire now id ((j, row) ∷ t) = ground (arith, contains-expire now id t)

updated_from :
    (id : String) (now : ℕ) (e : String × MailboxRow) (t : MailboxTable)
    → Member e (update_where id (set_delivered now) t)
    → (row : MailboxRow) × Member (e.0, row) t
      × ((e.1 ≡ set_delivered now row) ⊎ ((e.1 ≡ row) × (¬ (e.0 ≡ id))))
unfolding update_where
updated_from id now e [] m = absurd (m tt)
updated_from id now e ((j, row) ∷ t) (inl p) = (
  row,
  inl (λ i. ((p i).0, row)),
  elim (Bool-cases (same j id)) [
    | inl named ↦ inl (sym (ap (λ x. x.1) p) ∙ rw named refl)
    | inr other ↦ inr (
      sym (ap (λ x. x.1) p) ∙ rw other refl,
      λ q. absurd (ground (arith, other, same_self id, ap (λ x. x.0) p, q)),
    )
  ],
)
updated_from id now e ((j, row) ∷ t) (inr m) =
    let (r, n, p) = updated_from id now e t m in (r, inr n, p)

contains-update :
    (id key : String) (now : ℕ) (t : MailboxTable)
    → contains_key key (update_where id (set_delivered now) t) ≡ contains_key key t
unfolding update_where lookup
contains-update id key now [] = refl
contains-update id key now ((j, row) ∷ t) = ground (arith, contains-update id key now t)

pub expire-IsKeyed : (now : ℕ) (t : MailboxTable) → IsKeyed t → IsKeyed (expire_rows now t)
expire-IsKeyed now t keyed e m =
    let (row, n, p) = expired_from now e t m in
    keyed (e.0, row) n ∙ ground (arith, ap (λ (r : MailboxRow). r.envelope.message_id) p)

pub expire-Settled :
    (now : ℕ) (id : String) (t : MailboxTable) → Settled id t → Settled id (expire_rows now t)
expire-Settled now id t (there, none_pending) = (
  contains-expire now id t ∙ there,
  λ row m.
      let (r, n, p) = expired_from now (id, row) t m in
      ground (arith, ap is_pending p, none_pending r n),
)

pub update-IsKeyed :
    (id : String) (now : ℕ) (t : MailboxTable)
    → IsKeyed t
    → IsKeyed (update_where id (set_delivered now) t)
update-IsKeyed id now t keyed e m =
    let (row, n, p) = updated_from id now e t m in keyed (e.0, row) n ∙ ground (arith, p)

pub update-Settled :
    (id key : String) (now : ℕ) (t : MailboxTable)
    → Settled key t
    → Settled key (update_where id (set_delivered now) t)
update-Settled id key now t (there, none_pending) = (
  contains-update id key now t ∙ there,
  λ row m.
      let (r, n, p) = updated_from id now (key, row) t m in ground (arith, p, none_pending r n),
)

-- An acknowledgement settles its envelope.
pub acknowledged-Settled :
    (id : String) (now : ℕ) (t : MailboxTable)
    → contains_key id t ≡ true
    → Settled id (update_where id (set_delivered now) t)
acknowledged-Settled id now t there = (
  contains-update id id now t ∙ there,
  λ row m.
      let (r, n, p) = updated_from id now (id, row) t m in
      elim p [ inl e ↦ rw e refl | inr (e, ne) ↦ absurd (ne refl) ],
)

pub insert-IsKeyed :
    (e : MailboxEnvelopeRecord) (t : MailboxTable)
    → IsKeyed t
    → IsKeyed (or_insert e.message_id (new_row e) t)
insert-IsKeyed e t keyed x m = elim (Member-or_insert e.message_id (new_row e) x t m) [
  | inl p ↦ subst (λ (y : String × MailboxRow). y.0 ≡ y.1.envelope.message_id) p refl
  | inr old ↦ keyed x old
]

pub insert-Settled :
    (e : MailboxEnvelopeRecord) (id : String) (t : MailboxTable)
    → Settled id t
    → Settled id (or_insert e.message_id (new_row e) t)
insert-Settled e id t (there, none_pending) = elim (key_cases e.message_id id) [
  | inl same_id ↦
      rw (or_insert-present e.message_id (new_row e) t (rw same_id there)) (there, none_pending)
  | inr other ↦ (
    rw (lookup-upsert_ne e.message_id id (get_or (new_row e)) t other) there,
    λ row m. elim (Member-or_insert e.message_id (new_row e) (id, row) t m) [
      | inl p ↦ absurd (other (ap (λ x. x.0) p))
      | inr old ↦ none_pending row old
    ],
  )
]
