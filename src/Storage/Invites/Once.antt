-- ===== src/Storage/Invites/Once.antt =====
-- What consume_invite_record (src/storage.rs) gives for an invite, and how often.
use ciphermesh.Prelude.{
  ℕ, String, none, some, true, false, List, [], ◌∷◌, ◌≡◌, ◌≢◌, refl, arith, map_some, is_some, Bool,
  string_ord, key_cases, inl, inr, Member,
}
use ciphermesh.BTree.{lookup}
use ciphermesh.BTree.Laws.{lookup-modify_self, lookup-modify_ne, lookup-upsert_ne}
use ciphermesh.Storage.Invites.{
  InviteRecord, InviteTable, is_open, has_open, consumed_at, save_invite_record,
  consume_invite_record,
}

-- What is done to the table
pub data InviteStep : Type 0 where
  saved : InviteRecord → InviteStep
  consumed : String → ℕ → InviteStep

unfoldable pub run : List InviteStep → InviteTable → InviteTable
run [] t = t
run (saved invite ∷ steps) t = run steps (save_invite_record invite t)
run (consumed h now ∷ steps) t = run steps (consume_invite_record h now t).1

abbrev pub was_consumed : InviteRecord → Bool
was_consumed r = is_some r.consumed_at_unix_secs

-- The invite is stored and has been consumed.
abbrev pub IsSpent : String → InviteTable → Type 0
IsSpent h t = map_some was_consumed (lookup h t) ≡ some true

spent_not_open : (h : String) (now : ℕ) (t : InviteTable) → IsSpent h t → has_open h now t ≡ false
unfolding has_open is_open
spent_not_open h now t spent = ground arith

spent_refused :
    (h : String) (now : ℕ) (t : InviteTable)
    → IsSpent h t
    → consume_invite_record h now t ≡ (none, t)
unfolding consume_invite_record
spent_refused h now t spent = rw (spent_not_open h now t spent) refl

consumed-IsSpent :
    (h : String) (now : ℕ) (t : InviteTable)
    → is_some (consume_invite_record h now t).0 ≡ true
    → IsSpent h (consume_invite_record h now t).1
unfolding consume_invite_record has_open
consumed-IsSpent h now t given = ground (arith, lookup-modify_self h (consumed_at now) t)

consume-IsSpent :
    (h j : String) (now : ℕ) (t : InviteTable)
    → IsSpent h t
    → IsSpent h (consume_invite_record j now t).1
unfolding consume_invite_record
consume-IsSpent h j now t spent = elim (key_cases j h) [
  | inl e ↦ rw (e, spent_refused h now t spent) spent
  | inr ne ↦ ground (arith, lookup-modify_ne j h (consumed_at now) t ne)
]

save-IsSpent :
    (h : String) (invite : InviteRecord) (t : InviteTable)
    → invite.code_hash ≢ h
    → IsSpent h t
    → IsSpent h (save_invite_record invite t)
unfolding save_invite_record
save-IsSpent h invite t other spent =
    rw (lookup-upsert_ne invite.code_hash h (λ _. invite) t other) spent

run-IsSpent :
    (h : String) (steps : List InviteStep) (t : InviteTable)
    → ((invite : InviteRecord) → Member (saved invite) steps → invite.code_hash ≢ h)
    → IsSpent h t
    → IsSpent h (run steps t)
unfolding run
run-IsSpent h [] t others spent = spent
run-IsSpent h (saved invite ∷ steps) t others spent =
    run-IsSpent h steps (save_invite_record invite t) (λ i m. others i (inr m))
      (save-IsSpent h invite t (others invite (inl refl)) spent)
run-IsSpent h (consumed j now ∷ steps) t others spent =
    run-IsSpent h steps (consume_invite_record j now t).1 (λ i m. others i (inr m))
      (consume-IsSpent h j now t spent)

-- An invite that `consume_invite_record` has given out is not given out again: after any further
-- consumptions, of this code and of others, and savings of invites with other codes, a consumption
-- of its code at any time gives nothing and leaves the table as it is.
pub invite_consumed_once :
    (h : String) (now later : ℕ) (steps : List InviteStep) (t : InviteTable)
    → is_some (consume_invite_record h now t).0 ≡ true
    → ((invite : InviteRecord) → Member (saved invite) steps → invite.code_hash ≢ h)
    → let t' = run steps (consume_invite_record h now t).1 in
      consume_invite_record h later t' ≡ (none, t')
invite_consumed_once h now later steps t given others =
    spent_refused h later (run steps (consume_invite_record h now t).1) (
      run-IsSpent h steps (consume_invite_record h now t).1 others (consumed-IsSpent h now t given))
