-- ===== src/Tests/Invites.antt =====
-- The theorems on the tables of src/storage.rs beside the event log, at small tables.
use ciphermesh.Prelude.{
  String, false, none, some, List, [], ◌∷◌, ◌≡◌, ◌≢◌, refl, ap, true, same, ◌∙◌, Member, inl, inr,
  string_ord,
}
use ciphermesh.BTree.{lookup, upsert, modify}
use ciphermesh.Storage.Invites.{
  InviteRecord, InviteTable, is_open, has_open, save_invite_record, consume_invite_record,
}
use ciphermesh.Storage.Invites.Once.{InviteStep, saved, consumed, run, invite_consumed_once}
use ciphermesh.Storage.Accepted.{accept_message_once, arrive, has_arrived}

program : Unit {0}
unfolding lookup upsert modify is_open has_open save_invite_record consume_invite_record run
    accept_message_once arrive has_arrived
program = tt

abbrev invite : String → InviteRecord
invite code_hash = record {
  code_hash = code_hash;
  rendezvous_payload = "rendezvous";
  expires_at_unix_secs = 100;
  consumed_at_unix_secs = none;
  created_at_unix_secs = 50;
}

abbrev table : InviteTable
unfolding program
table = save_invite_record (invite "h1") []

-- It is given out before it expires, and not when it does.
expires :
    ((consume_invite_record "h1" 99 table).0
      ≡ some (record (invite "h1") { consumed_at_unix_secs = some 99 }))
    × (consume_invite_record "h1" 100 table ≡ (none, table))
unfolding program
expires = (refl, refl)

abbrev steps : List InviteStep
steps = saved (invite "h2") ∷ consumed "h1" 80 ∷ consumed "h2" 90 ∷ []

abbrev after : InviteTable
unfolding program
after = run steps (consume_invite_record "h1" 60 table).1

abbrev code_of : InviteStep → String
code_of (saved i) = i.code_hash
code_of (consumed h _) = h

others : (i : InviteRecord) → Member (saved i) steps → i.code_hash ≢ "h1"
others i (inl e) = λ q.
    absurd (
      let r : false ≡ true = ap (λ step. same (code_of step) "h1") e ∙ ap (λ s. same s "h1") q in
      cc)
others i (inr (inl e)) = absurd cc
others i (inr (inr (inl e))) = absurd cc
others i (inr (inr (inr n))) = absurd (n tt)

invite_consumed_once_example : consume_invite_record "h1" 70 after ≡ (none, after)
unfolding program
invite_consumed_once_example = invite_consumed_once "h1" 60 70 steps table refl others
