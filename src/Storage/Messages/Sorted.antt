-- ===== src/Storage/Messages/Sorted.antt =====
-- The history of a conversation in src/storage.rs, and its last message.
use ciphermesh.Prelude.{
  String, [], ◌∷◌, ◌≡◌, ◌↔◌, ◌∙◌, true, Member, inl, inr, sym, ap, arith, same, same_self,
  eq_of_same, string_ord, ◌⊎◌,
}
use ciphermesh.BTree.{BTreeMap}
use ciphermesh.Storage.Sql.{select_where}
use ciphermesh.Storage.Sql.Ordered.{
  last, IsAscending, order_by-IsAscending, greatest-eq-last, Member-order_by,
}
use ciphermesh.Storage.Database.{Database, MessageRecord}
use ciphermesh.Storage.Messages.{
  message_ord, message_key, message_in, messages_for_conversation, last_message_for_conversation,
}

-- A row of the table.
abbrev pub IsStored : MessageRecord → Database → Type 0
IsStored m db = (id : String) × Member (id, m) db.messages

select_cases :
    (c k : String) (v m : MessageRecord) (rows : BTreeMap String MessageRecord)
    → Member m (select_where (message_in c) ((k, v) ∷ rows))
    → ((v ≡ m) × (v.conversation_id ≡ c)) ⊎ Member m (select_where (message_in c) rows)
unfolding select_where
select_cases c k v m rows h = ground (arith, eq_of_same v.conversation_id c)

Member-select :
    (c : String) (m : MessageRecord) (rows : BTreeMap String MessageRecord)
    → Member m (select_where (message_in c) rows)
    → (m.conversation_id ≡ c) × ((id : String) × Member (id, m) rows)
unfolding select_where
Member-select c m [] h = absurd (h tt)
Member-select c m ((k, v) ∷ rows) h = elim (select_cases c k v m rows h) [
  | inl (e, here) ↦
      (ap (λ (x : MessageRecord). x.conversation_id) (sym e) ∙ here, (k, inl (λ i. (k, e i))))
  | inr later ↦ let (here, (id, there)) = Member-select c m rows later in (here, (id, inr there))
]

select-Member :
    (c id : String) (m : MessageRecord) (rows : BTreeMap String MessageRecord)
    → m.conversation_id ≡ c
    → Member (id, m) rows
    → Member m (select_where (message_in c) rows)
unfolding select_where
select-Member c id m [] here h = absurd (h tt)
select-Member c id m ((k, v) ∷ rows) here (inl e) =
    let is_m : v ≡ m = ap (λ (r : String × MessageRecord). r.1) e in
    let in_c : same v.conversation_id c ≡ true =
      rw (ap (λ (x : MessageRecord). x.conversation_id) is_m ∙ here) (same_self c) in
    rw in_c (inl is_m)
select-Member c id m ((k, v) ∷ rows) here (inr h) = ground (arith, select-Member c id m rows here h)

-- `messages_for_conversation` gives exactly the stored messages of the conversation, ascending by
-- time, then protocol counter, then id, and `last_message_for_conversation`, which orders the other
-- way and takes one row, gives the last of them.
pub last_message-eq-last :
    (c : String) (db : Database)
    → IsAscending ⦃o = message_ord⦄ message_key (messages_for_conversation c db)
      × ((m : MessageRecord)
          → Member m (messages_for_conversation c db) ↔ ((m.conversation_id ≡ c) × IsStored m db))
      × (last_message_for_conversation c db ≡ last (messages_for_conversation c db))
unfolding messages_for_conversation last_message_for_conversation
last_message-eq-last c db =
    let rows = select_where (message_in c) db.messages in
    (
      order_by-IsAscending ⦃o = message_ord⦄ message_key rows,
      λ m. (
        λ h.
            Member-select c m db.messages
              ((Member-order_by ⦃o = message_ord⦄ message_key m rows).0 h),
        λ h.
            (Member-order_by ⦃o = message_ord⦄ message_key m rows).1
              (select-Member c h.1.0 m db.messages h.0 h.1.1),
      ),
      greatest-eq-last ⦃o = message_ord⦄ message_key rows,
    )
