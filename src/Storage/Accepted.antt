-- ===== src/Storage/Accepted.antt =====
-- The table accepted_messages of src/storage.rs: the ids of the messages that were taken, with the
-- time. Every statement is taken to succeed.
use ciphermesh.Prelude.{
  ℕ, String, Bool, false, not, ◌||◌, List, [], ◌∷◌, ◌≡◌, refl, ap, arith, same, string_ord,
}
use ciphermesh.BTree.{BTreeMap, or_insert, contains_key}
use ciphermesh.BTree.Laws.{contains_key-or_insert}

abbrev pub AcceptedTable : Type 0
AcceptedTable = BTreeMap String ℕ

-- The flag says whether the row was inserted, that is, whether the message is new.
unfoldable pub accept_message_once : String → ℕ → AcceptedTable → Bool × AcceptedTable
accept_message_once message_id now t = (not (contains_key message_id t), or_insert message_id now t)

-- Messages that arrive, each with the time
unfoldable pub arrive : List (String × ℕ) → AcceptedTable → AcceptedTable
unfolding accept_message_once
arrive [] t = t
arrive ((id, now) ∷ ms) t = arrive ms (accept_message_once id now t).1

unfoldable pub has_arrived : String → List (String × ℕ) → Bool
has_arrived id [] = false
has_arrived id ((j, _) ∷ ms) = same j id || has_arrived id ms

pub contains_key-accept :
    (k j : String) (now : ℕ) (t : AcceptedTable)
    → contains_key j (accept_message_once k now t).1 ≡ (same k j || contains_key j t)
unfolding accept_message_once
contains_key-accept k j now t = contains_key-or_insert k j now t

contains_key-arrive :
    (id : String) (ms : List (String × ℕ)) (t : AcceptedTable)
    → contains_key id (arrive ms t) ≡ (has_arrived id ms || contains_key id t)
unfolding arrive has_arrived
contains_key-arrive id [] t = refl
contains_key-arrive id ((j, now) ∷ ms) t = ground (
  arith,
  contains_key-arrive id ms (accept_message_once j now t).1,
  contains_key-accept j id now t,
)

-- After any messages have arrived, `accept_message_once` takes a message exactly if its id is
-- neither among theirs nor in the table at the start.
pub accepted_once :
    (id : String) (now : ℕ) (ms : List (String × ℕ)) (t : AcceptedTable)
    → (accept_message_once id now (arrive ms t)).0 ≡ not (has_arrived id ms || contains_key id t)
unfolding accept_message_once
accepted_once id now ms t = ap not (contains_key-arrive id ms t)
