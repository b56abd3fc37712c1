-- ===== src/Ratchet/Bounds.antt =====
-- The bound on the skipped message keys of src/lib.rs, and the order of what a session keeps.
use ciphermesh.Prelude.{ℕ, ◌≤◌, List, length, arith, nat_ord}
use ciphermesh.BTree.Sizes.{length-upsert_le, length-remove_le}
use ciphermesh.BTree.Sorted.{IsSorted, IsSorted-upsert, IsSorted-remove}
use ciphermesh.Crypto.{Crypto}
use ciphermesh.Ratchet.Maps.{Kept, session-Holds}
use ciphermesh.Ratchet.State.{
  RatchetSession, RatchetMessage, max_skipped_message_keys, encrypt, rotate_sending_ratchet,
}
use ciphermesh.Ratchet.Receive.{decrypt}

-- At most eight keys are kept for later.
abbrev pub IsBounded : RatchetSession → Type 0
IsBounded s = length s.skipped_message_keys ≤ max_skipped_message_keys

bounded_kept : Kept (λ skipped _. length skipped ≤ max_skipped_message_keys)
bounded_kept = record {
  after_skip = λ number key skipped consumed room h.
      ground (arith, room, length-upsert_le number (λ _. key) skipped);
  after_take = λ number skipped consumed h. ground (arith, h, length-remove_le number skipped);
  after_use = λ number skipped consumed h. h;
  after_reset = omega arith;
}

-- The skipped keys and the consumed numbers are in order.
abbrev pub IsOrdered : RatchetSession → Type 0
IsOrdered s = IsSorted s.skipped_message_keys × IsSorted s.consumed_message_numbers

pub ordered_kept : Kept (λ skipped consumed. IsSorted skipped × IsSorted consumed)
ordered_kept = record {
  after_skip =
      λ number key skipped consumed room (h, k). (IsSorted-upsert number (λ _. key) skipped h, k);
  after_take = λ number skipped consumed (h, k). (IsSorted-remove number skipped h, k);
  after_use = λ number skipped consumed (h, k). (h, IsSorted-upsert number (λ _. tt) consumed k);
  after_reset = (tt, tt);
}

module _ (crypto : Crypto) where
  -- However a call ends, an error included, at most eight skipped keys are kept.
  pub session-IsBounded :
      (text secret : List ℕ) (message : RatchetMessage) (s : RatchetSession)
      → IsBounded s
      → IsBounded (encrypt crypto text s).1
        × IsBounded (decrypt crypto message s).1
        × IsBounded (rotate_sending_ratchet crypto secret s).1
  session-IsBounded text secret message s h =
      session-Holds crypto (λ skipped _. length skipped ≤ max_skipped_message_keys) bounded_kept
        text secret message s h
