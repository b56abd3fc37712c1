-- ===== src/Handshake/Stored.antt =====
-- What src/lib.rs stores of a session and of those who hold it makes the same again.
use ciphermesh.Prelude.{
  ℕ, Option, none, some, List, [], ◌∷◌, map, map_some, ◌≡◌, refl, ap, ◌∙◌, subst, String, nat_ord,
}
use ciphermesh.BTree.{BTreeSet, collect}
use ciphermesh.BTree.Sorted.{IsSorted, collect-IsSorted}
use ciphermesh.Crypto.{Crypto, Result, ok, err}
use ciphermesh.Ratchet.Stateful.{value_or}
use ciphermesh.Ratchet.State.{
  RatchetRole, alice, bob, RatchetSession, RatchetMessage, new, new_session,
  derive_directional_chains, encrypt, rotate_sending_ratchet,
}
use ciphermesh.Ratchet.Receive.{decrypt}
use ciphermesh.Ratchet.Maps.{session-Holds}
use ciphermesh.Ratchet.Bounds.{IsOrdered, ordered_kept}
use ciphermesh.Handshake.Keys.{OneTimePreKey}
use ciphermesh.Handshake.Parties.{Alice, Bob}
use ciphermesh.Handshake.Deliveries.{DeviceSession}
use ciphermesh.Handshake.States.{
  role_state, role_from_state, ratchet_state, ratchet_from_state, prekey_state, prekey_from_state,
  alice_export_state, alice_from_state, bob_export_state, bob_from_state,
  device_session_export_state, device_session_from_state,
}

-- The methods that change a session.
pub data SessionCall : Type 0 where
  encrypting rotating : List ℕ → SessionCall
  decrypting : RatchetMessage → SessionCall

abbrev no_message : RatchetMessage
no_message = record { number = 0; ratchet_public_key = []; ciphertext = [] }

roles : (r : RatchetRole) → role_from_state (role_state r) ≡ r
roles alice = refl
roles bob = refl

numbers : (m : BTreeSet ℕ) → map (λ n. (n, tt)) (map (λ (e : ℕ × Unit {0}). e.0) m) ≡ m
numbers [] = refl
numbers ((n, tt) ∷ m) = ap (λ l. (n, tt) ∷ l) (numbers m)

ratchet_from_state-ratchet_state :
    (s : RatchetSession) → IsOrdered s → ratchet_from_state (ratchet_state s) ≡ s
unfolding ratchet_state ratchet_from_state
ratchet_from_state-ratchet_state s (skipped, consumed) =
    let consumed_again =
      ap collect (numbers s.consumed_message_numbers)
      ∙ collect-IsSorted s.consumed_message_numbers consumed in
    λ i. record s {
      role = roles s.role i;
      skipped_message_keys = collect-IsSorted s.skipped_message_keys skipped i;
      consumed_message_numbers = consumed_again i;
    }

prekeys : (p : Option OneTimePreKey) → map_some prekey_from_state (map_some prekey_state p) ≡ p
prekeys none = refl
prekeys (some p) = refl

module _ (crypto : Crypto) where
  unfoldable pub after_call : SessionCall → RatchetSession → RatchetSession
  unfolding encrypt decrypt rotate_sending_ratchet
  after_call (encrypting text) s = (encrypt crypto text s).1
  after_call (decrypting message) s = (decrypt crypto message s).1
  after_call (rotating secret) s = (rotate_sending_ratchet crypto secret s).1

  unfoldable pub after_calls : List SessionCall → RatchetSession → RatchetSession
  unfolding after_call
  after_calls [] s = s
  after_calls (c ∷ calls) s = after_calls calls (after_call c s)

  session-IsOrdered :
      (text secret : List ℕ) (message : RatchetMessage) (s : RatchetSession)
      → IsOrdered s
      → IsOrdered (encrypt crypto text s).1
        × IsOrdered (decrypt crypto message s).1
        × IsOrdered (rotate_sending_ratchet crypto secret s).1
  session-IsOrdered =
      session-Holds crypto (λ skipped consumed. IsSorted skipped × IsSorted consumed) ordered_kept

  after_calls-IsOrdered :
      (calls : List SessionCall) (s : RatchetSession)
      → IsOrdered s
      → IsOrdered (after_calls calls s)
  unfolding after_calls after_call
  after_calls-IsOrdered [] s h = h
  after_calls-IsOrdered (encrypting text ∷ calls) s h =
      after_calls-IsOrdered calls _ (session-IsOrdered text [] no_message s h).0
  after_calls-IsOrdered (decrypting message ∷ calls) s h =
      after_calls-IsOrdered calls _ (session-IsOrdered [] [] message s h).1
  after_calls-IsOrdered (rotating secret ∷ calls) s h =
      after_calls-IsOrdered calls _ (session-IsOrdered [] secret no_message s h).2

  begun-IsOrdered :
      (role : RatchetRole) (root keys peer : List ℕ) (r : Result (List ℕ × List ℕ))
      (s : RatchetSession)
      → new_session crypto root role keys peer r ≡ ok s
      → IsOrdered s
  begun-IsOrdered role root keys peer (err e) s h = absurd cc
  begun-IsOrdered role root keys peer (ok (forth, back)) s h =
      let s' = value_or s (new_session crypto root role keys peer (ok (forth, back))) in
      subst IsOrdered (ap (value_or s') h) (tt, tt)

  new-IsOrdered :
      (role : RatchetRole) (root keys peer : List ℕ) (s : RatchetSession)
      → new crypto root role keys peer ≡ ok s
      → IsOrdered s
  unfolding new
  new-IsOrdered role root keys peer s h =
      begun-IsOrdered role root keys peer (derive_directional_chains crypto root) s h

-- A session that was made, and then used in any way, is the same again when it was stored and read
-- back, and so are `Alice`, `Bob` and a session between devices with it.
pub from_state-export_state :
    (crypto : Crypto) (role : RatchetRole) (root keys peer : List ℕ) (s : RatchetSession)
    (calls : List SessionCall) (a : Alice) (b : Bob) (local remote : String)
    → new crypto root role keys peer ≡ ok s
    → let t = after_calls crypto calls s in
      let a' = record a { session = some t } in
      let b' = record b { session = some t } in
      let d : DeviceSession = record {
        local_device_id = local;
        remote_device_id = remote;
        session = t;
      } in
      (ratchet_from_state (ratchet_state t) ≡ t)
      × (alice_from_state (alice_export_state a') ≡ a')
      × (bob_from_state (bob_export_state b') ≡ b')
      × (device_session_from_state (device_session_export_state d) ≡ d)
unfolding alice_from_state alice_export_state bob_from_state bob_export_state
    device_session_from_state device_session_export_state
from_state-export_state crypto role root keys peer s calls a b local remote h =
    let t = after_calls crypto calls s in
    let again : ratchet_from_state (ratchet_state t) ≡ t =
      ratchet_from_state-ratchet_state t
        (after_calls-IsOrdered crypto calls s (new-IsOrdered crypto role root keys peer s h)) in
    (
      again,
      λ i. record a { session = some (again i) },
      λ i. record b { one_time_prekey = prekeys b.one_time_prekey i; session = some (again i) },
      λ i. record { local_device_id = local; remote_device_id = remote; session = again i },
    )
