-- ===== src/Handshake/States.antt =====
-- What src/lib.rs exports of its objects to be stored, and how it makes the objects again.
use ciphermesh.Prelude.{ℕ, String, Option, List, map, map_some, nat_ord}
use ciphermesh.BTree.{collect, extend}
use ciphermesh.Devices.{AccountIdentity, DeviceIdentity}
use ciphermesh.Ratchet.State.{RatchetRole, RatchetSession}
use ciphermesh.Ratchet.State
use ciphermesh.Handshake.Keys.{OneTimePreKey}
use ciphermesh.Handshake.Parties.{Alice, Bob}
use ciphermesh.Handshake.Deliveries.{DeviceSession}

pub data RatchetRoleState : Type 0 where
  alice bob : RatchetRoleState

pub record RatchetSessionState : Type 0 where
  pub role : RatchetRoleState
  pub root_key : List ℕ
  pub send_chain_key : List ℕ
  pub recv_chain_key : List ℕ
  pub send_count : ℕ
  pub recv_count : ℕ
  pub skipped_message_keys : List (ℕ × List ℕ)
  pub consumed_message_numbers : List ℕ
  pub dh_private_key : List ℕ
  pub peer_ratchet_public_key : List ℕ

pub record OneTimePreKeyState : Type 0 where
  pub id : ℕ
  pub private_key : List ℕ

pub record AliceState : Type 0 where
  pub identity_secret_key : List ℕ
  pub x25519_private_key : List ℕ
  pub session : Option RatchetSessionState

pub record BobState : Type 0 where
  pub identity_secret_key : List ℕ
  pub x25519_private_key : List ℕ
  pub signed_prekey_private_key : List ℕ
  pub one_time_prekey : Option OneTimePreKeyState
  pub session : Option RatchetSessionState

pub record AccountIdentityState : Type 0 where
  pub account_id : String
  pub account_secret_key : List ℕ

pub record DeviceIdentityState : Type 0 where
  pub account_id : String
  pub device_id : String
  pub device_secret_key : List ℕ
  pub device_x25519_private_key : List ℕ

pub record DeviceSessionState : Type 0 where
  pub local_device_id : String
  pub remote_device_id : String
  pub session : RatchetSessionState

abbrev pub role_state : RatchetRole → RatchetRoleState
role_state State.alice = RatchetRoleState.alice
role_state State.bob = RatchetRoleState.bob

abbrev pub role_from_state : RatchetRoleState → RatchetRole
role_from_state RatchetRoleState.alice = State.alice
role_from_state RatchetRoleState.bob = State.bob

-- `RatchetSession::state`
unfoldable pub ratchet_state : RatchetSession → RatchetSessionState
ratchet_state s = record {
  role = role_state s.role;
  root_key = s.root_key;
  send_chain_key = s.send_chain_key;
  recv_chain_key = s.recv_chain_key;
  send_count = s.send_count;
  recv_count = s.recv_count;
  skipped_message_keys = s.skipped_message_keys;
  consumed_message_numbers = map (λ (e : ℕ × Unit {0}). e.0) s.consumed_message_numbers;
  dh_private_key = s.dh_keys;
  peer_ratchet_public_key = s.peer_ratchet_public_key;
}

-- `RatchetSession::from_state`
unfoldable pub ratchet_from_state : RatchetSessionState → RatchetSession
unfolding extend
ratchet_from_state s = record {
  role = role_from_state s.role;
  root_key = s.root_key;
  send_chain_key = s.send_chain_key;
  recv_chain_key = s.recv_chain_key;
  send_count = s.send_count;
  recv_count = s.recv_count;
  skipped_message_keys = collect s.skipped_message_keys;
  consumed_message_numbers = collect (map (λ n. (n, tt)) s.consumed_message_numbers);
  dh_keys = s.dh_private_key;
  peer_ratchet_public_key = s.peer_ratchet_public_key;
}

abbrev pub prekey_state : OneTimePreKey → OneTimePreKeyState
prekey_state p = record { id = p.id; private_key = p.keys }

abbrev pub prekey_from_state : OneTimePreKeyState → OneTimePreKey
prekey_from_state p = record { id = p.id; keys = p.private_key }

-- `Alice::export_state`
unfoldable pub alice_export_state : Alice → AliceState
unfolding ratchet_state
alice_export_state a = record {
  identity_secret_key = a.identity;
  x25519_private_key = a.keys;
  session = map_some ratchet_state a.session;
}

-- `Alice::from_state`
unfoldable pub alice_from_state : AliceState → Alice
unfolding ratchet_from_state
alice_from_state s = record {
  identity = s.identity_secret_key;
  keys = s.x25519_private_key;
  session = map_some ratchet_from_state s.session;
}

-- `Bob::export_state`
unfoldable pub bob_export_state : Bob → BobState
unfolding ratchet_state
bob_export_state b = record {
  identity_secret_key = b.identity;
  x25519_private_key = b.keys;
  signed_prekey_private_key = b.signed_prekey;
  one_time_prekey = map_some prekey_state b.one_time_prekey;
  session = map_some ratchet_state b.session;
}

-- `Bob::from_state`
unfoldable pub bob_from_state : BobState → Bob
unfolding ratchet_from_state
bob_from_state s = record {
  identity = s.identity_secret_key;
  keys = s.x25519_private_key;
  signed_prekey = s.signed_prekey_private_key;
  one_time_prekey = map_some prekey_from_state s.one_time_prekey;
  session = map_some ratchet_from_state s.session;
}

-- `AccountIdentity`, `DeviceIdentity` and `DeviceSession` in the same way
unfoldable pub account_export_state : AccountIdentity → AccountIdentityState
account_export_state a = record { account_id = a.account_id; account_secret_key = a.identity }

unfoldable pub account_from_state : AccountIdentityState → AccountIdentity
account_from_state s = record { account_id = s.account_id; identity = s.account_secret_key }

unfoldable pub device_export_state : DeviceIdentity → DeviceIdentityState
device_export_state d = record {
  account_id = d.account_id;
  device_id = d.device_id;
  device_secret_key = d.signing;
  device_x25519_private_key = d.x25519;
}

unfoldable pub device_from_state : DeviceIdentityState → DeviceIdentity
device_from_state s = record {
  account_id = s.account_id;
  device_id = s.device_id;
  signing = s.device_secret_key;
  x25519 = s.device_x25519_private_key;
}

unfoldable pub device_session_export_state : DeviceSession → DeviceSessionState
unfolding ratchet_state
device_session_export_state d = record {
  local_device_id = d.local_device_id;
  remote_device_id = d.remote_device_id;
  session = ratchet_state d.session;
}

unfoldable pub device_session_from_state : DeviceSessionState → DeviceSession
unfolding ratchet_from_state
device_session_from_state s = record {
  local_device_id = s.local_device_id;
  remote_device_id = s.remote_device_id;
  session = ratchet_from_state s.session;
}
