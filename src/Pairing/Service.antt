-- ===== src/Pairing/Service.antt =====
-- The public service of src/pairing.rs, `run_public_service_swarm`: it keeps the invites of peers that
-- have a relay reservation, and gives each out once. A `PeerId` is its text. A `HashMap` and a
-- `HashSet` are maps by key. The clock is read once for an event.
pub mod Kept
pub mod Once
use ciphermesh.Prelude.{
  ℕ, ◌+◌, ◌%◌, ◌^◌, String, Option, none, some, List, [], ◌∷◌, Bool, true, false, not, ◌&&◌, ◌||◌,
  ltb, leb, same, string_ord, if◌then◌else◌,
}
use ciphermesh.BTree.{BTreeMap, lookup, contains_key, insert, remove}
use ciphermesh.Storage.Sql.{delete_where}
use ciphermesh.Pairing.Addresses.{Multiaddr, sanitize_direct_address}

abbrev pub invite_ttl_secs : ℕ
invite_ttl_secs = 300

pub data PairingRequest : Type 0 where
  register_invite : String → ℕ → List String → PairingRequest
  resolve_invite : String → PairingRequest
  prekey_bundle : PairingRequest
  initial_message chat_frame : List ℕ → PairingRequest

pub data PairingResponse : Type 0 where
  registered : PairingResponse
  resolved : String → List String → PairingResponse
  prekey_bundle : List ℕ → PairingResponse
  ack error : String → PairingResponse

pub record InviteRegistration : Type 0 where
  pub peer_id : String
  pub direct_addresses : List String
  pub expires_at_unix_secs : ℕ

pub record Service : Type 0 where
  pub invitations : BTreeMap String InviteRegistration
  pub reserved_peers : BTreeMap String (Unit {0})

abbrev pub new_service : Service
new_service = record { invitations = []; reserved_peers = [] }

-- What the swarm reports; the events that are printed only are `other`.
pub data ServiceEvent : Type 0 where
  reservation_accepted reservation_closed reservation_timed_out : String → ServiceEvent
  rendezvous : String → PairingRequest → ServiceEvent
  other : ServiceEvent

-- `Multiaddr` as text, from `libp2p`
pub record AddressText : Type 0 where
  pub parse : String → Option Multiaddr
  pub to_string : Multiaddr → String

module _ (texts : AddressText) where
  abbrev shown : Option Multiaddr → Option String
  shown none = none
  shown (some address) = some (texts.to_string address)

  abbrev sanitized : Option Multiaddr → Option String
  sanitized none = none
  sanitized (some address) = shown (sanitize_direct_address address)

  unfoldable pub sanitize_direct_address_text : String → Option String
  unfolding sanitize_direct_address
  sanitize_direct_address_text address = sanitized (texts.parse address)

  abbrev some_first : Option String → List String → List String
  some_first none rest = rest
  some_first (some address) rest = address ∷ rest

  unfoldable pub sanitize_all : List String → List String
  unfolding sanitize_direct_address_text
  sanitize_all [] = []
  sanitize_all (address ∷ addresses) =
      some_first (sanitize_direct_address_text address) (sanitize_all addresses)

  abbrev pub is_expired : ℕ → String × InviteRegistration → Bool
  is_expired now (code, invite) = leb invite.expires_at_unix_secs now

  abbrev pub is_of : String → String × InviteRegistration → Bool
  is_of peer (code, invite) = same invite.peer_id peer

  abbrev pub held_by_other : String → Option InviteRegistration → Bool
  held_by_other peer none = false
  held_by_other peer (some existing) = not (same existing.peer_id peer)

  abbrev pub registration : String → ℕ → List String → InviteRegistration
  registration peer expires addresses = record {
    peer_id = peer;
    direct_addresses = sanitize_all addresses;
    expires_at_unix_secs = expires;
  }

  abbrev pub not_ready : String
  not_ready = "relay reservation is not ready; retrying"

  abbrev pub invalid_expiry : String
  invalid_expiry = "invalid invite expiry"

  abbrev pub collision : String
  collision = "invite code collision; try again"

  unfoldable pub register :
      ℕ → String → String → ℕ → List String → Service → PairingResponse × Service
  unfolding sanitize_all
  register now peer code expires addresses s =
      if not (contains_key peer s.reserved_peers)
      then (error not_ready, s)
      else if leb expires now || ltb ((now + invite_ttl_secs) % 2 ^ 64) expires
      then (error invalid_expiry, s)
      else if held_by_other peer (lookup code s.invitations)
      then (error collision, s)
      else (
        registered,
        record s { invitations = insert code (registration peer expires addresses) s.invitations },
      )

  abbrev pub unresolved : PairingResponse
  unresolved = error "Invite is invalid, expired, or already used."

  abbrev pub resolution : Option InviteRegistration → Service → PairingResponse
  resolution none s = unresolved
  resolution (some invite) s =
      if contains_key invite.peer_id s.reserved_peers
      then resolved invite.peer_id invite.direct_addresses
      else unresolved

  unfoldable pub resolve : String → Service → PairingResponse × Service
  resolve code s = (
    resolution (lookup code s.invitations) s,
    record s { invitations = remove code s.invitations },
  )

  unfoldable pub drop_expired : ℕ → Service → Service
  unfolding delete_where
  drop_expired now s = record s { invitations = delete_where (is_expired now) s.invitations }

  abbrev pub answer : ℕ → String → PairingRequest → Service → PairingResponse × Service
  answer now peer (register_invite code expires addresses) s =
      register now peer code expires addresses s
  answer now peer (resolve_invite code) s = resolve code s
  answer now peer _ s = (error "unsupported service request", s)

  unfoldable pub end_reservation : String → Service → Service
  unfolding delete_where
  end_reservation peer s = record {
    invitations = delete_where (is_of peer) s.invitations;
    reserved_peers = remove peer s.reserved_peers;
  }

  unfoldable pub handle_request : ℕ → String → PairingRequest → Service → PairingResponse × Service
  unfolding drop_expired register resolve
  handle_request now peer request s = answer now peer request (drop_expired now s)

  -- One round of the loop.
  unfoldable pub service_step : ℕ → ServiceEvent → Service → Service
  unfolding end_reservation handle_request
  service_step now (reservation_accepted peer) s = record s {
    reserved_peers = insert peer tt s.reserved_peers;
  }
  service_step now (reservation_closed peer) s = end_reservation peer s
  service_step now (reservation_timed_out peer) s = end_reservation peer s
  service_step now (rendezvous peer request) s = (handle_request now peer request s).1
  service_step now other s = s

  unfoldable pub service_steps : List (ℕ × ServiceEvent) → Service → Service
  unfolding service_step
  service_steps [] s = s
  service_steps ((now, e) ∷ events) s = service_steps events (service_step now e s)
