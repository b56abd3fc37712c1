-- ===== src/Pairing/Addresses.antt =====
-- Which addresses of src/pairing.rs and src/main.rs a device gives to another one. A `Multiaddr` is
-- the list of its protocols; what the tests on `Ipv4Addr` and `Ipv6Addr` mean is written out.
pub mod Dialable
use ciphermesh.Prelude.{
  ℕ, Option, none, some, List, [], ◌∷◌, Bool, true, false, not, ◌&&◌, ◌||◌, ◌==◌, leb,
  if◌then◌else◌,
}

pub record Ipv4Addr : Type 0 where
  pub octet_0 : ℕ
  pub octet_1 : ℕ
  pub octet_2 : ℕ
  pub octet_3 : ℕ

-- The first of the eight segments, those between, and the last.
pub record Ipv6Addr : Type 0 where
  pub segment_0 : ℕ
  pub between : List ℕ
  pub segment_7 : ℕ

pub data IpAddr : Type 0 where
  v4 : Ipv4Addr → IpAddr
  v6 : Ipv6Addr → IpAddr

-- The protocols that the program tells apart.
pub data Protocol : Type 0 where
  ip4 : Ipv4Addr → Protocol
  ip6 : Ipv6Addr → Protocol
  tcp : ℕ → Protocol
  dns dns4 dns6 p2p_circuit other_protocol : Protocol

abbrev pub Multiaddr : Type 0
Multiaddr = List Protocol

abbrev pub all_zero : List ℕ → Bool
all_zero [] = true
all_zero (n ∷ ns) = n == 0 && all_zero ns

module _ (ip : Ipv4Addr) where
  abbrev pub v4_unspecified : Bool
  v4_unspecified = ip.octet_0 == 0 && (ip.octet_1 == 0 && (ip.octet_2 == 0 && ip.octet_3 == 0))

  abbrev pub v4_loopback : Bool
  v4_loopback = ip.octet_0 == 127

  abbrev pub v4_private : Bool
  v4_private =
      ip.octet_0 == 10
      || ((ip.octet_0 == 172 && (leb 16 ip.octet_1 && leb ip.octet_1 31))
          || (ip.octet_0 == 192 && ip.octet_1 == 168))

  abbrev pub v4_link_local : Bool
  v4_link_local = ip.octet_0 == 169 && ip.octet_1 == 254

  abbrev pub v4_multicast : Bool
  v4_multicast = leb 224 ip.octet_0 && leb ip.octet_0 239

  abbrev pub v4_broadcast : Bool
  v4_broadcast =
      ip.octet_0 == 255 && (ip.octet_1 == 255 && (ip.octet_2 == 255 && ip.octet_3 == 255))

  abbrev pub v4_documentation : Bool
  v4_documentation =
      (ip.octet_0 == 192 && (ip.octet_1 == 0 && ip.octet_2 == 2))
      || ((ip.octet_0 == 198 && (ip.octet_1 == 51 && ip.octet_2 == 100))
          || (ip.octet_0 == 203 && (ip.octet_1 == 0 && ip.octet_2 == 113)))

module _ (ip : Ipv6Addr) where
  abbrev pub v6_unspecified : Bool
  v6_unspecified = ip.segment_0 == 0 && (all_zero ip.between && ip.segment_7 == 0)

  abbrev pub v6_loopback : Bool
  v6_loopback = ip.segment_0 == 0 && (all_zero ip.between && ip.segment_7 == 1)

  abbrev pub v6_unicast_link_local : Bool
  v6_unicast_link_local = leb 0xfe80 ip.segment_0 && leb ip.segment_0 0xfebf

  abbrev pub v6_unique_local : Bool
  v6_unique_local = leb 0xfc00 ip.segment_0 && leb ip.segment_0 0xfdff

  abbrev pub v6_multicast : Bool
  v6_multicast = leb 0xff00 ip.segment_0

unfoldable pub is_dialable_peer_ip : IpAddr → Bool
is_dialable_peer_ip (v4 ip) =
    not (v4_unspecified ip)
    && (not (v4_loopback ip)
        && (not (v4_link_local ip)
            && (not (v4_multicast ip) && (not (v4_broadcast ip) && not (v4_documentation ip)))))
is_dialable_peer_ip (v6 ip) =
    not (v6_unspecified ip)
    && (not (v6_loopback ip) && (not (v6_unicast_link_local ip) && not (v6_multicast ip)))

unfoldable pub is_usable_remote_ip : IpAddr → Bool
is_usable_remote_ip (v4 ip) = not (v4_unspecified ip) && not (v4_loopback ip)
is_usable_remote_ip (v6 ip) = not (v6_unspecified ip) && not (v6_loopback ip)

abbrev pub is_public : Protocol → Bool
is_public (ip4 ip) =
    not (v4_unspecified ip)
    && (not (v4_loopback ip)
        && (not (v4_private ip)
            && (not (v4_link_local ip) && (not (v4_multicast ip) && not (v4_documentation ip)))))
is_public (ip6 ip) =
    not (v6_unspecified ip)
    && (not (v6_loopback ip)
        && (not (v6_unique_local ip) && (not (v6_unicast_link_local ip) && not (v6_multicast ip))))
is_public dns = true
is_public dns4 = true
is_public dns6 = true
is_public _ = false

-- `iter().any`
abbrev pub any_protocol : (Protocol → Bool) → Multiaddr → Bool
any_protocol test [] = false
any_protocol test (p ∷ address) = test p || any_protocol test address

unfoldable pub service_address_is_public : Multiaddr → Bool
service_address_is_public address = any_protocol is_public address

abbrev pub is_circuit : Protocol → Bool
is_circuit p2p_circuit = true
is_circuit _ = false

-- The loop's variables: `has_ip`, `has_tcp` and the result.
pub record Collected : Type 0 where
  pub has_ip : Bool
  pub has_tcp : Bool
  pub result : Multiaddr

abbrev pub with_ip : Protocol → Collected → Collected
with_ip p c = record { has_ip = true; has_tcp = c.has_tcp; result = p ∷ c.result }

abbrev pub with_tcp : ℕ → Collected → Collected
with_tcp port c = record { has_ip = c.has_ip; has_tcp = true; result = tcp port ∷ c.result }

-- `(has_ip && has_tcp).then_some(result)`
abbrev pub finish_address : Collected → Option Multiaddr
finish_address c = if c.has_ip && c.has_tcp then some c.result else none

abbrev pub nothing_collected : Collected
nothing_collected = record { has_ip = false; has_tcp = false; result = [] }

abbrev pub collect_one : Protocol → Collected → Collected
collect_one (ip4 ip) c = if is_dialable_peer_ip (v4 ip) then with_ip (ip4 ip) c else c
collect_one (ip6 ip) c = if is_dialable_peer_ip (v6 ip) then with_ip (ip6 ip) c else c
collect_one (tcp port) c = with_tcp port c
collect_one _ c = c

-- The loop of `sanitize_direct_address`.
unfoldable pub collect_direct : Multiaddr → Collected
unfolding is_dialable_peer_ip
collect_direct [] = nothing_collected
collect_direct (p ∷ address) = collect_one p (collect_direct address)

unfoldable pub sanitize_direct_address : Multiaddr → Option Multiaddr
unfolding collect_direct
sanitize_direct_address address =
    if any_protocol is_circuit address then none else finish_address (collect_direct address)

-- `lan` is what `lan_ip_candidate` finds; where it is needed and is none of IPv4, the loop returns.
abbrev pub lan_v4 : Option IpAddr → Option Ipv4Addr
lan_v4 (some (v4 ip)) = some ip
lan_v4 (some (v6 ip)) = none
lan_v4 none = none

abbrev pub listener_ip4 : Option Ipv4Addr → Ipv4Addr → Collected → Option Collected
listener_ip4 lan ip c =
    if v4_unspecified ip
    then elim lan [ none ↦ none | some found ↦ some (with_ip (ip4 found) c) ]
    else some (if is_usable_remote_ip (v4 ip) then with_ip (ip4 ip) c else c)

abbrev pub listener_ip6 : Ipv6Addr → Collected → Option Collected
listener_ip6 ip c =
    if v6_unspecified ip
    then none
    else some (if is_usable_remote_ip (v6 ip) then with_ip (ip6 ip) c else c)

abbrev pub listener_one : Option Ipv4Addr → Protocol → Collected → Option Collected
listener_one lan (ip4 ip) c = listener_ip4 lan ip c
listener_one lan (ip6 ip) c = listener_ip6 ip c
listener_one lan (tcp port) c = some (with_tcp port c)
listener_one lan _ c = some c

unfoldable pub collect_listener : Option Ipv4Addr → Multiaddr → Option Collected
unfolding is_usable_remote_ip
collect_listener lan [] = some nothing_collected
collect_listener lan (p ∷ address) = elim (collect_listener lan address) [
  | none ↦ none
  | some c ↦ listener_one lan p c
]

unfoldable pub direct_address_from_listener : Option IpAddr → Multiaddr → Option Multiaddr
unfolding collect_listener
direct_address_from_listener lan address = elim (collect_listener (lan_v4 lan) address) [
  | none ↦ none
  | some c ↦ finish_address c
]
