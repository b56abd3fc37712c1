-- ===== src/Pairing/Addresses/Dialable.antt =====
-- What `sanitize_direct_address` of src/pairing.rs leaves of an address.
use ciphermesh.Prelude.{
  none, some, [], ◌∷◌, true, false, ◌&&◌, ◌≡◌, refl, ap, Bool-cases, inl, inr, ◌∙◌, sym, get_or,
  subst,
}
use ciphermesh.Pairing.Addresses.{
  v4, v6, Protocol, ip4, ip6, tcp, dns, dns4, dns6, p2p_circuit, other_protocol, Multiaddr,
  is_dialable_peer_ip, any_protocol, is_circuit, Collected, collect_direct, with_ip, with_tcp,
  finish_address, sanitize_direct_address,
}

-- A TCP port, or an IP address that another device may dial
abbrev pub IsDialable : Protocol → Type 0
IsDialable (ip4 ip) = is_dialable_peer_ip (v4 ip) ≡ true
IsDialable (ip6 ip) = is_dialable_peer_ip (v6 ip) ≡ true
IsDialable (tcp port) = Unit {0}
IsDialable _ = ⊥

abbrev pub AllDialable : Multiaddr → Type 0
AllDialable [] = Unit {0}
AllDialable (p ∷ address) = IsDialable p × AllDialable address

collect-AllDialable : (address : Multiaddr) → AllDialable (collect_direct address).result
unfolding collect_direct
collect-AllDialable [] = tt
collect-AllDialable (ip4 ip ∷ address) = elim (Bool-cases (is_dialable_peer_ip (v4 ip))) [
  | inl good ↦ rw good (good, collect-AllDialable address)
  | inr bad ↦ rw bad (collect-AllDialable address)
]
collect-AllDialable (ip6 ip ∷ address) = elim (Bool-cases (is_dialable_peer_ip (v6 ip))) [
  | inl good ↦ rw good (good, collect-AllDialable address)
  | inr bad ↦ rw bad (collect-AllDialable address)
]
collect-AllDialable (tcp port ∷ address) = (tt, collect-AllDialable address)
collect-AllDialable (dns ∷ address) = collect-AllDialable address
collect-AllDialable (dns4 ∷ address) = collect-AllDialable address
collect-AllDialable (dns6 ∷ address) = collect-AllDialable address
collect-AllDialable (p2p_circuit ∷ address) = collect-AllDialable address
collect-AllDialable (other_protocol ∷ address) = collect-AllDialable address

-- Nothing more goes.
collect-collect :
    (address : Multiaddr) → collect_direct (collect_direct address).result ≡ collect_direct address
unfolding collect_direct
collect-collect [] = refl
collect-collect (ip4 ip ∷ address) = elim (Bool-cases (is_dialable_peer_ip (v4 ip))) [
  | inl good ↦ rw (good, good) (ap (with_ip (ip4 ip)) (collect-collect address))
  | inr bad ↦ rw bad (collect-collect address)
]
collect-collect (ip6 ip ∷ address) = elim (Bool-cases (is_dialable_peer_ip (v6 ip))) [
  | inl good ↦ rw (good, good) (ap (with_ip (ip6 ip)) (collect-collect address))
  | inr bad ↦ rw bad (collect-collect address)
]
collect-collect (tcp port ∷ address) = ap (with_tcp port) (collect-collect address)
collect-collect (dns ∷ address) = collect-collect address
collect-collect (dns4 ∷ address) = collect-collect address
collect-collect (dns6 ∷ address) = collect-collect address
collect-collect (p2p_circuit ∷ address) = collect-collect address
collect-collect (other_protocol ∷ address) = collect-collect address

no_circuit : (address : Multiaddr) → AllDialable address → any_protocol is_circuit address ≡ false
no_circuit [] h = refl
no_circuit (ip4 ip ∷ address) (_, h) = no_circuit address h
no_circuit (ip6 ip ∷ address) (_, h) = no_circuit address h
no_circuit (tcp port ∷ address) (_, h) = no_circuit address h
no_circuit (dns ∷ address) (h, _) = absurd h
no_circuit (dns4 ∷ address) (h, _) = absurd h
no_circuit (dns6 ∷ address) (h, _) = absurd h
no_circuit (p2p_circuit ∷ address) (h, _) = absurd h
no_circuit (other_protocol ∷ address) (h, _) = absurd h

finished :
    (c : Collected) (b : Multiaddr)
    → finish_address c ≡ some b
    → (c.result ≡ b) × (finish_address c ≡ some c.result)
finished c b h = elim (Bool-cases (c.has_ip && c.has_tcp)) [
  | inl both ↦
      let made : finish_address c ≡ some c.result = rw both refl in
      (ap (get_or []) (sym made ∙ h), made)
  | inr lacks ↦ let failed : finish_address c ≡ none = rw lacks refl in absurd cc
]

-- An address that `sanitize_direct_address` gives has TCP ports and IP addresses that another device
-- may dial, and nothing else; the one that it was made of goes through no relay; and it is given
-- unchanged the next time, as the devices do that get it.
pub sanitize_direct_address_lem :
    (address sanitized : Multiaddr)
    → sanitize_direct_address address ≡ some sanitized
    → AllDialable sanitized
      × (any_protocol is_circuit address ≡ false)
      × (sanitize_direct_address sanitized ≡ some sanitized)
unfolding sanitize_direct_address
sanitize_direct_address_lem address sanitized h =
    elim (Bool-cases (any_protocol is_circuit address)) [
      | inl relayed ↦
          let failed : sanitize_direct_address address ≡ none = rw relayed refl in absurd cc
      | inr direct ↦
          let c = collect_direct address in
          let made : sanitize_direct_address address ≡ finish_address c = rw direct refl in
          let (same, whole) = finished c sanitized (sym made ∙ h) in
          let dialable : AllDialable c.result = collect-AllDialable address in
          (
            subst AllDialable same dialable,
            direct,
            subst (λ a. sanitize_direct_address a ≡ some a) same
                (rw (no_circuit c.result dialable, collect-collect address) whole),
          )
    ]
