-- ===== src/Tests/Pairings.antt =====
-- The theorems on pairing in src/pairing.rs and src/main.rs at a service, an address and two codes.
use ciphermesh.Prelude.{
  ℕ, String, none, some, List, [], ◌∷◌, ◌≡◌, ◌≢◌, refl, arith, length, same, string_ord, inl, true,
  false, if◌then◌else◌,
}
use ciphermesh.BTree.{lookup, upsert, remove}
use ciphermesh.Storage.Sql.{delete_where}
use ciphermesh.App.{ok}
use ciphermesh.Chat.Names.{is_whitespace}
use ciphermesh.Crypto.Utf8.{char_bytes}
use ciphermesh.Pairing.Addresses.{
  Protocol, ip4, tcp, other_protocol, is_dialable_peer_ip, any_protocol, is_circuit, collect_direct,
  sanitize_direct_address,
}
use ciphermesh.Pairing.Addresses.Dialable.{AllDialable, sanitize_direct_address_lem}
use ciphermesh.Pairing.Service.{
  AddressText, Service, ServiceEvent, reservation_accepted, reservation_closed, rendezvous,
  register_invite, resolve_invite, resolved, unresolved, new_service, handle_request, service_step,
  service_steps, sanitize_all, sanitize_direct_address_text, register, resolve, drop_expired,
}
use ciphermesh.Pairing.Service.Once.{registered_resolves, invite_resolved_once}
use ciphermesh.Pairing.Codes.{
  generate_invite_code, normalize_invite_code, invite_code_alphabet, all_in, keep, bytes_of,
}
use ciphermesh.Pairing.Codes.Normal.{normalize_invite_code_lem}

program : Unit {0}
unfolding lookup upsert remove delete_where is_dialable_peer_ip collect_direct
    sanitize_direct_address sanitize_direct_address_text sanitize_all register resolve drop_expired
    handle_request service_step service_steps generate_invite_code normalize_invite_code all_in keep
    bytes_of is_whitespace char_bytes
program = tt

abbrev loopback : Protocol
loopback = ip4 (record { octet_0 = 127; octet_1 = 0; octet_2 = 0; octet_3 = 1 })

abbrev lan : Protocol
lan = ip4 (record { octet_0 = 192; octet_1 = 168; octet_2 = 1; octet_3 = 20 })

sanitize_direct_address_lem_example :
    AllDialable (lan ∷ tcp 5000 ∷ [])
    × (any_protocol is_circuit (loopback ∷ lan ∷ tcp 5000 ∷ other_protocol ∷ []) ≡ false)
    × (sanitize_direct_address (lan ∷ tcp 5000 ∷ []) ≡ some (lan ∷ tcp 5000 ∷ []))
unfolding program
sanitize_direct_address_lem_example =
    sanitize_direct_address_lem (loopback ∷ lan ∷ tcp 5000 ∷ other_protocol ∷ [])
      (lan ∷ tcp 5000 ∷ []) refl

abbrev texts : AddressText
texts = record {
  parse = λ s. if same s "lan" then some (lan ∷ tcp 5000 ∷ []) else none;
  to_string = λ a. "lan";
}

abbrev ready : Service
ready = service_step texts 100 (reservation_accepted "bob") new_service

abbrev registering : Service
registering =
    (handle_request texts 100 "bob" (register_invite "code" 300 ("lan" ∷ "loopback" ∷ [])) ready).1

-- Another peer comes, tries the same code, and resolves an unknown one.
abbrev meanwhile : List (ℕ × ServiceEvent)
meanwhile =
    (110, reservation_accepted "mallory")
    ∷ (111, rendezvous "mallory" (register_invite "code" 300 []))
    ∷ (112, rendezvous "mallory" (resolve_invite "other"))
    ∷ (113, reservation_closed "mallory")
    ∷ []

mallory : ◌≢◌ {A = String} "mallory" "bob"
mallory e = absurd cc

other_code : ◌≢◌ {A = String} "other" "code"
other_code e = absurd cc

registered_resolves_example :
    (handle_request texts 120 "alice"
      (resolve_invite "code")
      (service_steps texts meanwhile registering)).0
    ≡ resolved "bob" (sanitize_all texts ("lan" ∷ "loopback" ∷ []))
unfolding program
registered_resolves_example =
    registered_resolves texts "code" "bob" "alice" 300 100 120 ("lan" ∷ "loopback" ∷ []) ready
      meanwhile refl
      (
        omega arith,
        tt,
        (omega arith, inl mallory, (omega arith, other_code, (omega arith, mallory, tt))),
      )
      (omega arith)

abbrev first_events : List (ℕ × ServiceEvent)
first_events =
    (100, reservation_accepted "bob")
    ∷ (100, rendezvous "bob" (register_invite "code" 300 ("lan" ∷ [])))
    ∷ []

invite_resolved_once_example :
    (handle_request texts 130 "mallory" (resolve_invite "code") (
      service_steps texts
        ((121, reservation_accepted "eve") ∷ [])
        (handle_request texts 120 "alice"
          (resolve_invite "code")
          (service_steps texts first_events new_service)).1)).0
    ≡ unresolved texts
invite_resolved_once_example =
    invite_resolved_once texts "code" "alice" "mallory" 120 130 first_events
      ((121, reservation_accepted "eve") ∷ []) tt

-- ab-c 234
abbrev typed : List ℕ
typed = 97 ∷ 98 ∷ 45 ∷ 99 ∷ 32 ∷ 50 ∷ 51 ∷ 52 ∷ []

abbrev code : List ℕ
code = 65 ∷ 66 ∷ 67 ∷ 50 ∷ 51 ∷ 52 ∷ []

abbrev random : List ℕ
random = 0 ∷ 255 ∷ 32 ∷ 7 ∷ 100 ∷ 31 ∷ []

normalize_invite_code_lem_example :
    (normalize_invite_code (generate_invite_code random) ≡ ok (generate_invite_code random))
    × (length code ≡ 6)
    × (all_in invite_code_alphabet code ≡ true)
    × (normalize_invite_code code ≡ ok code)
unfolding program
normalize_invite_code_lem_example = normalize_invite_code_lem random typed code refl refl
