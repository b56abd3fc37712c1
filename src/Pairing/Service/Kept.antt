-- ===== src/Pairing/Service/Kept.antt =====
-- An invite that stays registered at the service of src/pairing.rs.
use ciphermesh.Prelude.{
  ℕ, ◌+◌, ◌%◌, ◌^◌, ◌<◌, String, some, List, [], ◌∷◌, Bool, true, false, ◌||◌, ◌≡◌, ◌≢◌, refl, ap,
  arith, Bool-cases, Option-cases, inl, inr, ◌∙◌, sym, subst, ltb, leb, eq_of_same, Ord, string_ord,
  nat_ord, key_cases, ◌⊎◌,
}
use ciphermesh.BTree.{BTreeMap, lookup, contains_key, insert, remove}
use ciphermesh.BTree.Laws.{lookup-upsert_self, lookup-upsert_ne, contains_key-insert}
use ciphermesh.BTree.Sizes.{lookup-remove}
use ciphermesh.Storage.Sql.{delete_where}
use ciphermesh.Pairing.Service.{
  PairingRequest, register_invite, resolve_invite, initial_message, chat_frame, PairingResponse,
  registered, resolved, error, InviteRegistration, Service, ServiceEvent, reservation_accepted,
  reservation_closed, reservation_timed_out, rendezvous, other, AddressText, is_expired, is_of,
  held_by_other, registration, register, resolve, drop_expired, end_reservation, handle_request,
  service_step, service_steps, answer, invite_ttl_secs, not_ready, invalid_expiry, collision,
}

module _ {ℓ κ} {K : Type ℓ} {V : Type κ} ⦃o : Ord K⦄ where
  -- Rows that a deletion leaves are found.
  lookup-delete :
      (test : K × V → Bool) (k : K) (v : V) (m : BTreeMap K V)
      → lookup k m ≡ some v
      → test (k, v) ≡ false
      → lookup k (delete_where test m) ≡ some v
  unfolding lookup delete_where
  lookup-delete test k v [] h keeps = h
  lookup-delete test k v ((j, w) ∷ m) h keeps =
      ground (arith, o.eq_of_cmp k j, lookup-delete test k v m)

module _ (texts : AddressText) (code : String) (invite : InviteRegistration) where
  -- The invite is registered, and its peer has a reservation.
  abbrev pub IsKept : Service → Type 0
  IsKept s =
      (lookup code s.invitations ≡ some invite)
      × (contains_key invite.peer_id s.reserved_peers ≡ true)

  -- The event is no end of the invite: the peer keeps its reservation and does not register the code
  -- again, and nobody resolves it.
  abbrev pub LeavesIt : ServiceEvent → Type 0
  LeavesIt (reservation_accepted peer) = Unit {0}
  LeavesIt (reservation_closed peer) = peer ≢ invite.peer_id
  LeavesIt (reservation_timed_out peer) = peer ≢ invite.peer_id
  LeavesIt (rendezvous peer (register_invite c _ _)) = (peer ≢ invite.peer_id) ⊎ (c ≢ code)
  LeavesIt (rendezvous peer (resolve_invite c)) = c ≢ code
  LeavesIt (rendezvous peer _) = Unit {0}
  LeavesIt other = Unit {0}

  abbrev pub LeaveIt : List (ℕ × ServiceEvent) → Type 0
  LeaveIt [] = Unit {0}
  LeaveIt ((now, e) ∷ events) = (now < invite.expires_at_unix_secs) × LeavesIt e × LeaveIt events

  drop-IsKept :
      (now : ℕ) (s : Service)
      → now < invite.expires_at_unix_secs
      → IsKept s
      → IsKept (drop_expired texts now s)
  unfolding drop_expired
  drop-IsKept now s early (there, reserved) = (
    lookup-delete (is_expired texts now) code invite s.invitations there (ground (arith, early)),
    reserved,
  )

  contains_key-remove :
      (k j : String) (m : BTreeMap String (Unit {0}))
      → k ≢ j
      → contains_key j m ≡ true
      → contains_key j (remove k m) ≡ true
  contains_key-remove k j m ne h = elim (Option-cases (lookup j m)) [
    | inl e ↦ absurd (ground (arith, e))
    | inr (v, e) ↦ rw (lookup-remove k j v m ne e) refl
  ]

  end-IsKept :
      (peer : String) (s : Service)
      → peer ≢ invite.peer_id
      → IsKept s
      → IsKept (end_reservation texts peer s)
  unfolding end_reservation
  end-IsKept peer s ne (there, reserved) = (
    lookup-delete (is_of texts peer) code invite s.invitations there
        (ground (arith, eq_of_same invite.peer_id peer)),
    contains_key-remove peer invite.peer_id s.reserved_peers ne reserved,
  )

  -- The peer's registration of a code
  abbrev pub with_invite : String → InviteRegistration → Service → Service
  with_invite c i s = record s { invitations = insert c i s.invitations }

  -- A registration fails and changes nothing, or it is entered: the peer has a reservation, and no
  -- other peer holds the code.
  pub register-cases :
      (now : ℕ) (peer c : String) (expires : ℕ) (addresses : List String) (s : Service)
      → ((e : String) × (register texts now peer c expires addresses s ≡ (error e, s)))
        ⊎ ((register texts now peer c expires addresses s
              ≡ (registered, with_invite c (registration texts peer expires addresses) s))
            × (held_by_other texts peer (lookup c s.invitations) ≡ false)
            × (contains_key peer s.reserved_peers ≡ true))
  unfolding register
  register-cases now peer c expires addresses s =
      elim (Bool-cases (contains_key peer s.reserved_peers)) [
        | inr unready ↦ inl (not_ready texts, rw unready refl)
        | inl ready ↦
            elim (Bool-cases (leb expires now || ltb ((now + invite_ttl_secs) % 2 ^ 64) expires)) [
              | inl invalid ↦ inl (invalid_expiry texts, rw (ready, invalid) refl)
              | inr valid ↦ elim (Bool-cases (held_by_other texts peer (lookup c s.invitations))) [
                | inl held ↦ inl (collision texts, rw (ready, valid, held) refl)
                | inr free ↦ inr (rw (ready, valid, free) refl, free, ready)
              ]
            ]
      ]

  -- An accepted registration is kept.
  pub register-registered :
      (now : ℕ) (peer : String) (expires : ℕ) (addresses : List String) (s : Service)
      → registration texts peer expires addresses ≡ invite
      → (register texts now peer code expires addresses s).0 ≡ registered
      → IsKept (register texts now peer code expires addresses s).1
  register-registered now peer expires addresses s is h =
      elim (register-cases now peer code expires addresses s) [
        | inl (e, failed) ↦ absurd (cc (ap (λ (r : PairingResponse × Service). r.0) failed))
        | inr (entered, _, ready) ↦
            subst (λ (r : PairingResponse × Service). IsKept r.1) (sym entered)
              (
                lookup-upsert_self code (λ _. registration texts peer expires addresses)
                      s.invitations
                    ∙ ap some is,
                subst (λ (i : InviteRegistration). contains_key i.peer_id s.reserved_peers ≡ true)
                    is ready,
              )
      ]

  other_peer_refused :
      (peer : String) (s : Service)
      → peer ≢ invite.peer_id
      → lookup code s.invitations ≡ some invite
      → held_by_other texts peer (lookup code s.invitations) ≡ true
  other_peer_refused peer s ne there = rw there (ground (arith, eq_of_same invite.peer_id peer))

  register-IsKept :
      (now : ℕ) (peer c : String) (expires : ℕ) (addresses : List String) (s : Service)
      → (peer ≢ invite.peer_id) ⊎ (c ≢ code)
      → IsKept s
      → IsKept (register texts now peer c expires addresses s).1
  register-IsKept now peer c expires addresses s apart kept =
      elim (register-cases now peer c expires addresses s) [
        | inl (e, failed) ↦ subst (λ (r : PairingResponse × Service). IsKept r.1) (sym failed) kept
        | inr (entered, free, _) ↦ elim (key_cases c code) [
          | inr ne ↦
              let i = registration texts peer expires addresses in
              subst (λ (r : PairingResponse × Service). IsKept r.1) (sym entered)
                (lookup-upsert_ne c code (λ _. i) s.invitations ne ∙ kept.0, kept.1)
          | inl e ↦ elim apart [
            | inr ne ↦ absurd (ne e)
            | inl stranger ↦
                let free' =
                  subst (λ k. held_by_other texts peer (lookup k s.invitations) ≡ false) e free in
                let held = other_peer_refused peer s stranger kept.0 in
                absurd (cc (sym held ∙ free'))
          ]
        ]
      ]

  resolve-IsKept : (c : String) (s : Service) → c ≢ code → IsKept s → IsKept (resolve texts c s).1
  unfolding resolve
  resolve-IsKept c s ne (there, reserved) =
      (lookup-remove c code invite s.invitations ne there, reserved)

  answer-IsKept :
      (now : ℕ) (peer : String) (request : PairingRequest) (s : Service)
      → LeavesIt (rendezvous peer request)
      → IsKept s
      → IsKept (answer texts now peer request s).1
  answer-IsKept now peer (register_invite c expires addresses) s leaves kept =
      register-IsKept now peer c expires addresses s leaves kept
  answer-IsKept now peer (resolve_invite c) s leaves kept = resolve-IsKept c s leaves kept
  answer-IsKept now peer PairingRequest.prekey_bundle s leaves kept = kept
  answer-IsKept now peer (initial_message bytes) s leaves kept = kept
  answer-IsKept now peer (chat_frame bytes) s leaves kept = kept

  step-IsKept :
      (now : ℕ) (e : ServiceEvent) (s : Service)
      → now < invite.expires_at_unix_secs
      → LeavesIt e
      → IsKept s
      → IsKept (service_step texts now e s)
  unfolding service_step handle_request
  step-IsKept now (reservation_accepted peer) s early leaves (there, reserved) = (
    there,
    contains_key-insert peer invite.peer_id tt s.reserved_peers ∙ rw reserved (ground arith),
  )
  step-IsKept now (reservation_closed peer) s early leaves kept = end-IsKept peer s leaves kept
  step-IsKept now (reservation_timed_out peer) s early leaves kept = end-IsKept peer s leaves kept
  step-IsKept now (rendezvous peer request) s early leaves kept =
      answer-IsKept now peer request (drop_expired texts now s) leaves
        (drop-IsKept now s early kept)
  step-IsKept now other s early leaves kept = kept

  pub steps-IsKept :
      (events : List (ℕ × ServiceEvent)) (s : Service)
      → LeaveIt events
      → IsKept s
      → IsKept (service_steps texts events s)
  unfolding service_steps
  steps-IsKept [] s leave kept = kept
  steps-IsKept ((now, e) ∷ events) s (early, leaves, leave) kept =
      steps-IsKept events (service_step texts now e s) leave (step-IsKept now e s early leaves kept)

  -- It is given out then, and only then gone.
  pub resolve_kept :
      (now : ℕ) (peer : String) (s : Service)
      → now < invite.expires_at_unix_secs
      → IsKept s
      → (handle_request texts now peer (resolve_invite code) s).0
        ≡ resolved invite.peer_id invite.direct_addresses
  unfolding handle_request resolve drop_expired
  resolve_kept now peer s early kept =
      let (there, reserved) = drop-IsKept now s early kept in rw (there, reserved) refl
