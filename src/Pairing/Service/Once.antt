-- ===== src/Pairing/Service/Once.antt =====
-- The service of src/pairing.rs gives an invite out to the first that asks, and to no other.
use ciphermesh.Prelude.{
  ℕ, ◌<◌, String, none, List, [], ◌∷◌, ◌≡◌, ◌≢◌, refl, inl, inr, ◌∙◌, sym, subst, string_ord,
  nat_ord,
}
use ciphermesh.BTree.{lookup}
use ciphermesh.BTree.Laws.{lookup-upsert_ne}
use ciphermesh.Storage.Sql.Sorted.{IsSorted-delete, lookup-delete_absent}
use ciphermesh.BTree.Sorted.{
  IsSorted, lookup-remove_self, IsSorted-upsert, IsSorted-remove, lookup-remove_absent,
}
use ciphermesh.Pairing.Service.{
  PairingRequest, register_invite, resolve_invite, initial_message, chat_frame, PairingResponse,
  registered, resolved, Service, new_service, ServiceEvent, reservation_accepted,
  reservation_closed, reservation_timed_out, rendezvous, other, AddressText, is_expired, is_of,
  registration, register, resolve, unresolved, drop_expired, end_reservation, handle_request,
  service_step, service_steps, answer, sanitize_all,
}
use ciphermesh.Pairing.Service.Kept.{
  IsKept, LeaveIt, steps-IsKept, resolve_kept, register-registered, register-cases,
}

module _ (texts : AddressText) where
  abbrev IsOrdered : Service → Type 0
  IsOrdered s = IsSorted s.invitations

  register-IsOrdered :
      (now : ℕ) (peer c : String) (expires : ℕ) (addresses : List String) (s : Service)
      → IsOrdered s
      → IsOrdered (register texts now peer c expires addresses s).1
  register-IsOrdered now peer c expires addresses s sorted =
      let i = registration texts peer expires addresses in
      elim (register-cases texts c i now peer c expires addresses s) [
        | inl (_, failed) ↦
            subst (λ (r : PairingResponse × Service). IsOrdered r.1) (sym failed) sorted
        | inr (entered, _, _) ↦
            subst (λ (r : PairingResponse × Service). IsOrdered r.1) (sym entered)
              (IsSorted-upsert c (λ _. i) s.invitations sorted)
      ]

  answer-IsOrdered :
      (now : ℕ) (peer : String) (request : PairingRequest) (s : Service)
      → IsOrdered s
      → IsOrdered (answer texts now peer request s).1
  unfolding resolve
  answer-IsOrdered now peer (register_invite c expires addresses) s sorted =
      register-IsOrdered now peer c expires addresses s sorted
  answer-IsOrdered now peer (resolve_invite c) s sorted = IsSorted-remove c s.invitations sorted
  answer-IsOrdered now peer PairingRequest.prekey_bundle s sorted = sorted
  answer-IsOrdered now peer (initial_message bytes) s sorted = sorted
  answer-IsOrdered now peer (chat_frame bytes) s sorted = sorted

  step-IsOrdered :
      (now : ℕ) (e : ServiceEvent) (s : Service)
      → IsOrdered s
      → IsOrdered (service_step texts now e s)
  unfolding service_step handle_request drop_expired end_reservation
  step-IsOrdered now (reservation_accepted peer) s sorted = sorted
  step-IsOrdered now (reservation_closed peer) s sorted =
      IsSorted-delete (is_of texts peer) s.invitations sorted
  step-IsOrdered now (reservation_timed_out peer) s sorted =
      IsSorted-delete (is_of texts peer) s.invitations sorted
  step-IsOrdered now (rendezvous peer request) s sorted =
      answer-IsOrdered now peer request (drop_expired texts now s)
        (IsSorted-delete (is_expired texts now) s.invitations sorted)
  step-IsOrdered now other s sorted = sorted

  steps-IsOrdered :
      (events : List (ℕ × ServiceEvent)) (s : Service)
      → IsOrdered s
      → IsOrdered (service_steps texts events s)
  unfolding service_steps
  steps-IsOrdered [] s sorted = sorted
  steps-IsOrdered ((now, e) ∷ events) s sorted =
      steps-IsOrdered events (service_step texts now e s) (step-IsOrdered now e s sorted)

  module _ (code : String) where
    -- Nobody registers the code.
    abbrev pub NotRegistered : List (ℕ × ServiceEvent) → Type 0
    NotRegistered [] = Unit {0}
    NotRegistered ((now, rendezvous peer (register_invite c _ _)) ∷ events) =
        (c ≢ code) × NotRegistered events
    NotRegistered (_ ∷ events) = NotRegistered events

    abbrev IsGone : Service → Type 0
    IsGone s = IsSorted s.invitations × (lookup code s.invitations ≡ none)

    drop-IsGone : (now : ℕ) (s : Service) → IsGone s → IsGone (drop_expired texts now s)
    unfolding drop_expired
    drop-IsGone now s (sorted, gone) = (
      IsSorted-delete (is_expired texts now) s.invitations sorted,
      lookup-delete_absent (is_expired texts now) code s.invitations sorted gone,
    )

    end-IsGone : (peer : String) (s : Service) → IsGone s → IsGone (end_reservation texts peer s)
    unfolding end_reservation
    end-IsGone peer s (sorted, gone) = (
      IsSorted-delete (is_of texts peer) s.invitations sorted,
      lookup-delete_absent (is_of texts peer) code s.invitations sorted gone,
    )

    register-IsGone :
        (now : ℕ) (peer c : String) (expires : ℕ) (addresses : List String) (s : Service)
        → c ≢ code
        → IsGone s
        → IsGone (register texts now peer c expires addresses s).1
    register-IsGone now peer c expires addresses s ne (sorted, gone) =
        let i = registration texts peer expires addresses in
        elim (register-cases texts c i now peer c expires addresses s) [
          | inl (_, failed) ↦
              subst (λ (r : PairingResponse × Service). IsGone r.1) (sym failed) (sorted, gone)
          | inr (entered, _, _) ↦
              subst (λ (r : PairingResponse × Service). IsGone r.1) (sym entered)
                (
                  IsSorted-upsert c (λ _. i) s.invitations sorted,
                  lookup-upsert_ne c code (λ _. i) s.invitations ne ∙ gone,
                )
        ]

    resolve-IsGone : (c : String) (s : Service) → IsGone s → IsGone (resolve texts c s).1
    unfolding resolve
    resolve-IsGone c s (sorted, gone) = (
      IsSorted-remove c s.invitations sorted,
      lookup-remove_absent c code s.invitations sorted gone,
    )

    steps-IsGone :
        (events : List (ℕ × ServiceEvent)) (s : Service)
        → NotRegistered events
        → IsGone s
        → IsGone (service_steps texts events s)
    unfolding service_steps service_step handle_request
    steps-IsGone [] s quiet gone = gone
    steps-IsGone ((now, reservation_accepted peer) ∷ events) s quiet gone =
        steps-IsGone events _ quiet gone
    steps-IsGone ((now, reservation_closed peer) ∷ events) s quiet gone =
        steps-IsGone events _ quiet (end-IsGone peer s gone)
    steps-IsGone ((now, reservation_timed_out peer) ∷ events) s quiet gone =
        steps-IsGone events _ quiet (end-IsGone peer s gone)
    steps-IsGone ((now, rendezvous peer (register_invite c expires addresses)) ∷ events) s
          (ne, quiet) gone =
        steps-IsGone events _ quiet
          (register-IsGone now peer c expires addresses _ ne (drop-IsGone now s gone))
    steps-IsGone ((now, rendezvous peer (resolve_invite c)) ∷ events) s quiet gone =
        steps-IsGone events _ quiet
          (resolve-IsGone c (drop_expired texts now s) (drop-IsGone now s gone))
    steps-IsGone ((now, rendezvous peer PairingRequest.prekey_bundle) ∷ events) s quiet gone =
        steps-IsGone events _ quiet (drop-IsGone now s gone)
    steps-IsGone ((now, rendezvous peer (initial_message bytes)) ∷ events) s quiet gone =
        steps-IsGone events _ quiet (drop-IsGone now s gone)
    steps-IsGone ((now, rendezvous peer (chat_frame bytes)) ∷ events) s quiet gone =
        steps-IsGone events _ quiet (drop-IsGone now s gone)
    steps-IsGone ((now, other) ∷ events) s quiet gone = steps-IsGone events s quiet gone

    resolved-IsGone :
        (now : ℕ) (peer : String) (s : Service)
        → IsSorted s.invitations
        → IsGone (handle_request texts now peer (resolve_invite code) s).1
    unfolding handle_request resolve drop_expired
    resolved-IsGone now peer s sorted =
        let left = IsSorted-delete (is_expired texts now) s.invitations sorted in
        (IsSorted-remove code _ left, lookup-remove_self code _ left)

    gone_refused :
        (now : ℕ) (peer : String) (s : Service)
        → IsGone s
        → (handle_request texts now peer (resolve_invite code) s).0 ≡ unresolved texts
    unfolding handle_request resolve
    gone_refused now peer s gone = rw (drop-IsGone now s gone).1 refl

-- At a service that began empty, an invite code that was resolved, whatever the answer was, is
-- refused from then on, whoever asks and whatever happens in between, until somebody registers it.
pub invite_resolved_once :
    (texts : AddressText) (code first second : String) (now later : ℕ)
    (before events : List (ℕ × ServiceEvent))
    → NotRegistered texts code events
    → let s =
        (handle_request texts now first
          (resolve_invite code)
          (service_steps texts before new_service)).1 in
      (handle_request texts later second (resolve_invite code) (service_steps texts events s)).0
      ≡ unresolved texts
invite_resolved_once texts code first second now later before events quiet =
    let sorted = steps-IsOrdered texts before new_service tt in
    let s = service_steps texts before new_service in
    let gone = resolved-IsGone texts code now first s sorted in
    gone_refused texts code later second _ (steps-IsGone texts code events _ quiet gone)

registered-IsKept :
    (texts : AddressText) (code peer : String) (expires now : ℕ) (addresses : List String)
    (s : Service)
    → (handle_request texts now peer (register_invite code expires addresses) s).0 ≡ registered
    → IsKept texts code
        (registration texts peer expires addresses)
        (handle_request texts now peer (register_invite code expires addresses) s).1
unfolding handle_request
registered-IsKept texts code peer expires now addresses s h =
    register-registered texts code (registration texts peer expires addresses) now peer expires
      addresses (drop_expired texts now s) refl h

-- An invite that the service accepted is given out to whoever resolves its code before it expires,
-- with the peer that registered it and its sanitized addresses: as long as the peer keeps its
-- reservation and does not register the code again, and nobody resolves it, other peers change
-- nothing, also where they register the same code.
pub registered_resolves :
    (texts : AddressText) (code peer asker : String) (expires now later : ℕ)
    (addresses : List String) (s : Service) (events : List (ℕ × ServiceEvent))
    → (handle_request texts now peer (register_invite code expires addresses) s).0 ≡ registered
    → LeaveIt texts code (registration texts peer expires addresses) events
    → later < expires
    → let s' = (handle_request texts now peer (register_invite code expires addresses) s).1 in
      (handle_request texts later asker (resolve_invite code) (service_steps texts events s')).0
      ≡ resolved peer (sanitize_all texts addresses)
registered_resolves texts code peer asker expires now later addresses s events done leave early =
    let i = registration texts peer expires addresses in
    resolve_kept texts code i later asker _ early (
      steps-IsKept texts code i events _ leave
        (registered-IsKept texts code peer expires now addresses s done))
