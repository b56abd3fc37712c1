-- ===== src/Tests/World.antt =====
-- The events of two devices, for the tests.
use ciphermesh.Prelude.{
  ℕ, zero, suc, String, Option, none, some, List, [], ◌∷◌, ◌≡◌, refl, arith, Member, inl, inr,
  subst,
}
use ciphermesh.Storage.Records.{EventRecord}
use ciphermesh.Storage.Events.World.{Identities}
use ciphermesh.Crdt.{
  ConversationEvent, message_created, message_deleted, reaction_added, reaction_removed,
  read_advanced,
}
use ciphermesh.Crdt.Convergence.{AgreeRows, AllAgree}

-- `P` of each member, as a product
abbrev Each {ℓ} : {A : Type ℓ} → (A → Type 0) → List A → Type 0
Each P [] = Unit {0}
Each P (x ∷ xs) = P x × Each P xs

pub each : {A : Type 0} (P : A → Type 0) (xs : List A) → Each P xs → (x : A) → Member x xs → P x
each P [] h x m = absurd (m tt)
each P (y ∷ xs) (h, hs) x (inl e) = subst P e h
each P (y ∷ xs) (h, hs) x (inr m) = each P xs hs x m

-- The payloads are numbers of events.
abbrev numbered : ℕ → Option ConversationEvent
numbered zero = some (message_created "m1" "alice" (72 ∷ 105 ∷ []))
numbered (suc zero) = some (reaction_added "m1" "heart" "bob")
numbered (suc (suc zero)) = some (reaction_removed (record { device_id = "laptop"; counter = 1 }))
numbered (suc (suc (suc zero))) = some (message_deleted "m1")
numbered (suc (suc (suc (suc zero)))) = some (read_advanced "bob" "phone" 5)
numbered (suc (suc (suc (suc (suc zero))))) = some (message_created "m1" "mallory" (33 ∷ []))
numbered (suc (suc (suc (suc (suc (suc zero)))))) = some (read_advanced "bob" "phone" 3)
numbered _ = none

abbrev pub decode : List ℕ → Option ConversationEvent
decode [] = none
decode (n ∷ rest) = numbered n

abbrev pub event : String → ℕ → ℕ → EventRecord
event device counter kind = record {
  device_id = device;
  counter = counter;
  conversation_id = "talk";
  event_type = "";
  message_id = none;
  payload = kind ∷ [];
  created_at_unix_secs = 0;
}

abbrev pub creation : EventRecord
creation = event "phone" 1 0

abbrev pub deletion : EventRecord
deletion = event "phone" 2 3

abbrev pub reaction : EventRecord
reaction = event "laptop" 1 1

abbrev pub reading : EventRecord
reading = event "laptop" 2 4

abbrev pub removal : EventRecord
removal = event "laptop" 3 2

abbrev pub other_creation : EventRecord
other_creation = event "phone" 9 5

abbrev pub phone_events : List EventRecord
phone_events = creation ∷ deletion ∷ []

abbrev pub laptop_events : List EventRecord
laptop_events = reaction ∷ reading ∷ []

abbrev pub all_events : List EventRecord
all_events = creation ∷ deletion ∷ reaction ∷ reading ∷ []

abbrev pub Event : EventRecord → Type 0
Event e = Member e all_events

abbrev SameIfKeysMatch : EventRecord → EventRecord → Type 0
SameIfKeysMatch e f = e.device_id ≡ f.device_id → e.counter ≡ f.counter → e ≡ f

-- A relation on all pairs of two lists
each_pair :
    (R : EventRecord → EventRecord → Type 0) (xs ys : List EventRecord)
    → Each (λ x. Each (R x) ys) xs
    → (x y : EventRecord) → Member x xs
    → Member y ys
    → R x y
each_pair R xs ys h x y m n = each (R x) ys (each (λ z. Each (R z) ys) xs h x m) y n

pub world : Identities Event
world = record {
  unique = λ e f m n.
      each_pair SameIfKeysMatch all_events all_events
        (
          (
            λ p q. refl,
            (λ p q. absurd (omega (arith, q)), (λ p q. absurd cc, (λ p q. absurd cc, tt))),
          ),
          (
            (
              λ p q. absurd (omega (arith, q)),
              (λ p q. refl, (λ p q. absurd cc, (λ p q. absurd cc, tt))),
            ),
            (
              (
                λ p q. absurd cc,
                (λ p q. absurd cc, (λ p q. refl, (λ p q. absurd (omega (arith, q)), tt))),
              ),
              (
                (
                  λ p q. absurd cc,
                  (λ p q. absurd cc, (λ p q. absurd (omega (arith, q)), (λ p q. refl, tt))),
                ),
                tt,
              ),
            ),
          ),
        )
        e f m n;
}

pub events_agree : AllAgree decode all_events
events_agree = each_pair (AgreeRows decode) all_events all_events (
  (λ _. (refl, refl), (tt, (tt, (tt, tt)))),
  (
    (tt, (tt, (tt, (tt, tt)))),
    ((tt, (tt, (λ _ _. (refl, refl, refl), (tt, tt)))), ((tt, (tt, (tt, (tt, tt)))), tt)),
  ),
)
