-- ===== src/Tests/Codec.antt =====
-- A wire for the tests: events as lists of numbers, with a terminator after each text.
use Prim.Native.Char.{Char, char, code, IsLt, nul}
use Prim.Native.Nat.{compare, Ordering}
use ciphermesh.Prelude.{
  ℕ, zero, suc, String, Option, none, some, List, [], ◌∷◌, ◌≡◌, refl, ap, ◌∙◌, length,
}
use ciphermesh.Sync.{SyncEvent, Wire}
use ciphermesh.Sync.Transfer.{WireLaws}

abbrev pub Reader : Type 0 → Type 0
Reader A = List ℕ → Option (A × List ℕ)

abbrev pub get_then : {A B : Type 0} → Option (A × List ℕ) → (A → Reader B) → Option (B × List ℕ)
get_then none f = none
get_then (some (a, k)) f = f a k

-- The cases of `IsScalar`, whose names its module keeps to itself.
abbrev BothBelow : Ordering → Ordering → Type 0
BothBelow Ordering.lt o = IsLt o
BothBelow Ordering.eq _ = ⊥
BothBelow Ordering.gt _ = ⊥

abbrev Scalar : Ordering → Ordering → Ordering → Type 0
Scalar Ordering.lt _ _ = Unit {0}
Scalar Ordering.eq o p = BothBelow o p
Scalar Ordering.gt o p = BothBelow o p

-- the character of a number
abbrev from_tests : (n : ℕ) (a b c : Ordering) → (Scalar a b c → Char) → Char
from_tests n Ordering.lt b c f = f tt
from_tests n Ordering.eq Ordering.lt Ordering.lt f = f tt
from_tests n Ordering.gt Ordering.lt Ordering.lt f = f tt
from_tests n _ _ _ f = nul

abbrev chr : ℕ → Char
chr n = from_tests n (compare n 55296) (compare 57343 n) (compare n 1114112) (λ p. char n p)

from_tests_lem :
    (n : ℕ) (a b c : Ordering) (f : Scalar a b c → Char) (p : Scalar a b c)
    → from_tests n a b c f ≡ f p
from_tests_lem n Ordering.lt b c f p = refl
from_tests_lem n Ordering.eq Ordering.lt Ordering.lt f p = refl
from_tests_lem n Ordering.gt Ordering.lt Ordering.lt f p = refl
from_tests_lem n Ordering.eq Ordering.lt Ordering.eq f p = absurd p
from_tests_lem n Ordering.eq Ordering.lt Ordering.gt f p = absurd p
from_tests_lem n Ordering.gt Ordering.lt Ordering.eq f p = absurd p
from_tests_lem n Ordering.gt Ordering.lt Ordering.gt f p = absurd p
from_tests_lem n Ordering.eq Ordering.eq c f p = absurd p
from_tests_lem n Ordering.eq Ordering.gt c f p = absurd p
from_tests_lem n Ordering.gt Ordering.eq c f p = absurd p
from_tests_lem n Ordering.gt Ordering.gt c f p = absurd p

chr-code : (c : Char) → chr (code c) ≡ c
chr-code (char n p) = from_tests_lem n _ _ _ (λ q. char n q) p

abbrev pub put_text : String → List ℕ → List ℕ
put_text String.[] k = 0 ∷ k
put_text (String.◌∷◌ c s) k = suc (code c) ∷ put_text s k

abbrev pub get_text : Reader String
get_text [] = none
get_text (zero ∷ k) = some (String.[], k)
get_text (suc n ∷ k) = get_then (get_text k) (λ s k'. some (String.◌∷◌ (chr n) s, k'))

pub get-put_text : (s : String) (k : List ℕ) → get_text (put_text s k) ≡ some (s, k)
get-put_text String.[] k = refl
get-put_text (String.◌∷◌ c s) k = rw (get-put_text s k, chr-code c) refl

abbrev pub put_bytes : List ℕ → List ℕ → List ℕ
put_bytes [] k = 0 ∷ k
put_bytes (b ∷ bs) k = suc b ∷ put_bytes bs k

abbrev pub get_bytes : Reader (List ℕ)
get_bytes [] = none
get_bytes (zero ∷ k) = some ([], k)
get_bytes (suc n ∷ k) = get_then (get_bytes k) (λ s k'. some (n ∷ s, k'))

pub get-put_bytes : (s k : List ℕ) → get_bytes (put_bytes s k) ≡ some (s, k)
get-put_bytes [] k = refl
get-put_bytes (c ∷ s) k = rw (get-put_bytes s k) refl

abbrev put_option : Option String → List ℕ → List ℕ
put_option none k = 0 ∷ k
put_option (some s) k = 1 ∷ put_text s k

abbrev get_option : Reader (Option String)
get_option [] = none
get_option (zero ∷ k) = some (none, k)
get_option (suc n ∷ k) = get_then (get_text k) (λ s k'. some (some s, k'))

get-put_option : (o : Option String) (k : List ℕ) → get_option (put_option o k) ≡ some (o, k)
get-put_option none k = refl
get-put_option (some s) k = rw (get-put_text s k) refl

abbrev pub get_number : Reader ℕ
get_number [] = none
get_number (n ∷ k) = some (n, k)

abbrev put_event : SyncEvent → List ℕ → List ℕ
put_event e k = put_text e.device_id (
    e.counter
    ∷ put_text e.conversation_id (
        put_text e.event_type
          (put_option e.message_id (put_bytes e.payload (e.created_at_unix_secs ∷ k)))))

abbrev get_event : Reader SyncEvent
get_event k0 = get_then (get_text k0) (λ device k1. get_then (get_number k1) (λ counter k2.
    get_then (get_text k2) (λ conversation k3. get_then (get_text k3) (λ kind k4.
      get_then (get_option k4) (λ message k5. get_then (get_bytes k5) (λ payload k6.
        get_then (get_number k6) (λ created k7. some (
          record {
            device_id = device;
            counter = counter;
            conversation_id = conversation;
            event_type = kind;
            message_id = message;
            payload = payload;
            created_at_unix_secs = created;
          },
          k7,
        ))))))))

get-put_event : (e : SyncEvent) (k : List ℕ) → get_event (put_event e k) ≡ some (e, k)
get-put_event e k = rw (get-put_text e.device_id _) (
    rw (get-put_text e.conversation_id _) (
      rw (get-put_text e.event_type _)
        (rw (get-put_option e.message_id _) (rw (get-put_bytes e.payload _) refl))))

abbrev put_events : List SyncEvent → List ℕ
put_events [] = []
put_events (e ∷ es) = put_event e (put_events es)

abbrev add_event :
    Option (SyncEvent × List ℕ) → (List ℕ → Option (List SyncEvent)) → Option (List SyncEvent)
add_event none rest = none
add_event (some (e, k)) rest = elim (rest k) [ none ↦ none | some es ↦ some (e ∷ es) ]

abbrev get_events : ℕ → List ℕ → Option (List SyncEvent)
get_events zero k = some []
get_events (suc n) k = add_event (get_event k) (get_events n)

get-put_events : (es : List SyncEvent) → get_events (length es) (put_events es) ≡ some es
get-put_events [] = refl
get-put_events (e ∷ es) =
    ap (λ o. add_event o (get_events (length es))) (get-put_event e (put_events es))
    ∙ rw (add_event, get-put_events es) refl

abbrev get_counted : List ℕ → Option (List SyncEvent)
get_counted [] = none
get_counted (n ∷ k) = get_events n k

-- The number of the events comes first.
abbrev pub toy_wire : Wire
toy_wire = record { serialize = λ es. some (length es ∷ put_events es); deserialize = get_counted }

pub toy_wire_laws : WireLaws toy_wire
toy_wire_laws = record { read_back = λ es. (length es ∷ put_events es, refl, get-put_events es) }
