-- ===== src/Crypto/Utf8.antt =====
-- UTF-8, as Rust's `String` holds it: the bytes of a text, and the test of `String::from_utf8`.
use Prim.Native.Char.{code}
use ciphermesh.Prelude.{
  ℕ, zero, suc, ◌+◌, ◌/◌, ◌%◌, String, Option, none, some, List, [], ◌∷◌, ◌++◌, Bool, true, false,
  ◌&&◌, leb, ltb, if◌then◌else◌, ◌==◌, ◌≡◌, refl,
}

-- The bytes of one code point.
unfoldable pub char_bytes : ℕ → List ℕ
char_bytes c =
    if ltb c 0x80
    then c ∷ []
    else if ltb c 0x800
    then (0xC0 + c / 64) ∷ (0x80 + c % 64) ∷ []
    else if ltb c 0x10000
    then (0xE0 + c / 4096) ∷ (0x80 + c / 64 % 64) ∷ (0x80 + c % 64) ∷ []
    else (0xF0 + c / 262144) ∷ (0x80 + c / 4096 % 64) ∷ (0x80 + c / 64 % 64) ∷ (0x80 + c % 64) ∷ []

-- `as_bytes`
unfoldable pub as_bytes : String → List ℕ
unfolding char_bytes
as_bytes String.[] = []
as_bytes (String.◌∷◌ c s) = char_bytes (code c) ++ as_bytes s

-- How many bytes of a character are still to come, and the range of the next one.
pub record Pending : Type 0 where
  pub count : ℕ
  pub low : ℕ
  pub high : ℕ

abbrev pub complete : Pending
complete = record { count = 0; low = 0x80; high = 0xBF }

unfoldable pub first_byte : ℕ → Option Pending
first_byte b =
    if ltb b 0x80
    then some complete
    else if ltb b 0xC2
    then none
    else if ltb b 0xE0
    then some (record complete { count = 1 })
    else if b == 0xE0
    then some (record { count = 2; low = 0xA0; high = 0xBF })
    else if b == 0xED
    then some (record { count = 2; low = 0x80; high = 0x9F })
    else if ltb b 0xF0
    then some (record complete { count = 2 })
    else if b == 0xF0
    then some (record { count = 3; low = 0x90; high = 0xBF })
    else if ltb b 0xF4
    then some (record complete { count = 3 })
    else if b == 0xF4
    then some (record { count = 3; low = 0x80; high = 0x8F })
    else none

utf8_byte : ℕ → ℕ → ℕ → ℕ → Option Pending
unfolding first_byte
utf8_byte zero low high b = first_byte b
utf8_byte (suc n) low high b =
    if leb low b && leb b high then some (record complete { count = n }) else none

utf8_from : Option Pending → List ℕ → Bool
unfolding utf8_byte
utf8_from none bytes = false
utf8_from (some p) [] = p.count == 0
utf8_from (some p) (b ∷ bytes) = utf8_from (utf8_byte p.count p.low p.high b) bytes

-- Whether `String::from_utf8` takes the bytes.
unfoldable pub is_utf8 : List ℕ → Bool
unfolding utf8_from
is_utf8 = utf8_from (some complete)

euro : as_bytes "a€" ≡ 0x61 ∷ 0xE2 ∷ 0x82 ∷ 0xAC ∷ []
unfolding as_bytes
euro = refl

euro-is_utf8 :
    (is_utf8 (0x61 ∷ 0xE2 ∷ 0x82 ∷ 0xAC ∷ []) ≡ true) × (is_utf8 (0xE2 ∷ 0x82 ∷ []) ≡ false)
unfolding is_utf8
euro-is_utf8 = (refl, refl)
