-- ===== src/Pairing/Codes.antt =====
-- The invite codes of src/main.rs. A text is the list of the numbers of its characters.
pub mod Normal
use ciphermesh.Prelude.{
  ℕ, zero, suc, ◌%◌, ◌-◌, String, List, [], ◌∷◌, ◌++◌, Bool, true, false, not, ◌&&◌, ◌||◌, ◌==◌,
  leb, length, take, map, if◌then◌else◌,
}
use ciphermesh.Crypto.{Crypto}
use ciphermesh.Crypto.Utf8.{as_bytes, char_bytes}
use ciphermesh.App.{AppResult, ok, err, text_error}
use ciphermesh.Devices.{hex}
use ciphermesh.Chat.Names.{is_whitespace}

abbrev pub invite_code_len : ℕ
invite_code_len = 6

-- ABCDEFGH, JKLMN, PQRSTUVWXYZ and 23456789
abbrev pub invite_code_alphabet : List ℕ
invite_code_alphabet =
    65 ∷ 66 ∷ 67 ∷ 68 ∷ 69 ∷ 70 ∷ 71 ∷ 72 ∷ 74 ∷ 75 ∷ 76 ∷ 77 ∷ 78 ∷ 80 ∷ 81 ∷ 82 ∷ 83 ∷ 84 ∷ 85
    ∷ 86 ∷ 87 ∷ 88 ∷ 89 ∷ 90 ∷ 50 ∷ 51 ∷ 52 ∷ 53 ∷ 54 ∷ 55 ∷ 56 ∷ 57 ∷ []

-- Indexing; the index is never out of range here.
abbrev pub char_at : List ℕ → ℕ → ℕ
char_at [] n = 0
char_at (c ∷ cs) zero = c
char_at (c ∷ cs) (suc n) = char_at cs n

-- `random` is what `fill_random` draws, six bytes.
unfoldable pub generate_invite_code : List ℕ → List ℕ
generate_invite_code random =
    map (λ byte. char_at invite_code_alphabet (byte % length invite_code_alphabet)) random

abbrev pub contains : List ℕ → ℕ → Bool
contains [] b = false
contains (c ∷ cs) b = c == b || contains cs b

unfoldable pub all_in : List ℕ → List ℕ → Bool
all_in alphabet [] = true
all_in alphabet (b ∷ bs) = contains alphabet b && all_in alphabet bs

abbrev pub ascii_upper : ℕ → ℕ
ascii_upper c = if leb 0x61 c && leb c 0x7A then c - 32 else c

-- Neither a space nor `-`
abbrev pub is_kept : ℕ → Bool
is_kept c = not (is_whitespace c) && not (c == 0x2D)

unfoldable pub keep : List ℕ → List ℕ
unfolding is_whitespace
keep [] = []
keep (c ∷ cs) = let rest = keep cs in if is_kept c then c ∷ rest else rest

unfoldable pub bytes_of : List ℕ → List ℕ
unfolding char_bytes
bytes_of [] = []
bytes_of (c ∷ cs) = char_bytes c ++ bytes_of cs

abbrev pub normalized_of : List ℕ → List ℕ
normalized_of code = map ascii_upper (keep code)

unfoldable pub normalize_invite_code : List ℕ → AppResult (List ℕ)
unfolding keep bytes_of all_in
normalize_invite_code code =
    if not (length (bytes_of (normalized_of code)) == invite_code_len)
    then err (text_error "invite code must be 6 characters")
    else if not (all_in invite_code_alphabet (bytes_of (normalized_of code)))
    then err (text_error "invite code contains unsupported characters")
    else ok (normalized_of code)

unfoldable pub invite_code_hash : Crypto → List ℕ → String
unfolding bytes_of hex
invite_code_hash crypto code = hex (
    take 16
      (crypto.sha256 (as_bytes "ciphermesh.invite-code.v1" ++ bytes_of (map ascii_upper code))))
