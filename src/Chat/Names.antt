-- ===== src/Chat/Names.antt =====
-- The display names of src/main.rs: trimmed, cut and replaced where there is none.
use Prim.Native.Char.{code}
use ciphermesh.Prelude.{
  ℕ, zero, suc, ◌+◌, String, Bool, true, false, ◌&&◌, ◌||◌, leb, ◌==◌, string_ord, if◌then◌else◌,
  ◌≡◌, refl,
}

abbrev pub display_name_max_chars : ℕ
display_name_max_chars = 32

-- `char::is_whitespace`
unfoldable pub is_whitespace : ℕ → Bool
is_whitespace c =
    (leb 0x9 c && leb c 0xD)
    || (c == 0x20
        || (c == 0x85
            || (c == 0xA0
                || (c == 0x1680
                    || ((leb 0x2000 c && leb c 0x200A)
                        || (c == 0x2028
                            || (c == 0x2029 || (c == 0x202F || (c == 0x205F || c == 0x3000)))))))))

abbrev pub is_empty : String → Bool
is_empty String.[] = true
is_empty (String.◌∷◌ c s) = false

unfoldable pub trim_start : String → String
unfolding is_whitespace
trim_start String.[] = ""
trim_start (String.◌∷◌ c s) =
    let rest = trim_start s in if is_whitespace (code c) then rest else String.◌∷◌ c s

unfoldable pub trim_end : String → String
unfolding is_whitespace
trim_end String.[] = ""
trim_end (String.◌∷◌ c s) =
    let rest = trim_end s in
    if is_empty rest && is_whitespace (code c) then "" else String.◌∷◌ c rest

abbrev pub trim : String → String
trim s = trim_end (trim_start s)

-- `chars().take(n).collect()`
unfoldable pub take_chars : ℕ → String → String
take_chars zero s = ""
take_chars (suc n) String.[] = ""
take_chars (suc n) (String.◌∷◌ c s) = String.◌∷◌ c (take_chars n s)

unfoldable pub count_chars : String → ℕ
count_chars String.[] = 0
count_chars (String.◌∷◌ c s) = suc (count_chars s)

unfoldable pub display_name_or_anonymous : String → String
unfolding trim_start trim_end take_chars
display_name_or_anonymous display_name =
    if is_empty (trim display_name)
    then "Anonymous"
    else take_chars display_name_max_chars (trim display_name)

abbrev pub ascii_lower : ℕ → ℕ
ascii_lower c = if leb 0x41 c && leb c 0x5A then c + 32 else c

unfoldable pub eq_ignore_ascii_case : String → String → Bool
eq_ignore_ascii_case String.[] String.[] = true
eq_ignore_ascii_case String.[] (String.◌∷◌ d t) = false
eq_ignore_ascii_case (String.◌∷◌ c s) String.[] = false
eq_ignore_ascii_case (String.◌∷◌ c s) (String.◌∷◌ d t) =
    ascii_lower (code c) == ascii_lower (code d) && eq_ignore_ascii_case s t

unfoldable pub is_chat_back_command : String → Bool
unfolding trim_start trim_end eq_ignore_ascii_case
is_chat_back_command line =
    eq_ignore_ascii_case (trim line) "/back" || eq_ignore_ascii_case (trim line) "/exit"

unfoldable pub remote_sender_label : String → String → String
unfolding trim_start trim_end
remote_sender_label wire_sender_display_name saved_display_name =
    if is_empty (trim wire_sender_display_name)
    then saved_display_name
    else wire_sender_display_name

back : (is_chat_back_command " /BACK " ≡ true) × (is_chat_back_command "/backs" ≡ false)
unfolding is_chat_back_command
back = (refl, refl)

named :
    (display_name_or_anonymous "  Ann B " ≡ "Ann B") × (display_name_or_anonymous " " ≡ "Anonymous")
unfolding display_name_or_anonymous
named = (refl, refl)
