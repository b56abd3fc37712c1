-- ===== src/Pairing/Codes/Normal.antt =====
-- The form that the invite codes of src/main.rs are brought to.
use ciphermesh.Prelude.{
  ℕ, zero, suc, ◌+◌, ◌/◌, ◌%◌, ◌<◌, ◌≤◌, nat_ord, List, [], ◌∷◌, ◌++◌, Bool, true, false, ◌&&◌,
  ◌==◌, ltb, length, ◌≡◌, refl, ap, sym, ◌∙◌, arith, subst, Bool-cases, inl, inr,
}
use ciphermesh.Crypto.Utf8.{char_bytes}
use ciphermesh.App.{AppResult, ok, err, text_error}
use ciphermesh.Chat.Names.{is_whitespace}
use ciphermesh.Pairing.Codes.{
  invite_code_alphabet, char_at, generate_invite_code, contains, all_in, ascii_upper, is_kept, keep,
  bytes_of, normalized_of, normalize_invite_code,
}

-- What a test says of each character of the alphabet, it says of each character in it.
abbrev all_pass : (ℕ → Bool) → List ℕ → Bool
all_pass test [] = true
all_pass test (c ∷ cs) = test c && all_pass test cs

pass_of_contains :
    (test : ℕ → Bool) (l : List ℕ) (b : ℕ)
    → all_pass test l ≡ true
    → contains l b ≡ true
    → test b ≡ true
pass_of_contains test [] b passes h = absurd cc
pass_of_contains test (c ∷ cs) b passes h = elim (Bool-cases (c == b)) [
  | inl e ↦
      let same : c ≡ b = ground (arith, e) in
      let here : test c ≡ true = ground (arith, passes) in subst (λ d. test d ≡ true) same here
  | inr ne ↦ pass_of_contains test cs b (ground (arith, passes)) (ground (arith, h, ne))
]

abbrev in_alphabet : ℕ → Bool
in_alphabet = contains invite_code_alphabet

below_128 : (b : ℕ) → in_alphabet b ≡ true → ltb b 128 ≡ true
below_128 b h = pass_of_contains (λ c. ltb c 128) invite_code_alphabet b refl h

kept : (b : ℕ) → in_alphabet b ≡ true → is_kept b ≡ true
unfolding is_whitespace
kept b h = pass_of_contains is_kept invite_code_alphabet b refl h

upper : (b : ℕ) → in_alphabet b ≡ true → ascii_upper b ≡ b
upper b h =
    let same : (ascii_upper b == b) ≡ true =
      pass_of_contains (λ c. ascii_upper c == c) invite_code_alphabet b refl h in
    ground (arith, same)

head_in :
    (b : ℕ) (rest : List ℕ) → all_in invite_code_alphabet (b ∷ rest) ≡ true → in_alphabet b ≡ true
unfolding all_in
head_in b rest h = ground (arith, h)

-- The bytes of any other character than ASCII begin with a greater one.
record Begins (bytes : List ℕ) : Type 0 where
  head : ℕ
  rest : List ℕ
  is : bytes ≡ head ∷ rest
  great : 128 ≤ head

other_bytes : (c : ℕ) → ltb c 0x80 ≡ false → Begins (char_bytes c)
unfolding char_bytes
other_bytes c more = elim (Bool-cases (ltb c 0x800)) [
  | inl two ↦ record {
    head = 0xC0 + c / 64;
    rest = (0x80 + c % 64) ∷ [];
    is = rw (more, two) refl;
    great = omega arith;
  }
  | inr long ↦ elim (Bool-cases (ltb c 0x10000)) [
    | inl three ↦ record {
      head = 0xE0 + c / 4096;
      rest = (0x80 + c / 64 % 64) ∷ (0x80 + c % 64) ∷ [];
      is = rw (more, long, three) refl;
      great = omega arith;
    }
    | inr four ↦ record {
      head = 0xF0 + c / 262144;
      rest = (0x80 + c / 4096 % 64) ∷ (0x80 + c / 64 % 64) ∷ (0x80 + c % 64) ∷ [];
      is = rw (more, long, four) refl;
      great = omega arith;
    }
  ]
]

one_byte : (c : ℕ) → ltb c 0x80 ≡ true → char_bytes c ≡ c ∷ []
unfolding char_bytes
one_byte c one = rw one refl

-- A character whose bytes are in the alphabet is its byte.
char_in :
    (c : ℕ) (rest : List ℕ)
    → all_in invite_code_alphabet (char_bytes c ++ rest) ≡ true
    → char_bytes c ≡ c ∷ []
char_in c rest h = elim (Bool-cases (ltb c 0x80)) [
  | inl one ↦ one_byte c one
  | inr more ↦
      let o = other_bytes c more in
      let h' : all_in invite_code_alphabet ((o.head ∷ o.rest) ++ rest) ≡ true =
        subst (λ l. all_in invite_code_alphabet (l ++ rest) ≡ true) o.is h in
      let small = below_128 o.head (head_in o.head (o.rest ++ rest) h') in
      let great = o.great in absurd (ground (arith, small, great))
]

tail_in :
    (b : ℕ) (rest : List ℕ)
    → all_in invite_code_alphabet (b ∷ rest) ≡ true
    → all_in invite_code_alphabet rest ≡ true
unfolding all_in
tail_in b rest h = ground (arith, h)

-- A text whose bytes are all in the alphabet is its bytes.
bytes_in :
    (code : List ℕ) → all_in invite_code_alphabet (bytes_of code) ≡ true → bytes_of code ≡ code
unfolding bytes_of
bytes_in [] h = refl
bytes_in (c ∷ cs) h =
    let one = char_in c (bytes_of cs) h in
    let h' : all_in invite_code_alphabet (c ∷ bytes_of cs) ≡ true =
      subst (λ l. all_in invite_code_alphabet (l ++ bytes_of cs) ≡ true) one h in
    λ i. one i ++ bytes_in cs (tail_in c (bytes_of cs) h') i

bytes_of-in : (code : List ℕ) → all_in invite_code_alphabet code ≡ true → bytes_of code ≡ code
unfolding bytes_of char_bytes all_in
bytes_of-in [] h = refl
bytes_of-in (c ∷ cs) h =
    let one : ltb c 0x80 ≡ true = below_128 c (head_in c cs h) in
    rw (one, bytes_of-in cs (tail_in c cs h)) refl

-- Such a text is left as it is.
normalized-in :
    (code : List ℕ) → all_in invite_code_alphabet code ≡ true → normalized_of code ≡ code
unfolding keep
normalized-in [] h = refl
normalized-in (c ∷ cs) h =
    let here = head_in c cs h in
    rw (kept c here) (λ i. upper c here i ∷ normalized-in cs (tail_in c cs h) i)

normalize-in :
    (code : List ℕ)
    → all_in invite_code_alphabet code ≡ true
    → length code ≡ 6
    → normalize_invite_code code ≡ ok code
unfolding normalize_invite_code
normalize-in code h six = rw (normalized-in code h, bytes_of-in code h, six, h) refl

contains-char_at : (l : List ℕ) (n : ℕ) → n < length l → contains l (char_at l n) ≡ true
contains-char_at [] n h = absurd (omega (arith, h))
contains-char_at (c ∷ cs) zero h = ground arith
contains-char_at (c ∷ cs) (suc n) h =
    let rest = contains-char_at cs n (omega (arith, h)) in
    elim (Bool-cases (c == char_at cs n)) [
      | inl here ↦ rw here refl
      | inr other ↦ rw (other, rest) refl
    ]

all_in_nil : all_in invite_code_alphabet [] ≡ true
unfolding all_in
all_in_nil = refl

cons_in :
    (b : ℕ) (rest : List ℕ)
    → in_alphabet b ≡ true
    → all_in invite_code_alphabet rest ≡ true
    → all_in invite_code_alphabet (b ∷ rest) ≡ true
unfolding all_in
cons_in b rest here there = λ i. here i && there i

generated :
    (random : List ℕ)
    → (all_in invite_code_alphabet (generate_invite_code random) ≡ true)
      × (length (generate_invite_code random) ≡ length random)
unfolding generate_invite_code
generated [] = (all_in_nil, refl)
generated (b ∷ bs) =
    let (letters, count) = generated bs in
    let here = contains-char_at invite_code_alphabet (b % 32) (omega arith) in
    (
      cons_in (char_at invite_code_alphabet (b % 32)) (generate_invite_code bs) here letters,
      ap suc count,
    )

abbrev value_of : AppResult (List ℕ) → List ℕ
value_of (ok d) = d
value_of (err e) = []

normal_of :
    (code d : List ℕ)
    → normalize_invite_code code ≡ ok d
    → (all_in invite_code_alphabet d ≡ true) × (length d ≡ 6)
unfolding normalize_invite_code
normal_of code d h =
    let bytes = bytes_of (normalized_of code) in
    elim (Bool-cases (length bytes == 6)) [
      | inr other ↦
          let failed : normalize_invite_code code
              ≡ err (text_error "invite code must be 6 characters") =
            rw other refl in
          absurd (cc (sym failed ∙ h))
      | inl six ↦ elim (Bool-cases (all_in invite_code_alphabet bytes)) [
        | inr bad ↦
            let failed : normalize_invite_code code
                ≡ err (text_error "invite code contains unsupported characters") =
              rw (six, bad) refl in
            absurd (cc (sym failed ∙ h))
        | inl good ↦
            let made : normalize_invite_code code ≡ ok (normalized_of code) = rw (six, good) refl in
            let same : bytes ≡ d =
              bytes_in (normalized_of code) good ∙ ap value_of (sym made ∙ h) in
            let count : length bytes ≡ 6 = ground (arith, six) in
            (
              subst (λ l. all_in invite_code_alphabet l ≡ true) same good,
              ap length (sym same) ∙ count,
            )
      ]
    ]

-- An invite code that is made of six random bytes is in normal form; and what a typed code is
-- brought to has six characters of the alphabet, and is in normal form, too: bringing it there
-- again leaves it as it is.
pub normalize_invite_code_lem :
    (random typed code : List ℕ)
    → length random ≡ 6
    → normalize_invite_code typed ≡ ok code
    → (normalize_invite_code (generate_invite_code random) ≡ ok (generate_invite_code random))
      × (length code ≡ 6)
      × (all_in invite_code_alphabet code ≡ true)
      × (normalize_invite_code code ≡ ok code)
normalize_invite_code_lem random typed code six h =
    let (letters, count) = generated random in
    let (good, length_six) = normal_of typed code h in
    (
      normalize-in (generate_invite_code random) letters (count ∙ six),
      length_six,
      good,
      normalize-in code good length_six,
    )
