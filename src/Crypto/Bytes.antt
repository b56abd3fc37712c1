-- ===== src/Crypto/Bytes.antt =====
-- Byte lists in src/lib.rs: big-endian numbers, and equality of keys.
use ciphermesh.Prelude.{
  ℕ, zero, suc, ◌/◌, ◌%◌, ◌^◌, List, [], ◌∷◌, Bool, true, false, ◌&&◌, ◌==◌, ◌≡◌, refl, arith,
}

-- `u64::to_be_bytes`
unfoldable pub be_bytes : ℕ → ℕ → List ℕ
be_bytes zero n = []
be_bytes (suc k) n = (n / 256 ^ k % 256) ∷ be_bytes k n

abbrev pub to_be_bytes : ℕ → List ℕ
to_be_bytes = be_bytes 8

-- `==` on byte arrays
unfoldable pub same_bytes : List ℕ → List ℕ → Bool
same_bytes [] [] = true
same_bytes [] (b ∷ bs) = false
same_bytes (a ∷ rest) [] = false
same_bytes (a ∷ rest) (b ∷ bs) = a == b && same_bytes rest bs

pub same_bytes_self : (a : List ℕ) → same_bytes a a ≡ true
unfolding same_bytes
same_bytes_self [] = refl
same_bytes_self (a ∷ rest) = ground (arith, same_bytes_self rest)

pub eq_of_same_bytes : (a b : List ℕ) → same_bytes a b ≡ true → a ≡ b
unfolding same_bytes
eq_of_same_bytes [] [] h = refl
eq_of_same_bytes [] (b ∷ bs) h = cc
eq_of_same_bytes (a ∷ rest) [] h = cc
eq_of_same_bytes (a ∷ rest) (b ∷ bs) h = ground (arith, eq_of_same_bytes rest bs)
