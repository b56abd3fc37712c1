-- ===== src/Tests/Toy.antt =====
-- Primitives for the tests. They keep the laws that the theorems ask of the real ones, and nothing
-- of their secrecy.
use ciphermesh.Prelude.{
  ℕ, zero, suc, ◌+◌, ◌*◌, ◌%◌, Option, none, some, List, [], ◌∷◌, ◌++◌, true, ◌≡◌, refl, ◌==◌,
  if◌then◌else◌, arith,
}
use ciphermesh.Crypto.{Crypto}
use ciphermesh.Crypto.Bytes.{same_bytes, same_bytes_self}
use ciphermesh.Devices.Authorization.{SignatureLaws}

abbrev pub sum_of : List ℕ → ℕ
sum_of [] = 7
sum_of (b ∷ bs) = (b + 3 * sum_of bs) % 251

abbrev pub stretch : ℕ → ℕ → List ℕ
stretch zero seed = []
stretch (suc n) seed = seed ∷ stretch n ((5 * seed + n) % 251)

-- what follows a prefix
unfoldable pub strip : List ℕ → List ℕ → Option (List ℕ)
strip [] bs = some bs
strip (a ∷ rest) [] = none
strip (a ∷ rest) (b ∷ bs) = let later = strip rest bs in if a == b then later else none

pub strip_lem : (a b : List ℕ) → strip a (a ++ b) ≡ some b
unfolding strip
strip_lem [] b = refl
strip_lem (x ∷ rest) b = ground (arith, strip_lem rest b)

-- A signature is the key and the text.
abbrev pub toy : Crypto
toy = record {
  x25519_public = λ s. s;
  diffie_hellman = λ s p. (sum_of s + sum_of p) ∷ [];
  hkdf_expand = λ salt m info n. some (stretch n (sum_of (info ++ m)));
  aead_encrypt = λ key nonce aad text. some ((key ++ (nonce ++ aad)) ++ text);
  aead_decrypt = λ key nonce aad text. strip (key ++ (nonce ++ aad)) text;
  ed25519_public = λ s. s;
  sign = λ s m. s ++ m;
  is_verifying_key = λ k. true;
  is_signature = λ s. true;
  verify = λ key m s. same_bytes (key ++ m) s;
  sha256 = λ bs. bs;
}

pub toy_signatures : SignatureLaws toy
toy_signatures = record {
  key_read = λ s. refl;
  signature_read = λ s m. refl;
  verifies = λ s m. same_bytes_self (s ++ m);
}
