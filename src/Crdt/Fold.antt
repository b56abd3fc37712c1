-- ===== src/Crdt/Fold.antt =====
-- A fold of a step that commutes and may be repeated depends on the set of its inputs alone.
use ciphermesh.Prelude.{List, [], ◌∷◌, ◌≡◌, refl, sym, ap, ◌∙◌, inl, inr, Member, foldl}

-- Two lists with the same members, in any order and any number of times.
abbrev pub SameMembers {ℓ} : {A : Type ℓ} → List A → List A → Type ℓ
SameMembers {A} xs ys = (a : A) → (Member a xs → Member a ys) × (Member a ys → Member a xs)

module _ {ℓ} {S A : Type ℓ} (step : S → A → S) (Compatible : A → A → Type ℓ)
    (comm : (s : S) (a b : A) → Compatible a b → step (step s a) b ≡ step (step s b) a)
    (idem : (s : S) (a : A) → step (step s a) a ≡ step s a) where
  -- `a` is compatible with every member.
  abbrev pub AllCompatible : A → List A → Type ℓ
  AllCompatible a xs = (b : A) → Member b xs → Compatible a b

  foldl-step :
      (s : S) (a : A) (xs : List A)
      → AllCompatible a xs
      → foldl step (step s a) xs ≡ step (foldl step s xs) a
  foldl-step s a [] h = refl
  foldl-step s a (x ∷ xs) h =
      ap (λ t. foldl step t xs) (comm s a x (h x (inl refl)))
      ∙ foldl-step (step s x) a xs (λ b m. h b (inr m))

  -- A step that was made already changes nothing.
  pub absorb :
      (s : S) (a : A) (xs : List A)
      → AllCompatible a xs
      → Member a xs
      → step (foldl step s xs) a ≡ foldl step s xs
  absorb s a [] h m = absurd (m tt)
  absorb s a (x ∷ xs) h (inl e) =
      ap (λ t. step (foldl step (step s t) xs) a) e
      ∙ ap (λ t. step t a) (foldl-step s a xs (λ b m. h b (inr m)))
      ∙ idem (foldl step s xs) a
      ∙ sym (foldl-step s a xs (λ b m. h b (inr m)))
      ∙ ap (λ t. foldl step (step s t) xs) (sym e)
  absorb s a (x ∷ xs) h (inr m) = absorb (step s x) a xs (λ b n. h b (inr n)) m

  absorb_all :
      (s : S) (xs ys : List A)
      → ((a : A) → Member a ys → AllCompatible a xs)
      → ((a : A) → Member a ys → Member a xs)
      → foldl step (foldl step s xs) ys ≡ foldl step s xs
  absorb_all s xs [] h m = refl
  absorb_all s xs (y ∷ ys) h m =
      ap (λ t. foldl step t ys) (absorb s y xs (h y (inl refl)) (m y (inl refl)))
      ∙ absorb_all s xs ys (λ a n. h a (inr n)) (λ a n. m a (inr n))

  foldl-foldl_comm :
      (s : S) (xs ys : List A)
      → ((a : A) → Member a ys → AllCompatible a xs)
      → foldl step (foldl step s xs) ys ≡ foldl step (foldl step s ys) xs
  foldl-foldl_comm s xs [] h = refl
  foldl-foldl_comm s xs (y ∷ ys) h =
      ap (λ t. foldl step t ys) (sym (foldl-step s y xs (h y (inl refl))))
      ∙ foldl-foldl_comm (step s y) xs ys (λ a n. h a (inr n))

  pub foldl-SameMembers :
      (s : S) (xs ys : List A)
      → ((a b : A) → Member a xs → Member b xs → Compatible a b)
      → SameMembers xs ys
      → foldl step s xs ≡ foldl step s ys
  foldl-SameMembers s xs ys all h =
      sym (absorb_all s xs ys (λ a m b n. all a b ((h a).1 m) n) (λ a. (h a).1))
      ∙ foldl-foldl_comm s xs ys (λ a m b n. all a b ((h a).1 m) n)
      ∙ absorb_all s ys xs (λ a m b n. all a b m ((h b).1 n)) (λ a. (h a).0)
