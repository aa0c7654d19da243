-- ===== src/Text/Members.antt =====
-- Tests over lists of texts: `all`, `any` and `select` against `member`, and the counts that the
-- program compares in their place.
use labfunctions.Prelude.{
  ◌≡◌, refl, Bool, true, ◌&&◌, List, [], ◌∷◌, ◌≤◌, ◌==◌, arith, Bool-cases, inl, inr,
}
use labfunctions.Text.Defs.{Text, length, select, all, any, member}
use labfunctions.Text.Equality.{teq_iff, teq_refl}

module _ {ℓ} {A : Type ℓ} (p : A → Bool) where
  pub length-select-le : (xs : List A) → length (select p xs) ≤ length xs
  unfolding select
  length-select-le [] = ground arith
  length-select-le (x ∷ xs) = ground (arith, length-select-le xs)

  -- No element is dropped exactly when all pass the test.
  pub length-select-all : (xs : List A) → (length xs == length (select p xs)) ≡ all p xs
  unfolding select
  length-select-all [] = refl
  length-select-all (x ∷ xs) = ground (arith, length-select-le xs, length-select-all xs)

  pub any-select : (q : A → Bool) (xs : List A) → any q (select p xs) ≡ any (λ x. p x && q x) xs
  unfolding select
  any-select q [] = refl
  any-select q (x ∷ xs) = ground (arith, any-select q xs)

module _ (q : Text → Bool) where
  pub any-witness :
      (xs : List Text) → any q xs ≡ true → (x : Text) × (member x xs ≡ true) × (q x ≡ true)
  unfolding member
  any-witness [] h = cc
  any-witness (x ∷ xs) h = elim (Bool-cases (q x)) [
    | inl e ↦ (x, ground (arith, teq_refl x), e)
    | inr e ↦ let (y, m, k) = any-witness xs (ground arith) in (y, ground arith, k)
  ]

  pub any_of_member :
      (x : Text) (xs : List Text) → member x xs ≡ true → q x ≡ true → any q xs ≡ true
  unfolding member
  any_of_member x [] h k = cc
  any_of_member x (y ∷ ys) h k = ground (arith, teq_iff x y, any_of_member x ys)

  pub member-select : (x : Text) (xs : List Text) → member x (select q xs) ≡ (member x xs && q x)
  unfolding member select
  member-select x [] = refl
  member-select x (y ∷ ys) = ground (arith, teq_iff x y, member-select x ys)
