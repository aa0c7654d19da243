-- ===== src/Query.antt =====
-- The queries of the database library that the managers use, on a table that is the list of its
-- rows in the order in which they were inserted: the first row that passes a test, the rows that
-- pass it, rows that are changed or deleted, `order_by(... .desc())` and `limit`. Rows of one key
-- keep their order; nothing that is proved rests on it.
pub mod Order
use labfunctions.Prelude.{
  ℕ, zero, suc, ◌≡◌, refl, Bool, true, false, not, ◌||◌, List, [], ◌∷◌, ◌++◌, Option, none, some,
  leb, arith, if◌then◌else◌,
}
use labfunctions.Text.{select, any}
use labfunctions.Dict.{found}

module _ {ℓ} {A : Type ℓ} where
  unfoldable pub first : (A → Bool) → List A → Option A
  first p [] = none
  first p (x ∷ xs) = if p x then some x else first p xs

  unfoldable pub delete_where : (A → Bool) → List A → List A
  delete_where p [] = []
  delete_where p (x ∷ xs) = let rest = delete_where p xs in if p x then rest else x ∷ rest

  unfoldable pub update_where : (A → Bool) → (A → A) → List A → List A
  update_where p f [] = []
  update_where p f (x ∷ xs) = (if p x then f x else x) ∷ update_where p f xs

  unfoldable pub limit : ℕ → List A → List A
  limit zero xs = []
  limit (suc n) [] = []
  limit (suc n) (x ∷ xs) = x ∷ limit n xs

  module _ (key : A → ℕ) where
    unfoldable pub put_desc : A → List A → List A
    put_desc x [] = x ∷ []
    put_desc x (y ∷ ys) =
        let rest = put_desc x ys in if leb (key y) (key x) then x ∷ y ∷ ys else y ∷ rest

    unfoldable pub order_desc : List A → List A
    unfolding put_desc
    order_desc [] = []
    order_desc (x ∷ xs) = put_desc x (order_desc xs)

  pub found-first : (p : A → Bool) (xs : List A) → found (first p xs) ≡ any p xs
  unfolding first
  found-first p [] = refl
  found-first p (x ∷ xs) = ground (arith, found-first p xs)

  pub first-append :
      (p : A → Bool) (xs ys : List A)
      → first p (xs ++ ys) ≡ (if found (first p xs) then first p xs else first p ys)
  unfolding first
  first-append p [] ys = refl
  first-append p (x ∷ xs) ys = ground (arith, first-append p xs ys)

  pub any-append : (p : A → Bool) (xs ys : List A) → any p (xs ++ ys) ≡ (any p xs || any p ys)
  any-append p [] ys = refl
  any-append p (x ∷ xs) ys = ground (arith, any-append p xs ys)

  -- A row that a test picks passes it.
  pub first_passes : (p : A → Bool) (xs : List A) (x : A) → first p xs ≡ some x → p x ≡ true
  unfolding first
  first_passes p [] x h = cc
  first_passes p (y ∷ ys) x h = ground (arith, first_passes p ys x)

  -- Rows that a test does not see may be deleted.
  pub first-delete_where :
      (p q : A → Bool)
      → ((x : A) → p x ≡ true → q x ≡ false)
      → (xs : List A) → first p (delete_where q xs) ≡ first p xs
  unfolding first delete_where
  first-delete_where p q apart [] = refl
  first-delete_where p q apart (x ∷ xs) = ground (arith, apart x, first-delete_where p q apart xs)

  -- Deleted rows are not found.
  pub first-delete_where_self : (p : A → Bool) (xs : List A) → first p (delete_where p xs) ≡ none
  unfolding first delete_where
  first-delete_where_self p [] = refl
  first-delete_where_self p (x ∷ xs) = ground (arith, first-delete_where_self p xs)

  -- A change that the test does not see.
  pub first-update_where :
      (p q : A → Bool) (f : A → A)
      → ((x : A) → p (f x) ≡ p x)
      → (xs : List A)
      → first p (update_where q f xs)
        ≡ (elim (first p xs) [ none ↦ none | some x ↦ some (if q x then f x else x) ])
  unfolding first update_where
  first-update_where p q f same [] = refl
  first-update_where p q f same (x ∷ xs) = ground (arith, same x, first-update_where p q f same xs)
