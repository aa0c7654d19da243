-- ===== src/Query/Order.antt =====
-- What `order_by(... .desc()).limit(n)` gives: rows of the table, from the latest on.
use labfunctions.Prelude.{
  ℕ, zero, suc, ◌≡◌, refl, Bool, true, ◌&&◌, List, [], ◌∷◌, ◌≤◌, leb, arith, ap, ◌∙◌, ◌||◌,
  if◌then◌else◌,
}
use labfunctions.Text.{length, all, any}
use labfunctions.Query.{limit, put_desc, order_desc}

module _ {ℓ} {A : Type ℓ} where
  pub length-limit-le : (n : ℕ) (xs : List A) → length (limit n xs) ≤ n
  unfolding limit
  length-limit-le zero xs = ground arith
  length-limit-le (suc n) [] = ground arith
  length-limit-le (suc n) (x ∷ xs) = ground (arith, length-limit-le n xs)

  pub length-limit :
      (n : ℕ) (xs : List A) → length (limit n xs) ≡ (if leb n (length xs) then n else length xs)
  unfolding limit
  length-limit zero xs = ground arith
  length-limit (suc n) [] = ground arith
  length-limit (suc n) (x ∷ xs) = ground (arith, length-limit n xs)

  -- The rows that `limit` leaves out.
  unfoldable pub omitted : ℕ → List A → List A
  omitted zero xs = xs
  omitted (suc n) [] = []
  omitted (suc n) (x ∷ xs) = omitted n xs

  pub all-limit : (q : A → Bool) (n : ℕ) (xs : List A) → all q xs ≡ true → all q (limit n xs) ≡ true
  unfolding limit
  all-limit q zero xs h = refl
  all-limit q (suc n) [] h = refl
  all-limit q (suc n) (x ∷ xs) h = ground (arith, all-limit q n xs)

  pub all-omitted :
      (q : A → Bool) (n : ℕ) (xs : List A) → all q xs ≡ true → all q (omitted n xs) ≡ true
  unfolding omitted
  all-omitted q zero xs h = h
  all-omitted q (suc n) [] h = refl
  all-omitted q (suc n) (x ∷ xs) h = ground (arith, all-omitted q n xs)

  module _ (key : A → ℕ) where
    -- No row is later than the one in front of it.
    abbrev pub is_latest_first : List A → Bool
    is_latest_first [] = true
    is_latest_first (x ∷ xs) = all (λ y. leb (key y) (key x)) xs && is_latest_first xs

    all-put_desc :
        (q : A → Bool) (x : A) (xs : List A) → all q (put_desc key x xs) ≡ (q x && all q xs)
    unfolding put_desc
    all-put_desc q x [] = refl
    all-put_desc q x (y ∷ ys) = ground (arith, all-put_desc q x ys)

    -- A test holds of all ordered rows when it holds of all rows.
    pub all-order_desc : (q : A → Bool) (xs : List A) → all q (order_desc key xs) ≡ all q xs
    unfolding order_desc
    all-order_desc q [] = refl
    all-order_desc q (x ∷ xs) =
        ground (arith, all-put_desc q x (order_desc key xs), all-order_desc q xs)

    any-put_desc :
        (q : A → Bool) (x : A) (xs : List A) → any q (put_desc key x xs) ≡ (q x || any q xs)
    unfolding put_desc
    any-put_desc q x [] = refl
    any-put_desc q x (y ∷ ys) = ground (arith, any-put_desc q x ys)

    pub any-order_desc : (q : A → Bool) (xs : List A) → any q (order_desc key xs) ≡ any q xs
    unfolding order_desc
    any-order_desc q [] = refl
    any-order_desc q (x ∷ xs) =
        ground (arith, any-put_desc q x (order_desc key xs), any-order_desc q xs)

    length-put_desc : (x : A) (xs : List A) → length (put_desc key x xs) ≡ suc (length xs)
    unfolding put_desc
    length-put_desc x [] = refl
    length-put_desc x (y ∷ ys) = ground (arith, length-put_desc x ys)

    pub length-order_desc : (xs : List A) → length (order_desc key xs) ≡ length xs
    unfolding order_desc
    length-order_desc [] = refl
    length-order_desc (x ∷ xs) =
        length-put_desc x (order_desc key xs) ∙ ap suc (length-order_desc xs)

    all_le_trans :
        (x y : A) (xs : List A)
        → leb (key y) (key x) ≡ true
        → all (λ z. leb (key z) (key y)) xs ≡ true
        → all (λ z. leb (key z) (key x)) xs ≡ true
    all_le_trans x y [] h k = refl
    all_le_trans x y (z ∷ zs) h k = ground (arith, all_le_trans x y zs)

    is_latest_first-put_desc :
        (x : A) (xs : List A)
        → is_latest_first xs ≡ true
        → is_latest_first (put_desc key x xs) ≡ true
    unfolding put_desc
    is_latest_first-put_desc x [] h = refl
    is_latest_first-put_desc x (y ∷ ys) h = ground (
      arith,
      all_le_trans x y ys,
      all-put_desc (λ z. leb (key z) (key y)) x ys,
      is_latest_first-put_desc x ys,
    )

    pub is_latest_first-order_desc : (xs : List A) → is_latest_first (order_desc key xs) ≡ true
    unfolding order_desc
    is_latest_first-order_desc [] = refl
    is_latest_first-order_desc (x ∷ xs) =
        is_latest_first-put_desc x (order_desc key xs) (is_latest_first-order_desc xs)

    pub is_latest_first-limit :
        (n : ℕ) (xs : List A) → is_latest_first xs ≡ true → is_latest_first (limit n xs) ≡ true
    unfolding limit
    is_latest_first-limit zero xs h = refl
    is_latest_first-limit (suc n) [] h = refl
    is_latest_first-limit (suc n) (x ∷ xs) h =
        ground (arith, all-limit (λ z. leb (key z) (key x)) n xs, is_latest_first-limit n xs)

    -- No row that `limit` leaves out is later than one that it keeps.
    pub all-limit-omitted :
        (n : ℕ) (xs : List A)
        → is_latest_first xs ≡ true
        → all (λ x. all (λ y. leb (key y) (key x)) (omitted n xs)) (limit n xs) ≡ true
    unfolding limit omitted
    all-limit-omitted zero xs h = refl
    all-limit-omitted (suc n) [] h = refl
    all-limit-omitted (suc n) (x ∷ xs) h =
        ground (arith, all-omitted (λ y. leb (key y) (key x)) n xs, all-limit-omitted n xs)
