-- ===== src/Ident/Hash96/Order.antt =====
-- The ids of labfunctions/hashes.py are ordered by time, as numbers and as texts.
use native.Mathlib.Nat.{pow-suc}
use native.Mathlib.Decide.{dec_lt}
use labfunctions.Prelude.{
  ℕ, zero, suc, ◌*◌, ◌/◌, ◌%◌, ◌^◌, ◌<◌, ◌≡◌, ◌⊎◌, inl, inr, refl, Bool, true, false, ◌&&◌, ◌||◌,
  List, [], ◌∷◌, ◌++◌, some, ltb, ◌==◌, arith, Bool-cases, ◌↔◌,
}
use labfunctions.Text.{length}
use labfunctions.Ident.Hash96.{
  Hash96, id_of, big_endian, to_bytes, hex_digit, hexlify, time_random_string,
}

-- The order of Python's texts and lists of numbers.
pub lex_lt : List ℕ → List ℕ → Bool
lex_lt xs [] = false
lex_lt [] (y ∷ ys) = true
lex_lt (x ∷ xs) (y ∷ ys) = ltb x y || x == y && lex_lt xs ys

module _ (a b : ℕ) where
  lex_lt-snoc :
      (xs ys : List ℕ)
      → length xs ≡ length ys
      → lex_lt xs ys ≡ true
      → lex_lt (xs ++ a ∷ []) (ys ++ b ∷ []) ≡ true
  unfolding lex_lt
  lex_lt-snoc [] [] h k = cc
  lex_lt-snoc [] (y ∷ ys) h k = absurd (omega (arith, h))
  lex_lt-snoc (x ∷ xs) [] h k = cc
  lex_lt-snoc (x ∷ xs) (y ∷ ys) h k = ground (arith, lex_lt-snoc xs ys)

  lex_lt-last : (xs : List ℕ) → a < b → lex_lt (xs ++ a ∷ []) (xs ++ b ∷ []) ≡ true
  unfolding lex_lt
  lex_lt-last [] h = ground arith
  lex_lt-last (x ∷ xs) h = ground (arith, lex_lt-last xs)

length-snoc : (xs : List ℕ) (a : ℕ) → length (xs ++ a ∷ []) ≡ suc (length xs)
length-snoc [] a = refl
length-snoc (x ∷ xs) a = omega (arith, length-snoc xs a)

length-big_endian : (k n : ℕ) → length (big_endian k n) ≡ k
unfolding big_endian
length-big_endian zero n = refl
length-big_endian (suc k) n =
    omega (arith, length-snoc (big_endian k (n / 256)) (n % 256), length-big_endian k (n / 256))

byte_cases : (a b : ℕ) → a < b → (a / 256 < b / 256) ⊎ ((a / 256 ≡ b / 256) × (a % 256 < b % 256))
byte_cases a b lt = elim (dec_lt (a / 256) (b / 256)) [
  | yes h ↦ inl h
  | no h ↦ inr (omega arith, omega arith)
]

digit_cases : (a b : ℕ) → a < b → (a / 16 < b / 16) ⊎ ((a / 16 ≡ b / 16) × (a % 16 < b % 16))
digit_cases a b lt = elim (dec_lt (a / 16) (b / 16)) [
  | yes h ↦ inl h
  | no h ↦ inr (omega arith, omega arith)
]

hex_digit_mono : (c d : ℕ) → c < d → hex_digit c < hex_digit d
unfolding hex_digit
hex_digit_mono c d h = ground arith

big_endian_mono :
    (k a b : ℕ) → b < 256 ^ k → a < b → lex_lt (big_endian k a) (big_endian k b) ≡ true
unfolding big_endian
big_endian_mono zero a b h lt = absurd (omega arith)
big_endian_mono (suc k) a b h lt = elim (byte_cases a b lt) [
  | inl high ↦
      lex_lt-snoc (a % 256) (b % 256) (big_endian k (a / 256)) (big_endian k (b / 256))
        (omega (arith, length-big_endian k (a / 256), length-big_endian k (b / 256)))
        (big_endian_mono k (a / 256) (b / 256) (omega (arith, pow-suc 256 k)) high)
  | inr (same, low) ↦ rw same (lex_lt-last (a % 256) (b % 256) (big_endian k (b / 256)) low)
]

-- Digits of two bytes in the order of the bytes.
hexlify_mono : (xs ys : List ℕ) → lex_lt xs ys ≡ true → lex_lt (hexlify xs) (hexlify ys) ≡ true
unfolding lex_lt hexlify
hexlify_mono [] [] h = cc
hexlify_mono [] (y ∷ ys) h = refl
hexlify_mono (x ∷ xs) [] h = cc
hexlify_mono (x ∷ xs) (y ∷ ys) h = elim (Bool-cases (ltb x y)) [
  | inl low ↦
      ground
        (arith, digit_cases x y, hex_digit_mono (x / 16) (y / 16), hex_digit_mono (x % 16) (y % 16))
  | inr same ↦ ground (arith, hexlify_mono xs ys)
]

length-hexlify : (xs : List ℕ) → length (hexlify xs) ≡ 2 * length xs
unfolding hexlify
length-hexlify [] = refl
length-hexlify (x ∷ xs) = omega (arith, length-hexlify xs)

id_of_mono : (ts ts' random random' : ℕ) → ts < ts' → id_of ts random < id_of ts' random'
unfolding id_of
id_of_mono ts ts' random random' h = omega arith

made_of :
    (ts random : ℕ) (h : Hash96)
    → time_random_string ts random ≡ some h
    → (h.id_int ≡ id_of ts random)
      × (h.id_hex ≡ hexlify (big_endian 12 (id_of ts random)))
      × (id_of ts random < 256 ^ 12)
unfolding time_random_string to_bytes
made_of ts random h made = ground arith

made_below :
    (ts random : ℕ)
    → id_of ts random < 256 ^ 12
    → time_random_string ts random
      ≡ some
          (record { id_int = id_of ts random; id_hex = hexlify (big_endian 12 (id_of ts random)) })
unfolding time_random_string to_bytes
made_below ts random h = ground arith

-- An id of a later second is greater, as a number and as a text, whatever the random parts are;
-- both texts have 24 characters.
pub time_random_string-ordered :
    (ts ts' random random' : ℕ) (h h' : Hash96)
    → ts < ts'
    → time_random_string ts random ≡ some h
    → time_random_string ts' random' ≡ some h'
    → (h.id_int < h'.id_int)
      × (lex_lt h.id_hex h'.id_hex ≡ true)
      × (length h.id_hex ≡ 24)
      × (length h'.id_hex ≡ 24)
time_random_string-ordered ts ts' random random' h h' later made made' =
    let (i, x, small) = made_of ts random h made in
    let (i', x', small') = made_of ts' random' h' made' in
    let less = id_of_mono ts ts' random random' later in
    (
      rw (i, i') less,
      rw (x, x')
          (hexlify_mono _ _ (big_endian_mono 12 (id_of ts random) (id_of ts' random') small' less)),
      rw x (
          omega (
            arith,
            length-hexlify (big_endian 12 (id_of ts random)),
            length-big_endian 12 (id_of ts random),
          )),
      rw x' (
          omega (
            arith,
            length-hexlify (big_endian 12 (id_of ts' random')),
            length-big_endian 12 (id_of ts' random'),
          )),
    )

-- An id is made exactly for a time below 2 ^ 41, and its number gives back the time and the low 55
-- bits of the random number.
pub time_random_string_parts :
    (ts random : ℕ)
    → ((ts < 2 ^ 41) ↔ ((h : Hash96) × (time_random_string ts random ≡ some h)))
      × (id_of ts random / 2 ^ 55 ≡ ts)
      × (id_of ts random % 2 ^ 55 ≡ random % 2 ^ 55)
time_random_string_parts ts random = (
  (
    λ small. (
      record { id_int = id_of ts random; id_hex = hexlify (big_endian 12 (id_of ts random)) },
      made_below ts random (unfold id_of in omega arith),
    ),
    λ (h, made). let (_, _, fits) = made_of ts random h made in unfold id_of in omega (arith, fits),
  ),
  unfold id_of in omega arith,
  unfold id_of in omega arith,
)
