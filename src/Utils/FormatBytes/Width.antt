-- ===== src/Utils/FormatBytes/Width.antt =====
-- How long the texts of `format_bytes` are.
use labfunctions.Prelude.{
  ℕ, zero, suc, ◌+◌, ◌*◌, ◌/◌, ◌%◌, ◌^◌, ◌≤◌, ◌<◌, ◌≡◌, ◌++◌, ◌∷◌, [], arith, true, Bool-cases, inl,
  inr,
}
use native.Mathlib.Nat.{div-add-mod', mod-lt, div-lt_iff_lt-mul}
use native.Mathlib.Decide.{dec_le}
use labfunctions.Text.{Text, codes, length, decimal}
use labfunctions.Text.Decimal.{length-decimal-le, length-decimal_four}
use labfunctions.Utils.FormatBytes.{
  half_even, ulp, to_double, two_places, reaches, scaled, format_bytes,
}

length-append : (s t : Text) → length (s ++ t) ≡ length s + length t
length-append [] t = omega arith
length-append (c ∷ s) t = omega (arith, length-append s t)

half_even_bounds : (n k : ℕ) → (n / k ≤ half_even n k) × (half_even n k ≤ n / k + 1)
unfolding half_even
half_even_bounds n k = ground arith

-- A round is made only where the weight is still at most n / 2 ^ 53.
ulp-le : (fuel u n : ℕ) → u * 2 ^ 53 ≤ 2 * n + 2 ^ 53 → ulp fuel u n * 2 ^ 53 ≤ 2 * n + 2 ^ 53
unfolding ulp
ulp-le zero u n h = h
ulp-le (suc fuel) u n h = ground (arith, ulp-le fuel (2 * u) n)

ulp-pos : (fuel u n : ℕ) → 0 < u → 0 < ulp fuel u n
unfolding ulp
ulp-pos zero u n h = h
ulp-pos (suc fuel) u n h = ground (arith, ulp-pos fuel (2 * u) n)

near_multiple : (q u n : ℕ) → 0 < u → n / u ≤ q → q ≤ n / u + 1 → (q * u ≤ n + u) × (n ≤ q * u + u)
near_multiple q u n pos low high = elim (dec_le q (n / u)) [
  | yes h ↦
      let e : q ≡ n / u = omega arith in
      rw e (
        omega (arith, div-add-mod' n u, mod-lt n pos),
        omega (arith, div-add-mod' n u, mod-lt n pos),
      )
  | no h ↦
      let e : q ≡ n / u + 1 = omega arith in
      rw e (
        omega (arith, div-add-mod' n u, mod-lt n pos),
        omega (arith, div-add-mod' n u, mod-lt n pos),
      )
]

-- Below 2 ^ 60 the rounding to a double moves a number by at most 257.
to_double_near : (n : ℕ) → n < 2 ^ 60 → (to_double n ≤ n + 257) × (n ≤ to_double n + 257)
unfolding to_double
to_double_near n h =
    let u = ulp n 1 n in
    let small : u ≤ 257 = omega (arith, ulp-le n 1 n (omega arith)) in
    let (low, high) = half_even_bounds n u in
    let (below, above) = near_multiple (half_even n u) u n (ulp-pos n 1 n (omega arith)) low high in
    (omega arith, omega arith)

length-two_places-le : (c : ℕ) → c < 100000 → length (two_places c) ≤ 6
unfolding two_places
length-two_places-le c h = omega (
  arith,
  length-append (decimal (c / 100)) (b'.' ∷ (b'0' + c / 10 % 10) ∷ (b'0' + c % 10) ∷ []),
  length-decimal-le (c / 100) 2 (omega arith),
)

length-two_places_seven : (c : ℕ) → 100000 ≤ c → c < 1000000 → length (two_places c) ≡ 7
unfolding two_places
length-two_places_seven c h k = omega (
  arith,
  length-append (decimal (c / 100)) (b'.' ∷ (b'0' + c / 10 % 10) ∷ (b'0' + c % 10) ∷ []),
  length-decimal_four (c / 100) (omega arith) (omega arith),
)

module _ (n k a b : ℕ) where
  abbrev tag : Text
  tag = 32 ∷ a ∷ b ∷ codes "B"

  -- Four characters stand behind the number.
  length-scaled :
      length (scaled n k (a ∷ b ∷ [])) ≡ length (two_places (half_even (to_double n * 100) k)) + 4
  unfolding scaled
  length-scaled = length-append (two_places (half_even (to_double n * 100) k)) tag

  length-scaled-le :
      half_even (to_double n * 100) k < 100000 → length (scaled n k (a ∷ b ∷ [])) ≤ 10
  length-scaled-le h =
      omega (arith, length-scaled, length-two_places-le (half_even (to_double n * 100) k) h)

-- The width of a scaled number, from a bound on its hundredths.
scaled_fits :
    (n k a b : ℕ) → n < 2 ^ 60 → (n + 257) * 100 < 99999 * k → length (scaled n k (a ∷ b ∷ [])) ≤ 10
scaled_fits n k a b h fits =
    let (floor, ceiling) = half_even_bounds (to_double n * 100) k in
    let (below, _) = to_double_near n h in
    let less : to_double n * 100 / k < 99999 = (div-lt_iff_lt-mul (omega arith)).1 (omega arith) in
    length-scaled-le n k a b (omega arith)

-- Up to 999 PiB the text has at most ten characters.
pub format_bytes-le_ten : (n : ℕ) → n < 999 * 2 ^ 50 → length (format_bytes n) ≤ 10
unfolding format_bytes
format_bytes-le_ten n h = elim (Bool-cases (reaches n (2 ^ 50))) [
  | inl e ↦ rw e (scaled_fits n (2 ^ 50) b'P' b'i' (omega arith) (omega arith))
  | inr e₁ ↦ rw e₁ (elim (Bool-cases (reaches n (2 ^ 40))) [
    | inl e ↦ rw e (scaled_fits n (2 ^ 40) b'T' b'i' (omega arith) (ground arith))
    | inr e₂ ↦ rw e₂ (elim (Bool-cases (reaches n (2 ^ 30))) [
      | inl e ↦ rw e (scaled_fits n (2 ^ 30) b'G' b'i' (omega arith) (ground arith))
      | inr e₃ ↦ rw e₃ (elim (Bool-cases (reaches n (2 ^ 20))) [
        | inl e ↦ rw e (scaled_fits n (2 ^ 20) b'M' b'i' (omega arith) (ground arith))
        | inr e₄ ↦ rw e₄ (elim (Bool-cases (reaches n (2 ^ 10))) [
          | inl e ↦ rw e (scaled_fits n (2 ^ 10) b'k' b'i' (omega arith) (ground arith))
          | inr e₅ ↦ rw e₅ (
              omega (
                arith,
                length-append (decimal n) (codes " B"),
                length-decimal-le n 2 (ground arith),
              ))
        ])
      ])
    ])
  ])
]

-- From 1001 PiB up to 2 ^ 60 it has eleven characters.
pub format_bytes-eleven : (n : ℕ) → 1001 * 2 ^ 50 ≤ n → n < 2 ^ 60 → length (format_bytes n) ≡ 11
unfolding format_bytes
format_bytes-eleven n low high =
    let (below, above) = to_double_near n high in
    let (floor, ceiling) = half_even_bounds (to_double n * 100) (2 ^ 50) in
    let c = half_even (to_double n * 100) (2 ^ 50) in
    let pi : reaches n (2 ^ 50) ≡ true = ground arith in
    rw pi (
      omega (
        arith,
        length-scaled n (2 ^ 50) b'P' b'i',
        length-two_places_seven c (omega arith) (omega arith),
      ))
