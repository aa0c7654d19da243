-- ===== src/Utils/FormatBytes.antt =====
-- `format_bytes` of labfunctions/utils.py. Its floats are modelled exactly: `k * 0.9` for a power
-- of two `k` is `k * 8106479329266893 / 2 ^ 53`, the double next to 0.9 scaled; `n / k` is `n`
-- rounded to 53 bits, over `k`; and `:.2f` rounds that quotient to hundredths, a tie to the even
-- side. Python compares an integer with a float exactly. (`n / k` overflows from 2 ^ 1024 on.)
pub mod Width
use labfunctions.Prelude.{
  ℕ, zero, suc, ◌+◌, ◌-◌, ◌*◌, ◌/◌, ◌%◌, ◌^◌, ◌==◌, Bool, true, false, ◌&&◌, ◌||◌, List, [], ◌∷◌,
  ◌++◌, leb, ltb, if◌then◌else◌,
}
use labfunctions.Text.{Text, codes, decimal}

-- `n / k` to the nearest whole number, a tie to the even side; k is not 0.
unfoldable pub half_even : ℕ → ℕ → ℕ
half_even n k =
    let q = n / k in
    let twice = 2 * (n % k) in
    if ltb twice k then q else if ltb k twice then q + 1 else if q % 2 == 0 then q else q + 1

-- The weight of the last of 53 bits: the least u * 2 ^ i with n < u * 2 ^ i * 2 ^ 53, which `n`
-- rounds of fuel reach from u = 1.
unfoldable pub ulp : ℕ → ℕ → ℕ → ℕ
ulp zero u n = u
ulp (suc fuel) u n = let rest = ulp fuel (2 * u) n in if ltb n (u * 2 ^ 53) then u else rest

-- The double next to a whole number.
unfoldable pub to_double : ℕ → ℕ
to_double n = let u = ulp n 1 n in half_even n u * u

-- f"{q:.2f}" for a number of hundredths.
unfoldable pub two_places : ℕ → Text
two_places c = decimal (c / 100) ++ b'.' ∷ (b'0' + c / 10 % 10) ∷ (b'0' + c % 10) ∷ []

-- `n >= k * 0.9`
abbrev pub reaches : ℕ → ℕ → Bool
reaches n k = leb (k * 8106479329266893) (n * 2 ^ 53)

-- f"{n / k:.2f} {prefix}B"
unfoldable pub scaled : ℕ → ℕ → Text → Text
scaled n k prefix = two_places (half_even (to_double n * 100) k) ++ 32 ∷ (prefix ++ codes "B")

unfoldable pub format_bytes : ℕ → Text
format_bytes n =
    if reaches n (2 ^ 50)
    then scaled n (2 ^ 50) (codes "Pi")
    else if reaches n (2 ^ 40)
    then scaled n (2 ^ 40) (codes "Ti")
    else if reaches n (2 ^ 30)
    then scaled n (2 ^ 30) (codes "Gi")
    else if reaches n (2 ^ 20)
    then scaled n (2 ^ 20) (codes "Mi")
    else if reaches n (2 ^ 10)
    then scaled n (2 ^ 10) (codes "ki")
    else decimal n ++ codes " B"
