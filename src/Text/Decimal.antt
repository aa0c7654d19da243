-- ===== src/Text/Decimal.antt =====
-- How many digits `str(n)` has.
use native.Mathlib.Nat.{pow-suc}
use labfunctions.Prelude.{ℕ, zero, suc, ◌+◌, ◌-◌, ◌/◌, ◌%◌, ◌^◌, ◌≤◌, ◌<◌, ◌≡◌, ◌∷◌, [], arith}
use labfunctions.Text.Defs.{Text, length, decimal, decimal_loop}

decimal_loop-le :
    (fuel n d : ℕ) (out : Text)
    → n < 10 ^ suc d
    → length (decimal_loop fuel n out) ≤ suc d + length out
unfolding decimal_loop
decimal_loop-le zero n d out h = omega arith
decimal_loop-le (suc fuel) n zero out h = ground arith
decimal_loop-le (suc fuel) n (suc d) out h =
    ground (arith, decimal_loop-le fuel (n / 10) d ((b'0' + n % 10) ∷ out), pow-suc 10 (suc d))

pub length-decimal-le : (n d : ℕ) → n < 10 ^ suc d → length (decimal n) ≤ suc d
unfolding decimal
length-decimal-le n d h = omega (arith, decimal_loop-le (n + 1) n d [] h)

four_digits :
    (fuel n : ℕ)
    → 1000 ≤ n
    → n < 10000
    → length (decimal_loop (suc (suc (suc (suc fuel)))) n []) ≡ 4
unfolding decimal_loop
four_digits fuel n h k = ground arith

pub length-decimal_four : (n : ℕ) → 1000 ≤ n → n < 10000 → length (decimal n) ≡ 4
unfolding decimal
length-decimal_four n h k =
    let e : n + 1 ≡ suc (suc (suc (suc (n - 3)))) = omega arith in rw e (four_digits (n - 3) n h k)
