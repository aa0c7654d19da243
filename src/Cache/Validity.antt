-- ===== src/Cache/Validity.antt =====
-- Which cached results `is_valid_date` takes for fresh.
use native.Mathlib.Nat.{add-sub_cancel_left, mod-eq_of_lt}
use labfunctions.Prelude.{ℕ, ◌+◌, ◌*◌, ◌-◌, ◌/◌, ◌%◌, ◌≤◌, ◌<◌, ◌≡◌, ◌↔◌, true, arith, leb}
use labfunctions.Cache.{day, timedelta_seconds, round_minutes, is_valid_date}

-- Within a day a result is fresh exactly when its age in minutes, rounded, is at most the limit.
pub is_valid_date-within :
    (dt age valid_for_min : ℕ)
    → age < day
    → (is_valid_date (dt + age) dt valid_for_min ≡ true)
      ↔ (round_minutes (age / 1000000) ≤ valid_for_min)
unfolding is_valid_date timedelta_seconds
is_valid_date-within dt age m h =
    let part : (dt + age - dt) % day ≡ age = rw (add-sub_cancel_left dt age) (mod-eq_of_lt h) in
    let back : leb dt (dt + age) ≡ true = ground arith in rw (back, part) (ground arith)

-- Whole days of age are not counted: a result is as fresh as it was any number of days before.
pub is_valid_date-days :
    (now dt days valid_for_min : ℕ)
    → dt ≤ now
    → is_valid_date (now + days * day) dt valid_for_min ≡ is_valid_date now dt valid_for_min
unfolding is_valid_date timedelta_seconds
is_valid_date-days now dt days m h =
    let part : (now + days * day - dt) % day ≡ (now - dt) % day = omega arith in
    let later : leb dt (now + days * day) ≡ true = ground arith in
    let before : leb dt now ≡ true = ground arith in rw (later, before, part)
