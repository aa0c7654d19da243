-- ===== src/Executors/Retry.antt =====
-- `_simple_retry` of labfunctions/executors/nbtask_base.py: a function that changes a state is called
-- until it gives `True`. The loop tests for three tries, whatever `max_retries` is.
use labfunctions.Prelude.{
  ℕ, zero, suc, ◌≡◌, refl, ◌<◌, Bool, true, false, not, ◌&&◌, ltb, Option, none, some, arith,
  Bool-cases, inl, inr, if◌then◌else◌,
}

module _ {S : Type 0} (func : S → Bool × S) where
  -- `none` when the loop has not ended after `fuel` rounds; beside the status, the tries.
  unfoldable pub retry_loop : ℕ → Bool → ℕ → S → Option (Bool × ℕ × S)
  retry_loop zero status tries s = none
  retry_loop (suc fuel) status tries s =
      let rest = retry_loop fuel (func s).0 (suc tries) (func s).1 in
      if not status && ltb tries 3 then rest else some (status, tries, s)

  unfoldable pub simple_retry : ℕ → ℕ → S → Option (Bool × ℕ × S)
  unfolding retry_loop
  simple_retry max_retries wait_time s = retry_loop 4 false 0 s

  abbrev pub nth : ℕ → S → S
  nth zero s = s
  nth (suc n) s = nth n (func s).1

  -- The first calls all failed.
  abbrev pub all_failed : ℕ → S → Bool
  all_failed zero s = true
  all_failed (suc n) s = not (func s).0 && all_failed n (func s).1

  -- The loop ends after one to three calls, each made on what the one before left, and all but the
  -- last of them failed: it stops at the first success. It gives what the last call gave, and when
  -- that is `False` there were three. `max_retries` and `wait_time` change nothing.
  pub simple_retry_lem :
      (max_retries wait_time : ℕ) (s : S)
      → (b : Bool) × (n : ℕ) × (simple_retry max_retries wait_time s
          ≡ some (b, suc n, nth (suc n) s))
        × (n < 3)
        × (all_failed n s ≡ true)
        × ((func (nth n s)).0 ≡ b)
        × ((not b && ltb n 2) ≡ false)
  unfolding simple_retry retry_loop
  simple_retry_lem max_retries wait_time s = elim (Bool-cases (func s).0) [
    | inl e ↦ (true, 0, rw e, ground arith, refl, e, refl)
    | inr e ↦ elim (Bool-cases (func (func s).1).0) [
      | inl e' ↦ (true, 1, rw (e, e'), ground arith, rw e, e', refl)
      | inr e' ↦ elim (Bool-cases (func (func (func s).1).1).0) [
        | inl e'' ↦ (true, 2, rw (e, e', e''), ground arith, rw (e, e'), e'', refl)
        | inr e'' ↦ (false, 2, rw (e, e', e''), ground arith, rw (e, e'), e'', refl)
      ]
    ]
  ]
