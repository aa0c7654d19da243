-- ===== src/Text/Strip.antt =====
-- `s.strip()` and `s.strip(chars)`: what passes a test is dropped from both ends.
use mathlib.Core.List.{reverse, reverse-append, reverse-reverse, reverse-cons}
use labfunctions.Prelude.{
  ℕ, ◌≡◌, refl, ◌∙◌, Bool, true, false, not, [], ◌∷◌, ◌++◌, arith, if◌then◌else◌, inl, inr,
  Bool-cases, sym, ap,
}
use labfunctions.Text.Defs.{Text, all, is_empty}

pub all-append :
    (q : ℕ → Bool) (s t : Text) → all q s ≡ true → all q t ≡ true → all q (s ++ t) ≡ true
all-append q [] t h k = k
all-append q (c ∷ s) t h k = ground (arith, all-append q s t)

pub all-reverse : (q : ℕ → Bool) (s : Text) → all q s ≡ true → all q (reverse s) ≡ true
all-reverse q [] h = refl
all-reverse q (c ∷ s) h =
    rw reverse-cons
      (all-append q (reverse s) (c ∷ []) (all-reverse q s (ground arith)) (ground arith))

module _ (p : ℕ → Bool) where
  drop_while : Text → Text
  drop_while [] = []
  drop_while (c ∷ s) = if p c then drop_while s else c ∷ s

  unfoldable pub strip : Text → Text
  unfolding drop_while
  strip s = reverse (drop_while (reverse (drop_while s)))

  -- The first character, if there is one, fails the test.
  abbrev pub starts_clear : Text → Bool
  starts_clear [] = true
  starts_clear (c ∷ s) = not (p c)

  drop_while-clear : (s : Text) → starts_clear (drop_while s) ≡ true
  unfolding drop_while
  drop_while-clear [] = refl
  drop_while-clear (c ∷ s) = ground (arith, drop_while-clear s)

  drop_while_id : (s : Text) → starts_clear s ≡ true → drop_while s ≡ s
  unfolding drop_while
  drop_while_id [] h = refl
  drop_while_id (c ∷ s) h = ground arith

  pub strip_id : (s : Text) → starts_clear s ≡ true → starts_clear (reverse s) ≡ true → strip s ≡ s
  unfolding strip
  strip_id s h k = rw (drop_while_id s h, drop_while_id (reverse s) k, reverse-reverse)

  -- What is dropped at the right end is a suffix, so the left end stays.
  drop_while-suffix : (s : Text) → (d : Text) × (s ≡ d ++ drop_while s)
  unfolding drop_while
  drop_while-suffix [] = ([], refl)
  drop_while-suffix (c ∷ s) = elim (Bool-cases (p c)) [
    | inl e ↦ let (d, q) = drop_while-suffix s in (c ∷ d, rw e (ap (λ t. c ∷ t) q))
    | inr e ↦ ([], rw e)
  ]

  clear-prefix : (a b : Text) → starts_clear (a ++ b) ≡ true → starts_clear a ≡ true
  clear-prefix [] b h = refl
  clear-prefix (c ∷ a) b h = h

  pub strip-clear_right : (s : Text) → starts_clear (reverse (strip s)) ≡ true
  unfolding strip
  strip-clear_right s = rw reverse-reverse (drop_while-clear (reverse (drop_while s)))

  pub strip-clear_left : (s : Text) → starts_clear (strip s) ≡ true
  unfolding strip
  strip-clear_left s =
      let t = drop_while s in
      let (d, q) = drop_while-suffix (reverse t) in
      let r : t ≡ reverse (drop_while (reverse t)) ++ reverse d =
        sym (reverse-reverse t) ∙ ap reverse q ∙ reverse-append d (drop_while (reverse t)) in
      clear-prefix (reverse (drop_while (reverse t))) (reverse d) (rw (← r) (drop_while-clear s))

  all-drop_while : (q : ℕ → Bool) (s : Text) → all q s ≡ true → all q (drop_while s) ≡ true
  unfolding drop_while
  all-drop_while q [] h = refl
  all-drop_while q (c ∷ s) h = ground (arith, all-drop_while q s)

  pub all-strip : (q : ℕ → Bool) (s : Text) → all q s ≡ true → all q (strip s) ≡ true
  unfolding strip
  all-strip q s h = all-reverse q _ (all-drop_while q _ (all-reverse q _ (all-drop_while q s h)))

  -- A dropped character in front makes no difference.
  pub strip-cons : (c : ℕ) (s : Text) → p c ≡ true → strip (c ∷ s) ≡ strip s
  unfolding strip
  strip-cons c s h = rw h

  starts_clear-all : (s : Text) → all (λ c. not (p c)) s ≡ true → starts_clear s ≡ true
  starts_clear-all [] h = refl
  starts_clear-all (c ∷ s) h = ground arith

  -- What is kept of a text that has nothing to drop, with a last character or without.
  pub strip-clear : (s : Text) → all (λ c. not (p c)) s ≡ true → strip s ≡ s
  strip-clear s h =
      strip_id s (starts_clear-all s h) (starts_clear-all (reverse s) (all-reverse _ s h))

  clear-append :
      (s : Text) (c : ℕ)
      → all (λ d. not (p d)) s ≡ true
      → p c ≡ true
      → reverse (drop_while (s ++ c ∷ [])) ≡ (if is_empty s then [] else c ∷ reverse s)
  unfolding drop_while
  clear-append [] c h k = rw k
  clear-append (d ∷ s) c h k =
      let keeps : p d ≡ false = ground arith in rw keeps (reverse-append (d ∷ s) (c ∷ []))

  pub strip-append :
      (s : Text) (c : ℕ) → all (λ d. not (p d)) s ≡ true → p c ≡ true → strip (s ++ c ∷ []) ≡ s
  unfolding strip drop_while
  strip-append [] c h k = rw k
  strip-append (d ∷ s) c h k =
      rw (clear-append (d ∷ s) c h k, k)
        (ap reverse (drop_while_id (reverse (d ∷ s)) (starts_clear-all _ (all-reverse _ (d ∷ s) h)))
          ∙ reverse-reverse (d ∷ s))
