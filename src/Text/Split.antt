-- ===== src/Text/Split.antt =====
-- `s.split(c)`, `s.split(c, maxsplit=1)` and `s.rsplit(c, maxsplit=1)` for one character `c`.
-- `none` stands for a split that gives one part, where the program unpacks or indexes two.
use mathlib.Core.List.{reverse, reverse-append, reverse-reverse, reverse-cons}
use labfunctions.Prelude.{
  ℕ, ◌≡◌, refl, sym, ap, ◌∙◌, false, ◌||◌, List, [], ◌∷◌, ◌++◌, append_assoc, Option, none, some,
  arith, ◌==◌, if◌then◌else◌,
}
use labfunctions.Text.Defs.{Text, has_char}

abbrev with_first : ℕ → Option (Text × Text) → Option (Text × Text)
with_first d none = none
with_first d (some (a, b)) = some (d ∷ a, b)

unfoldable pub split_once : ℕ → Text → Option (Text × Text)
split_once c [] = none
split_once c (d ∷ s) = if d == c then some ([], s) else with_first d (split_once c s)

abbrev push : ℕ → List Text → List Text
push d [] = (d ∷ []) ∷ []
push d (w ∷ ws) = (d ∷ w) ∷ ws

unfoldable pub split_all : ℕ → Text → List Text
split_all c [] = [] ∷ []
split_all c (d ∷ s) = let rest = split_all c s in if d == c then [] ∷ rest else push d rest

abbrev pub mirrored : Option (Text × Text) → Option (Text × Text)
mirrored none = none
mirrored (some (a, b)) = some (reverse b, reverse a)

unfoldable pub rsplit_once : ℕ → Text → Option (Text × Text)
unfolding split_once
rsplit_once c s = mirrored (split_once c (reverse s))

pub has_char-append : (c : ℕ) (s t : Text) → has_char c (s ++ t) ≡ (has_char c s || has_char c t)
unfolding has_char
has_char-append c [] t = refl
has_char-append c (d ∷ s) t = ground (arith, has_char-append c s t)

pub has_char-reverse : (c : ℕ) (s : Text) → has_char c (reverse s) ≡ has_char c s
unfolding has_char
has_char-reverse c [] = refl
has_char-reverse c (d ∷ s) =
    rw (reverse-cons, has_char-append) (ground (arith, has_char-reverse c s))

pub split_once-none : (c : ℕ) (s : Text) → has_char c s ≡ false → split_once c s ≡ none
unfolding split_once has_char
split_once-none c [] h = refl
split_once-none c (d ∷ s) h = ground (arith, split_once-none c s)

-- The first separator splits.
pub split_once-append :
    (c : ℕ) (a b : Text) → has_char c a ≡ false → split_once c (a ++ c ∷ b) ≡ some (a, b)
unfolding split_once has_char
split_once-append c [] b h = ground arith
split_once-append c (d ∷ a) b h = ground (arith, split_once-append c a b)

-- The last separator splits.
pub rsplit_once-append :
    (c : ℕ) (a b : Text) → has_char c b ≡ false → rsplit_once c (a ++ c ∷ b) ≡ some (a, b)
unfolding rsplit_once
rsplit_once-append c a b h =
    rw
      (
        reverse-append,
        reverse-cons,
        append_assoc,
        split_once-append c (reverse b) (reverse a) (has_char-reverse c b ∙ h),
      )
      (simp reverse-reverse)

pub rsplit_once-none : (c : ℕ) (s : Text) → has_char c s ≡ false → rsplit_once c s ≡ none
unfolding rsplit_once
rsplit_once-none c s h = rw (split_once-none c (reverse s) (has_char-reverse c s ∙ h))

pub split_all-single : (c : ℕ) (s : Text) → has_char c s ≡ false → split_all c s ≡ s ∷ []
unfolding split_all has_char
split_all-single c [] h = refl
split_all-single c (d ∷ s) h = ground (arith, split_all-single c s)

-- The parts of a text that ends in the separator and a last line.
pub split_all-append :
    (c : ℕ) (a b : Text) → has_char c a ≡ false → split_all c (a ++ c ∷ b) ≡ a ∷ split_all c b
unfolding split_all has_char
split_all-append c [] b h = ground arith
split_all-append c (d ∷ a) b h = ground (arith, split_all-append c a b)

-- A text with a first separator, or with a last one, shows its two parts.
module _ (c : ℕ) (a a' b b' : Text) (same : a ++ c ∷ b ≡ a' ++ c ∷ b') where
  pub first-injective : has_char c a ≡ false → has_char c a' ≡ false → (a ≡ a') × (b ≡ b')
  first-injective h h' =
      let q : ◌≡◌ {A = Option (Text × Text)} (some (a, b)) (some (a', b')) =
        sym (split_once-append c a b h) ∙ ap (split_once c) same ∙ split_once-append c a' b' h' in
      (cc, cc)

  pub last-injective : has_char c b ≡ false → has_char c b' ≡ false → (a ≡ a') × (b ≡ b')
  last-injective h h' =
      let q : ◌≡◌ {A = Option (Text × Text)} (some (a, b)) (some (a', b')) =
        sym (rsplit_once-append c a b h)
        ∙ ap (rsplit_once c) same
        ∙ rsplit_once-append c a' b' h' in
      (cc, cc)
