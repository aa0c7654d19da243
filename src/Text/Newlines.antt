-- ===== src/Text/Newlines.antt =====
-- The ends of lines as Python reads a file in text mode, and as the lines of an HTTP answer are read.
use labfunctions.Prelude.{
  ◌≡◌, refl, ap, ◌==◌, ◌&&◌, Bool, true, false, not, [], ◌∷◌, arith, if◌then◌else◌,
}
use labfunctions.Text.{Text, all, has_char}

-- `\r\n` and `\r` are read as `\n`.
unfoldable pub universal : Bool → Text → Text
universal after_cr [] = []
universal after_cr (c ∷ s) =
    let rest = universal (c == 13) s in
    if c == 13 then 10 ∷ rest else if c == 10 && after_cr then rest else c ∷ rest

and_false : (b : Bool) → (b && false) ≡ false
and_false true = refl
and_false false = refl

pub universal-id : (s : Text) → all (λ c. not (c == 13)) s ≡ true → universal false s ≡ s
unfolding universal
universal-id [] h = refl
universal-id (c ∷ s) h =
    let other : (c == 13) ≡ false = ground arith in
    rw other (rw (and_false (c == 10)) (ap (λ t. c ∷ t) (universal-id s (ground arith))))

all-has_char : (s : Text) → has_char 13 s ≡ false → all (λ c. not (c == 13)) s ≡ true
unfolding has_char
all-has_char [] h = refl
all-has_char (c ∷ s) h = ground (arith, all-has_char s)

-- A text without a carriage return stays as it is.
pub universal-clear : (s : Text) → has_char 13 s ≡ false → universal false s ≡ s
universal-clear s h = universal-id s (all-has_char s h)
