-- ===== src/Utils/Filename/Safe.antt =====
-- What the result of `secure_filename` is made of.
use mathlib.Core.List.{reverse}
use labfunctions.Prelude.{ℕ, ◌≡◌, refl, Bool, true, false, [], ◌∷◌, arith}
use labfunctions.Text.{Text, all, select, has_char}
use labfunctions.Text.Strip.{starts_clear, strip-clear_left, strip-clear_right, all-strip}
use labfunctions.Utils.Filename.{is_safe, is_edge, clean, secure_filename}

all-select : (p : ℕ → Bool) (s : Text) → all p (select p s) ≡ true
unfolding select
all-select p [] = refl
all-select p (c ∷ s) = ground (arith, all-select p s)

-- A text of safe characters that begins and ends with neither a dot nor an underscore.
pub record IsSecure (s : Text) : Type 0 where
  pub safe : all is_safe s ≡ true
  pub left : starts_clear is_edge s ≡ true
  pub right : starts_clear is_edge (reverse s) ≡ true

pub clean-IsSecure : (s : Text) → IsSecure (clean s)
unfolding clean
clean-IsSecure s = record {
  safe = all-strip is_edge is_safe _ (all-select is_safe _);
  left = strip-clear_left is_edge _;
  right = strip-clear_right is_edge _;
}

no_slash : (s : Text) → all is_safe s ≡ true → has_char b'/' s ≡ false
unfolding has_char
no_slash [] h = refl
no_slash (c ∷ s) h = ground (arith, no_slash s)

-- For every file name, and however the normalisation behaves, the result has only letters, digits,
-- "_", "." and "-", so no "/", and begins and ends with neither "." nor "_".
pub secure_filename-IsSecure :
    (nfkd : Text → Text) (filename : Text)
    → IsSecure (secure_filename nfkd filename)
      × (has_char b'/' (secure_filename nfkd filename) ≡ false)
unfolding secure_filename
secure_filename-IsSecure nfkd filename =
    let secure = clean-IsSecure (select _ (nfkd filename)) in (secure, no_slash _ secure.safe)
