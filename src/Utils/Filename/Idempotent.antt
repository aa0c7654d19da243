-- ===== src/Utils/Filename/Idempotent.antt =====
-- A secure file name is left as it is.
use mathlib.Core.Bool.{false≢true}
use labfunctions.Prelude.{
  ℕ, ◌≡◌, refl, Bool, true, false, not, [], ◌∷◌, map, arith, inl, inr, Bool-cases,
}
use labfunctions.Text.{Text, all, select, is_space}
use labfunctions.Text.Strip.{strip_id}
use labfunctions.Utils.Filename.{
  is_ascii, is_safe, is_edge, unslash, words, join_words, clean, secure_filename, normalize_name,
}
use labfunctions.Utils.Filename.Safe.{IsSecure, clean-IsSecure}

module _ (p : ℕ → Bool) where
  select_id : (s : Text) → all p s ≡ true → select p s ≡ s
  unfolding select
  select_id [] h = refl
  select_id (c ∷ s) h = ground (arith, select_id s)

all_ascii : (s : Text) → all is_safe s ≡ true → all is_ascii s ≡ true
all_ascii [] h = refl
all_ascii (c ∷ s) h = ground (arith, all_ascii s)

unslash_id : (s : Text) → all is_safe s ≡ true → map unslash s ≡ s
unslash_id [] h = refl
unslash_id (c ∷ s) h = ground (arith, unslash_id s)

safe-not_space : (c : ℕ) → is_safe c ≡ true → is_space c ≡ false
unfolding is_space
safe-not_space c h = ground arith

abbrev visible : ℕ → Bool
visible c = not (is_space c)

all-visible : (s : Text) → all is_safe s ≡ true → all visible s ≡ true
all-visible [] h = refl
all-visible (c ∷ s) h = elim (Bool-cases (is_safe c)) [
  | inl e ↦ rw (safe-not_space c e) (all-visible s (rw e at h))
  | inr e ↦ absurd (false≢true (rw e at h))
]

words-cons : (c : ℕ) (s : Text) → all visible (c ∷ s) ≡ true → words (c ∷ s) ≡ (c ∷ s) ∷ []
unfolding words
words-cons c [] h = ground arith
words-cons c (d ∷ s) h = ground (arith, words-cons d s)

join_words-words : (s : Text) → all is_safe s ≡ true → join_words (words s) ≡ s
unfolding join_words
join_words-words [] h = unfold words in refl
join_words-words (c ∷ s) h = rw (words-cons c s (all-visible (c ∷ s) h))

clean_id : (s : Text) → IsSecure s → clean s ≡ s
unfolding clean
clean_id s secure =
    rw (unslash_id s secure.safe, join_words-words s secure.safe, select_id is_safe s secure.safe)
      (strip_id is_edge s secure.left secure.right)

-- For a normalisation that leaves ASCII text as it is, as NFKD does, securing a name twice is
-- securing it once.
pub secure_filename_idem :
    (nfkd : Text → Text)
    → ((t : Text) → all is_ascii t ≡ true → nfkd t ≡ t)
    → (filename : Text)
    → secure_filename nfkd (secure_filename nfkd filename) ≡ secure_filename nfkd filename
unfolding secure_filename
secure_filename_idem nfkd keeps filename =
    let once = clean (select is_ascii (nfkd filename)) in
    let secure = clean-IsSecure (select is_ascii (nfkd filename)) in
    let ascii = all_ascii once secure.safe in
    rw (keeps once ascii, select_id is_ascii once ascii) (clean_id once secure)

-- A name that is secure already is its own normalised name: its capital letters stay, though
-- `normalize_name` calls `lower`.
pub normalize_name-secure :
    (nfkd : Text → Text)
    → ((t : Text) → all is_ascii t ≡ true → nfkd t ≡ t)
    → (name : Text) → IsSecure name
    → normalize_name nfkd name ≡ name
unfolding normalize_name
normalize_name-secure nfkd keeps name secure =
    let ascii = all_ascii name secure.safe in
    rw (keeps name ascii, select_id is_ascii name ascii) (clean_id name secure)
