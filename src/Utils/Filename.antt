-- ===== src/Utils/Filename.antt =====
-- `secure_filename` and `normalize_name` of labfunctions/utils.py, on a POSIX system, where the
-- path separator is "/" and there is no other. `unicodedata.normalize("NFKD", ...)` is the
-- parameter `nfkd`.
pub mod Safe
pub mod Idempotent
use labfunctions.Prelude.{
  ℕ, ◌+◌, ◌==◌, Bool, true, false, ◌&&◌, ◌||◌, List, [], ◌∷◌, ◌++◌, map, leb, ltb, if◌then◌else◌,
}
use labfunctions.Text.{Text, select, is_space}
use labfunctions.Text.Strip.{strip}

abbrev pub is_ascii : ℕ → Bool
is_ascii c = ltb c 128

-- The characters of the pattern [A-Za-z0-9_.-].
abbrev pub is_safe : ℕ → Bool
is_safe c =
    leb b'A' c && leb c b'Z'
    || leb b'a' c && leb c b'z'
    || leb b'0' c && leb c b'9'
    || c == b'_'
    || c == b'.'
    || c == b'-'

abbrev pub is_edge : ℕ → Bool
is_edge c = c == b'.' || c == b'_'

abbrev pub unslash : ℕ → ℕ
unslash c = if c == b'/' then 32 else c

-- Puts a character in front of the words of the text behind it.
abbrev glue : ℕ → Text → List Text → List Text
glue c [] ws = (c ∷ []) ∷ ws
glue c (d ∷ s) [] = (c ∷ []) ∷ []
glue c (d ∷ s) (w ∷ ws) = if is_space d then (c ∷ []) ∷ w ∷ ws else (c ∷ w) ∷ ws

-- `filename.split()`, on ASCII text.
pub words : Text → List Text
words [] = []
words (c ∷ s) = let rest = words s in if is_space c then rest else glue c s rest

-- `"_".join(ws)`
pub join_words : List Text → Text
join_words [] = []
join_words (w ∷ []) = w
join_words (w ∷ v ∷ ws) = w ++ b'_' ∷ join_words (v ∷ ws)

-- What follows the normalisation and the encoding.
pub clean : Text → Text
unfolding words join_words
clean s = strip is_edge (select is_safe (join_words (words (map unslash s))))

unfoldable pub secure_filename : (Text → Text) → Text → Text
unfolding clean
secure_filename nfkd filename = clean (select is_ascii (nfkd filename))

-- `name.lower()` on ASCII letters.
abbrev lower : ℕ → ℕ
lower c = if leb b'A' c && leb c b'Z' then c + 32 else c

abbrev underscore : ℕ → ℕ
underscore c = if c == 32 then b'_' else c

-- Each assignment is kept; the last one reads `name` again.
unfoldable pub normalize_name : (Text → Text) → Text → Text
unfolding secure_filename
normalize_name nfkd name =
    let evaluate = map lower name in
    let evaluate = map underscore evaluate in let evaluate = secure_filename nfkd name in evaluate
