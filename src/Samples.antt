-- ===== src/Samples.antt =====
-- Encodings of texts and lists in one text, for the runs: they stand where the program takes JSON.
use labfunctions.Types.Runtimes.{RuntimeSpec}
use labfunctions.Prelude.{ℕ, zero, suc, ◌≡◌, refl, List, [], ◌∷◌, Option, none, some, false}
use labfunctions.Text.{Text, length, codes}

-- A quote of a text that shows where it ends: a 0 in front of each character and a 1 at the end.
unfoldable pub quote : Text → Text → Text
quote [] rest = 1 ∷ rest
quote (c ∷ s) rest = 0 ∷ c ∷ quote s rest

unfoldable pub unquote : Text → Option (Text × Text)
unquote [] = none
unquote (zero ∷ []) = none
unquote (zero ∷ c ∷ s) = elim (unquote s) [ none ↦ none | some (t, rest) ↦ some (c ∷ t, rest) ]
unquote (suc _ ∷ rest) = some ([], rest)

pub unquote-quote : (s rest : Text) → unquote (quote s rest) ≡ some (s, rest)
unfolding quote unquote
unquote-quote [] rest = refl
unquote-quote (c ∷ s) rest = rw (unquote-quote s rest)

module _ {A B : Type 0} where
  abbrev pub then_read : Option (A × Text) → (A → Text → Option B) → Option B
  then_read none f = none
  then_read (some (a, rest)) f = f a rest

quote_items : List Text → Text → Text
quote_items [] rest = rest
quote_items (t ∷ ts) rest = quote t (quote_items ts rest)

abbrev with_item : Text → Option (List Text × Text) → Option (List Text × Text)
with_item t none = none
with_item t (some (ts, rest)) = some (t ∷ ts, rest)

unquote_items : ℕ → Text → Option (List Text × Text)
unquote_items zero s = some ([], s)
unquote_items (suc n) s = then_read (unquote s) (λ t rest. with_item t (unquote_items n rest))

unquote_items-quote_items :
    (ts : List Text) (rest : Text)
    → unquote_items (length ts) (quote_items ts rest) ≡ some (ts, rest)
unfolding quote_items unquote_items
unquote_items-quote_items [] rest = refl
unquote_items-quote_items (t ∷ ts) rest =
    rw (unquote-quote t (quote_items ts rest)) (rw (unquote_items-quote_items ts rest))

-- The number of texts stands in front.
pub quote_all : List Text → Text → Text
quote_all ts rest = length ts ∷ quote_items ts rest

pub unquote_all : Text → Option (List Text × Text)
unquote_all [] = none
unquote_all (n ∷ s) = unquote_items n s

pub unquote_all-quote_all :
    (ts : List Text) (rest : Text) → unquote_all (quote_all ts rest) ≡ some (ts, rest)
unfolding quote_all unquote_all
unquote_all-quote_all ts rest = unquote_items-quote_items ts rest

-- A runtime, whose name has a slash.
abbrev pub spec : RuntimeSpec Text
spec = record {
  name = codes "a/b";
  container = record {
    image = codes "python";
    maintainer = codes "me";
    build_packages = none;
    final_packages = none;
    user = record { uid = 1000; gid = 997 };
    base_template = codes "t";
    requirements = codes "r";
    gpu = none;
    extra = none;
  };
  description = none;
  gpu_support = false;
  version = none;
  registry = none;
}
