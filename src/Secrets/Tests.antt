-- ===== src/Secrets/Tests.antt =====
-- A run of the file of secrets. The cipher of the run shifts the letters.
use labfunctions.Prelude.{
  ℕ, ◌≡◌, refl, ap, ◌+◌, ◌-◌, Bool, true, List, [], ◌∷◌, Option, none, some, arith,
}
use labfunctions.Text.{Text, codes, teq, all, member}
use labfunctions.Dict.{Dict, keys}
use labfunctions.Effects.{ok, err}
use labfunctions.Secrets.{
  index_error, unbound_local_error, _open_vars_file, load, write_secrets, get_secrets_filepath,
}
use labfunctions.Secrets.Lines.{is_token_char, is_named}
use labfunctions.Secrets.RoundTrip.{as_bytes, load-write_secrets}

abbrev shifted : List ℕ → Text
shifted [] = []
shifted (c ∷ s) = (c + 100) ∷ shifted s

abbrev encrypt : ℕ → Text → List ℕ → Text
encrypt n key b = shifted b

abbrev unshifted : Text → List ℕ
unshifted [] = []
unshifted (c ∷ s) = (c - 100) ∷ unshifted s

abbrev decrypt : Text → Text → Option (List ℕ)
decrypt key t = some (unshifted t)

abbrev is_key : Text → Bool
is_key key = true

abbrev utf8 : Text → List ℕ
utf8 t = t

unshifted-shifted : (b : List ℕ) → unshifted (shifted b) ≡ b
unshifted-shifted [] = refl
unshifted-shifted (c ∷ b) = ground (arith, unshifted-shifted b)

shifted_chars : (b : List ℕ) → all is_token_char (shifted b) ≡ true
shifted_chars [] = refl
shifted_chars (c ∷ b) = ground (arith, shifted_chars b)

abbrev vars : Dict Text
vars = (codes "AGENT", codes "a \"b\"\n") ∷ (codes "TOKEN", codes "x=y") ∷ []

abbrev no_files : Text → Option Text
no_files p = none

-- The file of secrets, at every path.
abbrev moved : Text → Option Text
moved p =
    (write_secrets utf8 is_key encrypt (codes "/w") (codes "k") vars no_files).1
      (get_secrets_filepath (codes "/w"))

load-write_secrets_example :
    ((write_secrets utf8 is_key encrypt (codes "/w") (codes "k") vars no_files).0
      ≡ ok (get_secrets_filepath (codes "/w")))
    × (load is_key decrypt (some (codes "k")) none (some (codes "/p")) moved
        ≡ ok (
            as_bytes utf8 is_key encrypt decrypt
              (λ n key b good. ap some (unshifted-shifted b))
              (λ n key b. shifted_chars b)
              vars))
unfolding is_named member keys teq
load-write_secrets_example =
    load-write_secrets utf8 is_key encrypt decrypt (λ n key b good. ap some (unshifted-shifted b))
      (λ n key b. shifted_chars b) (codes "/w") 107 [] (codes "p") 47 none vars no_files moved refl
      refl refl

blank_line : _open_vars_file (some (codes "A=1\n\nB=2\n")) ≡ err index_error
unfolding _open_vars_file labfunctions.Text.Newlines.universal labfunctions.Secrets.readlines
    labfunctions.Secrets.vars_loop labfunctions.Secrets._parse_var_line
    labfunctions.Text.Split.split_once
blank_line = refl

no_key_no_path : load is_key decrypt none none none no_files ≡ err unbound_local_error
unfolding load
no_key_no_path = refl
