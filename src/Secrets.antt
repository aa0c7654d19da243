-- ===== src/Secrets.antt =====
-- labfunctions/secrets.py, and `write_secrets` of labfunctions/runtimes/bundler.py: the variables of
-- a project, encrypted with its private key into the file `.secrets`, and read back from it. The
-- library of the cipher (Fernet) is `encrypt`, `decrypt` and `is_key`: a token may differ at each
-- call, so `encrypt` has the number of the call; `utf8` is the encoding of a text. `files` is what
-- the files hold, by their path.
pub mod Lines
pub mod RoundTrip
mod Tests
use labfunctions.Prelude.{
  ℕ, suc, ◌==◌, ◌&&◌, Bool, true, false, not, List, [], ◌∷◌, ◌++◌, Option, none, some,
  if◌then◌else◌,
}
use labfunctions.Text.Newlines.{universal}
use labfunctions.Text.{Text, codes, select, teq}
use labfunctions.Text.Split.{split_once}
use labfunctions.Text.Strip.{strip}
use labfunctions.Dict.{Dict, insert}
use labfunctions.Effects.{Result, ok, err}

-- `IndexError` of a line without `=`, the `ValueError` of a bad key, `InvalidToken`, and the
-- `UnboundLocalError` of `load`.
pub data SecretsError : Type 0 where
  index_error value_error invalid_token unbound_local_error : SecretsError

-- A value is a `str`, or the `bytes` that a decryption gives.
pub data Value : Type 0 where
  str : Text → Value
  bytes : List ℕ → Value

abbrev pub onto_line : ℕ → List Text → List Text
onto_line c [] = (c ∷ []) ∷ []
onto_line c (w ∷ ws) = (c ∷ w) ∷ ws

-- `f.readlines()`: each line keeps its end.
unfoldable pub readlines : Text → List Text
readlines [] = []
readlines (c ∷ s) = let rest = readlines s in if c == 10 then (10 ∷ []) ∷ rest else onto_line c rest

abbrev pub is_newline : ℕ → Bool
is_newline c = c == 10

abbrev pub is_unquoted : ℕ → Bool
is_unquoted c = not (c == 34)

-- The second part is cleaned by `.replace('"', "").strip("\n")`.
abbrev pub var_of : Option (Text × Text) → Result SecretsError (Text × Text)
var_of none = err index_error
var_of (some (k, v)) = ok (k, strip is_newline (select is_unquoted v))

-- `line.split("=", maxsplit=1)`.
unfoldable pub _parse_var_line : Text → Result SecretsError (Text × Text)
_parse_var_line line = var_of (split_once 61 line)

abbrev pub stored :
    Result SecretsError (Text × Text)
    → (Dict Text → Result SecretsError (Dict Text))
    → Dict Text
    → Result SecretsError (Dict Text)
stored (err e) rest vars = err e
stored (ok (k, v)) rest vars = rest (insert k v vars)

unfoldable pub vars_loop : List Text → Dict Text → Result SecretsError (Dict Text)
vars_loop [] vars = ok vars
vars_loop (line ∷ lines) vars = stored (_parse_var_line line) (vars_loop lines) vars

-- A file that is not found has no variables.
unfoldable pub _open_vars_file : Option Text → Result SecretsError (Dict Text)
_open_vars_file none = ok []
_open_vars_file (some content) = vars_loop (readlines (universal false content)) []

abbrev pub in_dir : Text → Text → Text
in_dir base file = base ++ codes "/" ++ file

abbrev pub strs : Dict Text → Dict Value
strs [] = []
strs ((k, v) ∷ m) = (k, str v) ∷ strs m

abbrev pub plain : Result SecretsError (Dict Text) → Result SecretsError (Dict Value)
plain (err e) = err e
plain (ok vars) = ok (strs vars)

-- `os.getenv(name, default)`.
abbrev pub getenv : Option Text → Text → Text
getenv none default = default
getenv (some v) default = v

-- `if x:` of a text that may be missing.
abbrev pub given : Option Text → Option Text
given none = none
given (some []) = none
given (some (c ∷ s)) = some (c ∷ s)

abbrev pub at_base : Option Text → Text → Text
at_base none file = file
at_base (some base) file = in_dir base file

-- Without a key, `_nbvars` is bound only where there is a base path.
abbrev pub load_plain :
    Option Text → Option Text → (Text → Option Text) → Result SecretsError (Dict Value)
load_plain nbvars none files = err unbound_local_error
load_plain nbvars (some base) files =
    plain (_open_vars_file (files (in_dir base (getenv nbvars (codes "local.nbvars")))))

-- `newline.join(f"{key}={value}" for key, value in _vars.items())`
unfoldable pub encoded_vars : Dict Text → Text
encoded_vars [] = []
encoded_vars ((k, v) ∷ []) = k ++ 61 ∷ v
encoded_vars ((k, v) ∷ (j, w) ∷ vars) = (k ++ 61 ∷ v) ++ 10 ∷ encoded_vars ((j, w) ∷ vars)

abbrev pub written :
    Text
    → Result SecretsError (Dict Text)
    → (Text → Option Text)
    → Result SecretsError Text × (Text → Option Text)
written outfile (err e) files = (err e, files)
written outfile (ok vars) files =
    (ok outfile, λ path. if teq path outfile then some (encoded_vars vars) else files path)

unfoldable pub get_secrets_filepath : Text → Text
get_secrets_filepath working_area =
    in_dir (in_dir working_area (codes ".nb_tmp")) (codes ".secrets")

module _ (is_key : Text → Bool) (decrypt : Text → Text → Option (List ℕ)) where
  abbrev pub with_value :
      Text → Option (List ℕ) → Result SecretsError (Dict Value) → Result SecretsError (Dict Value)
  with_value k none rest = err invalid_token
  with_value k (some v) (err e) = err e
  with_value k (some v) (ok m) = ok ((k, bytes v) ∷ m)

  -- `{k: f.decrypt(v.encode("utf-8")) for k, v in _vars.items()}`
  unfoldable pub decrypted : Text → Dict Text → Result SecretsError (Dict Value)
  decrypted key [] = ok []
  decrypted key ((k, v) ∷ vars) = with_value k (decrypt key v) (decrypted key vars)

  abbrev pub opened : Text → Result SecretsError (Dict Text) → Result SecretsError (Dict Value)
  opened key (err e) = err e
  opened key (ok vars) = decrypted key vars

  abbrev pub load_with :
      Option Text
      → Option Text
      → Option Text
      → (Text → Option Text)
      → Result SecretsError (Dict Value)
  load_with none nbvars base files = load_plain nbvars base files
  load_with (some key) nbvars base files =
      if is_key key
      then opened key (_open_vars_file (files (at_base base (codes ".secrets"))))
      else err value_error

  -- The environment variables PRIVATE_KEY and LF_LABVARS, and `base_path`.
  unfoldable pub load :
      Option Text
      → Option Text
      → Option Text
      → (Text → Option Text)
      → Result SecretsError (Dict Value)
  load priv_key nbvars base_path files = load_with (given priv_key) nbvars (given base_path) files

module _ (utf8 : Text → List ℕ) (is_key : Text → Bool) (encrypt : ℕ → Text → List ℕ → Text) where
  -- `{k: f.encrypt(v.encode("utf-8")).decode("utf-8") for k, v in nbvars_dict.items()}`, where `n`
  -- calls went before.
  unfoldable pub encrypted : ℕ → Text → Dict Text → Dict Text
  encrypted n key [] = []
  encrypted n key ((k, v) ∷ vars) = (k, encrypt n key (utf8 v)) ∷ encrypted (suc n) key vars

  unfoldable pub encrypt_nbvars : Text → Dict Text → Result SecretsError (Dict Text)
  unfolding encrypted
  encrypt_nbvars private_key nbvars_dict =
      if is_key private_key then ok (encrypted 0 private_key nbvars_dict) else err value_error

  abbrev pub encrypt_opened :
      Text → Result SecretsError (Dict Text) → Result SecretsError (Dict Text)
  encrypt_opened private_key (err e) = err e
  encrypt_opened private_key (ok vars) = encrypt_nbvars private_key vars

  unfoldable pub encrypt_nbvars_file : Text → Option Text → Result SecretsError (Dict Text)
  encrypt_nbvars_file private_key vars_file = encrypt_opened private_key (_open_vars_file vars_file)

  -- `write_secrets` of the bundler: the path of the file, and the files after it.
  unfoldable pub write_secrets :
      Text
      → Text
      → Dict Text
      → (Text → Option Text)
      → Result SecretsError Text × (Text → Option Text)
  unfolding get_secrets_filepath encrypt_nbvars
  write_secrets working_area private_key nbvars_dict files =
      written (get_secrets_filepath working_area) (encrypt_nbvars private_key nbvars_dict) files
