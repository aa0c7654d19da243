-- ===== src/Secrets/RoundTrip.antt =====
-- The file of secrets that is written is read back.
use labfunctions.Prelude.{ℕ, suc, ◌≡◌, refl, ap, ◌∙◌, Bool, true, List, [], ◌∷◌, Option, some}
use labfunctions.Text.{Text, codes, teq_refl, all}
use labfunctions.Dict.{Dict, keys}
use labfunctions.Effects.{ok}
use labfunctions.Secrets.{
  Value, bytes, _open_vars_file, encoded_vars, encrypted, decrypted, opened, load, write_secrets,
  encrypt_nbvars, get_secrets_filepath, in_dir,
}
use labfunctions.Secrets.Lines.{is_token_char, is_named, is_safe, _open_vars_file-encoded_vars}

-- The cipher: what was encrypted under a key decrypts under it, and a token has no end of a line
-- and no quote in it.
module _ (utf8 : Text → List ℕ) (is_key : Text → Bool) (encrypt : ℕ → Text → List ℕ → Text)
    (decrypt : Text → Text → Option (List ℕ))
    (decrypt-encrypt : (n : ℕ) (key : Text) (b : List ℕ)
      → is_key key ≡ true
      → decrypt key (encrypt n key b) ≡ some b)
    (encrypt_chars : (n : ℕ) (key : Text) (b : List ℕ)
      → all is_token_char (encrypt n key b) ≡ true) where
  abbrev pub as_bytes : Dict Text → Dict Value
  as_bytes [] = []
  as_bytes ((k, v) ∷ m) = (k, bytes (utf8 v)) ∷ as_bytes m

  keys-encrypted :
      (n : ℕ) (key : Text) (m : Dict Text) → keys (encrypted utf8 is_key encrypt n key m) ≡ keys m
  unfolding keys encrypted
  keys-encrypted n key [] = refl
  keys-encrypted n key ((k, v) ∷ m) = ap (λ x. k ∷ x) (keys-encrypted (suc n) key m)

  is_named-encrypted :
      (n : ℕ) (key : Text) (m : Dict Text)
      → is_named (encrypted utf8 is_key encrypt n key m) ≡ is_named m
  unfolding is_named encrypted
  is_named-encrypted n key [] = refl
  is_named-encrypted n key ((k, v) ∷ m) =
      rw (keys-encrypted (suc n) key m, is_named-encrypted (suc n) key m)

  is_safe-encrypted :
      (n : ℕ) (key : Text) (m : Dict Text) → is_safe (encrypted utf8 is_key encrypt n key m) ≡ true
  unfolding is_safe encrypted
  is_safe-encrypted n key [] = refl
  is_safe-encrypted n key ((k, v) ∷ m) =
      rw (encrypt_chars n key (utf8 v), is_safe-encrypted (suc n) key m)

  decrypted-encrypted :
      (n : ℕ) (key : Text) (m : Dict Text)
      → is_key key ≡ true
      → decrypted is_key decrypt key (encrypted utf8 is_key encrypt n key m) ≡ ok (as_bytes m)
  unfolding decrypted encrypted
  decrypted-encrypted n key [] good = refl
  decrypted-encrypted n key ((k, v) ∷ m) good =
      rw (decrypt-encrypt n key (utf8 v) good, decrypted-encrypted (suc n) key m good)

  -- The variables, whose names are apart and have no end of a line and no `=` in them, are written
  -- to the file of secrets under a key that is one: the write answers with the file's path, and
  -- `load` with this key, from a place that holds this file, gives each variable its value, as the
  -- bytes of the text.
  pub load-write_secrets :
      (area : Text) (c : ℕ) (key base : Text) (d : ℕ) (nbvars : Option Text) (vars : Dict Text)
      (files moved : Text → Option Text)
      → is_key (c ∷ key) ≡ true
      → is_named vars ≡ true
      → moved (in_dir (d ∷ base) (codes ".secrets"))
        ≡ (write_secrets utf8 is_key encrypt area (c ∷ key) vars files).1
            (get_secrets_filepath area)
      → ((write_secrets utf8 is_key encrypt area (c ∷ key) vars files).0
          ≡ ok (get_secrets_filepath area))
        × (load is_key decrypt (some (c ∷ key)) nbvars (some (d ∷ base)) moved ≡ ok (as_bytes vars))
  unfolding write_secrets encrypt_nbvars load
  load-write_secrets area c key base d nbvars vars files moved good named same =
      let tokens = encrypted utf8 is_key encrypt 0 (c ∷ key) vars in
      let content : moved (in_dir (d ∷ base) (codes ".secrets")) ≡ some (encoded_vars tokens) =
        same ∙ rw good (rw (teq_refl (get_secrets_filepath area))) in
      (
        rw good,
        rw good (
            ap (λ o. opened is_key decrypt (c ∷ key) (_open_vars_file o)) content
            ∙ ap (opened is_key decrypt (c ∷ key)) (
                _open_vars_file-encoded_vars tokens (is_named-encrypted 0 (c ∷ key) vars ∙ named)
                  (is_safe-encrypted 0 (c ∷ key) vars))
            ∙ decrypted-encrypted 0 (c ∷ key) vars good),
      )
