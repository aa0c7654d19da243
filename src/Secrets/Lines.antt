-- ===== src/Secrets/Lines.antt =====
-- The lines of a file of variables, as they are written and as they are read.
use labfunctions.Prelude.{
  ℕ, ◌≡◌, refl, sym, ap, ◌∙◌, ◌==◌, ◌&&◌, Bool, true, false, not, [], ◌∷◌, ◌++◌, append-nil,
  append_assoc, some, arith, inl, inr, ◌⊎◌,
}
use labfunctions.Text.{Text, select, teq, teq_comm, all, member, has_char}
use labfunctions.Text.Split.{split_once-append}
use labfunctions.Text.Strip.{strip, strip-clear, strip-append, all-append}
use labfunctions.Dict.{Dict, insert, keys}
use labfunctions.Effects.{ok}
use labfunctions.Text.Newlines.{universal-id}
use labfunctions.Secrets.{
  readlines, is_newline, is_unquoted, _parse_var_line, vars_loop, var_of, _open_vars_file,
  encoded_vars,
}

-- A character of a value, which is neither an end of a line nor a quote, and one of a name, which is
-- neither an end of a line nor `=`.
abbrev pub is_token_char : ℕ → Bool
is_token_char c = not (c == 10) && not (c == 13) && not (c == 34)

abbrev pub is_name_char : ℕ → Bool
is_name_char c = not (c == 10) && not (c == 13) && not (c == 61)

-- Each name is of such characters and stands once, and so are the values.
unfoldable pub is_named : {V : Type 0} → Dict V → Bool
is_named [] = true
is_named ((k, v) ∷ m) = all is_name_char k && not (member k (keys m)) && is_named m

unfoldable pub is_safe : Dict Text → Bool
is_safe [] = true
is_safe ((k, v) ∷ m) = all is_token_char v && is_safe m

all-widen :
    (p q : ℕ → Bool)
    → ((c : ℕ) → p c ≡ true → q c ≡ true)
    → (s : Text) → all p s ≡ true
    → all q s ≡ true
all-widen p q wide [] h = refl
all-widen p q wide (c ∷ s) h = ground (arith, wide c, all-widen p q wide s)

has_char-all : (c : ℕ) (s : Text) → all (λ d. not (d == c)) s ≡ true → has_char c s ≡ false
unfolding has_char
has_char-all c [] h = refl
has_char-all c (d ∷ s) h = ground (arith, has_char-all c s)

select-all : (p : ℕ → Bool) (s : Text) → all p s ≡ true → select p s ≡ s
unfolding select
select-all p [] h = refl
select-all p (c ∷ s) h = ground (arith, select-all p s)

readlines-append :
    (a b : Text)
    → all (λ c. not (c == 10)) a ≡ true
    → readlines (a ++ 10 ∷ b) ≡ (a ++ 10 ∷ []) ∷ readlines b
unfolding readlines
readlines-append [] b h = refl
readlines-append (c ∷ a) b h =
    let other : (c == 10) ≡ false = ground arith in rw (other, readlines-append a b (ground arith))

readlines-last :
    (c : ℕ) (a : Text) → all (λ d. not (d == 10)) (c ∷ a) ≡ true → readlines (c ∷ a) ≡ (c ∷ a) ∷ []
unfolding readlines
readlines-last c [] h = let other : (c == 10) ≡ false = ground arith in rw other
readlines-last c (d ∷ a) h =
    let other : (c == 10) ≡ false = ground arith in rw (other, readlines-last d a (ground arith))

readlines-line :
    (k v : Text)
    → all (λ c. not (c == 10)) (k ++ 61 ∷ v) ≡ true
    → readlines (k ++ 61 ∷ v) ≡ (k ++ 61 ∷ v) ∷ []
readlines-line [] v h = readlines-last 61 v h
readlines-line (c ∷ k) v h = readlines-last c (k ++ 61 ∷ v) h

-- A value with an end of the line behind it, or with nothing.
module _ (k v : Text) (named : all is_name_char k ≡ true) (token : all is_token_char v ≡ true) where
  name_end : has_char 61 k ≡ false
  name_end =
      has_char-all 61 k (all-widen is_name_char (λ c. not (c == 61)) (λ c h. ground arith) k named)

  unquoted : all is_unquoted v ≡ true
  unquoted = all-widen is_token_char is_unquoted (λ c h. ground arith) v token

  one_line : all (λ c. not (is_newline c)) v ≡ true
  one_line = all-widen is_token_char (λ c. not (is_newline c)) (λ c h. ground arith) v token

  _parse_var_line-inner : _parse_var_line (k ++ 61 ∷ v ++ 10 ∷ []) ≡ ok (k, v)
  unfolding _parse_var_line
  _parse_var_line-inner =
      ap _parse_var_line (append_assoc k (61 ∷ v) (10 ∷ []))
      ∙ ap var_of (split_once-append 61 k (v ++ 10 ∷ []) name_end)
      ∙ ap (λ t. ok (k, strip is_newline t))
          (select-all is_unquoted (v ++ 10 ∷ []) (all-append is_unquoted v (10 ∷ []) unquoted refl))
      ∙ ap (λ t. ok (k, t)) (strip-append is_newline v 10 one_line refl)

  _parse_var_line-last : _parse_var_line (k ++ 61 ∷ v) ≡ ok (k, v)
  unfolding _parse_var_line
  _parse_var_line-last =
      ap var_of (split_once-append 61 k v name_end)
      ∙ ap (λ t. ok (k, strip is_newline t)) (select-all is_unquoted v unquoted)
      ∙ ap (λ t. ok (k, t)) (strip-clear is_newline v one_line)

  -- The line has no end within it.
  line_inner : (d : ℕ) → (d ≡ 10) ⊎ (d ≡ 13) → all (λ c. not (c == d)) (k ++ 61 ∷ v) ≡ true
  line_inner d which =
      all-append (λ c. not (c == d)) k (61 ∷ v)
        (all-widen is_name_char (λ c. not (c == d)) (λ c h. ground arith) k named)
        (ground (arith, all-widen is_token_char (λ c. not (c == d)) (λ c h. ground arith) v token))

module _ {V : Type 0} where
  insert-new :
      (d : Dict V) (k : Text) (v : V) → member k (keys d) ≡ false → insert k v d ≡ d ++ (k, v) ∷ []
  unfolding insert keys member
  insert-new [] k v new = refl
  insert-new ((j, w) ∷ d) k v new =
      let apart : teq j k ≡ false = ground (arith, teq_comm j k) in
      rw apart (ap (λ x. (j, w) ∷ x) (insert-new d k v (ground arith)))

  keys_middle :
      (d m : Dict V) (j k : Text) (v : V)
      → member j (keys (d ++ (k, v) ∷ m)) ≡ false
      → teq j k ≡ false
  unfolding keys member
  keys_middle [] m j k v h = ground arith
  keys_middle ((i, w) ∷ d) m j k v h = keys_middle d m j k v (ground arith)

  -- A name behind others of a dictionary is not one of them.
  keys-new :
      (d m : Dict V) (k : Text) (v : V)
      → is_named (d ++ (k, v) ∷ m) ≡ true
      → (member k (keys d) ≡ false) × (all is_name_char k ≡ true)
  unfolding is_named keys member
  keys-new [] m k v h = (refl, ground arith)
  keys-new ((j, w) ∷ d) m k v h =
      ground (arith, keys-new d m k v, keys_middle d m j k v, teq_comm j k)

-- A file of variables reads as the variables that were written to it.
vars_loop-encoded_vars :
    (m d : Dict Text)
    → is_named (d ++ m) ≡ true
    → is_safe m ≡ true
    → vars_loop (readlines (encoded_vars m)) d ≡ ok (d ++ m)
unfolding vars_loop encoded_vars is_safe
vars_loop-encoded_vars [] d named safe = unfold readlines in ap ok (sym (append-nil d))
vars_loop-encoded_vars ((k, v) ∷ []) d named safe =
    let (new, name) = keys-new d [] k v named in
    let token : all is_token_char v ≡ true = ground arith in
    rw (readlines-line k v (line_inner k v name token 10 (inl refl)))
      (rw (_parse_var_line-last k v name token) (ap ok (insert-new d k v new)))
vars_loop-encoded_vars ((k, v) ∷ (j, w) ∷ m) d named safe =
    let (new, name) = keys-new d ((j, w) ∷ m) k v named in
    let token : all is_token_char v ≡ true = ground arith in
    rw
      (
        readlines-append (k ++ 61 ∷ v) (encoded_vars ((j, w) ∷ m))
            (line_inner k v name token 10 (inl refl)),
        _parse_var_line-inner k v name token,
      )
      (ap (vars_loop (readlines (encoded_vars ((j, w) ∷ m)))) (insert-new d k v new)
        ∙ vars_loop-encoded_vars ((j, w) ∷ m) (d ++ (k, v) ∷ [])
            (ap is_named (append_assoc d ((k, v) ∷ []) ((j, w) ∷ m)) ∙ named) (ground arith)
        ∙ ap ok (append_assoc d ((k, v) ∷ []) ((j, w) ∷ m)))

encoded_vars-readable :
    (m : Dict Text)
    → is_named m ≡ true
    → is_safe m ≡ true
    → all (λ c. not (c == 13)) (encoded_vars m) ≡ true
unfolding encoded_vars is_named is_safe
encoded_vars-readable [] named safe = refl
encoded_vars-readable ((k, v) ∷ []) named safe =
    line_inner k v (ground arith) (ground arith) 13 (inr refl)
encoded_vars-readable ((k, v) ∷ (j, w) ∷ m) named safe =
    all-append (λ c. not (c == 13)) (k ++ 61 ∷ v) (10 ∷ encoded_vars ((j, w) ∷ m))
      (line_inner k v (ground arith) (ground arith) 13 (inr refl))
      (encoded_vars-readable ((j, w) ∷ m) (ground arith) (ground arith))

pub _open_vars_file-encoded_vars :
    (m : Dict Text)
    → is_named m ≡ true
    → is_safe m ≡ true
    → _open_vars_file (some (encoded_vars m)) ≡ ok m
unfolding _open_vars_file
_open_vars_file-encoded_vars m named safe =
    rw (universal-id (encoded_vars m) (encoded_vars-readable m named safe))
      (vars_loop-encoded_vars m [] named safe)
