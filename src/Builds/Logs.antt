-- ===== src/Builds/Logs.antt =====
-- The log of a build against its outputs.
use labfunctions.Prelude.{
  ◌≡◌, refl, sym, ap, ◌∙◌, ◌||◌, ◌&&◌, not, Bool, true, false, List, [], ◌∷◌, ◌++◌, append_assoc,
  Option, none, some, map, arith, if◌then◌else◌,
}
use labfunctions.Text.{Text, codes, all, any}
use labfunctions.Text.Strip.{strip}
use labfunctions.Dict.{Dict, lookup, found}
use labfunctions.Effects.{ok}
use labfunctions.Stores.Chunks.{concat}
use labfunctions.Builds.{
  is_line_end, complete, unreadable, of_output, adding, streamed, build_loop, docker_low_build,
}

abbrev has : Text → Dict Text → Bool
has k body = found (lookup k body)

abbrev or_empty : Option Text → Text
or_empty none = []
or_empty (some t) = t

-- An output that is not JSON, or that is a detailed error and not a part of the stream.
abbrev pub is_bad : Option (Dict Text) → Bool
is_bad none = true
is_bad (some body) = not (has (codes "stream") body) && has (codes "errorDetail") body

-- A detailed error has its text.
abbrev pub is_answer : Option (Dict Text) → Bool
is_answer none = true
is_answer (some body) = not (is_bad (some body)) || has (codes "error") body

abbrev pub said : Option (Dict Text) → Text
said none = unreadable
said (some body) =
    if has (codes "stream") body
    then or_empty (lookup (codes "stream") body)
    else if has (codes "errorDetail") body
    then or_empty (lookup (codes "error") body)
    else []

of_texts :
    (s d e : Option Text)
    → (not (not (found s) && found d) || found e) ≡ true
    → streamed s d e
      ≡ ok (
        if found s then or_empty s else if found d then or_empty e else [],
        not (found s) && found d,
      )
of_texts (some s) d e h = refl
of_texts none none e h = refl
of_texts none (some d) (some e) h = refl
of_texts none (some d) none h = cc

of_output_lem : (o : Option (Dict Text)) → is_answer o ≡ true → of_output o ≡ ok (said o, is_bad o)
of_output_lem none h = refl
of_output_lem (some body) h =
    of_texts (lookup (codes "stream") body) (lookup (codes "errorDetail") body)
      (lookup (codes "error") body) h

flag : (b c r : Bool) → ((if b then true else c) || r) ≡ (c || (b || r))
flag b c r = ground arith

module _ (loads : Text → Option (Dict Text)) where
  abbrev pub read : Text → Option (Dict Text)
  read output = loads (strip is_line_end output)

  build_loop_lem :
      (outputs : List Text) (error : Bool) (logs : Text)
      → all (λ o. is_answer (read o)) outputs ≡ true
      → build_loop loads outputs error logs
        ≡ ok (record {
          logs = logs ++ (concat (map (λ o. said (read o)) outputs) ++ complete);
          error = error || any (λ o. is_bad (read o)) outputs;
        })
  unfolding build_loop concat
  build_loop_lem [] error logs h =
      ap (λ b. ok (record { logs = logs ++ complete; error = b })) (ground arith)
  build_loop_lem (o ∷ outputs) error logs h =
      let rest = concat (map (λ o. said (read o)) outputs) in
      ap (λ x. adding x (build_loop loads outputs) error logs)
        (of_output_lem (read o) (ground arith))
      ∙ build_loop_lem outputs (if is_bad (read o) then true else error) (logs ++ said (read o))
          (ground arith)
      ∙ ap
          (λ t. ok (record {
            logs = t;
            error = (if is_bad (read o) then true else error) || any (λ o. is_bad (read o)) outputs;
          }))
          (append_assoc logs (said (read o)) (rest ++ complete)
            ∙ ap (λ t. logs ++ t) (sym (append_assoc (said (read o)) rest complete)))
      ∙ ap (λ b. ok (record { logs = logs ++ ((said (read o) ++ rest) ++ complete); error = b }))
          (flag (is_bad (read o)) error (any (λ o. is_bad (read o)) outputs))

  -- Where each detailed error has its text, the loop over the outputs of a build ends with what the
  -- outputs say, one behind the other, and the line of the end, whatever the error; it is an error
  -- exactly when some output is not JSON or is a detailed error outside of the stream.
  pub docker_low_build_lem :
      (outputs : List Text)
      → all (λ o. is_answer (read o)) outputs ≡ true
      → docker_low_build loads outputs
        ≡ ok (record {
          logs = concat (map (λ o. said (read o)) outputs) ++ complete;
          error = any (λ o. is_bad (read o)) outputs;
        })
  unfolding docker_low_build
  docker_low_build_lem outputs h = build_loop_lem outputs false [] h
