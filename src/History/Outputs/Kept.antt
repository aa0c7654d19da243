-- ===== src/History/Outputs/Kept.antt =====
-- The notebook of an execution, from the machine that ran it to the one that asks for it.
use labfunctions.Prelude.{
  ◌≡◌, refl, sym, ap, ◌∙◌, ◌&&◌, Bool, true, false, not, List, [], ◌∷◌, ◌++◌, Option, some,
  if◌then◌else◌, arith,
}
use labfunctions.Text.{Text, codes, teq, teq_refl, has_char, is_empty, all}
use labfunctions.Text.Newlines.{universal-clear}
use labfunctions.Effects.{Result, ok, err}
use labfunctions.Stores.Chunks.{Bytes, binary_file_reader, concat}
use labfunctions.Stores.Chunks.Whole.{binary_file_reader-Covers}
use labfunctions.Stores.Files.{FileSystem, Done, done, read_result}
use labfunctions.Stores.Local.{
  KvError, KvLocal, uri, put, get, get_stream, pieces, raising, read_error,
}
use labfunctions.Stores.Local.Refine.{contents-put}
use labfunctions.Types.Core.{ExecutionResult}
use labfunctions.History.Outputs.{
  OutputError, put_status, output_path, history_output_ok, history_output_fail, history_get_output,
  posting, sending, reading, file_dir, history_nb_output,
}

-- A part of a path: not empty, without a slash, and not the name of the directory itself.
abbrev pub is_part : Text → Bool
is_part t = not (is_empty t) && not (has_char b'/' t) && not (teq t (codes "."))

abbrev pub joined : List Text → Text
joined [] = []
joined (p ∷ []) = p
joined (p ∷ q ∷ ps) = p ++ b'/' ∷ joined (q ∷ ps)

-- The names of the directories are parts.
all_parts :
    (error : Bool) (p today name : Text)
    → all is_part (p ∷ today ∷ name ∷ []) ≡ true
    → all is_part
        (p ∷ codes "outputs" ∷ (if error then codes "errors" else codes "ok") ∷ today ∷ name ∷ [])
      ≡ true
unfolding has_char teq
all_parts true p today name h = ground arith
all_parts false p today name h = ground arith

put_ok :
    {S : Type 0} (m : Result KvError Done × S)
    → (put_status m).0 ≡ 201
    → (m.0 ≡ ok done) × ((put_status m).1 ≡ m.1)
put_ok (ok done, s) h = (refl, refl)
put_ok (err e, s) h = absurd (omega (arith, h))

module _ (fs : FileSystem) (parent : Text → Text) (kv : KvLocal) where
  -- What the store gives in pieces.
  abbrev pub Gives : Bytes → Result KvError (Option (List Bytes)) → Type 0
  Gives body r = (chunks : List Bytes) × (r ≡ ok (some chunks)) × (concat chunks ≡ body)

  -- A value that is put is read in pieces that make it up.
  put-Gives :
      (key : Text) (body : Bytes) (s : fs.State)
      → (put_status (put fs parent kv key body s)).0 ≡ 201
      → Gives body (get_stream fs parent kv key (put_status (put fs parent kv key body s)).1)
  unfolding get_stream get
  put-Gives key body s h =
      let (good, same) = put_ok (put fs parent kv key body s) h in
      let s' = (put fs parent kv key body s).1 in
      let path = uri kv key in
      let there : fs.contents s' (fs.resolve path) ≡ some body =
        contents-put fs parent kv key body s (fs.resolve path) good
        ∙ rw (teq_refl (fs.resolve path)) in
      let (chunks, read, whole, _) = binary_file_reader-Covers 1024 body (omega arith) in
      (
        chunks,
        ap (λ t. get_stream fs parent kv key t) same
            ∙ ap
                (λ r.
                  pieces fs parent kv (binary_file_reader 1024)
                    (raising (read_error fs parent kv key) r))
                (fs.read_lem s' path ∙ ap (read_result (fs.no_file path)) there)
            ∙ ap ok read,
        whole,
      )

  module _ (path_of : List Text → Text)
      (path_of_lem : (ps : List Text) → all is_part ps ≡ true → path_of ps ≡ joined ps)
      (open_file : Text → Option Bytes) (decode : Bytes → Option Text) (encode : Text → Bytes)
      (today : Text) where
    abbrev pub kind_of : Bool → Text
    kind_of error = if error then codes "errors" else codes "ok"

    -- The path within a project under which a notebook is asked for.
    abbrev pub asked : Bool → Text → Text
    asked error name = joined (codes "outputs" ∷ kind_of error ∷ today ∷ name ∷ [])

    put-asked :
        (error : Bool) (p name : Text) (body : Bytes) (s : fs.State)
        → all is_part (p ∷ today ∷ name ∷ []) ≡ true
        → (put_status
            (put fs parent kv (output_path path_of (kind_of error) p today name) body s)).0
          ≡ 201
        → Gives body (
            history_get_output fs parent kv p
              (some (asked error name))
              (put_status
                (put fs parent kv (output_path path_of (kind_of error) p today name) body s)).1)
    unfolding output_path history_get_output
    put-asked error p name body s parts h =
        let key = path_of (p ∷ codes "outputs" ∷ kind_of error ∷ today ∷ name ∷ []) in
        let (chunks, read, whole) = put-Gives key body s h in
        let same =
          path_of_lem (p ∷ codes "outputs" ∷ kind_of error ∷ today ∷ name ∷ [])
            (all_parts error p today name parts) in
        (
          chunks,
          ap (λ k. get_stream fs parent kv k (put_status (put fs parent kv key body s)).1)
                (sym same)
              ∙ read,
          whole,
        )

    abbrev post_it :
        Bool → Text → Option Text → Option Bytes → fs.State → Result OutputError Bool × fs.State
    post_it =
        posting open_file decode encode (history_output_ok path_of fs parent kv today)
          (history_output_fail path_of fs parent kv today)

    abbrev send_it : Bool → Text → Text → Bytes → fs.State → Result OutputError Bool × fs.State
    send_it =
        sending open_file decode encode (history_output_ok path_of fs parent kv today)
          (history_output_fail path_of fs parent kv today)

    abbrev read_it :
        Bool → Text → Text → Option Text → fs.State → Result OutputError Bool × fs.State
    read_it =
        reading open_file decode encode (history_output_ok path_of fs parent kv today)
          (history_output_fail path_of fs parent kv today)

    posted :
        (error : Bool) (p name : Text) (body : Bytes) (s : fs.State)
        → all is_part (p ∷ today ∷ name ∷ []) ≡ true
        → (send_it error p name body s).0 ≡ ok true
        → Gives body (
            history_get_output fs parent kv p
              (some (asked error name))
              (send_it error p name body s).1)
    unfolding history_output_ok history_output_fail
    posted true p name body s parts h = put-asked true p name body s parts (ground arith)
    posted false p name body s parts h = put-asked false p name body s parts (ground arith)

    -- A client sends the notebook of an execution, which is under the directory of outputs, or under
    -- that of errors when the execution failed, and is told that it is kept: then the server gives,
    -- for the path `outputs`, the kind, the day and the name of the notebook within the project, the
    -- bytes of this notebook in pieces. The ids and the day are parts of a path; the client reads the
    -- notebook as a text, which has no carriage return and whose encoding is the notebook again.
    pub history_get_output-history_nb_output :
        {V : Type 0} (r : ExecutionResult V) (name t : Text) (body : Bytes) (s : fs.State)
        → all is_part (r.projectid ∷ today ∷ name ∷ []) ≡ true
        → r.output_name ≡ some name
        → open_file (file_dir r) ≡ some body
        → decode body ≡ some t
        → has_char 13 t ≡ false
        → encode t ≡ body
        → (history_nb_output open_file decode encode
            (history_output_ok path_of fs parent kv today)
            (history_output_fail path_of fs parent kv today)
            r
            s).0
          ≡ ok true
        → Gives body (
            history_get_output fs parent kv r.projectid
              (some (asked r.error name))
              (history_nb_output open_file decode encode
                (history_output_ok path_of fs parent kv today)
                (history_output_fail path_of fs parent kv today)
                r
                s).1)
    unfolding history_nb_output
    history_get_output-history_nb_output r name t body s parts named there decoded clear encoded
          kept =
        let e =
          ap (λ n. post_it r.error r.projectid n (open_file (file_dir r)) s) named
          ∙ ap (λ o. post_it r.error r.projectid (some name) o s) there
          ∙ ap (λ o. read_it r.error r.projectid name o s) decoded
          ∙ ap (λ b. send_it r.error r.projectid name b s)
              (ap encode (universal-clear t clear) ∙ encoded) in
        let (chunks, read, whole) =
          posted r.error r.projectid name body s parts (sym (ap (λ m. m.0) e) ∙ kept) in
        (
          chunks,
          ap (λ m. history_get_output fs parent kv r.projectid (some (asked r.error name)) m.1) e
              ∙ read,
          whole,
        )
