-- ===== src/History/Outputs.antt =====
-- The notebooks that executions leave: `history_output_ok`, `history_output_fail` and
-- `history_get_output` of labfunctions/web/history_bp.py, and `history_nb_output` of
-- labfunctions/client/history_client.py. `path_of` is `str` of a `pathlib` path from its parts, and
-- the store is `AsyncKVLocal`.
pub mod Kept
mod Tests
use labfunctions.Prelude.{
  ℕ, ◌==◌, Bool, true, false, List, [], ◌∷◌, ◌++◌, Option, none, some, if◌then◌else◌,
}
use labfunctions.Text.{Text, codes}
use labfunctions.Text.Newlines.{universal}
use labfunctions.Effects.{Result, ok, err, Action}
use labfunctions.Stores.Chunks.{Bytes}
use labfunctions.Stores.Files.{FileSystem, Done}
use labfunctions.Stores.Local.{KvError, KvLocal, put, get_stream}
use labfunctions.Types.Core.{ExecutionResult}

-- `FileNotFoundError` of the notebook, the `TypeError` of a form field that is `None`, and
-- `UnicodeDecodeError`.
pub data OutputError : Type 0 where
  file_not_found type_error unicode_decode_error : OutputError

-- What an f-string shows of a value that may be `None`.
abbrev pub shown : Option Text → Text
shown none = codes "None"
shown (some t) = t

abbrev pub put_status : {S : Type 0} → Result KvError Done × S → ℕ × S
put_status (ok d, s) = (201, s)
put_status (err e, s) = (500, s)

module _ (path_of : List Text → Text) where
  -- `str(root / defaults.NB_OUTPUTS / kind / today / output_name)`
  unfoldable pub output_path : Text → Text → Text → Text → Text
  output_path kind projectid today output_name =
      path_of (projectid ∷ codes "outputs" ∷ kind ∷ today ∷ output_name ∷ [])

  module _ (fs : FileSystem) (parent : Text → Text) (kv : KvLocal) where
    unfoldable pub history_output_ok : Text → Text → Text → Bytes → fs.State → ℕ × fs.State
    unfolding output_path
    history_output_ok today projectid output_name file_body s =
        put_status
          (put fs parent kv (output_path (codes "ok") projectid today output_name) file_body s)

    unfoldable pub history_output_fail : Text → Text → Text → Bytes → fs.State → ℕ × fs.State
    unfolding output_path
    history_output_fail today projectid output_name file_body s =
        put_status
          (put fs parent kv (output_path (codes "errors") projectid today output_name) file_body s)

-- The pieces of the notebook at a path within the project.
unfoldable pub history_get_output :
    (fs : FileSystem)
    → (Text → Text)
    → KvLocal
    → Text
    → Option Text
    → fs.State
    → Result KvError (Option (List Bytes))
history_get_output fs parent kv projectid uri s =
    get_stream fs parent kv (projectid ++ b'/' ∷ shown uri) s

abbrev pub file_dir : {V : Type 0} → ExecutionResult V → Text
file_dir r = shown (if r.error then r.error_dir else r.output_dir) ++ b'/' ∷ shown r.output_name

-- The client's side: `open_file` is what the files of its machine hold, and the server's two
-- addresses take the project, the name of the output and the file. The file is open as a text:
-- `decode` reads it in the encoding of the machine, and `encode` is that of the HTTP client.
module _ {S : Type 0} (open_file : Text → Option Bytes) (decode : Bytes → Option Text)
    (encode : Text → Bytes) (output_ok output_fail : Text → Text → Bytes → S → ℕ × S) where
  abbrev pub sent : ℕ × S → Result OutputError Bool × S
  sent (status, s) = (ok (status == 201), s)

  abbrev pub sending : Bool → Text → Text → Bytes → S → Result OutputError Bool × S
  sending error projectid name b s =
      sent (if error then output_fail projectid name b s else output_ok projectid name b s)

  abbrev pub reading : Bool → Text → Text → Option Text → S → Result OutputError Bool × S
  reading error projectid name none s = (err unicode_decode_error, s)
  reading error projectid name (some t) s =
      sending error projectid name (encode (universal false t)) s

  abbrev pub posting : Bool → Text → Option Text → Option Bytes → S → Result OutputError Bool × S
  posting error projectid name none s = (err file_not_found, s)
  posting error projectid none (some body) s = (err type_error, s)
  posting error projectid (some name) (some body) s = reading error projectid name (decode body) s

  unfoldable pub history_nb_output : {V : Type 0} → ExecutionResult V → Action S OutputError Bool
  history_nb_output r s = posting r.error r.projectid r.output_name (open_file (file_dir r)) s
