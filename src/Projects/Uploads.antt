-- ===== src/Projects/Uploads.antt =====
-- `project_upload` of labfunctions/web/projects_bp.py: the bundle of a project goes from the request
-- to the store of the server, here `AsyncKVLocal`.
use labfunctions.Prelude.{ℕ, Bool, true, false, List, Option, none, some}
use labfunctions.Text.{Text, codes}
use labfunctions.Effects.{Result, ok, err}
use labfunctions.Types.Projects.{ProjectData}
use labfunctions.Stores.Chunks.{Bytes, stream_reader}
use labfunctions.Stores.Files.{FileSystem}
use labfunctions.Stores.Local.{KvError, KvLocal, put_stream}
use labfunctions.Runtimes.{build_upload_uri}
use labfunctions.Projects.{Db, ProjectError, get_by_projectid}

-- What an f-string shows of a query parameter that is not given.
abbrev pub shown_param : Option Text → Text
shown_param none = codes "None"
shown_param (some v) = v

abbrev pub upload_status : {S : Type 0} → Result KvError Bool × S → ℕ × S
upload_status (ok true, s) = (201, s)
upload_status (ok false, s) = (204, s)
upload_status (err e, s) = (500, s)

module _ (nfkd : Text → Text) (path_join : Text → Text → Text) (fs : FileSystem)
    (parent : Text → Text) (kv : KvLocal) where
  -- A project that is not found raises an `AttributeError` at `pd.projectid`.
  abbrev pub uploaded :
      Result ProjectError (Option ProjectData)
      → Option Text
      → Option Text
      → List (Option Bytes)
      → fs.State
      → ℕ × fs.State
  uploaded (err e) runtime version reads s = (500, s)
  uploaded (ok none) runtime version reads s = (500, s)
  uploaded (ok (some pd)) runtime version reads s = upload_status (
      put_stream fs parent kv
        (build_upload_uri nfkd path_join pd.projectid (shown_param runtime) (shown_param version))
        (stream_reader reads) s)

  -- `reads` is what the stream of the request gives.
  unfoldable pub project_upload :
      Text → Option Text → Option Text → List (Option Bytes) → Db × fs.State → ℕ × fs.State
  project_upload projectid runtime version reads (db, s) =
      uploaded (get_by_projectid projectid none db) runtime version reads s
