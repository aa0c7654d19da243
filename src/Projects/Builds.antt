-- ===== src/Projects/Builds.antt =====
-- The request for a build: `project_build` of labfunctions/web/projects_bp.py with `enqueue_build` of
-- labfunctions/control/scheduler.py, and `projects_upload` and `projects_build` of
-- labfunctions/client/projects_client.py. The jobs of the queue of builds are a list, in the order in
-- which they were put there.
use labfunctions.Prelude.{
  ℕ, ◌==◌, ◌&&◌, not, List, [], ◌∷◌, ◌++◌, Option, none, some, if◌then◌else◌,
}
use labfunctions.Text.{Text, codes}
use labfunctions.Effects.{Result, ok, err}
use labfunctions.Stores.Chunks.{Bytes, binary_file_reader}
use labfunctions.Stores.Files.{Done, done}
use labfunctions.Types.Runtimes.{RuntimeSpec, BuildCtx}
use labfunctions.Runtimes.{create_build_ctx}

-- The settings PROJECTS_STORE_CLASS_SYNC, PROJECTS_STORE_BUCKET and DOCKER_REGISTRY, and the timeout
-- of builds.
pub record BuildSettings : Type 0 where
  pub projects_store_class_sync : Text
  pub projects_store_bucket : Text
  pub docker_registry : Option Text
  pub build_timeout : Text

pub record BuildJob (V : Type 0) : Type 0 where
  pub execid : Text
  pub timeout : Text
  pub params : BuildCtx V

-- `ProjectUploadError`, and the `FileNotFoundError` of the bundle.
pub data UploadError : Type 0 where
  project_upload_error file_not_found : UploadError

-- `ProjectBundleFile` of labfunctions/types/runtimes.py, as far as an upload needs it.
pub record ProjectBundleFile : Type 0 where
  pub filepath : Text
  pub version : Text
  pub runtime_name : Text

module _ {V : Type 0} (nfkd : Text → Text) (path_join : Text → Text → Text)
    (settings : BuildSettings) where
  -- `random` makes the id of the execution.
  unfoldable pub enqueue_build :
      Text → Text → RuntimeSpec V → Text → List (BuildJob V) → BuildCtx V × List (BuildJob V)
  enqueue_build random projectid runtime version jobs =
      let ctx =
        create_build_ctx nfkd path_join random projectid runtime version
          settings.projects_store_class_sync settings.projects_store_bucket
          settings.docker_registry in
      (
        ctx,
        jobs ++ record { execid = ctx.execid; timeout = settings.build_timeout; params = ctx } ∷ [],
      )

  abbrev pub accepted : BuildCtx V × List (BuildJob V) → (ℕ × Option Text) × List (BuildJob V)
  accepted (ctx, jobs) = ((202, some ctx.execid), jobs)

  -- The status and the id of the answer. `BuildCtx` takes no missing version.
  unfoldable pub project_build :
      Text
      → Text
      → RuntimeSpec V
      → Option Text
      → List (BuildJob V)
      → (ℕ × Option Text) × List (BuildJob V)
  unfolding enqueue_build
  project_build random projectid spec none jobs = ((500, none), jobs)
  project_build random projectid spec (some version) jobs =
      accepted (enqueue_build random projectid spec version jobs)

-- The client's side, over the two addresses of the server. The client writes the values of a query
-- into the address as they are, and `args` is what the server, behind the HTTP libraries, reads from
-- this query for a name: a `&`, `#`, `+` or `%` in a value is not read as itself.
abbrev pub build_query : Text → Text
build_query version = codes "version=" ++ version

abbrev pub upload_query : ProjectBundleFile → Text
upload_query zfile = codes "runtime=" ++ zfile.runtime_name ++ codes "&version=" ++ zfile.version

abbrev pub execid_of : {S : Type 0} → (ℕ × Option Text) × S → Option Text × S
execid_of ((status, execid), s) = (if status == 202 then execid else none, s)

unfoldable pub projects_build :
    {V S : Type 0}
    → (Text → Text → Option Text)
    → (RuntimeSpec V → Option Text → S → (ℕ × Option Text) × S)
    → RuntimeSpec V
    → Text
    → S
    → Option Text × S
projects_build args post spec version s =
    execid_of (post spec (args (build_query version) (codes "version")) s)

-- The pieces of a file, as the server reads them, and the end of the request.
abbrev pub request_stream : List Bytes → List (Option Bytes)
request_stream [] = none ∷ []
request_stream (c ∷ cs) = some c ∷ request_stream cs

abbrev pub uploading : {S : Type 0} → ℕ × S → Result UploadError Done × S
uploading (status, s) =
    (if not (status == 201) && not (status == 204) then err project_upload_error else ok done, s)

abbrev pub sending :
    {S : Type 0}
    → (List (Option Bytes) → S → ℕ × S)
    → Option (List Bytes)
    → S
    → Result UploadError Done × S
sending post none s = (err file_not_found, s)
sending post (some pieces) s = uploading (post (request_stream pieces) s)

abbrev pub pieces_of : Option Bytes → Option (List Bytes)
pieces_of none = none
pieces_of (some b) = binary_file_reader 1024 b

-- `post` has the parameters `runtime` and `version` of the address.
unfoldable pub projects_upload :
    {S : Type 0}
    → (Text → Text → Option Text)
    → (Text → Option Bytes)
    → (Option Text → Option Text → List (Option Bytes) → S → ℕ × S)
    → ProjectBundleFile
    → S
    → Result UploadError Done × S
projects_upload args open_file post zfile s =
    let query = upload_query zfile in
    sending (post (args query (codes "runtime")) (args query (codes "version")))
      (pieces_of (open_file zfile.filepath)) s
