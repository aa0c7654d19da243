-- ===== src/Builds.antt =====
-- The build of a runtime: `docker_low_build`, `DockerCommand.build` and `DockerCommand.push_image`
-- of labfunctions/commands.py, and labfunctions/runtimes/builder.py. Docker, whose state is `D`, is
-- `api_build`, which gives the outputs of a build, `images_tag` and `images_push`; the bundle is
-- unzipped by `unzip`, and an output is read by `loads`, which gives the texts of its JSON object,
-- or nothing for what is not JSON.
pub mod Logs
pub mod Registered
pub mod Uploaded
pub mod Bundled
mod Tests
use labfunctions.Prelude.{
  ℕ, ◌==◌, ◌||◌, Bool, true, false, List, [], ◌∷◌, ◌++◌, Option, none, some, if◌then◌else◌,
}
use labfunctions.Text.{Text, codes, is_empty}
use labfunctions.Text.Strip.{strip}
use labfunctions.Dict.{Dict, lookup}
use labfunctions.Effects.{Result, ok, err, Action, ◌>>=◌, ◌>>◌, pure, raise}
use labfunctions.Stores.Chunks.{Bytes, concat}
use labfunctions.Stores.Files.{Done, done}
use labfunctions.Types.Runtimes.{RuntimeReq, BuildCtx}

pub record DockerBuildLowLog : Type 0 where
  pub logs : Text
  pub error : Bool

pub record DockerPushLog : Type 0 where
  pub logs : Text
  pub error : Bool

pub record DockerBuildLog : Type 0 where
  pub build_log : DockerBuildLowLog
  pub push_log : Option DockerPushLog
  pub error : Bool

-- The `KeyError` of an `errorDetail` without an `error`, an exception of Docker that is not caught,
-- that of the store or of the archive, and `RuntimeCreationError`.
pub data BuildError : Type 0 where
  key_error docker_error store_error bad_zip runtime_creation_error : BuildError

abbrev pub is_line_end : ℕ → Bool
is_line_end c = c == 13 || c == 10

abbrev pub complete : Text
complete = codes "Docker image build complete.\n"

-- The braces stand in the log as they are: the text is not an f-string.
abbrev pub unreadable : Text
unreadable = codes "Error parsing output from docker image build:{output}\n"

-- What one output adds to the log, and whether it is an error.
abbrev pub failing : Option Text → Result BuildError (Text × Bool)
failing none = err key_error
failing (some e) = ok (e, true)

abbrev pub detailed : Option Text → Option Text → Result BuildError (Text × Bool)
detailed none error = ok ([], false)
detailed (some detail) error = failing error

abbrev pub streamed : Option Text → Option Text → Option Text → Result BuildError (Text × Bool)
streamed (some stream) detail error = ok (stream, false)
streamed none detail error = detailed detail error

abbrev pub of_output : Option (Dict Text) → Result BuildError (Text × Bool)
of_output none = ok (unreadable, true)
of_output (some body) =
    streamed (lookup (codes "stream") body) (lookup (codes "errorDetail") body)
      (lookup (codes "error") body)

abbrev pub adding :
    Result BuildError (Text × Bool)
    → (Bool → Text → Result BuildError DockerBuildLowLog)
    → Bool
    → Text
    → Result BuildError DockerBuildLowLog
adding (err e) rest error log_messages = err e
adding (ok (text, failed)) rest error log_messages =
    rest (if failed then true else error) (log_messages ++ text)

module _ (loads : Text → Option (Dict Text)) where
  -- The loop until `StopIteration`.
  unfoldable pub build_loop : List Text → Bool → Text → Result BuildError DockerBuildLowLog
  build_loop [] error log_messages = ok (record { logs = log_messages ++ complete; error = error })
  build_loop (output ∷ outputs) error log_messages =
      adding (of_output (loads (strip is_line_end output))) (build_loop outputs) error log_messages

  unfoldable pub docker_low_build : List Text → Result BuildError DockerBuildLowLog
  unfolding build_loop
  docker_low_build generator = build_loop generator false []

abbrev pub push_log_of : Result Text Text → DockerPushLog
push_log_of (ok logs) = record { logs = logs; error = false }
push_log_of (err e) = record { logs = e; error = true }

abbrev pub push_failed : Option DockerPushLog → Bool
push_failed none = false
push_failed (some log) = log.error

abbrev pub build_log_of : DockerBuildLowLog → Option DockerPushLog → DockerBuildLog
build_log_of low push = record {
  build_log = low;
  push_log = push;
  error = low.error || push_failed push;
}

-- The chunks of the store, one behind the other.
abbrev pub file_of : Result BuildError (List Bytes) → Result BuildError Bytes
file_of (ok chunks) = ok (concat chunks)
file_of (err e) = err e

unfoldable pub get_runtime_file :
    (Text → Result BuildError (List Bytes)) → Text → Result BuildError Bytes
get_runtime_file get_stream download_key_zip = file_of (get_stream download_key_zip)

abbrev pub unzipped :
    {Tree : Type 0}
    → (Bytes → Result BuildError Tree)
    → Result BuildError Bytes
    → Result BuildError Tree
unzipped unzip (ok zip) = unzip zip
unzipped unzip (err e) = err e

-- `if ctx.registry`, an empty one counting as none.
abbrev pub docker_tag : Option Text → Text → Text × Bool
docker_tag none name = (name, false)
docker_tag (some []) name = (name, false)
docker_tag (some (c ∷ registry)) name = (c ∷ registry ++ b'/' ∷ name, true)

unfoldable pub request_of : {V : Type 0} → BuildCtx V → RuntimeReq V
request_of ctx = record {
  runtime_name = ctx.spec.name;
  docker_name = ctx.docker_name;
  spec = ctx.spec;
  project_id = ctx.projectid;
  version = ctx.version;
  registry = ctx.registry;
}

-- `if x:` of a text that may be missing.
abbrev pub is_set : Option Text → Bool
is_set none = false
is_set (some []) = false
is_set (some (c ∷ s)) = true

-- `ProjectsClient.runtime_create`, from the status of the answer.
unfoldable pub runtime_create :
    {V S : Type 0} → (RuntimeReq V → S → ℕ × S) → RuntimeReq V → Action S BuildError Done
runtime_create post req s =
    let (status, s') = post req s in
    (if status == 201 || status == 200 then ok done else err runtime_creation_error, s')

module _ {Tree D : Type 0} (loads : Text → Option (Dict Text))
    (api_build : Tree → Text → Text → D → List Text × D)
    (images_tag : Text → Text → D → Result BuildError Done × D)
    (images_push : Text → D → Result Text Text × D) where
  unfoldable pub push_image : Text → D → DockerPushLog × D
  push_image tag d = let (r, d') = images_push tag d in (push_log_of r, d')

  -- `docker_low_build` with the outputs of Docker's API.
  abbrev pub low_build : Tree → Text → Text → Action D BuildError DockerBuildLowLog
  low_build path dockerfile tag d =
      let (outputs, d') = api_build path dockerfile tag d in (docker_low_build loads outputs, d')

  -- `if not build_log.error: self.docker.images.get(tag).tag(tag, tag=version)`
  abbrev pub tagged : Text → Text → DockerBuildLowLog → Action D BuildError Done
  tagged tag version low d = if low.error then (ok done, d) else images_tag tag version d

  abbrev pub pushed : Bool → Text → Text → DockerBuildLowLog → Action D BuildError DockerBuildLog
  pushed false tag version low d = (ok (build_log_of low none), d)
  pushed true tag version low d =
      let (log, d') = push_image (tag ++ b':' ∷ version) d in (ok (build_log_of low (some log)), d')

  unfoldable pub build : Tree → Text → Text → Text → Bool → Action D BuildError DockerBuildLog
  unfolding docker_low_build push_image
  build path dockerfile tag version push = do
    low ← low_build path dockerfile tag
    tagged tag version low
    pushed push tag version low

  module _ {V S : Type 0} (get_stream : Text → Result BuildError (List Bytes))
      (unzip : Bytes → Result BuildError Tree) (post : RuntimeReq V → S → ℕ × S) where
    abbrev pub built : BuildCtx V → Result BuildError Tree → Action D BuildError DockerBuildLog
    built ctx (err e) d = (err e, d)
    built ctx (ok src) d =
        let (tag, push) = docker_tag ctx.registry ctx.docker_name in
        build src ctx.dockerfile tag ctx.version push d

    -- `BuildTask.run`; the directory `src` of the archive is built.
    unfoldable pub run : BuildCtx V → Action D BuildError DockerBuildLog
    unfolding get_runtime_file build
    run ctx d = built ctx (unzipped unzip (get_runtime_file get_stream ctx.download_zip)) d

    -- `BuildTask.register`
    unfoldable pub register : BuildCtx V → Action S BuildError Done
    unfolding request_of runtime_create
    register ctx s = runtime_create post (request_of ctx) s

    abbrev pub answered :
        DockerBuildLog → D → Result BuildError Done × S → Result BuildError DockerBuildLog × (D × S)
    answered rsp d (ok _, s) = (ok rsp, (d, s))
    answered rsp d (err e, s) = (err e, (d, s))

    abbrev pub registering :
        Bool
        → BuildCtx V
        → S
        → Result BuildError DockerBuildLog × D
        → Result BuildError DockerBuildLog × (D × S)
    registering local ctx s (err e, d) = (err e, (d, s))
    registering true ctx s (ok rsp, d) = (ok rsp, (d, s))
    registering false ctx s (ok rsp, d) = answered rsp d (register ctx s)

    -- `lf_run_local` is the variable LF_RUN_LOCAL.
    unfoldable pub builder_exec :
        Option Text → BuildCtx V → Action (D × S) BuildError DockerBuildLog
    unfolding run register
    builder_exec lf_run_local ctx (d, s) = registering (is_set lf_run_local) ctx s (run ctx d)
