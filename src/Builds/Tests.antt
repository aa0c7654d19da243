-- ===== src/Builds/Tests.antt =====
-- Runs of builds.
use labfunctions.Prelude.{
  ℕ, suc, ◌≡◌, refl, ◌++◌, Bool, true, false, List, [], ◌∷◌, Option, none, some, map, if◌then◌else◌,
}
use labfunctions.Text.{Text, codes, teq, any, all}
use labfunctions.Text.Split.{split_once, split_all}
use labfunctions.Dict.{Dict, lookup}
use labfunctions.Effects.{Result, ok, err}
use labfunctions.Samples.{spec}
use labfunctions.Stores.Chunks.{Bytes, concat, stream_reader}
use labfunctions.Stores.Files.{Done, done}
use labfunctions.Stores.Memory.{memory, parent, local}
use labfunctions.Stores.Local.{get_stream_lines, put_stream}
use labfunctions.Types.Runtimes.{BuildCtx}
use labfunctions.Projects.{Db, User, ProjectModel}
use labfunctions.Projects.Uploads.{project_upload}
use labfunctions.Builds.{
  BuildError, complete, docker_low_build, get_runtime_file, builder_exec, run,
}
use labfunctions.Builds.Logs.{is_bad, said, read, docker_low_build_lem}
use labfunctions.Builds.Registered.{Table, post, Leaves, builder_exec-Leaves}
use labfunctions.Builds.Uploaded.{streamed}
use labfunctions.Builds.Bundled.{post_upload, post_build, projects_build-projects_upload}
use labfunctions.Projects.Builds.{
  BuildSettings, BuildJob, ProjectBundleFile, projects_upload, projects_build,
}

-- An output that starts with an `e` is a detailed error, one with an `s` is of the stream, and
-- anything else is not JSON.
abbrev body_of : Bool → Bool → Text → Option (Dict Text)
body_of true s t = some ((codes "errorDetail", []) ∷ (codes "error", t) ∷ [])
body_of false true t = some ((codes "stream", t) ∷ [])
body_of false false t = none

abbrev loads : Text → Option (Dict Text)
loads [] = none
loads (c ∷ t) = body_of (teq (c ∷ []) (codes "e")) (teq (c ∷ []) (codes "s")) t

abbrev outputs : List Text
outputs = codes "sStep 1\n" ∷ codes "efailed\r\n" ∷ codes "?" ∷ []

docker_low_build_lem_example :
    docker_low_build loads outputs
    ≡ ok (record {
      logs = concat (map (λ o. said (read loads o)) outputs) ++ complete;
      error = any (λ o. is_bad (read loads o)) outputs;
    })
unfolding teq lookup labfunctions.Text.Strip.strip
docker_low_build_lem_example = docker_low_build_lem loads outputs refl

abbrev join : Text → Text → Text
join a b = a ++ b'/' ∷ b

abbrev same : Text → Text
same t = t

abbrev ctx : BuildCtx Text
ctx = record {
  projectid = codes "p1";
  spec = spec;
  docker_name = codes "labfunctions/p1-a";
  version = codes "2";
  dockerfile = codes "Dockerfile.a";
  zip_name = codes "a.2.zip";
  download_zip = codes "p1/uploads/a.2.zip";
  execid = codes "bld1";
  project_store_class = codes "KVLocal";
  project_store_bucket = codes "b";
  registry = some (codes "reg");
}

abbrev known : Text → Bool
known p = true

abbrev iso : ℕ → Text
iso n = n ∷ []

abbrev api_build : Bytes → Text → Text → ℕ → List Text × ℕ
api_build tree dockerfile tag n = (outputs, suc n)

abbrev images_tag : Text → Text → ℕ → Result BuildError Done × ℕ
images_tag tag version n = (ok done, suc n)

abbrev images_push : Text → ℕ → Result Text Text × ℕ
images_push tag n = (err (codes "denied"), suc n)

abbrev stored : Text → Result BuildError (List Bytes)
stored key = ok ((1 ∷ []) ∷ (2 ∷ []) ∷ [])

abbrev unzip : Bytes → Result BuildError Bytes
unzip b = ok b

abbrev nothing : Table Text
nothing = (1, [])

builder_exec-Leaves_example :
    Leaves iso known 3 loads api_build images_tag images_push stored unzip ctx nothing (
      builder_exec loads api_build images_tag images_push stored unzip
        (post iso known 3)
        none
        ctx
        (0, nothing))
    × ((builder_exec loads api_build images_tag images_push stored unzip
          (post iso known 3)
          none
          ctx
          (0, nothing)).0
        ≡ (run loads api_build images_tag images_push stored unzip (post iso known 3) ctx 0).0)
builder_exec-Leaves_example =
    builder_exec-Leaves iso known 3 loads api_build images_tag images_push stored unzip ctx 0
      nothing refl

abbrev ana : User
ana = record { id = 1; username = codes "ana"; scopes = codes "user:r"; is_agent = false }

abbrev project : ProjectModel
project = record {
  projectid = codes "p1";
  name = codes "Lab";
  private_key = codes "k";
  description = none;
  repository = none;
  owner_id = some 1;
}

abbrev db : Db
db = record { projects = project ∷ []; users = ana ∷ []; members = [] }

abbrev settings : BuildSettings
settings = record {
  projects_store_class_sync = codes "KVLocal";
  projects_store_bucket = codes "b";
  docker_registry = none;
  build_timeout = codes "1h";
}

abbrev zfile : ProjectBundleFile
zfile = record { filepath = codes "/tmp/a.zip"; version = codes "2"; runtime_name = spec.name }

abbrev open_file : Text → Option Bytes
open_file path = some (80 ∷ 75 ∷ 10 ∷ 4 ∷ [])

-- A query is read at its `&` and `=`; no escapes stand in it.
abbrev value_in : Text → Option (Text × Text) → Option Text → Option Text
value_in name none rest = rest
value_in name (some (k, v)) rest = if teq k name then some v else rest

abbrev arg_of : Text → List Text → Option Text
arg_of name [] = none
arg_of name (f ∷ fields) = value_in name (split_once b'=' f) (arg_of name fields)

abbrev args : Text → Text → Option Text
args query name = arg_of name (split_all b'&' query)

abbrev no_jobs : List (BuildJob Text)
no_jobs = []

projects_build-projects_upload_example :
    (job : BuildJob Text) × (projects_build args
        (post_build same join memory parent local settings (codes "r") (codes "p1") db)
        spec
        zfile.version
        no_jobs
      ≡ (some job.execid, no_jobs ++ job ∷ []))
    × (get_runtime_file
          (λ k. streamed (
            get_stream_lines memory parent local k
              (projects_upload args open_file
                (post_upload same join memory parent local (codes "p1") db)
                zfile
                []).1))
          job.params.download_zip
        ≡ ok (80 ∷ 75 ∷ 10 ∷ 4 ∷ []))
unfolding split_all split_once projects_upload project_upload put_stream
    labfunctions.Projects.get_by_projectid labfunctions.Projects.model2projectdata
    labfunctions.Query.first teq stream_reader labfunctions.Stores.Chunks.binary_file_reader
    labfunctions.Stores.Chunks.take labfunctions.Stores.Chunks.drop
projects_build-projects_upload_example =
    projects_build-projects_upload same join memory parent local settings (codes "r") (codes "p1")
      db args open_file (80 ∷ 75 ∷ 10 ∷ 4 ∷ []) zfile spec [] no_jobs refl refl refl refl refl refl
