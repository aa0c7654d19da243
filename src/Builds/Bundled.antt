-- ===== src/Builds/Bundled.antt =====
-- A bundle from the client's disk to the build that the client asks for.
use labfunctions.Prelude.{
  ℕ, ◌≡◌, refl, sym, ap, ◌∙◌, Bool, true, false, List, [], ◌∷◌, ◌++◌, Option, none, some, arith,
}
use labfunctions.Text.{Text, codes}
use labfunctions.Effects.{Result, ok, err}
use labfunctions.Effects.Sequence.{then_Splits}
use labfunctions.Stores.Chunks.{Bytes, stream_reader, concat}
use labfunctions.Stores.Chunks.Whole.{binary_file_reader-Covers}
use labfunctions.Stores.Files.{FileSystem, done}
use labfunctions.Stores.Local.{
  KvError, KvLocal, uri, opened, write_loop, put_stream, get_stream_lines, calling, write_error,
}
use labfunctions.Types.Projects.{ProjectData}
use labfunctions.Types.Runtimes.{RuntimeSpec}
use labfunctions.Projects.{Db, ProjectError, get_by_projectid}
use labfunctions.Projects.Uploads.{upload_status, uploaded, project_upload}
use labfunctions.Projects.Builds.{
  BuildSettings, BuildJob, ProjectBundleFile, uploading, sending, pieces_of, request_stream,
  projects_upload, projects_build, build_query, upload_query, execid_of, project_build,
  enqueue_build,
}
use labfunctions.Builds.{get_runtime_file}
use labfunctions.Builds.Uploaded.{streamed, project_upload-get_runtime_file}

-- The server reads the pieces that the client sends.
stream_reader-request_stream : (cs : List Bytes) → stream_reader (request_stream cs) ≡ cs
unfolding stream_reader
stream_reader-request_stream [] = refl
stream_reader-request_stream (c ∷ cs) = ap (λ r. c ∷ r) (stream_reader-request_stream cs)

module _ (fs : FileSystem) (parent : Text → Text) (kv : KvLocal) where
  -- A stream that is written without an exception is answered with `True`.
  write_loop-true :
      (key : Text) (chunks : List Bytes) (s : fs.State) (r : Bool)
      → (write_loop fs parent kv key chunks s).0 ≡ ok r
      → r ≡ true
  unfolding write_loop
  write_loop-true key [] s r h = cc
  write_loop-true key (chunk ∷ chunks) s r h =
      let (d, h1, h2, e) =
        then_Splits
          (calling fs parent kv (write_error fs parent kv key) (λ s. fs.write s (uri kv key) chunk))
          (write_loop fs parent kv key chunks) s r h in
      write_loop-true key chunks (fs.write s (uri kv key) chunk).1 r h2

  put_stream-true :
      (key : Text) (chunks : List Bytes) (s : fs.State) (r : Bool)
      → (put_stream fs parent kv key chunks s).0 ≡ ok r
      → r ≡ true
  unfolding put_stream
  put_stream-true key chunks s r h =
      let (d, h1, h2, e) =
        then_Splits (opened fs parent kv key) (write_loop fs parent kv key chunks) s r h in
      write_loop-true key chunks (opened fs parent kv key s).1 r h2

-- So an upload that the client takes for good was answered by 201.
upload_status_201 :
    {S : Type 0} (m : Result KvError Bool × S)
    → ((r : Bool) → m.0 ≡ ok r → r ≡ true)
    → (uploading (upload_status m)).0 ≡ ok done
    → (upload_status m).0 ≡ 201
upload_status_201 (ok true, s) only h = refl
upload_status_201 (ok false, s) only h = absurd (false-ne (only false refl))
  where
    false-ne : false ≡ true → ⊥
    false-ne e = cc
upload_status_201 (err e, s) only h = cc

module _ (nfkd : Text → Text) (path_join : Text → Text → Text) (fs : FileSystem)
    (parent : Text → Text) (kv : KvLocal) where
  uploaded_201 :
      (r : Result ProjectError (Option ProjectData)) (runtime version : Option Text)
      (reads : List (Option Bytes)) (s : fs.State)
      → (uploading (uploaded nfkd path_join fs parent kv r runtime version reads s)).0 ≡ ok done
      → (uploaded nfkd path_join fs parent kv r runtime version reads s).0 ≡ 201
  uploaded_201 (err e) runtime version reads s h = cc
  uploaded_201 (ok none) runtime version reads s h = cc
  uploaded_201 (ok (some pd)) runtime version reads s h =
      upload_status_201 (put_stream fs parent kv _ (stream_reader reads) s)
        (put_stream-true fs parent kv _ (stream_reader reads) s) h

  abbrev pub post_upload :
      Text → Db → Option Text → Option Text → List (Option Bytes) → fs.State → ℕ × fs.State
  post_upload p db runtime version reads s =
      project_upload nfkd path_join fs parent kv p runtime version reads (db, s)

  module _ {V : Type 0} (settings : BuildSettings) (random p : Text) (db : Db) where
    -- The two addresses of the server: this one, and that of uploads.
    abbrev pub post_build :
        RuntimeSpec V → Option Text → List (BuildJob V) → (ℕ × Option Text) × List (BuildJob V)
    post_build spec version jobs = project_build nfkd path_join settings random p spec version jobs

    -- A bundle for a runtime is uploaded by the client without an exception, and then the build of
    -- this runtime in the bundle's version is asked for: the client gets the id of one job, which
    -- stands behind those of the queue, and what a builder with this job takes from the store is the
    -- file that the client had. The name of the runtime and the version are such that the server reads
    -- them from the addresses as the client put them there.
    pub projects_build-projects_upload :
        (args : Text → Text → Option Text) (open_file : Text → Option Bytes) (b : Bytes)
        (zfile : ProjectBundleFile) (spec : RuntimeSpec V) (s : fs.State) (jobs : List (BuildJob V))
        → args (upload_query zfile) (codes "runtime") ≡ some zfile.runtime_name
        → args (upload_query zfile) (codes "version") ≡ some zfile.version
        → args (build_query zfile.version) (codes "version") ≡ some zfile.version
        → zfile.runtime_name ≡ spec.name
        → open_file zfile.filepath ≡ some b
        → (projects_upload args open_file (post_upload p db) zfile s).0 ≡ ok done
        → (job : BuildJob V) × (projects_build args post_build spec zfile.version jobs
            ≡ (some job.execid, jobs ++ job ∷ []))
          × (get_runtime_file
                (λ k. streamed (
                  get_stream_lines fs parent kv k
                    (projects_upload args open_file (post_upload p db) zfile s).1))
                job.params.download_zip
              ≡ ok b)
    unfolding projects_upload projects_build project_build enqueue_build project_upload
    projects_build-projects_upload args open_file b zfile spec s jobs r v v' named there sent =
        let (cs, read, whole, _) = binary_file_reader-Covers 1024 b (omega arith) in
        let reads = request_stream cs in
        let call =
          ap
            (λ o.
              sending (post_upload p db o (args (upload_query zfile) (codes "version")))
                (pieces_of (open_file zfile.filepath)) s)
            r
          ∙ ap
              (λ o.
                sending (post_upload p db (some zfile.runtime_name) o)
                  (pieces_of (open_file zfile.filepath)) s)
              v
          ∙ ap
              (λ n.
                sending (post_upload p db (some n) (some zfile.version))
                  (pieces_of (open_file zfile.filepath)) s)
              named
          ∙ ap
              (λ o.
                sending (post_upload p db (some spec.name) (some zfile.version)) (pieces_of o) s)
              there
          ∙ ap (λ o. sending (post_upload p db (some spec.name) (some zfile.version)) o s) read in
        let good =
          uploaded_201 (get_by_projectid p none db) (some spec.name) (some zfile.version) reads s
            (sym (ap (λ m. m.0) call) ∙ sent) in
        let (ctx, jobs') = enqueue_build nfkd path_join settings random p spec zfile.version jobs in
        (
          record { execid = ctx.execid; timeout = settings.build_timeout; params = ctx },
          ap (λ o. execid_of (post_build spec o jobs)) v',
          ap
                (λ m.
                  get_runtime_file (λ k. streamed (get_stream_lines fs parent kv k m.1))
                    ctx.download_zip)
                call
              ∙ project_upload-get_runtime_file nfkd path_join fs parent kv random p spec
                  zfile.version settings.projects_store_class_sync settings.projects_store_bucket
                  settings.docker_registry reads db s good
              ∙ ap ok (ap concat (stream_reader-request_stream cs) ∙ whole),
        )
