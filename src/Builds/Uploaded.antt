-- ===== src/Builds/Uploaded.antt =====
-- A bundle on its way from the upload of a project to the build of a runtime, through the store on
-- files that the server and the builder share.
use labfunctions.Prelude.{
  ℕ, ◌≡◌, refl, sym, ap, ◌∙◌, Bool, true, false, List, Option, none, some, arith,
}
use labfunctions.Text.{Text, teq, teq_refl, eq_of_teq}
use labfunctions.Effects.{Result, ok, err}
use labfunctions.Query.{first, first_passes}
use labfunctions.Stores.Chunks.{Bytes, stream_reader, concat, file_lines}
use labfunctions.Stores.Chunks.Whole.{concat-file_lines}
use labfunctions.Stores.Files.{FileSystem, read_result}
use labfunctions.Stores.Local.{
  KvError, KvLocal, uri, put_stream, get, get_stream_lines, read_error, raising, pieces,
}
use labfunctions.Stores.Local.Refine.{contents-put_stream}
use labfunctions.Types.Projects.{ProjectData}
use labfunctions.Types.Runtimes.{RuntimeSpec}
use labfunctions.Runtimes.{build_upload_uri, create_build_ctx}
use labfunctions.Projects.{
  Db, User, ProjectModel, ProjectError, has_projectid, shown, data_of, owner_of, model2projectdata,
  get_by_projectid,
}
use labfunctions.Projects.Uploads.{upload_status, uploaded, project_upload}
use labfunctions.Builds.{BuildError, store_error, file_of, get_runtime_file}

-- What the builder makes of the store's answer.
abbrev pub streamed : Result KvError (Option (List Bytes)) → Result BuildError (List Bytes)
streamed (ok (some chunks)) = ok chunks
streamed (ok none) = err store_error
streamed (err e) = err store_error

-- The data of a project has the project's id.
data_of-projectid :
    (db : Db) (obj : ProjectModel) (o : Option User) (pd : ProjectData)
    → (elim (data_of db obj o) as (λ _. Result ProjectError (Option ProjectData)) [
      | ok d ↦ ok (some d)
      | err e ↦ err e
    ])
      ≡ ok (some pd)
    → pd.projectid ≡ obj.projectid
data_of-projectid db obj none pd h = cc
data_of-projectid db obj (some owner) pd h = sym (ap projectid_of h)
  where
    projectid_of : Result ProjectError (Option ProjectData) → Text
    projectid_of (ok (some pd)) = pd.projectid
    projectid_of r = obj.projectid

shown-projectid :
    (db : Db) (p : Text) (o : Option ProjectModel) (pd : ProjectData)
    → ((obj : ProjectModel) → o ≡ some obj → teq obj.projectid p ≡ true)
    → shown db o ≡ ok (some pd)
    → pd.projectid ≡ p
unfolding model2projectdata
shown-projectid db p none pd named h = cc
shown-projectid db p (some obj) pd named h =
    data_of-projectid db obj (owner_of obj.owner_id db.users) pd h
    ∙ eq_of_teq obj.projectid p (named obj refl)

get_by_projectid-projectid :
    (db : Db) (p : Text) (pd : ProjectData)
    → get_by_projectid p none db ≡ ok (some pd)
    → pd.projectid ≡ p
unfolding get_by_projectid
get_by_projectid-projectid db p pd h =
    shown-projectid db p (first (has_projectid p) db.projects) pd
      (first_passes (has_projectid p) db.projects) h

status_ok : {S : Type 0} (m : Result KvError Bool × S) → (upload_status m).0 ≡ 201 → m.0 ≡ ok true
status_ok (ok true, s) h = refl
status_ok (ok false, s) h = absurd (omega (arith, h))
status_ok (err e, s) h = absurd (omega (arith, h))

-- The answer does not touch the store.
left : {S : Type 0} (m : Result KvError Bool × S) → (upload_status m).1 ≡ m.1
left (ok true, s) = refl
left (ok false, s) = refl
left (err e, s) = refl

module _ (nfkd : Text → Text) (path_join : Text → Text → Text) (fs : FileSystem)
    (parent : Text → Text) (kv : KvLocal) where
  -- A key of the store that was written by a stream is read by lines.
  read_back :
      (key : Text) (chunks : List Bytes) (s : fs.State)
      → (upload_status (put_stream fs parent kv key chunks s)).0 ≡ 201
      → get_runtime_file
          (λ k. streamed (get_stream_lines fs parent kv k (put_stream fs parent kv key chunks s).1))
          key
        ≡ ok (concat chunks)
  unfolding get_runtime_file get_stream_lines get
  read_back key chunks s h =
      let s' = (put_stream fs parent kv key chunks s).1 in
      let path = uri kv key in
      let there : fs.contents s' (fs.resolve path) ≡ some (concat chunks) =
        contents-put_stream fs parent kv key chunks s (fs.resolve path) true
          (status_ok (put_stream fs parent kv key chunks s) h)
        ∙ rw (teq_refl (fs.resolve path)) in
      ap
        (λ r. file_of (
          streamed (
            pieces fs parent kv (λ b. some (file_lines b))
              (raising (read_error fs parent kv key) r))))
        (fs.read_lem s' path ∙ ap (read_result (fs.no_file path)) there)
      ∙ ap ok (concat-file_lines (concat chunks))

  module _ {V : Type 0} (random p : Text) (spec : RuntimeSpec V) (version cls bucket : Text)
      (registry : Option Text) (reads : List (Option Bytes)) where
    -- The builder reads what an upload that was answered by 201 has left.
    abbrev Received : ℕ × fs.State → Type 0
    Received (status, s') =
        status ≡ 201
        → get_runtime_file (λ k. streamed (get_stream_lines fs parent kv k s'))
            (create_build_ctx nfkd path_join random p spec version cls bucket registry).download_zip
          ≡ ok (concat (stream_reader reads))

    abbrev answered : Result ProjectError (Option ProjectData) → fs.State → ℕ × fs.State
    answered r s = uploaded nfkd path_join fs parent kv r (some spec.name) (some version) reads s

    uploaded-Received :
        (r : Result ProjectError (Option ProjectData)) (s : fs.State)
        → ((pd : ProjectData) → r ≡ ok (some pd) → pd.projectid ≡ p)
        → Received (answered r s)
    unfolding create_build_ctx
    uploaded-Received (err e) s same h = absurd (omega (arith, h))
    uploaded-Received (ok none) s same h = absurd (omega (arith, h))
    uploaded-Received (ok (some pd)) s same h =
        let key_of = (λ (q : Text). build_upload_uri nfkd path_join q spec.name version) in
        let key = key_of pd.projectid in
        ap
          (λ k.
            get_runtime_file
              (λ j. streamed (get_stream_lines fs parent kv j (answered (ok (some pd)) s).1)) k)
          (sym (ap key_of (same pd refl)))
        ∙ ap (λ s'. get_runtime_file (λ j. streamed (get_stream_lines fs parent kv j s')) key)
            (left (put_stream fs parent kv key (stream_reader reads) s))
        ∙ read_back key (stream_reader reads) s h

    -- A bundle that is uploaded for a runtime and a version and is answered by 201 is the file that
    -- a build of this runtime and version of the project takes from the store: the pieces that the
    -- request had until its end, put together.
    pub project_upload-get_runtime_file :
        (db : Db) (s : fs.State)
        → (project_upload nfkd path_join fs parent kv p
            (some spec.name)
            (some version)
            reads
            (db, s)).0
          ≡ 201
        → get_runtime_file
            (λ k. streamed (
              get_stream_lines fs parent kv k
                (project_upload nfkd path_join fs parent kv p
                  (some spec.name)
                  (some version)
                  reads
                  (db, s)).1))
            (create_build_ctx nfkd path_join random p spec version cls bucket registry).download_zip
          ≡ ok (concat (stream_reader reads))
    unfolding project_upload
    project_upload-get_runtime_file db s h =
        uploaded-Received (get_by_projectid p none db) s (get_by_projectid-projectid db p) h
