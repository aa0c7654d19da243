-- ===== src/Builds/Registered.antt =====
-- A build against the table of runtimes.
use labfunctions.Prelude.{
  ℕ, suc, ◌≡◌, refl, ◌∙◌, Bool, true, false, List, Option, none, arith, Bool-cases, inl, inr,
}
use labfunctions.Text.{Text, any, teq_refl}
use labfunctions.Dict.{Dict, found}
use labfunctions.Effects.{Result, ok, err}
use labfunctions.Query.{any-append}
use labfunctions.Stores.Chunks.{Bytes}
use labfunctions.Stores.Files.{Done, done}
use labfunctions.Types.Runtimes.{RuntimeReq, BuildCtx}
use labfunctions.Runtimes.Table.{RuntimeModel, rid_of, row_of, has_rid, create, runtimes_create}
use labfunctions.Builds.{
  DockerBuildLog, BuildError, request_of, runtime_create, run, register, registering, answered,
  builder_exec,
}

-- The number of the next row, and the rows.
abbrev pub Table : Type 0 → Type 0
Table V = ℕ × List (RuntimeModel V)

module _ {V : Type 0} (isoformat : ℕ → Text) (known : Text → Bool) (now : ℕ) where
  -- The handler of `POST /runtimes/<projectid>`.
  abbrev pub post : RuntimeReq V → Table V → ℕ × Table V
  post rq (id, rows) =
      let (status, rows') = runtimes_create isoformat known id now rq.project_id rq rows in
      (status, (suc id, rows'))

  abbrev pub rid : BuildCtx V → Text
  rid ctx = rid_of ctx.projectid ctx.spec.name ctx.version

  -- A runtime that the project may have is there after the request for it, which succeeds.
  registered :
      (ctx : BuildCtx V) (t : Table V)
      → known ctx.projectid ≡ true
      → ((runtime_create post (request_of ctx) t).0 ≡ ok done)
        × (any (has_rid isoformat (rid ctx)) (runtime_create post (request_of ctx) t).1.1 ≡ true)
  unfolding runtime_create request_of runtimes_create create row_of
  registered ctx (id, rows) there = elim (Bool-cases (any (has_rid isoformat (rid ctx)) rows)) [
    | inl e ↦ rw (there, e) (refl, e)
    | inr e ↦
        rw (there, e)
          (
            refl,
            any-append (has_rid isoformat (rid ctx)) rows _
                ∙ rw (teq_refl (rid ctx)) (ground arith),
          )
  ]

  module _ {Tree D : Type 0} (loads : Text → Option (Dict Text))
      (api_build : Tree → Text → Text → D → List Text × D)
      (images_tag : Text → Text → D → Result BuildError Done × D)
      (images_push : Text → D → Result Text Text × D)
      (get_stream : Text → Result BuildError (List Bytes))
      (unzip : Bytes → Result BuildError Tree) where
    abbrev build_it : BuildCtx V → D → Result BuildError DockerBuildLog × D
    build_it = run loads api_build images_tag images_push get_stream unzip post

    -- What a build leaves of the table: the rows before it when it raised, a row for its runtime
    -- when it came to an end.
    abbrev pub Leaves :
        BuildCtx V → Table V → Result BuildError DockerBuildLog × (D × Table V) → Type 0
    Leaves ctx t (err e, (d, t')) = t' ≡ t
    Leaves ctx t (ok rsp, (d, t')) = any (has_rid isoformat (rid ctx)) t'.1 ≡ true

    abbrev answer :
        DockerBuildLog
        → D
        → Result BuildError Done × Table V
        → Result BuildError DockerBuildLog × (D × Table V)
    answer = answered loads api_build images_tag images_push get_stream unzip post

    answered-Leaves :
        (ctx : BuildCtx V) (t : Table V) (rsp : DockerBuildLog) (d : D)
        (m : Result BuildError Done × Table V)
        → m.0 ≡ ok done
        → any (has_rid isoformat (rid ctx)) m.1.1 ≡ true
        → Leaves ctx t (answer rsp d m) × ((answer rsp d m).0 ≡ ok rsp)
    answered-Leaves ctx t rsp d (ok x, t') good there = (there, refl)
    answered-Leaves ctx t rsp d (err e, t') good there = cc

    abbrev go_on :
        BuildCtx V
        → Table V
        → Result BuildError DockerBuildLog × D
        → Result BuildError DockerBuildLog × (D × Table V)
    go_on = registering loads api_build images_tag images_push get_stream unzip post false

    registering-Leaves :
        (ctx : BuildCtx V) (t : Table V) (m : Result BuildError DockerBuildLog × D)
        → known ctx.projectid ≡ true
        → Leaves ctx t (go_on ctx t m) × ((go_on ctx t m).0 ≡ m.0)
    unfolding register
    registering-Leaves ctx t (err e, d) there = (refl, refl)
    registering-Leaves ctx t (ok rsp, d) there =
        let (good, found) = registered ctx t there in
        answered-Leaves ctx t rsp d (runtime_create post (request_of ctx) t) good found

    -- Outside of a local run, for a project that the server knows: the task of a build answers what
    -- the build does. When this raises, the table of runtimes stays as it was; when it comes to an
    -- end, the table has a row under the id of the build's runtime, also when the log of the build
    -- says that it failed.
    pub builder_exec-Leaves :
        (ctx : BuildCtx V) (d : D) (t : Table V)
        → known ctx.projectid ≡ true
        → Leaves ctx t (
            builder_exec loads api_build images_tag images_push get_stream unzip post none ctx
              (d, t))
          × ((builder_exec loads api_build images_tag images_push get_stream unzip post none ctx
                (d, t)).0
              ≡ (build_it ctx d).0)
    unfolding builder_exec
    builder_exec-Leaves ctx d t there = registering-Leaves ctx t (build_it ctx d) there
