-- ===== src/Client/Workflows/Registered.antt =====
-- A push against the handlers of the API server: what the client is told it has created is in the
-- server's table.
use labfunctions.Prelude.{
  ℕ, suc, ◌≡◌, refl, ◌∙◌, ◌&&◌, Bool, true, false, not, List, [], ◌∷◌, ◌++◌, Option, none, some,
  if◌then◌else◌, Bool-cases, inl, inr, arith,
}
use labfunctions.Text.{Text, codes, any, teq_refl}
use labfunctions.Dict.{Dict, lookup, values}
use labfunctions.Effects.{Result, ok, err, and_then}
use labfunctions.Query.{first, first-append}
use labfunctions.Stores.Files.{Done}
use labfunctions.Types.Projects.{ProjectData}
use labfunctions.Types.Core.{WorkflowDataWeb}
use labfunctions.Types.Runtimes.{RuntimeData}
use labfunctions.Notebooks.Context.{Surroundings}
use labfunctions.Workflows.{
  WorkflowModel, WorkflowError, workflow_register_error, is_row, clashes, new_row, register,
}
use labfunctions.Workflows.Web.{has_id, workflow_create, created}
use labfunctions.Workflows.Web.Answers.{first-new_row}
use labfunctions.Client.LabState.{LabState}
use labfunctions.Client.Workflows.{
  WfCreateRsp, ClientError, Push, created_rsp, refreshed, after_create, push_one, push_loop,
  workflows_create, workflows_push, finished, pushed,
}
use labfunctions.Client.Workflows.Server.{Handled, response, reply, post, put}

module _ {V : Type 0} where
  -- The table has a workflow with the id and the alias of a reply.
  abbrev pub Stored : Text → List (WorkflowModel V) → WfCreateRsp → Type 0
  Stored p rows rsp =
      (w : Text) × (row : WorkflowModel V) × (rsp.wfid ≡ some w)
      × (first (is_row p w) rows ≡ some row)
      × (row.alias ≡ rsp.alias)

  pub data AllStored (p : Text) (rows : List (WorkflowModel V)) : List WfCreateRsp → Type 0 where
    nothing : AllStored p rows []
    one_more :
        {rsp : WfCreateRsp} {rsps : List WfCreateRsp}
        → Stored p rows rsp
        → AllStored p rows rsps
        → AllStored p rows (rsp ∷ rsps)

  Stored-append :
      (p : Text) (rows more : List (WorkflowModel V)) (rsp : WfCreateRsp)
      → Stored p rows rsp
      → Stored p (rows ++ more) rsp
  Stored-append p rows more rsp (w, row, named, there, same) =
      (w, row, named, first-append (is_row p w) rows more ∙ rw there, same)

  AllStored-append :
      (p : Text) (rows more : List (WorkflowModel V)) (rsps : List WfCreateRsp) (rsp : WfCreateRsp)
      → AllStored p rows rsps
      → Stored p (rows ++ more) rsp
      → AllStored p (rows ++ more) (rsps ++ rsp ∷ [])
  AllStored-append p rows more [] rsp nothing last = one_more last nothing
  AllStored-append p rows more (r ∷ rsps) rsp (one_more s all) last =
      one_more (Stored-append p rows more r s) (AllStored-append p rows more rsps rsp all last)

by_test :
    {A : Type 0} (P : A → Type 0) (b : Bool) (x y : A)
    → (b ≡ true → P x)
    → (b ≡ false → P y)
    → P (if b then x else y)
by_test P true x y pass fail = pass refl
by_test P false x y pass fail = fail refl

module _ {V : Type 0} (env : Surroundings V) (known : Text → Bool)
    (get_runtime : Text → Text → Option Text → Option (RuntimeData V))
    (said : ℕ → Option (Dict Text)) (now : ℕ) (fresh random : ℕ → Text) (projectid : Text) where
  abbrev Sent : Type 0
  Sent = Push V (Handled V)

  -- What has been created so far is in the table.
  abbrev pub IsStored : Sent → Type 0
  IsStored p = AllStored projectid p.server.server.rows p.created

  -- The rest of the loop's body, from what the table makes of the request.
  abbrev resumed :
      Bool
      → WorkflowDataWeb V
      → Sent
      → Result WorkflowError (Option Text) × List (WorkflowModel V)
      → Result ClientError Done × Sent
  resumed refresh wd p x =
      let h = p.server in
      let (r, h') =
        reply env known get_runtime said now fresh random h.requests
          (created env known get_runtime (random h.requests) projectid wd h.server x) in
      after_create refresh wd (created_rsp wd r) (record p { server = h' })

  refreshed-IsStored :
      (refresh : Bool) (wd : WorkflowDataWeb V) (rsp : WfCreateRsp) (p : Sent)
      → IsStored p
      → IsStored (refreshed refresh wd rsp p)
  unfolding refreshed
  refreshed-IsStored true wd rsp p h = h
  refreshed-IsStored false wd rsp p h = h

  created-IsStored :
      (refresh : Bool) (wd : WorkflowDataWeb V) (p : Sent)
      → any (clashes (new_row now (fresh p.server.requests) projectid wd)) p.server.server.rows
        ≡ false
      → IsStored p
      → IsStored
          (resumed refresh wd p (
            ok (some (fresh p.server.requests)),
            p.server.server.rows ++ new_row now (fresh p.server.requests) projectid wd ∷ [],
          )).1
  unfolding created_rsp response lookup
  created-IsStored refresh wd p new all =
      let row = new_row now (fresh p.server.requests) projectid wd in
      refreshed-IsStored refresh wd _ _ (
        AllStored-append projectid p.server.server.rows (row ∷ []) p.created _ all (
          fresh p.server.requests,
          row,
          rw (teq_refl (codes "wfid")),
          first-new_row env known get_runtime now (fresh p.server.requests) projectid wd
              p.server.server.rows new,
          refl,
        ))

  answered-IsStored :
      (refresh : Bool) (wd : WorkflowDataWeb V) (o : Option (Dict Text)) (p : Sent)
      → IsStored p
      → IsStored
          (after_create refresh wd (created_rsp wd (record { status_code = 200; json = o })) p).1
  unfolding created_rsp
  answered-IsStored refresh wd none p all = all
  answered-IsStored refresh wd (some body) p all = all

  refused-IsStored :
      (refresh : Bool) (wd : WorkflowDataWeb V) (p : Sent)
      → IsStored p
      → IsStored (resumed refresh wd p (err workflow_register_error, p.server.server.rows)).1
  unfolding response
  refused-IsStored refresh wd p all =
      answered-IsStored refresh wd (said 200)
        (record p { server = record p.server { requests = suc p.server.requests } }) all

  posted-IsStored :
      (refresh : Bool) (wd : WorkflowDataWeb V) (p : Sent)
      → IsStored p
      → IsStored
          (resumed refresh wd p (
            register known now (fresh p.server.requests) projectid wd false p.server.server.rows)).1
  unfolding register
  posted-IsStored refresh wd p all =
      let row = new_row now (fresh p.server.requests) projectid wd in
      by_test (λ x. IsStored (resumed refresh wd p x).1)
        (known projectid && not (any (clashes row) p.server.server.rows)) _ _
        (λ e. created-IsStored refresh wd p (ground (arith, e)) all)
        (λ e. refused-IsStored refresh wd p all)

  abbrev push_it : Bool → WorkflowDataWeb V → Sent → Result ClientError Done × Sent
  push_it refresh wd p =
      push_one (post env known get_runtime said now fresh random)
        (put env known get_runtime said now fresh random) projectid refresh false wd p

  abbrev push_them : Bool → List (WorkflowDataWeb V) → Sent → Result ClientError Done × Sent
  push_them refresh wds p =
      push_loop (post env known get_runtime said now fresh random)
        (put env known get_runtime said now fresh random) projectid refresh false wds p

  push_one-IsStored :
      (refresh : Bool) (wd : WorkflowDataWeb V) (p : Sent)
      → IsStored p
      → IsStored (push_it refresh wd p).1
  unfolding push_one workflows_create post workflow_create
  push_one-IsStored refresh wd p all = elim (Bool-cases (has_id wd.wfid)) [
    | inl e ↦ rw e all
    | inr e ↦ rw e (posted-IsStored refresh wd p all)
  ]

  go_on :
      {E A : Type 0} (m : Result E A × Sent) (rest : Sent → Result E A × Sent)
      → ((p : Sent) → IsStored p → IsStored (rest p).1)
      → IsStored m.1
      → IsStored (and_then m.0 (λ _. rest) m.1).1
  go_on (ok d, p) rest next all = next p all
  go_on (err e, p) rest next all = all

  push_loop-IsStored :
      (refresh : Bool) (wds : List (WorkflowDataWeb V)) (p : Sent)
      → IsStored p
      → IsStored (push_them refresh wds p).1
  unfolding push_loop
  push_loop-IsStored refresh [] p all = all
  push_loop-IsStored refresh (wd ∷ wds) p all =
      go_on (push_it refresh wd p) (push_them refresh wds) (push_loop-IsStored refresh wds)
        (push_one-IsStored refresh wd p all)

  finished-IsStored :
      (refresh : Bool) (wf_file : Option Text) (m : Result ClientError Done × Sent)
      → IsStored m.1
      → IsStored (and_then m.0 (λ _. finished refresh wf_file) m.1).1
  finished-IsStored refresh wf_file (err e, p) all = all
  finished-IsStored false wf_file (ok d, p) all = all
  finished-IsStored true none (ok d, p) all = all
  finished-IsStored true (some f) (ok d, p) all = all

  pushed-IsStored :
      (refresh : Bool) (wf_file : Option Text) (project : Option ProjectData) (p : Sent)
      → IsStored p
      → IsStored
          (pushed
            (post env known get_runtime said now fresh random)
            (put env known get_runtime said now fresh random)
            projectid
            refresh
            false
            wf_file
            project
            p).1
  pushed-IsStored refresh wf_file none p all = all
  pushed-IsStored refresh wf_file (some project) p all =
      finished-IsStored refresh wf_file (push_them refresh (values p.state.workflows) p)
        (push_loop-IsStored refresh (values p.state.workflows) p all)

  -- A push of new workflows, from any state of the client and of the server, whether it ends well or
  -- by an exception: every reply that it has collected as created names an id under which the table
  -- has, in the project of the push, a workflow of the reply's alias.
  pub workflows_push-IsStored :
      (refresh : Bool) (wf_file : Option Text) (state : LabState V) (h : Handled V)
      → IsStored
          (workflows_push
            (post env known get_runtime said now fresh random)
            (put env known get_runtime said now fresh random)
            projectid
            refresh
            false
            wf_file
            (state, h)).1
  unfolding workflows_push
  workflows_push-IsStored refresh wf_file state h =
      pushed-IsStored refresh wf_file state.project _ nothing
