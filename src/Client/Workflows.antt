-- ===== src/Client/Workflows.antt =====
-- labfunctions/client/workflows_client.py with the replies of types/workflows.py: the requests that
-- create and update a workflow, and the push of all the workflows of the laboratory's state. The
-- API server is a state `S` that `post` and `put` of `/workflows/<projectid>` change. The file that
-- `write` makes is kept as the state that was written to it.
pub mod Server
pub mod Registered
pub mod Aliases
pub mod Pending
mod Tests
use labfunctions.Prelude.{
  ℕ, ◌==◌, ◌||◌, Bool, true, false, List, [], ◌∷◌, ◌++◌, Option, none, some, if◌then◌else◌,
}
use labfunctions.Text.{Text, codes}
use labfunctions.Dict.{Dict, lookup, values}
use labfunctions.Effects.{Result, ok, err, Action, pure, ◌>>=◌, ◌>>◌}
use labfunctions.Stores.Files.{Done, done}
use labfunctions.Types.Core.{WorkflowDataWeb}
use labfunctions.Types.Projects.{ProjectData}
use labfunctions.Workflows.Web.{has_id}
use labfunctions.Client.AuthFlow.{Response}
use labfunctions.Client.LabState.{LabState, add_workflow}

pub record WfCreateRsp : Type 0 where
  pub status_code : ℕ
  pub alias : Text
  pub msg : Option Text
  pub wfid : Option Text

pub record WfPushRsp : Type 0 where
  pub created : List WfCreateRsp
  pub errors : List WfCreateRsp

-- `WorkflowRegisterClientError`, the error of a body that is not JSON, the `TypeError` of a file
-- without a name, and the `ValidationError` of a `Labfile` without a project.
pub data ClientError : Type 0 where
  workflow_register_client_error bad_json type_error validation_error : ClientError

unfoldable pub created_rsp :
    {V : Type 0} → WorkflowDataWeb V → Response → Result ClientError WfCreateRsp
created_rsp wd r =
    if r.status_code == 400 || r.status_code == 503
    then err workflow_register_client_error
    else elim r.json [
      | none ↦ err bad_json
      | some body ↦ ok (record {
        status_code = r.status_code;
        alias = wd.alias;
        msg = lookup (codes "msg") body;
        wfid = lookup (codes "wfid") body;
      })
    ]

-- The push under way: what was created and what failed, the client's state and the server's, and the
-- states that were written, the last one first.
pub record Push (V S : Type 0) : Type 0 where
  pub created : List WfCreateRsp
  pub errors : List WfCreateRsp
  pub state : LabState V
  pub server : S
  pub written : List (Text × LabState V)

module _ {V S : Type 0} (post put : Text → WorkflowDataWeb V → S → Response × S)
    (projectid : Text) where
  unfoldable pub workflows_create : WorkflowDataWeb V → Action S ClientError WfCreateRsp
  workflows_create wd s = let (r, s') = post projectid wd s in (created_rsp wd r, s')

  unfoldable pub workflows_update : WorkflowDataWeb V → Action S ClientError WfCreateRsp
  workflows_update wd s = let (r, s') = put projectid wd s in (created_rsp wd r, s')

-- An error that the push collects.
abbrev pub failed_rsp : {V : Type 0} → WorkflowDataWeb V → ℕ → WfCreateRsp
failed_rsp wd status = record { status_code = status; alias = wd.alias; msg = none; wfid = wd.wfid }

module _ {V S : Type 0} where
  abbrev pub with_error : WorkflowDataWeb V → ℕ → Push V S → Push V S
  with_error wd status p = record p { errors = p.errors ++ failed_rsp wd status ∷ [] }

  abbrev pub with_created : WfCreateRsp → Push V S → Push V S
  with_created wr p = record p { created = p.created ++ wr ∷ [] }

  -- `except WorkflowRegisterClientError`; another exception ends the push.
  abbrev pub caught : WorkflowDataWeb V → ClientError → Action (Push V S) ClientError Done
  caught wd workflow_register_client_error p = (ok done, with_error wd 503 p)
  caught wd bad_json p = (err bad_json, p)
  caught wd type_error p = (err type_error, p)
  caught wd validation_error p = (err validation_error, p)

  -- `if refresh_workflows: wd.wfid = wr.wfid; self.state.add_workflow(wd)`.
  unfoldable pub refreshed : Bool → WorkflowDataWeb V → WfCreateRsp → Push V S → Push V S
  unfolding add_workflow
  refreshed refresh wd wr p =
      if refresh
      then record p { state = add_workflow (record wd { wfid = wr.wfid }) p.state }
      else p

  abbrev pub after_create :
      Bool → WorkflowDataWeb V → Result ClientError WfCreateRsp → Action (Push V S) ClientError Done
  after_create refresh wd (err e) p = caught wd e p
  after_create refresh wd (ok wr) p = (
    ok done,
    if wr.status_code == 200
        then p
        else if wr.status_code == 201
        then refreshed refresh wd wr (with_created wr p)
        else with_error wd wr.status_code p,
  )

  abbrev pub after_update :
      WorkflowDataWeb V → Result ClientError WfCreateRsp → Action (Push V S) ClientError Done
  after_update wd (err e) p = caught wd e p
  after_update wd (ok wr) p = (ok done, with_created wr p)

  -- `self.write(wf_file)`, and the answer.
  abbrev pub finished : Bool → Option Text → Action (Push V S) ClientError WfPushRsp
  finished false wf_file p = (ok (record { created = p.created; errors = p.errors }), p)
  finished true none p = (err type_error, p)
  finished true (some f) p = (
    ok (record { created = p.created; errors = p.errors }),
    record p { written = (f, p.state) ∷ p.written },
  )

module _ {V S : Type 0} (post put : Text → WorkflowDataWeb V → S → Response × S)
    (projectid : Text) where
  -- The body of the loop for one workflow.
  unfoldable pub push_one : Bool → Bool → WorkflowDataWeb V → Action (Push V S) ClientError Done
  push_one refresh true wd p =
      let (r, s) = workflows_update post put projectid wd p.server in
      after_update wd r (record p { server = s })
  push_one refresh false wd p =
      if has_id wd.wfid
      then (ok done, p)
      else (let (r, s) = workflows_create post put projectid wd p.server in
          after_create refresh wd r (record p { server = s }))

  unfoldable pub push_loop :
      Bool → Bool → List (WorkflowDataWeb V) → Action (Push V S) ClientError Done
  push_loop refresh update [] = pure done
  push_loop refresh update (wd ∷ wds) = push_one refresh update wd >> push_loop refresh update wds

  -- What is done with `snapshot()`, which raises for a state without a project: the loop goes over
  -- its copy of the state's workflows.
  abbrev pub pushed :
      Bool → Bool → Option Text → Option ProjectData → Action (Push V S) ClientError WfPushRsp
  pushed refresh update wf_file none p = (err validation_error, p)
  pushed refresh update wf_file (some project) p =
      (push_loop refresh update (values p.state.workflows) >> finished refresh wf_file) p

  unfoldable pub workflows_push :
      Bool → Bool → Option Text → LabState V × S → Result ClientError WfPushRsp × Push V S
  workflows_push refresh update wf_file (state, s) =
      pushed refresh update wf_file state.project
        (record { created = []; errors = []; state = state; server = s; written = [] })
