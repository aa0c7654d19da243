-- ===== src/Client/Workflows/Server.antt =====
-- What the handlers of labfunctions/web/workflows_bp.py answer to the client. `fresh` gives the ids
-- that the server makes, one for each request.
use labfunctions.Prelude.{ℕ, suc, [], ◌∷◌, Option, none, some, Bool}
use labfunctions.Text.{Text, codes}
use labfunctions.Dict.{Dict}
use labfunctions.Types.Core.{WorkflowDataWeb}
use labfunctions.Types.Runtimes.{RuntimeData}
use labfunctions.Notebooks.Context.{Surroundings}
use labfunctions.Client.AuthFlow.{Response}
use labfunctions.Workflows.Web.{
  Server, Answer, failed, done, with_wfid, with_rows, with_workflow, with_context, workflow_create,
  workflow_update,
}

-- The bodies that the client reads: `json(dict(msg=...), status)` and `json(dict(wfid=wfid), status)`.
-- The body of an exception, with status 500, is not the program's, and no other answer is one to a
-- request that creates or updates.
unfoldable pub response : {V : Type 0} → (ℕ → Option (Dict Text)) → Answer V → Response
response said (failed n) = record { status_code = n; json = said n }
response said done = record { status_code = 200; json = said 200 }
response said (with_wfid n none) = record { status_code = n; json = some [] }
response said (with_wfid n (some w)) = record {
  status_code = n;
  json = some ((codes "wfid", w) ∷ []);
}
response said (with_rows _) = record { status_code = 200; json = none }
response said (with_workflow _) = record { status_code = 200; json = none }
response said (with_context _) = record { status_code = 202; json = none }

-- The server and the number of requests that it has handled.
pub record Handled (V : Type 0) : Type 0 where
  pub requests : ℕ
  pub server : Server V

module _ {V : Type 0} (env : Surroundings V) (known : Text → Bool)
    (get_runtime : Text → Text → Option Text → Option (RuntimeData V))
    (said : ℕ → Option (Dict Text)) (now : ℕ) (fresh random : ℕ → Text) where
  abbrev pub reply : ℕ → Answer V × Server V → Response × Handled V
  reply n (a, s) = (response said a, record { requests = suc n; server = s })

  unfoldable pub post : Text → WorkflowDataWeb V → Handled V → Response × Handled V
  post projectid wd h = reply h.requests (
      workflow_create env known get_runtime now (fresh h.requests) (random h.requests) projectid
        (some wd) h.server)

  unfoldable pub put : Text → WorkflowDataWeb V → Handled V → Response × Handled V
  put projectid wd h = reply h.requests (
      workflow_update env known get_runtime now (fresh h.requests) (random h.requests) projectid
        (some wd) h.server)
