-- ===== src/Client/Tests.antt =====
-- Runs of the client against the server's refresh handler.
use labfunctions.Prelude.{◌≡◌, refl, Bool, true, false, [], ◌∷◌, none, some, arith}
use labfunctions.Text.{Text, codes, teq}
use labfunctions.Dict.{lookup}
use labfunctions.Types.Core.{WorkflowDataWeb, nb_task}
use labfunctions.Client.LabState.{LabState}
use labfunctions.Effects.{ok, err}
use labfunctions.Security.Store.Refines.{memory_store}
use labfunctions.Web.Auth.{web_auth_failed, tokens, refresh_handler}
use labfunctions.Client.AuthFlow.{AuthFlow, Request, Response, update_tokens, auth_flow}
use labfunctions.Client.AuthFlow.Rotation.{second_refresh_fails}
use labfunctions.Security.Samples.{
  differ, name_jwt, conf, ana, ana_payload, ana-Identifies, one_token, next_tokens, renewed,
  refreshed,
}

abbrev flow : AuthFlow
flow = record {
  access_token = ana;
  refresh_token = some (codes "r1");
  refresh_url = codes "/v1/refresh_token";
}

abbrev question : Request
question = record { method = codes "GET"; url = codes "/v1/projects"; json = []; bearer = none }

abbrev body : Response
body = record {
  status_code = 200;
  json = some ((codes "access_token", ana) ∷ (codes "refresh_token", codes "r2") ∷ []);
}

-- A server that asks for a refresh before it answers.
abbrev strict : Bool → Request → Response × Bool
strict true r = (body, true)
strict false r =
    (record { status_code = 401; json = some ((codes "access_token", ana) ∷ []) }, true)

renews : auth_flow strict question (flow, false) ≡ (ok body, (flow, true))
unfolding auth_flow update_tokens lookup teq
renews = refl

first :
    refresh_handler conf name_jwt memory_store true 5
      (codes "r2")
      flow.access_token
      flow.refresh_token
      one_token
    ≡ (ok (tokens 200 (renewed (codes "r2"))), next_tokens (codes "r2"))
unfolding refresh_handler
first = ground (arith, refreshed (codes "r2"))

taken : update_tokens body flow ≡ ok flow
unfolding update_tokens lookup teq
taken = refl

second_refresh_fails_example :
    refresh_handler conf name_jwt memory_store true 5
      (codes "r3")
      flow.access_token
      flow.refresh_token
      (next_tokens (codes "r2"))
    ≡ (err web_auth_failed, next_tokens (codes "r2"))
second_refresh_fails_example =
    second_refresh_fails conf name_jwt memory_store 5 5 (codes "r2") (codes "r3") (codes "r1") ana
      ana_payload ana_payload one_token (next_tokens (codes "r2")) (renewed (codes "r2")) body flow
      flow refl ana-Identifies first taken ana-Identifies (differ _ _ (unfold teq in refl))

abbrev daily : WorkflowDataWeb Text
daily = record {
  alias = codes "daily";
  nbtask = nb_task (codes "welcome") [];
  enabled = true;
  wfid = some (codes "w1");
  schedule = none;
}

abbrev lab : LabState Text
lab = record {
  version = codes "0.2";
  project = none;
  workflows = (codes "daily", daily) ∷ [];
  file = none;
}
