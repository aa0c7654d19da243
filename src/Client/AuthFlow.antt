-- ===== src/Client/AuthFlow.antt =====
-- labfunctions/client/base.py, class `AuthFlow`: the generator that sends a request with the
-- access token, and on a 401 asks for a new one and sends the request again. The server is the
-- parameter `send`, a function of its state and the request.
pub mod Rotation
use labfunctions.Prelude.{
  ℕ, ◌==◌, Bool, true, false, List, [], ◌∷◌, Option, none, some, if◌then◌else◌,
}
use labfunctions.Text.{Text, codes, is_empty}
use labfunctions.Dict.{Dict, lookup}
use labfunctions.Effects.{Result, ok, err, Action, pure, raise, ◌>>=◌, ◌>>◌}

pub record AuthFlow : Type 0 where
  pub access_token : Text
  pub refresh_token : Option Text
  pub refresh_url : Text

-- A request: its method and URL, the JSON body as a dictionary of optional texts, and the bearer
-- token of its header.
pub record Request : Type 0 where
  pub method : Text
  pub url : Text
  pub json : Dict (Option Text)
  pub bearer : Option Text

-- A response: its status, and its JSON body if it has one that is a dictionary of texts.
pub record Response : Type 0 where
  pub status_code : ℕ
  pub json : Option (Dict Text)

-- `AuthValidationFailed` of errors/generics.py, and the error of a body that is not JSON.
pub data FlowError : Type 0 where
  auth_validation_failed bad_json : FlowError

unfoldable pub build_refresh_request : AuthFlow → Request
build_refresh_request flow = record {
  method = codes "POST";
  url = flow.refresh_url;
  json = (codes "refresh_token", flow.refresh_token) ∷ [];
  bearer = some flow.access_token;
}

-- `tkn = data.get("access_token")`; an empty token counts as missing.
unfoldable pub update_tokens : Response → AuthFlow → Result FlowError AuthFlow
update_tokens response flow = elim response.json [
  | none ↦ err bad_json
  | some body ↦ elim (lookup (codes "access_token") body) [
    | none ↦ err auth_validation_failed
    | some tkn ↦
        if is_empty tkn then err auth_validation_failed else ok (record flow { access_token = tkn })
  ]
]

module _ {Server : Type 0} (send : Server → Request → Response × Server) where
  -- The state is the client's tokens and the server. The answer is that of the last request.
  abbrev authorised : AuthFlow → Request → Request
  authorised flow request = record request { bearer = some flow.access_token }

  abbrev resend :
      Request
      → Result FlowError AuthFlow
      → AuthFlow × Server
      → Result FlowError Response × (AuthFlow × Server)
  resend request (err e) s = (err e, s)
  resend request (ok flow) (_, server) =
      let (response, server') = send server (authorised flow request) in
      (ok response, (flow, server'))

  unfoldable pub auth_flow :
      Request → AuthFlow × Server → Result FlowError Response × (AuthFlow × Server)
  unfolding build_refresh_request update_tokens
  auth_flow request (flow, server) =
      let (response, server₁) = send server (authorised flow request) in
      if response.status_code == 401
      then (let (refreshed, server₂) = send server₁ (build_refresh_request flow) in
          resend request (update_tokens refreshed flow) (flow, server₂))
      else (ok response, (flow, server₁))
