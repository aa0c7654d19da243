-- ===== src/Client/AuthFlow/Rotation.antt =====
-- The client's token flow against the server's refresh handler: the server gives a new refresh
-- token at each refresh, and the client keeps the one it started with.
use labfunctions.Prelude.{ℕ, ◌≡◌, ◌≢◌, true, false, some, arith}
use labfunctions.Text.{Text, is_empty}
use labfunctions.Effects.{ok, err}
use labfunctions.Security.Types.{JwtConfig, JwtResponse}
use labfunctions.Security.Store.{TokenStore}
use labfunctions.Security.Auth.{Jwt, Payload}
use labfunctions.Security.Auth
use labfunctions.Security.Auth.Refresh.{Identifies, refresh_token-once}
use labfunctions.Web.Auth.{web_auth_failed, tokens, refresh_handler}
use labfunctions.Client.AuthFlow.{AuthFlow, Request, Response, update_tokens, auth_flow}

update_tokens-keeps :
    (response : Response) (flow flow' : AuthFlow)
    → update_tokens response flow ≡ ok flow'
    → (flow'.refresh_token ≡ flow.refresh_token) × (flow'.refresh_url ≡ flow.refresh_url)
unfolding update_tokens
update_tokens-keeps response flow flow' h = ground arith

-- Whatever the server answers, the client ends with the refresh token and the URL that it began
-- with.
pub auth_flow-keeps :
    {Server : Type 0} (send : Server → Request → Response × Server) (request : Request)
    (flow : AuthFlow) (server : Server)
    → ((auth_flow send request (flow, server)).1.0.refresh_token ≡ flow.refresh_token)
      × ((auth_flow send request (flow, server)).1.0.refresh_url ≡ flow.refresh_url)
unfolding auth_flow
auth_flow-keeps send request flow server = ground arith

module _ (conf : JwtConfig) (jwt : Jwt) (store : TokenStore) where
  handler-ok :
      (now : ℕ) (fresh at r : Text) (s s' : store.State) (res : JwtResponse)
      → refresh_handler conf jwt store true now fresh at (some r) s ≡ (ok (tokens 200 res), s')
      → (is_empty r ≡ false) × (Auth.refresh_token conf jwt store now fresh at r s ≡ (ok res, s'))
  unfolding refresh_handler
  handler-ok now fresh at r s s' res h = ground arith

  handler-refused :
      (now : ℕ) (fresh at r : Text) (s : store.State)
      → is_empty r ≡ false
      → Auth.refresh_token conf jwt store now fresh at r s ≡ (err Auth.auth_validation_failed, s)
      → refresh_handler conf jwt store true now fresh at (some r) s ≡ (err web_auth_failed, s)
  unfolding refresh_handler
  handler-refused now fresh at r s filled h = ground arith

  -- A client that has refreshed once is refused the next time: when the server's answer has been
  -- taken over, the refresh that the client then asks for, with its new access token and the
  -- refresh token that it holds, fails with `WebAuthFailed` and changes nothing, for a new random
  -- token that differs from the old.
  pub second_refresh_fails :
      (now now' : ℕ) (fresh fresh' r u : Text) (d d' : Payload) (s s' : store.State)
      (res : JwtResponse) (response : Response) (flow flow' : AuthFlow)
      → flow.refresh_token ≡ some r
      → Identifies conf jwt store now flow.access_token d u
      → refresh_handler conf jwt store true now fresh flow.access_token flow.refresh_token s
        ≡ (ok (tokens 200 res), s')
      → update_tokens response flow ≡ ok flow'
      → Identifies conf jwt store now' flow'.access_token d' u
      → fresh ≢ r
      → refresh_handler conf jwt store true now' fresh' flow'.access_token flow'.refresh_token s'
        ≡ (err web_auth_failed, s')
  second_refresh_fails now now' fresh fresh' r u d d' s s' res response flow flow' held who first
        taken who' differ =
      let (filled, answered) =
        handler-ok now fresh flow.access_token r s s' res (rw held at first) in
      let once =
        refresh_token-once conf jwt store now now' flow.access_token flow'.access_token fresh fresh'
          r u d d' s s' res who who' differ answered in
      rw ((update_tokens-keeps response flow flow' taken).0, held)
        (handler-refused now' fresh' flow'.access_token r s' filled once.0)
