-- ===== src/Security/Samples.antt =====
-- A configuration, a signer and a store for runs of the tokens.
use labfunctions.Prelude.{◌≡◌, ◌≢◌, refl, false, [], ◌∷◌, none, some, if◌then◌else◌, arith}
use labfunctions.Text.{Text, codes, is_empty, teq, teq_iff}
use labfunctions.Dict.{lookup, insert, remove}
use labfunctions.Effects.{ok}
use labfunctions.Redis.Memory.{Db, empty}
use labfunctions.Security.Types.{JwtConfig, jwt_config, JwtResponse}
use labfunctions.Security.Store.{put, get, delete}
use labfunctions.Security.Store.Refines.{memory_store}
use labfunctions.Security.Auth.{text, Payload, Jwt, decode, encode, token_key, refresh_token}
use labfunctions.Security.Auth.Refresh.{Identifies, refresh_token_lem}

pub differ : (s t : Text) → teq s t ≡ false → s ≢ t
differ s t h e = ground (arith, teq_iff s t)

-- A signer for the runs: a token is the name of its user.
abbrev pub name_jwt : Jwt
name_jwt = record {
  encode = λ p _ _. elim (lookup (codes "usr") p) [ some (text u) ↦ u | _ ↦ [] ];
  decode = λ now t _. if is_empty t then none else some ((codes "usr", text t) ∷ []);
}

abbrev pub conf : JwtConfig
conf = jwt_config (codes "HS256")

abbrev pub ana : Text
ana = codes "ana"

abbrev pub ana_payload : Payload
ana_payload = (codes "usr", text ana) ∷ []

pub ana-Identifies : Identifies conf name_jwt memory_store 5 ana ana_payload ana
unfolding decode lookup teq
ana-Identifies = (refl, refl)

-- The store with one token of ana, and what it becomes when that token is used.
abbrev pub one_token : Db
one_token = memory_store.put empty (token_key conf name_jwt memory_store ana (codes "r1")) ana none

abbrev pub next_tokens : Text → Db
next_tokens fresh =
    memory_store.put
      (memory_store.delete one_token (token_key conf name_jwt memory_store ana (codes "r1")))
      (token_key conf name_jwt memory_store ana fresh) ana (some conf.ttl_refresh_token)

abbrev pub renewed : Text → JwtResponse
renewed fresh = record {
  access_token = encode conf name_jwt 5 ana_payload none none none;
  refresh_token = some fresh;
}

pub refreshed :
    (fresh : Text)
    → refresh_token conf name_jwt memory_store 5 fresh ana (codes "r1") one_token
      ≡ (ok (renewed fresh), next_tokens fresh)
unfolding put get delete lookup insert remove teq
refreshed fresh =
    refresh_token_lem conf name_jwt memory_store 5 ana ana_payload ana ana-Identifies fresh
      (codes "r1") one_token
