-- ===== src/Security/Types.antt =====
-- labfunctions/types/security.py: the records that the authentication code passes around. The
-- defaults of the fields are the constant `jwt_config`.
use labfunctions.Prelude.{ℕ, ◌*◌, List, [], ◌∷◌, Option, none}
use labfunctions.Text.{Text, codes}

pub record KeyPairs : Type 0 where
  pub public : Text
  pub private : Text

pub record JwtConfig : Type 0 where
  pub alg : Text
  pub exp_min : ℕ
  pub key_pairs : Option KeyPairs
  pub secret : Option Text
  pub issuer : Option Text
  pub audience : Option Text
  pub requires_claims : List Text
  pub ttl_refresh_token : ℕ

abbrev pub jwt_config : Text → JwtConfig
jwt_config alg = record {
  alg = alg;
  exp_min = 30;
  key_pairs = none;
  secret = none;
  issuer = none;
  audience = none;
  requires_claims = codes "exp" ∷ [];
  ttl_refresh_token = 3600 * 168;
}

pub record UserLogin : Type 0 where
  pub username : Text
  pub password : Text

pub record JwtResponse : Type 0 where
  pub access_token : Text
  pub refresh_token : Option Text

pub record TokenCreds : Type 0 where
  pub access_token : Text
  pub refresh_token : Option Text
