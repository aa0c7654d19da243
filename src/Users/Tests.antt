-- ===== src/Users/Tests.antt =====
-- Runs of the users.
use labfunctions.Prelude.{◌≡◌, refl, true, false, [], ◌∷◌, ◌++◌, ◌↔◌, none, some, if◌then◌else◌}
use labfunctions.Text.{codes, teq}
use labfunctions.Effects.{ok, err}
use labfunctions.Security.Types.{UserLogin}
use labfunctions.Security.Auth.{auth_validation_failed}
use labfunctions.Users.{
  UserModel, Users, Kdf, rekeyed, get_user, disable_user, change_pass, authenticate,
}
use labfunctions.Users.Passwords.{
  authenticate_iff, authenticate-disable_user, authenticate-change_pass,
}

-- A derivation that puts the salt in front.
abbrev salted : Kdf
salted = record {
  derive = λ salt p. salt ++ p;
  verify = λ salt p key. teq (salt ++ p) key;
  verify_lem = λ salt p key. refl;
}

abbrev ana : UserModel
ana = record {
  id = some 1;
  username = codes "ana";
  email = none;
  password = some (codes "s-pw");
  scopes = codes "user:r:w";
  is_superuser = false;
  is_active = true;
  is_agent = false;
  updated_at = 0;
}

abbrev creds : UserLogin
creds = record { username = codes "ana"; password = codes "pw" }

abbrev users : Users
users = record ana { username = codes "bob" } ∷ ana ∷ []

ana_there : get_user (codes "ana") users ≡ some ana
unfolding get_user teq
ana_there = refl

authenticate_iff_example : (authenticate salted (codes "s-") (some creds) users ≡ ok ana) ↔ (
    (get_user creds.username users ≡ some ana)
    × (ana.is_active ≡ true)
    × (ana.password ≡ some (salted.derive (codes "s-") creds.password)))
authenticate_iff_example = authenticate_iff salted (codes "s-") creds users ana

ana_logs_in : authenticate salted (codes "s-") (some creds) users ≡ ok ana
ana_logs_in = authenticate_iff_example.1 (ana_there, refl, refl)

authenticate-disable_user_example :
    authenticate salted (codes "s-") (some creds) (disable_user 9 (codes "ana") users).1 ≡ (
      if teq (codes "ana") creds.username
      then err auth_validation_failed
      else authenticate salted (codes "s-") (some creds) users)
authenticate-disable_user_example =
    authenticate-disable_user salted (codes "s-") 9 (codes "ana") creds users

authenticate-change_pass_example :
    authenticate salted
      (codes "s-")
      (some creds)
      (change_pass salted 9 (codes "ana") (codes "new") (codes "s-") users).1
    ≡ (if teq (codes "ana") creds.username
        then if teq
            (salted.derive (codes "s-") creds.password)
            (salted.derive (codes "s-") (codes "new"))
          then ok (rekeyed 9 (salted.derive (codes "s-") (codes "new")) ana)
          else err auth_validation_failed
        else authenticate salted (codes "s-") (some creds) users)
authenticate-change_pass_example =
    authenticate-change_pass salted (codes "s-") 9 (codes "ana") (codes "new") creds users ana
      ana_there refl
