-- ===== src/Users.antt =====
-- labfunctions/managers/users_mg.py, with the password functions of
-- labfunctions/security/password.py. The table of users is a list of rows, of which the unique
-- index on the user name admits one for a name; a row that is changed and added to the session
-- again replaces itself. The key derivation is the parameter `kdf`.
mod Tests
pub mod Passwords
pub mod Table
use labfunctions.Prelude.{
  ℕ, ◌≡◌, Bool, true, false, not, ◌&&◌, ◌||◌, List, [], ◌∷◌, ◌++◌, Option, none, some,
  if◌then◌else◌,
}
use labfunctions.Text.{Text, codes, is_empty, teq, after_prefix, any, select}
use labfunctions.Dict.{found}
use labfunctions.Effects.{Result, ok, err}
use labfunctions.Security.Types.{UserLogin}
use labfunctions.Security.Auth.{AuthError, auth_validation_failed}

pub record UserModel : Type 0 where
  pub id : Option ℕ
  pub username : Text
  pub email : Option Text
  pub password : Option Text
  pub scopes : Text
  pub is_superuser : Bool
  pub is_active : Bool
  pub is_agent : Bool
  pub updated_at : ℕ

abbrev pub Users : Type 0
Users = List UserModel

-- `Scrypt` with a salt: `verify` raises unless the key is the one that is derived, which
-- `PasswordScript.verify` turns into a Boolean.
pub record Kdf : Type 0 where
  pub derive : Text → Text → Text
  pub verify : Text → Text → Text → Bool
  pub verify_lem : (salt p key : Text) → verify salt p key ≡ teq (derive salt p) key

-- `p in s` for texts.
unfoldable pub contains : Text → Text → Bool
contains p [] = is_empty p
contains p (c ∷ s) = found (after_prefix p (c ∷ s)) || contains p s

abbrev is_filled : Option Text → Bool
is_filled none = false
is_filled (some t) = not (is_empty t)

unfoldable pub get_user : Text → Users → Option UserModel
get_user username [] = none
get_user username (u ∷ users) = if teq u.username username then some u else get_user username users

-- The constraint of the database on a new row: the column of the user name is unique.
abbrev pub accepts : UserModel → Users → Bool
accepts um users = not (found (get_user um.username users))

unfoldable pub save : UserModel → Users → Users
save u [] = []
save u (v ∷ users) = if teq v.username u.username then u ∷ users else v ∷ save u users

-- The rows of a user name are deleted by one statement. `refers` says which rows the table of the users of projects
-- refers to, where the database enforces its foreign keys: the statement raises `IntegrityError` if
-- it would delete one of them.
unfoldable pub delete_user : (UserModel → Bool) → Text → Users → Option Users
delete_user refers username users =
    if any (λ u. teq u.username username && refers u) users
    then none
    else some (select (λ u. not (teq u.username username)) users)

abbrev pub map_user : (UserModel → UserModel) → Option UserModel → Option UserModel
map_user f none = none
map_user f (some u) = some (f u)

-- `user = get_user(...)`, `if user:`, assignments to its fields, `session.add(user)`.
abbrev pub assign : (UserModel → UserModel) → Option UserModel → Users → Users
assign f none users = users
assign f (some u) users = save (f u) users

abbrev pub disabled : ℕ → UserModel → UserModel
disabled now u = record u { is_active = false; updated_at = now }

abbrev pub rekeyed : ℕ → Text → UserModel → UserModel
rekeyed now key u = record u { password = some key; updated_at = now }

abbrev pub touched : ℕ → UserModel → UserModel
touched now u = record u { updated_at = now }

-- `disable_user` and `disable_user_async`; `now` is `datetime.utcnow()`.
unfoldable pub disable_user : ℕ → Text → Users → Option UserModel × Users
disable_user now username users =
    let user = get_user username users in
    (map_user (disabled now) user, assign (disabled now) user users)

module _ (kdf : Kdf) where
  unfoldable pub encrypt_password : Text → Text → Text
  encrypt_password password salt = kdf.derive salt password

  -- `if password and salt:`
  abbrev with_password : Option Text → Option Text → UserModel → UserModel
  with_password (some password) (some salt) u =
      if is_empty password || is_empty salt
      then u
      else record u { password = some (kdf.derive salt password) }
  with_password _ _ u = u

  abbrev with_scopes : UserModel → UserModel
  with_scopes u =
      if u.is_superuser && not (contains (codes "admin:read:write") u.scopes)
      then record u { scopes = u.scopes ++ codes ",admin:r:w" }
      else u

  -- A row that the database does not accept makes `flush` raise `IntegrityError`, and the answer is
  -- `None`.
  unfoldable pub create : UserModel → Option Text → Option Text → Users → Option UserModel × Users
  create u password salt users =
      let um = with_password password salt (with_scopes u) in
      if accepts um users then (some um, users ++ um ∷ []) else (none, users)

  unfoldable pub change_pass : ℕ → Text → Text → Text → Users → Bool × Users
  unfolding encrypt_password
  change_pass now user new_password salt users =
      let obj = get_user user users in
      let pass_ = encrypt_password new_password salt in
      (found obj, assign (rekeyed now pass_) obj users)

  -- `u.password == pass_` is a comparison, and its value is dropped.
  unfoldable pub change_pass_async : ℕ → Text → Text → Text → Users → Users
  change_pass_async now username new_password salt users =
      assign (touched now) (get_user username users) users

  -- The key is missing for a user without a password, and `kdf.verify` raises on it.
  unfoldable pub verify : Text → Text → Option Text → Bool
  verify salt unencrypted none = false
  verify salt unencrypted (some encrypted) = kdf.verify salt unencrypted encrypted

  unfoldable pub verify_password : UserModel → Text → Text → Bool
  unfolding verify
  verify_password user pass_unencrypted salt =
      let verified = verify salt pass_unencrypted user.password in
      if verified && user.is_active then true else false

  -- What follows the lookup of the user: `user is None`, and the password.
  unfoldable pub admit : Text → Text → Option UserModel → Result AuthError UserModel
  admit salt password none = err auth_validation_failed
  admit salt password (some user) =
      let is_valid = verify_password user password salt in
      if is_valid then ok user else err auth_validation_failed

  -- `none` is a body that `UserLogin` does not accept.
  unfoldable pub authenticate : Text → Option UserLogin → Users → Result AuthError UserModel
  authenticate salt none users = err auth_validation_failed
  authenticate salt (some creds) users = admit salt creds.password (get_user creds.username users)
