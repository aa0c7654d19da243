-- ===== src/Users/Passwords.antt =====
-- Who can log in, and how the operations on the users change that.
use labfunctions.Prelude.{
  ℕ, ◌≡◌, refl, Bool, true, false, ◌&&◌, ◌↔◌, Option, none, some, if◌then◌else◌, arith, ap, ◌∙◌,
  sym, Bool-cases, inl, inr,
}
use labfunctions.Text.{Text, teq, teq_iff, eq_of_teq}
use labfunctions.Effects.{ok, err}
use labfunctions.Security.Types.{UserLogin}
use labfunctions.Security.Auth.{auth_validation_failed}
use labfunctions.Users.{
  UserModel, Users, Kdf, get_user, disable_user, change_pass, change_pass_async, verify_password,
  admit, map_user, encrypt_password, verify, authenticate, disabled, rekeyed, touched,
}
use labfunctions.Users.Table.{get_user-assign}

module _ (kdf : Kdf) (salt : Text) where
  -- Whether a password derives the stored key.
  abbrev has_key : Option Text → Text → Bool
  has_key none p = false
  has_key (some key) p = teq (kdf.derive salt p) key

  verify_key : (p : Text) (o : Option Text) → verify kdf salt p o ≡ has_key o p
  unfolding verify
  verify_key p none = refl
  verify_key p (some key) = kdf.verify_lem salt p key

  verify_password_lem :
      (u : UserModel) (p : Text)
      → verify_password kdf u p salt ≡ (has_key u.password p && u.is_active)
  unfolding verify_password
  verify_password_lem u p = rw (verify_key p u.password) (ground arith)

  has_key_iff : (p : Text) (o : Option Text) → (has_key o p ≡ true) ↔ (o ≡ some (kdf.derive salt p))
  has_key_iff p none = (λ h. ground arith, λ h. ground arith)
  has_key_iff p (some key) = ground (arith, teq_iff (kdf.derive salt p) key)

  admit_iff :
      (p : Text) (o : Option UserModel) (u : UserModel)
      → (admit kdf salt p o ≡ ok u)
        ↔ ((o ≡ some u) × (u.is_active ≡ true) × (u.password ≡ some (kdf.derive salt p)))
  unfolding admit
  admit_iff p none u = (λ h. ground arith, λ h. ground arith)
  admit_iff p (some v) u =
      rw (verify_password_lem v p)
        (ground (arith, has_key_iff p v.password, has_key_iff p u.password))

  -- A login succeeds exactly for a row of the given name that is active and keeps the key derived
  -- from the given password.
  pub authenticate_iff :
      (creds : UserLogin) (users : Users) (u : UserModel)
      → (authenticate kdf salt (some creds) users ≡ ok u) ↔ (
          (get_user creds.username users ≡ some u)
          × (u.is_active ≡ true)
          × (u.password ≡ some (kdf.derive salt creds.password)))
  unfolding authenticate
  authenticate_iff creds users u = admit_iff creds.password (get_user creds.username users) u

  admit-disabled :
      (now : ℕ) (p : Text) (o : Option UserModel)
      → admit kdf salt p (map_user (disabled now) o) ≡ err auth_validation_failed
  unfolding admit
  admit-disabled now p none = refl
  admit-disabled now p (some u) = rw (verify_password_lem (disabled now u) p) (ground arith)

  admit-if :
      (p : Text) (b : Bool) (o o' : Option UserModel)
      → admit kdf salt p (if b then o else o')
        ≡ (if b then admit kdf salt p o else admit kdf salt p o')
  admit-if p true o o' = refl
  admit-if p false o o' = refl

  -- After a user is disabled, no password logs in under its name, and every other login is as
  -- before.
  pub authenticate-disable_user :
      (now : ℕ) (name : Text) (creds : UserLogin) (users : Users)
      → authenticate kdf salt (some creds) (disable_user now name users).1 ≡ (
          if teq name creds.username
          then err auth_validation_failed
          else authenticate kdf salt (some creds) users)
  unfolding authenticate disable_user
  authenticate-disable_user now name creds users =
      ap (admit kdf salt creds.password)
        (get_user-assign (disabled now) (λ u. refl) name users creds.username)
      ∙ rw (admit-if, admit-disabled)

  admit-rekeyed :
      (now : ℕ) (new p : Text) (u : UserModel)
      → u.is_active ≡ true
      → admit kdf salt p (some (rekeyed now (kdf.derive salt new) u)) ≡ (
          if teq (kdf.derive salt p) (kdf.derive salt new)
          then ok (rekeyed now (kdf.derive salt new) u)
          else err auth_validation_failed)
  unfolding admit
  admit-rekeyed now new p u active =
      rw (verify_password_lem (rekeyed now (kdf.derive salt new) u) p) (ground (arith, active))

  -- After the password of an active user is changed with the same salt, exactly the passwords that
  -- derive the new key log in under its name, and every other login is as before.
  pub authenticate-change_pass :
      (now : ℕ) (name new : Text) (creds : UserLogin) (users : Users) (u : UserModel)
      → get_user name users ≡ some u
      → u.is_active ≡ true
      → authenticate kdf salt (some creds) (change_pass kdf now name new salt users).1 ≡ (
          if teq name creds.username
          then if teq (kdf.derive salt creds.password) (kdf.derive salt new)
            then ok (rekeyed now (kdf.derive salt new) u)
            else err auth_validation_failed
          else authenticate kdf salt (some creds) users)
  unfolding authenticate change_pass encrypt_password
  authenticate-change_pass now name new creds users u there active =
      ap (admit kdf salt creds.password)
        (get_user-assign (rekeyed now (kdf.derive salt new)) (λ u. refl) name users creds.username)
      ∙ elim (Bool-cases (teq name creds.username)) [
        | inl e ↦ rw e (
            ap (λ o. admit kdf salt creds.password (map_user (rekeyed now (kdf.derive salt new)) o))
              (ap (λ j. get_user j users) (sym (eq_of_teq name creds.username e)) ∙ there)
            ∙ admit-rekeyed now new creds.password u active)
        | inr e ↦ rw e
      ]

  -- After `change_pass_async` the passwords that log in are the same as before, under every name:
  -- the key of the user is not changed.
  pub authenticate-change_pass_async :
      (now : ℕ) (name new : Text) (creds : UserLogin) (users : Users) (u : UserModel)
      → authenticate kdf salt (some creds) users ≡ ok u
      → (u' : UserModel) × (authenticate kdf salt
            (some creds)
            (change_pass_async kdf now name new salt users)
          ≡ ok u')
        × (u'.password ≡ u.password)
        × (u'.username ≡ u.username)
  unfolding change_pass_async
  authenticate-change_pass_async now name new creds users u h =
      let row = get_user-assign (touched now) (λ u. refl) name users creds.username in
      let (there, active, key) = (authenticate_iff creds users u).0 h in
      let users' = change_pass_async kdf now name new salt users in
      elim (Bool-cases (teq name creds.username)) [
        | inl e ↦ (
          touched now u,
          (authenticate_iff creds users' (touched now u)).1
              (row ∙ rw e (ap (map_user (touched now)) there), active, key),
          refl,
          refl,
        )
        | inr e ↦
            (u, (authenticate_iff creds users' u).1 (row ∙ rw e there, active, key), refl, refl)
      ]
