-- ===== src/Users/Table.antt =====
-- What the table of users holds after each operation.
use labfunctions.Prelude.{
  ◌≡◌, refl, [], ◌∷◌, ◌++◌, Option, none, some, if◌then◌else◌, arith, ◌∙◌, ap,
}
use labfunctions.Text.{Text, teq, teq_iff}
use labfunctions.Dict.{found}
use labfunctions.Users.{UserModel, Users, get_user, save, assign, map_user}

-- A row that replaces the one of its name, if there is one.
abbrev pub replaced : UserModel → Option UserModel → Option UserModel
replaced u none = none
replaced u (some v) = some u

pub get_user-save :
    (j : Text) (u : UserModel) (users : Users)
    → get_user j (save u users)
      ≡ (if teq u.username j then replaced u (get_user j users) else get_user j users)
unfolding get_user save
get_user-save j u [] = ground arith
get_user-save j u (v ∷ users) = ground (
  arith,
  teq_iff u.username j,
  teq_iff v.username u.username,
  teq_iff v.username j,
  get_user-save j u users,
)

pub get_user-username :
    (j : Text) (users : Users) (u : UserModel) → get_user j users ≡ some u → u.username ≡ j
unfolding get_user
get_user-username j [] u h = cc
get_user-username j (v ∷ users) u h =
    ground (arith, teq_iff v.username j, get_user-username j users u)

pub get_user-append :
    (j : Text) (users : Users) (u : UserModel)
    → get_user j (users ++ u ∷ []) ≡ (
        if found (get_user j users)
        then get_user j users
        else if teq u.username j
        then some u
        else none)
unfolding get_user
get_user-append j [] u = ground arith
get_user-append j (v ∷ users) u = ground (arith, get_user-append j users u)

module _ (f : UserModel → UserModel) (keeps : (u : UserModel) → (f u).username ≡ u.username)
    (name : Text) (users : Users) where
  get_user-chosen :
      (j x : Text) (v : UserModel)
      → x ≡ name
      → map_user f (get_user name users) ≡ some v
      → (if teq x j then replaced v (get_user j users) else get_user j users)
        ≡ (if teq name j then map_user f (get_user j users) else get_user j users)
  get_user-chosen j x v same made = ground (arith, teq_iff name j)

  get_user-assign_of :
      (j : Text) (o : Option UserModel)
      → get_user name users ≡ o
      → get_user j (assign f o users)
        ≡ (if teq name j then map_user f (get_user j users) else get_user j users)
  get_user-assign_of j none e = ground (arith, teq_iff name j, e)
  get_user-assign_of j (some u) e =
      get_user-save j (f u) users
      ∙ get_user-chosen j (f u).username (f u) (keeps u ∙ get_user-username name users u e)
          (ap (map_user f) e)

  -- The row of a name is changed, the others are as before.
  pub get_user-assign :
      (j : Text)
      → get_user j (assign f (get_user name users) users)
        ≡ (if teq name j then map_user f (get_user j users) else get_user j users)
  get_user-assign j = get_user-assign_of j (get_user name users) refl
