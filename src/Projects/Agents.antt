-- ===== src/Projects/Agents.antt =====
-- labfunctions/managers/projects_mg.py: the agents of projects, and `get_user_async` of
-- labfunctions/managers/users_mg.py, by which they are deleted.
use labfunctions.Prelude.{
  ℕ, Bool, true, false, ◌&&◌, ◌==◌, List, [], ◌∷◌, Option, none, some, if◌then◌else◌, map,
}
use labfunctions.Text.{Text, any, select, is_empty}
use labfunctions.Effects.{Result, ok, err}
use labfunctions.Query.{first, delete_where}
use labfunctions.Projects.{
  ProjectModel, User, Db, ProjectError, multiple_results, has_name, has_id, owned_by, belongs,
  usernames,
}

-- A row for each project of the user: `scalar_one_or_none` wants at most one.
unfoldable pub get_agent : Text → Option Text → Db → Result ProjectError (Option User)
get_agent agentname projectid db = elim (first (has_name agentname) db.users) [
  | none ↦ ok none
  | some u ↦ elim (select (λ m. m.1 == u.id) db.members) [
    | [] ↦ ok none
    | m ∷ ms ↦ if is_empty ms then ok (some u) else err multiple_results
  ]
]

unfoldable pub get_agent_project : Text → Db → Option User
get_agent_project projectid db = first (λ u. u.is_agent && belongs projectid db.members u) db.users

unfoldable pub get_agent_list : Text → Db → List Text
get_agent_list projectid db =
    usernames (select (λ u. u.is_agent && belongs projectid db.members u) db.users)

abbrev pub is_member : List (Text × ℕ) → User → Bool
is_member members u = any (λ m. m.1 == u.id) members

-- `users_mg.get_user_async` with a project: a user of that name who belongs to some project.
unfoldable pub get_user_async : Text → Option Text → Db → Option User
get_user_async username none db = first (has_name username) db.users
get_user_async username (some p) db =
    if is_empty p
    then first (has_name username) db.users
    else first (λ u. has_name username u && is_member db.members u) db.users

-- The column of the owner is set to NULL when the user is deleted.
abbrev pub disowned : ℕ → ProjectModel → ProjectModel
disowned n r = if owned_by n r then record r { owner_id = none } else r

abbrev pub deleted : Option User → Db → Bool × Db
deleted none db = (false, db)
deleted (some user) db = (
  true,
  record db {
    projects = map (disowned user.id) db.projects;
    users = delete_where (has_id user.id) db.users;
    members = delete_where (λ m. m.1 == user.id) db.members;
  },
)

unfoldable pub delete_agent : Text → Option Text → Db → Bool × Db
unfolding get_user_async
delete_agent agentname projectid db = deleted (get_user_async agentname projectid db) db
