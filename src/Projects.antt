-- ===== src/Projects.antt =====
-- labfunctions/managers/projects_mg.py: the tables of projects, of users and of the users of each
-- project. A foreign key of the last one keeps a project while a user belongs to it. `nfkd` is the
-- Unicode normalisation; random texts and the ids of new users are arguments.
mod Tests
pub mod Agents
pub mod Web
pub mod Created
pub mod Uploads
pub mod Builds
use labfunctions.Prelude.{
  ℕ, ◌≡◌, Bool, true, false, not, ◌&&◌, ◌||◌, ◌==◌, List, [], ◌∷◌, ◌++◌, Option, none, some,
  if◌then◌else◌, map,
}
use labfunctions.Text.{Text, codes, teq, any, select, is_empty}
use labfunctions.Dict.{found}
use labfunctions.Effects.{Result, ok, err}
use labfunctions.Query.{first, delete_where}
use labfunctions.Stores.Chunks.{take}
use labfunctions.Types.Projects.{ProjectData, ProjectReq}
use labfunctions.Utils.Filename.{normalize_name}

pub record ProjectModel : Type 0 where
  pub projectid : Text
  pub name : Text
  pub private_key : Text
  pub description : Option Text
  pub repository : Option Text
  pub owner_id : Option ℕ

pub record User : Type 0 where
  pub id : ℕ
  pub username : Text
  pub scopes : Text
  pub is_agent : Bool

pub record Db : Type 0 where
  pub projects : List ProjectModel
  pub users : List User
  pub members : List (Text × ℕ)

-- `IntegrityError`, and the `AttributeError` of a row that is missing.
pub data ProjectError : Type 0 where
  integrity_error attribute_error multiple_results : ProjectError

abbrev pub has_id : ℕ → User → Bool
has_id n u = u.id == n

abbrev pub has_name : Text → User → Bool
has_name name u = teq u.username name

abbrev pub has_projectid : Text → ProjectModel → Bool
has_projectid p r = teq r.projectid p

abbrev pub owned_by : ℕ → ProjectModel → Bool
owned_by n r = elim r.owner_id [ none ↦ false | some i ↦ i == n ]

abbrev pub usernames : List User → List Text
usernames [] = []
usernames (u ∷ us) = u.username ∷ usernames us

abbrev pub belongs : Text → List (Text × ℕ) → User → Bool
belongs p members u = any (λ m. teq m.0 p && m.1 == u.id) members

abbrev pub owner_of : Option ℕ → List User → Option User
owner_of none users = none
owner_of (some n) users = first (has_id n) users

abbrev pub data_of : Db → ProjectModel → Option User → Result ProjectError ProjectData
data_of db obj none = err attribute_error
data_of db obj (some owner) = ok (record {
  name = obj.name;
  projectid = obj.projectid;
  owner = some owner.username;
  agent = none;
  users = some (usernames (select (belongs obj.projectid db.members) db.users));
  description = obj.description;
  repository = none;
})

-- `_model2projectdata`: it is `respository` that is set to the repository, which no field is.
unfoldable pub model2projectdata : Db → ProjectModel → Result ProjectError ProjectData
model2projectdata db obj = data_of db obj (owner_of obj.owner_id db.users)

unfoldable pub get_by_projectid_model : Text → Db → Option ProjectModel
get_by_projectid_model projectid db = first (has_projectid projectid) db.projects

abbrev pub shown : Db → Option ProjectModel → Result ProjectError (Option ProjectData)
shown db none = ok none
shown db (some obj) = elim (model2projectdata db obj) [ ok d ↦ ok (some d) | err e ↦ err e ]

-- `if user_id:`; the ids of users start at 1.
unfoldable pub get_by_projectid : Text → Option ℕ → Db → Result ProjectError (Option ProjectData)
unfolding model2projectdata
get_by_projectid projectid none db = shown db (first (has_projectid projectid) db.projects)
get_by_projectid projectid (some n) db =
    shown db (first (λ r. has_projectid projectid r && owned_by n r) db.projects)

abbrev pub all_ok : List (Result ProjectError ProjectData) → Result ProjectError (List ProjectData)
all_ok [] = ok []
all_ok (err e ∷ rs) = err e
all_ok (ok r ∷ rs) = elim (all_ok rs) [ ok rest ↦ ok (r ∷ rest) | err e ↦ err e ]

unfoldable pub list_all : Option ℕ → Db → Result ProjectError (List ProjectData)
unfolding model2projectdata
list_all none db = all_ok (map (model2projectdata db) db.projects)
list_all (some n) db = all_ok (map (model2projectdata db) (select (owned_by n) db.projects))

-- `_insert_relation_project` for a user that was looked up.
abbrev pub assigned : Option User → Text → Db → Bool × Db
assigned none projectid db = (false, db)
assigned (some um) projectid db =
    (true, record db { members = db.members ++ (projectid, um.id) ∷ [] })

unfoldable pub assign_project : Text → Text → Db → Bool × Db
assign_project username projectid db = assigned (first (has_name username) db.users) projectid db

unfoldable pub agent_name : Text → Text → Text
agent_name projectid random = codes "agt" ++ take 5 projectid ++ b'-' ∷ random

unfoldable pub agent_of : ℕ → Text → Text → User
unfolding agent_name
agent_of id random projectid = record {
  id = id;
  username = agent_name projectid random;
  scopes = codes "agent:rw";
  is_agent = true;
}

abbrev pub with_agent : User → Text → Db → Db
with_agent agent projectid db = record db {
  users = db.users ++ agent ∷ [];
  members = db.members ++ (projectid, agent.id) ∷ [];
}

-- `create_agent` for a project: a project that does not exist is `None`, of which an attribute is
-- set; a name that is taken is refused when the session is flushed.
unfoldable pub create_agent : ℕ → Text → Text → Db → Result ProjectError User × Db
unfolding agent_of
create_agent id random projectid db =
    if not (found (get_by_projectid_model projectid db))
    then (err attribute_error, db)
    else if any (has_name (agent_name projectid random)) db.users
    then (err integrity_error, db)
    else (ok (agent_of id random projectid), with_agent (agent_of id random projectid) projectid db)

module _ (nfkd : Text → Text) where
  -- `_insert`
  unfoldable pub new_project : ℕ → ProjectReq → Text → ProjectModel
  new_project user_id pq projectid = record {
    projectid = projectid;
    name = normalize_name nfkd pq.name;
    private_key = pq.private_key;
    description = pq.description;
    repository = pq.repository;
    owner_id = some user_id;
  }

  abbrev pub clashes : ProjectModel → ProjectModel → Bool
  clashes v r = teq r.projectid v.projectid || teq r.name v.name

  abbrev pub or_random : Text → Option Text → Text
  or_random fresh none = fresh
  or_random fresh (some p) = if is_empty p then fresh else p

  abbrev pub with_project : ProjectModel → ℕ → Db → Db
  with_project row user_id db = record db {
    projects = db.projects ++ row ∷ [];
    members = db.members ++ (row.projectid, user_id) ∷ [];
  }

  abbrev pub created :
      ProjectReq → Text → Db → Result ProjectError User × Db → Option ProjectData × Db
  created pq projectid db (err e, db') = (none, db)
  created pq projectid db (ok agent_user, db') = (
    some (record {
      name = pq.name;
      projectid = projectid;
      owner = none;
      agent = some agent_user.username;
      users = none;
      description = pq.description;
      repository = pq.repository;
    }),
    db',
  )

  -- The constraints of the database on a new row: the unique id and name, and the foreign key of the
  -- owner, if the database enforces it.
  abbrev pub accepts : Bool → ProjectModel → Db → Bool
  accepts foreign_keys row db =
      not (any (clashes row) db.projects)
      && (not foreign_keys || any (λ u. owned_by u.id row) db.users)

  -- The project, its owner and an agent in one transaction; `fresh` is a random project id.
  unfoldable pub create : Bool → Text → ℕ → Text → ℕ → ProjectReq → Db → Option ProjectData × Db
  unfolding new_project create_agent
  create foreign_keys fresh id random user_id pq db =
      let projectid = or_random fresh pq.projectid in
      let row = new_project user_id pq projectid in
      if accepts foreign_keys row db
      then created pq projectid db (create_agent id random projectid (with_project row user_id db))
      else (none, db)

-- The table of the users of a project refers to its row. `foreign_keys` says that the database
-- enforces this, as PostgreSQL does, and SQLite only after a pragma that the program does not use.
unfoldable pub delete_by_projectid : Bool → Text → Db → Result ProjectError Bool × Db
delete_by_projectid foreign_keys projectid db =
    if foreign_keys
      && (any (λ m. teq m.0 projectid) db.members && any (has_projectid projectid) db.projects)
    then (err integrity_error, db)
    else (ok true, record db { projects = delete_where (has_projectid projectid) db.projects })

abbrev pub key_of : Option ProjectModel → Option Text
key_of none = none
key_of (some obj) = some obj.private_key

-- `get_private_key` and `get_private_key_sync`.
unfoldable pub get_private_key : Text → Db → Option Text
get_private_key project_id db = key_of (first (has_projectid project_id) db.projects)
