-- ===== src/Projects/Web.antt =====
-- The handlers of labfunctions/web/projects_bp.py. A handler answers with a status; 500 is that of
-- an exception that nothing catches. `user_id` is the user that `inject_user` looks up.
use labfunctions.Prelude.{ℕ, Bool, List, Option, none, some, if◌then◌else◌}
use labfunctions.Text.{Text, is_empty}
use labfunctions.Effects.{Result, ok, err}
use labfunctions.Types.Projects.{ProjectData, ProjectReq}
use labfunctions.Projects.Agents.{delete_agent, get_agent, get_agent_project, get_agent_list}
use labfunctions.Projects.{
  Db, User, ProjectError, create, list_all, get_by_projectid, delete_by_projectid, create_agent,
  get_private_key,
}

pub data Answer : Type 0 where
  status : ℕ → Answer
  with_project : ℕ → ProjectData → Answer
  with_projects : List ProjectData → Answer
  with_text : ℕ → Text → Answer
  with_texts : List Text → Answer

abbrev pub created : Option ProjectData × Db → Answer × Db
created (none, db) = (status 200, db)
created (some r, db) = (with_project 201 r, db)

unfoldable pub project_create :
    (Text → Text) → Bool → Text → ℕ → Text → ℕ → ProjectReq → Db → Answer × Db
project_create nfkd foreign_keys fresh id random user_id pr db =
    created (create nfkd foreign_keys fresh id random user_id pr db)

abbrev pub listed : Result ProjectError (List ProjectData) → Answer
listed (ok rows) = with_projects rows
listed (err e) = status 500

unfoldable pub project_list : ℕ → Db → Answer
project_list user_id db = listed (list_all (some user_id) db)

-- A project that is not found is answered without a status, which is then 200.
abbrev pub got : Result ProjectError (Option ProjectData) → Answer
got (ok none) = status 200
got (ok (some r)) = with_project 200 r
got (err e) = status 500

unfoldable pub project_get_one : Text → ℕ → Db → Answer
project_get_one projectid user_id db = got (get_by_projectid projectid (some user_id) db)

abbrev pub deleted : Result ProjectError Bool → ℕ
deleted (ok b) = 200
deleted (err e) = 500

-- The session is closed without a commit, which takes the statement back: the tables that a later
-- request sees are those from before.
unfoldable pub project_delete : Bool → Text → Db → Answer × Db
project_delete foreign_keys projectid db =
    (status (deleted (delete_by_projectid foreign_keys projectid db).0), db)

abbrev pub agent_created : Result ProjectError User × Db → Answer × Db
agent_created (ok res, db) = (with_text 201 res.username, db)
agent_created (err e, db) = (status 500, db)

unfoldable pub project_create_user_agent : ℕ → Text → Text → Db → Answer × Db
project_create_user_agent id random projectid db =
    agent_created (create_agent id random projectid db)

unfoldable pub project_delete_user_agent : Text → Text → Db → Answer × Db
project_delete_user_agent projectid agentname db =
    let (b, db') = delete_agent agentname (some projectid) db in (status 200, db')

unfoldable pub project_agents_list : Text → Db → Answer
project_agents_list projectid db = with_texts (get_agent_list projectid db)

abbrev pub token_of : (User → Text) → Result ProjectError (Option User) → Answer
token_of jwt (ok (some agt)) = with_text 200 (jwt agt)
token_of jwt _ = status 500

-- `jwt` makes the token of a user; `None` has no user name.
unfoldable pub project_get_agent_token : (User → Text) → Text → Text → Db → Answer
project_get_agent_token jwt projectid agent db = token_of jwt (get_agent agent (some projectid) db)

abbrev pub last_token_of : (User → Text) → Option User → Answer
last_token_of jwt none = status 404
last_token_of jwt (some agt) = with_text 200 (jwt agt)

unfoldable pub project_get_last_agent_token : (User → Text) → Text → Db → Answer
project_get_last_agent_token jwt projectid db = last_token_of jwt (get_agent_project projectid db)

abbrev pub key_answer : Option Text → Answer
key_answer none = status 200
key_answer (some r) = if is_empty r then status 200 else with_text 200 r

unfoldable pub project_private_key : Text → Db → Answer
project_private_key projectid db = key_answer (get_private_key projectid db)
