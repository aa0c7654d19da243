-- ===== src/Projects/Created.antt =====
-- What is answered about a project that was created.
use labfunctions.Prelude.{ℕ, Option, none, some}
use labfunctions.Text.{Text, select}
use labfunctions.Effects.{Result, ok, err}
use labfunctions.Types.Projects.{ProjectData, ProjectReq}
use labfunctions.Utils.Filename.{normalize_name}
use labfunctions.Projects.{
  ProjectModel, User, Db, usernames, belongs, data_of, new_project, or_random, agent_name, agent_of,
  with_agent, with_project, ProjectError, attribute_error,
}

module _ (nfkd : Text → Text) (fresh : Text) (id : ℕ) (random : Text) (user_id : ℕ)
    (pq : ProjectReq) (db : Db) where
  abbrev pub pid : Text
  pid = or_random nfkd fresh pq.projectid

  abbrev pub row : ProjectModel
  row = new_project nfkd user_id pq pid

  -- The tables with the project, its owner and its agent.
  abbrev pub db_with : Db
  db_with = with_agent (agent_of id random pid) pid (with_project nfkd row user_id db)

  -- What `create` gives back.
  abbrev pub created_data : ProjectData
  created_data = record {
    name = pq.name;
    projectid = pid;
    owner = none;
    agent = some (agent_name pid random);
    users = none;
    description = pq.description;
    repository = pq.repository;
  }

  -- What the owner is shown: the stored name, and no repository.
  abbrev pub shown_data : User → ProjectData
  shown_data owner = record {
    name = normalize_name nfkd pq.name;
    projectid = pid;
    owner = some owner.username;
    agent = none;
    users = some (usernames (select (belongs pid db_with.members) db_with.users));
    description = pq.description;
    repository = none;
  }

  abbrev shown_of : Option User → Result ProjectError (Option ProjectData)
  shown_of o = elim (data_of db_with row o) [ ok d ↦ ok (some d) | err e ↦ err e ]
