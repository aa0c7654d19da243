-- ===== src/Projects/Tests.antt =====
-- A run of the projects.
use labfunctions.Prelude.{false, [], ◌∷◌, none, some}
use labfunctions.Text.{Text, codes}
use labfunctions.Types.Projects.{ProjectReq}
use labfunctions.Projects.{User, Db}

abbrev ana : User
ana = record { id = 1; username = codes "ana"; scopes = codes "user:r"; is_agent = false }

abbrev nothing : Db
nothing = record { projects = []; users = ana ∷ []; members = [] }

abbrev wanted : ProjectReq
wanted = record {
  name = codes "Lab";
  private_key = codes "k";
  projectid = none;
  description = none;
  repository = some (codes "git");
}

abbrev same : Text → Text
same t = t
