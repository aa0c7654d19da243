-- ===== src/Types/Projects.antt =====
-- labfunctions/types/projects.py.
use labfunctions.Prelude.{List, Option}
use labfunctions.Text.{Text}

pub record ProjectData : Type 0 where
  pub name : Text
  pub projectid : Text
  pub owner : Option Text
  pub agent : Option Text
  pub users : Option (List Text)
  pub description : Option Text
  pub repository : Option Text

pub record ProjectReq : Type 0 where
  pub name : Text
  pub private_key : Text
  pub projectid : Option Text
  pub description : Option Text
  pub repository : Option Text
