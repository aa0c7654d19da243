-- ===== src/Stores/Runs/Refine.antt =====
-- A store on files answers as a map does.
use labfunctions.Prelude.{◌≡◌}
use labfunctions.Text.{Text}
use labfunctions.Stores.Files.{FileSystem}
use labfunctions.Stores.Local.{KvLocal}
use labfunctions.Stores.Runs.{Answer, Store}

module _ (fs : FileSystem) (parent : Text → Text) (kv : KvLocal) where
  -- One call answers as the map does, and leaves the files that the map has.
  abbrev Agrees : Answer × fs.State → Answer × Store → Type 0
  Agrees (a, s) (a', m) = (a ≡ a') × (fs.contents s ≡ m)
