-- ===== src/Stores/Memory.antt =====
-- A file system in memory, at which the stores are run.
use labfunctions.Prelude.{◌≡◌, refl, ◌++◌, [], Option, none, some, if◌then◌else◌}
use labfunctions.Text.{Text, codes, teq}
use labfunctions.Dict.{Dict, lookup, insert, lookup-insert}
use labfunctions.Effects.{Result, ok}
use labfunctions.Stores.Chunks.{Bytes}
use labfunctions.Stores.Files.{FileSystem, Done, done, read_result}
use labfunctions.Stores.Local.{KvLocal}

abbrev pub Files : Type 0
Files = Dict Bytes

abbrev pub opened_for : Option Bytes → Text → Files → Result Text Done × Files
opened_for _ p m = (ok done, insert p [] m)

abbrev pub or_empty : Option Bytes → Bytes
or_empty none = []
or_empty (some b) = b

pub contents-write_lem :
    (m : Files) (p f : Text) (a b : Bytes)
    → lookup p m ≡ some a
    → lookup f (insert p (or_empty (lookup p m) ++ b) m)
      ≡ (if teq p f then some (a ++ b) else lookup f m)
contents-write_lem m p f a b h = rw (lookup-insert p f (or_empty (lookup p m) ++ b) m, h)

-- Files in memory, which no path names twice and where no call fails.
abbrev pub memory : FileSystem
memory = record {
  State = Files;
  resolve = λ p. p;
  contents = λ m f. lookup f m;
  no_file = λ p. codes "No such file or directory";
  mkdir = λ m p. (ok done, m);
  open_write = λ m p. (ok done, insert p [] m);
  write = λ m p b. (ok done, insert p (or_empty (lookup p m) ++ b) m);
  read = λ m p. read_result (codes "No such file or directory") (lookup p m);
  contents-mkdir = λ m p f h. refl;
  contents-open_write = λ m p f h. lookup-insert p f [] m;
  contents-write = λ m p f a b there h. contents-write_lem m p f a b there;
  read_lem = λ m p. refl;
}

abbrev pub parent : Text → Text
parent p = []

abbrev pub local : KvLocal
local = record { bucket = codes "b"; root = codes "/r" }
