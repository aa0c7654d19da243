-- ===== src/Redis/Memory.antt =====
-- A Redis in memory: one dictionary for strings and one for sets. It meets the laws, so they can
-- hold, and it runs in the examples.
use labfunctions.Prelude.{
  ◌≡◌, ◌≢◌, refl, not, ◌&&◌, ◌||◌, List, [], ◌∷◌, Option, none, some, if◌then◌else◌, arith,
}
use labfunctions.Text.{Text, teq, teq_iff, member, select}
use labfunctions.Text.Members.{member-select}
use labfunctions.Dict.{Dict, lookup, insert, remove, lookup-insert, lookup-remove}
use labfunctions.Redis.{Redis}

pub record Db : Type 0 where
  pub strings : Dict Text
  pub sets : Dict (List Text)

abbrev pub empty : Db
empty = record { strings = []; sets = [] }

abbrev or_empty : Option (List Text) → List Text
or_empty none = []
or_empty (some xs) = xs

abbrev sinter : Db → Text → List Text
sinter db k = or_empty (lookup k db.sets)

abbrev without : Text → List Text → List Text
without m xs = select (λ x. not (teq x m)) xs

pub get-set_lem :
    (db : Db) (k j v : Text)
    → lookup j (insert k v db.strings) ≡ (if teq k j then some v else lookup j db.strings)
get-set_lem db k j v = lookup-insert k j v db.strings

pub get-delete_lem :
    (db : Db) (k j : Text)
    → lookup j (remove k db.strings) ≡ (if teq k j then none else lookup j db.strings)
get-delete_lem db k j = lookup-remove k j db.strings

pub sinter-delete_lem :
    (db : Db) (k j : Text)
    → k ≢ j
    → or_empty (lookup j (remove k db.sets)) ≡ or_empty (lookup j db.sets)
sinter-delete_lem db k j h = ground (arith, lookup-remove k j db.sets, teq_iff k j)

pub sinter-sadd_lem :
    (db : Db) (k j m x : Text)
    → member x (or_empty (lookup j (insert k (m ∷ sinter db k) db.sets)))
      ≡ (teq k j && teq x m || member x (sinter db j))
unfolding member
sinter-sadd_lem db k j m x =
    ground (arith, lookup-insert k j (m ∷ sinter db k) db.sets, teq_iff k j)

pub sinter-srem_lem :
    (db : Db) (k j m x : Text)
    → member x (or_empty (lookup j (insert k (without m (sinter db k)) db.sets)))
      ≡ (not (teq k j && teq x m) && member x (sinter db j))
sinter-srem_lem db k j m x = ground (
  arith,
  lookup-insert k j (without m (sinter db k)) db.sets,
  teq_iff k j,
  member-select (λ y. not (teq y m)) x (sinter db k),
)

abbrev pub memory : Redis
memory = record {
  State = Db;
  get = λ db k. lookup k db.strings;
  set = λ db k v. record db { strings = insert k v db.strings };
  delete = λ db k. record { strings = remove k db.strings; sets = remove k db.sets };
  sadd = λ db k m. record db { sets = insert k (m ∷ sinter db k) db.sets };
  srem = λ db k m. record db { sets = insert k (without m (sinter db k)) db.sets };
  sinter = sinter;
  get-set = get-set_lem;
  get-delete = get-delete_lem;
  get-sadd = λ db k j m. refl;
  get-srem = λ db k j m. refl;
  sinter-set = λ db k j v h. refl;
  sinter-delete = sinter-delete_lem;
  sinter-sadd = λ db k j m x _. sinter-sadd_lem db k j m x;
  sinter-srem = λ db k j m x _. sinter-srem_lem db k j m x;
}
