-- ===== src/Runtimes/Tests.antt =====
-- A run of a build context.
use labfunctions.Prelude.{ℕ, ◌≡◌, refl, Bool, true, ◌++◌, [], ◌∷◌, none, some}
use labfunctions.Text.{Text, codes, teq, any}
use labfunctions.Types.Runtimes.{RuntimeReq}
use labfunctions.Samples.{spec}
use labfunctions.Effects.{ok}
use labfunctions.Dict.{found}
use labfunctions.Runtimes.Table.{RuntimeModel, rid_of, row_of, chosen, create, get_runtime}
use labfunctions.Runtimes.Table.Lookup.{
  answered, get_runtime-create, is_wanted, is_latest, chosen_latest,
}

abbrev join : Text → Text → Text
join a b = a ++ b'/' ∷ b

abbrev iso : ℕ → Text
iso n = n ∷ []

abbrev known : Text → Bool
known p = true

abbrev wanted : RuntimeReq Text
wanted = record {
  runtime_name = codes "default";
  docker_name = codes "lf/p1-default";
  spec = spec;
  project_id = codes "p1";
  version = codes "2";
  registry = none;
}

abbrev older : RuntimeModel Text
older = record (row_of iso 1 10 wanted) { runtimeid = codes "p1/default/1"; version = codes "1" }

get_runtime-create_example :
    ((create iso known 2 20 wanted (older ∷ [])).0 ≡ true)
    × (get_runtime iso
          (codes "p1")
          (codes "default")
          (some (codes "2"))
          (create iso known 2 20 wanted (older ∷ [])).1
        ≡ ok (some (answered iso 2 20 wanted)))
unfolding rid_of teq row_of
get_runtime-create_example =
    get_runtime-create iso known 2 20 wanted (older ∷ []) refl refl refl refl

chosen_latest_example :
    (found (chosen iso (codes "p1") (codes "default") none (older ∷ row_of iso 2 20 wanted ∷ []))
      ≡ any (is_wanted iso (codes "p1") (codes "default")) (older ∷ row_of iso 2 20 wanted ∷ []))
    × (is_latest iso
          (codes "p1")
          (codes "default")
          (older ∷ row_of iso 2 20 wanted ∷ [])
          (chosen iso (codes "p1") (codes "default") none (older ∷ row_of iso 2 20 wanted ∷ []))
        ≡ true)
chosen_latest_example =
    chosen_latest iso (codes "p1") (codes "default") (older ∷ row_of iso 2 20 wanted ∷ [])
