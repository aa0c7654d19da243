-- ===== src/Notebooks/Tests.antt =====
-- Runs of the contexts of notebooks.
use labfunctions.Prelude.{◌≡◌, refl, [], ◌∷◌, ◌++◌, none, some}
use labfunctions.Text.{Text, codes}
use labfunctions.Types.Core.{NbTask, nb_task, ExecutionNbTask}
use labfunctions.Notebooks.Context.{Surroundings, output_name_of, create_notebook_ctx}

abbrev monday : Surroundings Text
monday = record {
  str = λ t. t;
  random_wfid = codes "a1";
  random_execid = codes "b2";
  today = codes "20220103";
  now = codes "2022-01-03T10:00:00";
  version = codes "0.9.0";
  path_join = λ a b. a ++ b;
  show_runtime = λ r. r.docker_name;
}

abbrev task : NbTask Text
task = nb_task (codes "welcome") ((codes "WFID", codes "mine") ∷ (codes "K", codes "v") ∷ [])

abbrev ctx : ExecutionNbTask Text
ctx = create_notebook_ctx monday (codes "p1") task none none (some (codes "w1"))

named : ctx.output_name ≡ codes "w1.welcome.b2.ipynb"
unfolding create_notebook_ctx output_name_of
named = refl
