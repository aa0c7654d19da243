-- ===== src/History/Outputs/Tests.antt =====
-- A run of a notebook that is sent and asked for.
use labfunctions.Prelude.{refl, false, [], ◌∷◌, Option, none, some}
use labfunctions.Text.{Text, codes, teq, has_char}
use labfunctions.Stores.Chunks.{Bytes}
use labfunctions.Stores.Memory.{memory, parent, local}
use labfunctions.Types.Core.{ExecutionResult}
use labfunctions.History.Outputs.{
  history_nb_output, history_output_ok, history_output_fail, history_get_output,
}
use labfunctions.History.Outputs.Kept.{joined, Gives, asked, history_get_output-history_nb_output}

abbrev result : ExecutionResult Text
result = record {
  projectid = codes "p1";
  execid = codes "e";
  wfid = codes "w";
  name = codes "nb";
  params = [];
  input_ = codes "i";
  error = false;
  elapsed_secs = 3;
  created_at = codes "t";
  cluster = none;
  machine = none;
  runtime = none;
  docker_name = none;
  output_name = some (codes "nb.ipynb");
  output_dir = some (codes "out");
  error_dir = none;
  error_msg = none;
}

abbrev open_file : Text → Option Bytes
open_file path = some (123 ∷ 125 ∷ [])

-- The encoding of a text in ASCII.
abbrev same : Text → Bytes
same t = t

abbrev day : Text
day = codes "20220103"

history_get_output-history_nb_output_example : Gives memory parent local (123 ∷ 125 ∷ []) (
    history_get_output memory parent local
      (codes "p1")
      (some (
        asked memory parent local joined
          (λ ps h. refl)
          open_file
          some
          same
          day
          false
          (codes "nb.ipynb")))
      (history_nb_output open_file some same
        (history_output_ok joined memory parent local day)
        (history_output_fail joined memory parent local day)
        result
        []).1)
unfolding history_nb_output history_output_ok labfunctions.Stores.Local.put has_char teq
history_get_output-history_nb_output_example =
    history_get_output-history_nb_output memory parent local joined (λ ps h. refl) open_file some
      same day result (codes "nb.ipynb") (123 ∷ 125 ∷ []) (123 ∷ 125 ∷ []) [] refl refl refl refl
      refl refl refl
