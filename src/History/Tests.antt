-- ===== src/History/Tests.antt =====
-- Runs of the history.
use labfunctions.Prelude.{
  ℕ, ◌≡◌, refl, Bool, true, false, ◌||◌, if◌then◌else◌, List, [], ◌∷◌, none, some, leb,
}
use labfunctions.Text.{Text, codes, teq, select, all, any, length}
use labfunctions.Types.Core.{ExecutionResult}
use labfunctions.Query.Order.{is_latest_first}
use labfunctions.History.{
  HistoryModel, last_rows, result_of, row_of, get_last, history_create, history_get_all,
}
use labfunctions.History.Latest.{
  count, is_wanted, shown_result, last_rows_lem, history_get_all-history_create, time,
}

abbrev iso : ℕ → Text
iso n = n ∷ []

abbrev execution : Text → Bool → ExecutionResult Text
execution execid error = record {
  projectid = codes "p";
  execid = execid;
  wfid = codes "w";
  name = codes "nb";
  params = [];
  input_ = codes "nb.ipynb";
  error = error;
  elapsed_secs = 3;
  created_at = codes "today";
  cluster = none;
  machine = none;
  runtime = none;
  docker_name = none;
  output_name = none;
  output_dir = none;
  error_dir = none;
  error_msg = none;
}

abbrev table : List (HistoryModel Text)
table =
    row_of iso 5 (execution (codes "a") false)
    ∷ row_of iso 9 (execution (codes "b") true)
    ∷ row_of iso 7 (execution (codes "c") false)
    ∷ []

shown :
    get_last iso (codes "p") (some (codes "w")) 2 table
    ≡ result_of iso (row_of iso 9 (execution (codes "b") true))
      ∷ result_of iso (row_of iso 7 (execution (codes "c") false))
      ∷ []
unfolding get_last last_rows row_of result_of labfunctions.Query.limit labfunctions.Query.order_desc
    select teq
shown = refl

last_rows_lem_example :
    (length (last_rows iso (codes "p") none 2 table) ≡ (
      if leb 2 (count iso (is_wanted iso (codes "p") none) table)
      then 2
      else count iso (is_wanted iso (codes "p") none) table))
    × (all (is_wanted iso (codes "p") none) (last_rows iso (codes "p") none 2 table) ≡ true)
    × (is_latest_first (time iso) (last_rows iso (codes "p") none 2 table) ≡ true)
    × ((others : List (HistoryModel Text)) × ((q : HistoryModel Text → Bool)
          → any q (select (is_wanted iso (codes "p") none) table)
            ≡ (any q (last_rows iso (codes "p") none 2 table) || any q others))
        × (all
              (λ x. all (λ y. leb (time iso y) (time iso x)) others)
              (last_rows iso (codes "p") none 2 table)
            ≡ true))
last_rows_lem_example = last_rows_lem iso (codes "p") none 2 table

-- The projects that the database has.
abbrev known : Text → Bool
known p = teq p (codes "p")

history_get_all-history_create_example :
    ((history_create iso known 12 (execution (codes "d") true) table).0 ≡ 201)
    × (history_get_all iso
          (codes "p")
          2
          (history_create iso known 12 (execution (codes "d") true) table).1
        ≡ (
          200,
          shown_result iso 12 (execution (codes "d") true) ∷ get_last iso (codes "p") none 1 table,
        ))
unfolding row_of teq
history_get_all-history_create_example =
    history_get_all-history_create iso known 12 1 (execution (codes "d") true) table refl refl
