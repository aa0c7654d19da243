-- ===== src/History.antt =====
-- labfunctions/managers/history_mg.py and the handlers of labfunctions/web/history_bp.py that read
-- and write the table of executions. `isoformat` prints a time; seconds are whole numbers.
mod Tests
pub mod Latest
pub mod Outputs
use labfunctions.Prelude.{
  ℕ, zero, suc, ◌≡◌, Bool, true, false, ◌&&◌, List, [], ◌∷◌, ◌++◌, Option, none, some, map,
  if◌then◌else◌,
}
use labfunctions.Text.{Text, teq, select, codes, is_empty}
use labfunctions.Query.{first, order_desc, limit}
use labfunctions.Types.Core.{ExecutionResult, HistoryResult, ℤ, pos, negsuc}

pub record HistoryModel (V : Type 0) : Type 0 where
  pub wfid : Text
  pub execid : Text
  pub nb_name : Text
  pub result : ExecutionResult V
  pub elapsed_secs : ℕ
  pub status : ℤ
  pub project_id : Option Text
  pub created_at : ℕ

module _ {V : Type 0} (isoformat : ℕ → Text) where
  abbrev pub of_project : Text → HistoryModel V → Bool
  of_project p r = elim r.project_id [ none ↦ false | some q ↦ teq q p ]

  -- `if wfid:`
  abbrev pub is_asked : Text → Option Text → HistoryModel V → Bool
  is_asked p none r = of_project p r
  is_asked p (some w) r = if is_empty w then of_project p r else teq r.wfid w && of_project p r

  -- The rows of the statement: `where`, `order_by(created_at.desc())`, `limit`.
  unfoldable pub last_rows : Text → Option Text → ℕ → List (HistoryModel V) → List (HistoryModel V)
  last_rows projectid wfid lt rows =
      limit lt (order_desc (λ r. r.created_at) (select (is_asked projectid wfid) rows))

  unfoldable pub result_of : HistoryModel V → HistoryResult V
  result_of r = record {
    wfid = r.wfid;
    status = r.status;
    result = some r.result;
    execid = some r.execid;
    created_at = some (isoformat r.created_at);
  }

  unfoldable pub get_last : Text → Option Text → ℕ → List (HistoryModel V) → List (HistoryResult V)
  unfolding last_rows result_of
  get_last projectid wfid lt rows = map result_of (last_rows projectid wfid lt rows)

  abbrev pub shown : Option (HistoryModel V) → Option (HistoryResult V)
  shown none = none
  shown (some model) = some (result_of model)

  unfoldable pub get_one : Text → List (HistoryModel V) → Option (HistoryResult V)
  unfolding result_of
  get_one execid rows = shown (first (λ r. teq r.execid execid) rows)

  unfoldable pub status_of : ExecutionResult V → ℤ
  status_of execution_result = if execution_result.error then negsuc 0 else pos 0

  -- `now` is the default of the column.
  unfoldable pub row_of : ℕ → ExecutionResult V → HistoryModel V
  unfolding status_of
  row_of now execution_result = record {
    wfid = execution_result.wfid;
    execid = execution_result.execid;
    nb_name = execution_result.name;
    result = execution_result;
    elapsed_secs = execution_result.elapsed_secs;
    status = status_of execution_result;
    project_id = some execution_result.projectid;
    created_at = now;
  }

  -- `accepts` says which ids of projects the database takes: with its foreign keys enforced those
  -- of projects that it has, else all of them. A refusal is the `IntegrityError` of `commit`.
  unfoldable pub create :
      (Text → Bool) → ℕ → ExecutionResult V → List (HistoryModel V) → Bool × List (HistoryModel V)
  unfolding row_of
  create accepts now execution_result rows =
      if accepts execution_result.projectid
      then (true, rows ++ row_of now execution_result ∷ [])
      else (false, rows)

  -- The status of an answer, and the rows that it shows.
  abbrev pub answer : List (HistoryResult V) → ℕ × List (HistoryResult V)
  answer [] = (404, [])
  answer (h ∷ hs) = (200, h ∷ hs)

  -- An exception that nothing catches is answered with 500.
  abbrev pub created : Bool × List (HistoryModel V) → ℕ × List (HistoryModel V)
  created (stored, rows) = (if stored then 201 else 500, rows)

  unfoldable pub history_create :
      (Text → Bool) → ℕ → ExecutionResult V → List (HistoryModel V) → ℕ × List (HistoryModel V)
  unfolding create
  history_create accepts now exec_result rows = created (create accepts now exec_result rows)

  unfoldable pub history_get_all : Text → ℕ → List (HistoryModel V) → ℕ × List (HistoryResult V)
  unfolding get_last
  history_get_all projectid lt rows = answer (get_last projectid none lt rows)

  unfoldable pub history_last_job :
      Text → Text → ℕ → List (HistoryModel V) → ℕ × List (HistoryResult V)
  unfolding get_last
  history_last_job wfid projectid lt rows = answer (get_last projectid (some wfid) lt rows)

  abbrev pub one_answer : Option (HistoryResult V) → ℕ × List (HistoryResult V)
  one_answer none = (404, [])
  one_answer (some h) = (200, h ∷ [])

  unfoldable pub history_detail_job :
      Text → Text → List (HistoryModel V) → ℕ × List (HistoryResult V)
  unfolding get_one
  history_detail_job projectid execid rows = one_answer (get_one execid rows)
