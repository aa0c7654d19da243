-- ===== src/Runtimes/Table.antt =====
-- labfunctions/managers/runtimes_mg.py and the handlers of labfunctions/web/runtimes_bp.py: the
-- table of runtimes, with a unique id. `isoformat` prints a time.
pub mod Lookup
use labfunctions.Prelude.{
  ℕ, ◌≡◌, Bool, true, false, not, ◌&&◌, List, [], ◌∷◌, ◌++◌, Option, none, some, map, if◌then◌else◌,
}
use labfunctions.Text.{Text, teq, select, any, is_empty}
use labfunctions.Effects.{Result, ok, err}
use labfunctions.Query.{first, delete_where, order_desc, limit}
use labfunctions.Types.Runtimes.{RuntimeSpec, RuntimeReq, RuntimeData}

pub record RuntimeModel (V : Type 0) : Type 0 where
  pub id : ℕ
  pub runtimeid : Text
  pub runtime_name : Text
  pub docker_name : Text
  pub spec : RuntimeSpec V
  pub project_id : Option Text
  pub version : Text
  pub registry : Option Text
  pub created_at : ℕ

-- The `AttributeError` of `m.project.projectid` for a row whose project was deleted.
pub data RuntimeError : Type 0 where
  attribute_error : RuntimeError

unfoldable pub rid_of : Text → Text → Text → Text
rid_of project_id runtime_name version = project_id ++ b'/' ∷ runtime_name ++ b'/' ∷ version

module _ {V : Type 0} (isoformat : ℕ → Text) where
  unfoldable pub model2runtime : RuntimeModel V → Result RuntimeError (RuntimeData V)
  model2runtime m = elim m.project_id [
    | none ↦ err attribute_error
    | some projectid ↦ ok (record {
      id = some m.id;
      runtimeid = m.runtimeid;
      runtime_name = m.runtime_name;
      docker_name = m.docker_name;
      spec = m.spec;
      project_id = projectid;
      registry = m.registry;
      created_at = some (isoformat m.created_at);
      version = m.version;
    })
  ]

  abbrev pub of_project : Text → RuntimeModel V → Bool
  of_project p r = elim r.project_id [ none ↦ false | some q ↦ teq q p ]

  abbrev pub all_ok :
      List (Result RuntimeError (RuntimeData V)) → Result RuntimeError (List (RuntimeData V))
  all_ok [] = ok []
  all_ok (err e ∷ rs) = err e
  all_ok (ok r ∷ rs) = elim (all_ok rs) [ ok rest ↦ ok (r ∷ rest) | err e ↦ err e ]

  unfoldable pub get_list :
      Text → ℕ → List (RuntimeModel V) → Result RuntimeError (List (RuntimeData V))
  unfolding model2runtime
  get_list projectid lt rows = all_ok (
      map model2runtime
        (limit lt (order_desc (λ r. r.created_at) (select (of_project projectid) rows))))

  -- `RuntimeData(runtimeid=..., **rq.dict())`, and the columns that the database fills in.
  unfoldable pub row_of : ℕ → ℕ → RuntimeReq V → RuntimeModel V
  unfolding rid_of
  row_of id now rq = record {
    id = id;
    runtimeid = rid_of rq.project_id rq.runtime_name rq.version;
    runtime_name = rq.runtime_name;
    docker_name = rq.docker_name;
    spec = rq.spec;
    project_id = some rq.project_id;
    version = rq.version;
    registry = rq.registry;
    created_at = now;
  }

  abbrev pub has_rid : Text → RuntimeModel V → Bool
  has_rid rid r = teq r.runtimeid rid

  -- The constraints that the database checks: the unique id, and the project, of which `known` says
  -- whether the database takes it: with its foreign keys enforced if it has the project, else always.
  unfoldable pub create :
      (Text → Bool) → ℕ → ℕ → RuntimeReq V → List (RuntimeModel V) → Bool × List (RuntimeModel V)
  unfolding row_of rid_of
  create known id now rq rows =
      if known rq.project_id
        && not (any (has_rid (rid_of rq.project_id rq.runtime_name rq.version)) rows)
      then (true, rows ++ row_of id now rq ∷ [])
      else (false, rows)

  abbrev pub shown : Option (RuntimeModel V) → Result RuntimeError (Option (RuntimeData V))
  shown none = ok none
  shown (some m) = elim (model2runtime m) [ ok d ↦ ok (some d) | err e ↦ err e ]

  -- `get_by_rid` and `get_by_rid_sync`.
  unfoldable pub get_by_rid :
      Text → List (RuntimeModel V) → Result RuntimeError (Option (RuntimeData V))
  unfolding model2runtime
  get_by_rid runtimeid rows = shown (first (has_rid runtimeid) rows)

  abbrev pub is_named : Text → Text → RuntimeModel V → Bool
  is_named p name r = of_project p r && teq r.runtime_name name

  abbrev pub is_version : Text → Text → Text → RuntimeModel V → Bool
  is_version p name version r = is_named p name r && teq r.version version

  abbrev pub head : List (RuntimeModel V) → Option (RuntimeModel V)
  head [] = none
  head (r ∷ rs) = some r

  abbrev latest : Text → Text → List (RuntimeModel V) → Option (RuntimeModel V)
  latest p name rows = head (order_desc (λ r. r.created_at) (select (is_named p name) rows))

  -- `if version:`
  unfoldable pub chosen :
      Text → Text → Option Text → List (RuntimeModel V) → Option (RuntimeModel V)
  chosen projectid runtime_name none rows = latest projectid runtime_name rows
  chosen projectid runtime_name (some version) rows =
      if is_empty version
      then latest projectid runtime_name rows
      else first (is_version projectid runtime_name version) rows

  unfoldable pub get_runtime :
      Text
      → Text
      → Option Text
      → List (RuntimeModel V)
      → Result RuntimeError (Option (RuntimeData V))
  unfolding chosen model2runtime
  get_runtime projectid runtime_name version rows =
      shown (chosen projectid runtime_name version rows)

  unfoldable pub delete_by_rid : Text → List (RuntimeModel V) → List (RuntimeModel V)
  delete_by_rid runtimeid rows = delete_where (has_rid runtimeid) rows

  -- The handlers: the status, and what is shown or left.
  abbrev pub list_answer : Result RuntimeError (List (RuntimeData V)) → ℕ × List (RuntimeData V)
  list_answer (ok rows) = (200, rows)
  list_answer (err e) = (500, [])

  unfoldable pub runtimes_list : Text → ℕ → List (RuntimeModel V) → ℕ × List (RuntimeData V)
  unfolding get_list
  runtimes_list projectid lt rows = list_answer (get_list projectid lt rows)

  abbrev pub code_of : Bool × List (RuntimeModel V) → ℕ × List (RuntimeModel V)
  code_of (created, rows) = (if not created then 200 else 201, rows)

  unfoldable pub runtimes_create :
      (Text → Bool)
      → ℕ
      → ℕ
      → Text
      → RuntimeReq V
      → List (RuntimeModel V)
      → ℕ × List (RuntimeModel V)
  unfolding create
  runtimes_create known id now projectid rq rows = code_of (create known id now rq rows)

  unfoldable pub runtimes_delete : Text → Text → List (RuntimeModel V) → ℕ × List (RuntimeModel V)
  unfolding delete_by_rid
  runtimes_delete projectid rid rows = (200, delete_by_rid rid rows)
