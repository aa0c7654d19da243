-- ===== src/Workflows/Web/Answers.antt =====
-- What a workflow's handlers answer one after the other.
use labfunctions.Prelude.{
  ℕ, ◌≡◌, refl, sym, ap, ◌∙◌, Bool, true, false, not, ◌&&◌, List, [], ◌∷◌, ◌++◌, Option, none, some,
  arith, Bool-cases, inl, inr, if◌then◌else◌,
}
use labfunctions.Text.{Text, teq, teq_iff, teq_refl, eq_of_teq, any}
use labfunctions.Effects.{Result, ok, err}
use labfunctions.Query.{
  first, delete_where, update_where, first-append, first-update_where, first-delete_where,
  first-delete_where_self,
}
use labfunctions.Types.Core.{WorkflowDataWeb, ScheduleData}
use labfunctions.Types.Runtimes.{RuntimeData}
use labfunctions.Notebooks.Context.{Surroundings}
use labfunctions.Workflows.{
  WorkflowModel, WorkflowError, workflow_register_error, integrity_error, is_value, is_row,
  has_wfid, clashes, is_unique, new_row, register, update_rows, delete_wf, assigned, shown,
  model2data, get_by_wfid_prj, get_by_prj_and_wfid_sync,
}
use labfunctions.Workflows.Table.{no_row}
use labfunctions.Workflows.Web.{
  Server, Answer, failed, with_workflow, with_wfid, workflow_create, workflow_update,
  workflow_delete, workflow_get, got, created, updated, has_id,
}

-- Two values of one column are the same.
value-apart :
    (p q w v x : Text) (o : Option Text)
    → (teq p q && teq w v) ≡ false
    → (is_value q o && teq x v) ≡ true
    → (is_value p o && teq x w) ≡ false
value-apart p q w v x none h k = refl
value-apart p q w v x (some y) h k =
    ground (arith, teq_iff p q, teq_iff w v, teq_iff y q, teq_iff y p, teq_iff x v, teq_iff x w)

admitted : {A : Type 0} → (b : Bool) (x y : A) → b ≡ true → (if b then x else y) ≡ x
admitted true x y h = refl
admitted false x y h = cc

module _ {V : Type 0} where
  -- What `workflow_get` answers about a row.
  abbrev pub answer_of : Option (WorkflowModel V) → Answer V
  answer_of o = got (shown o)

  -- `workflow_get` does not find a workflow that is deleted any more, and what it answers about every
  -- other one is as before. Nothing is said of the periodic jobs.
  pub workflow_get-workflow_delete :
      (p q w v : Text) (s : Server V)
      → workflow_get q v (workflow_delete p w s).1
        ≡ (if teq p q && teq w v then failed 404 else workflow_get q v s)
  unfolding workflow_get workflow_delete get_by_wfid_prj delete_wf
  workflow_get-workflow_delete p q w v s = elim (Bool-cases (teq p q && teq w v)) [
    | inl e ↦ rw e (
        ap answer_of (
          ap (λ x. first (is_row x v) (delete_where (is_row p w) s.rows))
            (sym (eq_of_teq p q (ground (arith, e))))
          ∙ ap (λ x. first (is_row p x) (delete_where (is_row p w) s.rows))
              (sym (eq_of_teq w v (ground (arith, e))))
          ∙ first-delete_where_self (is_row p w) s.rows))
    | inr e ↦ rw e (
        ap answer_of (
          first-delete_where (is_row q v) (is_row p w)
            (λ r k. value-apart p q w v r.wfid r.project_id e k) s.rows))
  ]

module _ {V : Type 0} (env : Surroundings V) (known : Text → Bool)
    (get_runtime : Text → Text → Option Text → Option (RuntimeData V)) where
  -- What `workflow_get` answers about the row that a request makes.
  abbrev pub made : Text → WorkflowDataWeb V → Option ScheduleData → Answer V
  made fresh wfd none = failed 500
  made fresh wfd (some schedule) =
      with_workflow (record wfd { wfid = some fresh; schedule = some schedule })

  shown-row :
      (now : ℕ) (fresh p : Text) (wfd : WorkflowDataWeb V) (o : Option ScheduleData)
      → answer_of (some (record (new_row now fresh p wfd) { schedule = o })) ≡ made fresh wfd o
  unfolding model2data
  shown-row now fresh p wfd none = refl
  shown-row now fresh p wfd (some schedule) = refl

  -- The rows behind a new one that has an id of its own.
  pub first-new_row :
      (now : ℕ) (fresh p : Text) (wfd : WorkflowDataWeb V) (rows : List (WorkflowModel V))
      → any (clashes (new_row now fresh p wfd)) rows ≡ false
      → first (is_row p fresh) (rows ++ new_row now fresh p wfd ∷ [])
        ≡ some (new_row now fresh p wfd)
  unfolding first
  first-new_row now fresh p wfd rows new =
      first-append (is_row p fresh) rows (new_row now fresh p wfd ∷ [])
      ∙ rw (no_row (new_row now fresh p wfd) p rows new) (rw (teq_refl p, teq_refl fresh))

  -- A workflow that is created in a project that exists, with an id and an alias that no row of the
  -- table has, is answered with its id; it is then found under this id, as it was sent, when it
  -- has a schedule, and the request for it fails with an internal error when it has none.
  pub workflow_get-workflow_create :
      (now : ℕ) (fresh random p : Text) (wfd : WorkflowDataWeb V) (s : Server V)
      → known p ≡ true
      → any (clashes (new_row now fresh p wfd)) s.rows ≡ false
      → ((workflow_create env known get_runtime now fresh random p (some wfd) s).0
          ≡ with_wfid 201 (some fresh))
        × (workflow_get p fresh
              (workflow_create env known get_runtime now fresh random p (some wfd) s).1
            ≡ made fresh wfd wfd.schedule)
  unfolding workflow_create register workflow_get get_by_wfid_prj
  workflow_get-workflow_create now fresh random p wfd s there new =
      let row = new_row now fresh p wfd in
      let e =
        admitted (known p && not (any (clashes row) s.rows)) (ok (some fresh), s.rows ++ row ∷ [])
          (err workflow_register_error, s.rows) (ground (arith, there, new)) in
      (
        ap (λ x. (created env known get_runtime random p wfd s x).0) e,
        ap (λ x. workflow_get p fresh (created env known get_runtime random p wfd s x).1) e
            ∙ ap answer_of (first-new_row now fresh p wfd s.rows new)
            ∙ shown-row now fresh p wfd wfd.schedule,
      )

  of_update :
      (now : ℕ) (w q v : Text) (wfd : WorkflowDataWeb V) (rows : List (WorkflowModel V))
      → first (is_row q v) (update_where (has_wfid w) (assigned now wfd) rows)
        ≡ (elim (first (is_row q v) rows) [
          | none ↦ none
          | some r ↦ some (if has_wfid w r then assigned now wfd r else r)
        ])
  of_update now w q v wfd rows =
      first-update_where (is_row q v) (has_wfid w) (assigned now wfd) (λ r. refl) rows

  -- An update with the id of a workflow, that leaves the keys unique, is answered with the id, and
  -- changes the row of this id in whichever project it is, not only in the project `p` of the
  -- request; other rows stay.
  pub workflow_update_any_project :
      (now : ℕ) (fresh random p q v w : Text) (c : ℕ) (wfd : WorkflowDataWeb V) (s : Server V)
      → wfd.wfid ≡ some (c ∷ w)
      → is_unique (update_rows now (some (c ∷ w)) p wfd s.rows) ≡ true
      → ((workflow_update env known get_runtime now fresh random p (some wfd) s).0
          ≡ with_wfid 201 (some (c ∷ w)))
        × (get_by_prj_and_wfid_sync q v
              (workflow_update env known get_runtime now fresh random p (some wfd) s).1.rows
            ≡ (elim (get_by_prj_and_wfid_sync q v s.rows) [
              | none ↦ none
              | some r ↦ some (if has_wfid (c ∷ w) r then assigned now wfd r else r)
            ]))
  unfolding workflow_update register get_by_prj_and_wfid_sync update_rows
  workflow_update_any_project now fresh random p q v w c wfd s named unique =
      let rows' = update_where (has_wfid (c ∷ w)) (assigned now wfd) s.rows in
      let e = ap (has_id) named in
      let keys = (λ (o : Option Text).
        let rows = update_rows now o p wfd s.rows in
        if◌then◌else◌ {A = Result WorkflowError (Option Text) × List (WorkflowModel V)}
          (is_unique rows) (ok o, rows) (err integrity_error, s.rows)) in
      let reg =
        ap keys named
        ∙ admitted (is_unique rows') (ok (some (c ∷ w)), rows') (err integrity_error, s.rows)
            unique in
      let all =
        admitted (has_id wfd.wfid) _ (failed 400, s) e
        ∙ ap (λ x. updated env known get_runtime random p wfd s x) reg in
      (
        ap (λ x. x.0) all,
        ap (λ x. first (is_row q v) x.1.rows) all ∙ of_update now (c ∷ w) q v wfd s.rows,
      )
