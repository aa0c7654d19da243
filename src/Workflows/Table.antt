-- ===== src/Workflows/Table.antt =====
-- What the table of workflows holds.
use labfunctions.Prelude.{◌≡◌, refl, false, List, [], ◌∷◌, none, arith}
use labfunctions.Text.{Text, any}
use labfunctions.Query.{first}
use labfunctions.Workflows.{WorkflowModel, is_row, clashes}

module _ {V : Type 0} where
  pub no_row :
      (v : WorkflowModel V) (p : Text) (rows : List (WorkflowModel V))
      → any (clashes v) rows ≡ false
      → first (is_row p v.wfid) rows ≡ none
  unfolding first
  no_row v p [] h = refl
  no_row v p (r ∷ rows) h = ground (arith, no_row v p rows)
