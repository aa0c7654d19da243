-- ===== src/Notebooks/Context/Outputs.antt =====
-- The files that executions write.
use labfunctions.Prelude.{◌≡◌, refl, false, ◌++◌, ◌∷◌, Option}
use labfunctions.Text.{Text, codes, has_char}
use labfunctions.Text.Split.{first-injective, last-injective}
use labfunctions.Types.Core.{NbTask}
use labfunctions.Types.Runtimes.{RuntimeData}
use labfunctions.Notebooks.Context.{Surroundings, output_name_of, create_notebook_ctx}

module _ {V : Type 0} (env : Surroundings V) where
  -- From the name of an output file the workflow, the notebook and the execution can be told, if
  -- the two ids hold no dot.
  pub output_name_of-injective :
      (w w' n n' e e' : Text)
      → has_char b'.' w ≡ false
      → has_char b'.' w' ≡ false
      → has_char b'.' e ≡ false
      → has_char b'.' e' ≡ false
      → output_name_of env w n e ≡ output_name_of env w' n' e'
      → (w ≡ w') × (n ≡ n') × (e ≡ e')
  unfolding output_name_of has_char
  output_name_of-injective w w' n n' e e' hw hw' he he' same =
      let ids = w ++ b'.' ∷ (n ++ b'.' ∷ e) in
      let ids' = w' ++ b'.' ∷ (n' ++ b'.' ∷ e') in
      let (same_ids, _) =
        last-injective b'.' ids ids' (codes "ipynb") (codes "ipynb") same refl refl in
      let (same_w, rest) =
        first-injective b'.' w w' (n ++ b'.' ∷ e) (n' ++ b'.' ∷ e') same_ids hw hw' in
      let (same_n, same_e) = last-injective b'.' n n' e e' rest he he' in (same_w, same_n, same_e)

  -- If two contexts whose ids hold no dot have one output name, they are of one workflow, one
  -- notebook and one execution.
  pub output_name-injective :
      (env' : Surroundings V) (projectid projectid' : Text) (task task' : NbTask V)
      (execid execid' : Option Text) (runtime runtime' : Option (RuntimeData V))
      (wfid wfid' : Option Text)
      → has_char b'.' (create_notebook_ctx env projectid task execid runtime wfid).wfid ≡ false
      → has_char b'.' (create_notebook_ctx env' projectid' task' execid' runtime' wfid').wfid
        ≡ false
      → has_char b'.' (create_notebook_ctx env projectid task execid runtime wfid).execid ≡ false
      → has_char b'.' (create_notebook_ctx env' projectid' task' execid' runtime' wfid').execid
        ≡ false
      → (create_notebook_ctx env projectid task execid runtime wfid).output_name
        ≡ (create_notebook_ctx env' projectid' task' execid' runtime' wfid').output_name
      → ((create_notebook_ctx env projectid task execid runtime wfid).wfid
          ≡ (create_notebook_ctx env' projectid' task' execid' runtime' wfid').wfid)
        × (task.nb_name ≡ task'.nb_name)
        × ((create_notebook_ctx env projectid task execid runtime wfid).execid
            ≡ (create_notebook_ctx env' projectid' task' execid' runtime' wfid').execid)
  unfolding create_notebook_ctx output_name_of
  output_name-injective env' projectid projectid' task task' execid execid' runtime runtime' wfid
        wfid' hw hw' he he' same =
      output_name_of-injective _ _ task.nb_name task'.nb_name _ _ hw hw' he he' same
