-- ===== src/Executors/Once.antt =====
-- How often an execution in a container is registered: the executor outside of the container, and
-- the command that runs in it.
use labfunctions.Prelude.{
  ℕ, ◌≡◌, refl, ap, ◌∙◌, Bool, true, false, List, [], ◌∷◌, ◌++◌, append_assoc, Option, none, some,
  if◌then◌else◌,
}
use labfunctions.Text.{Text, codes, is_empty, teq}
use labfunctions.Dict.{Dict, lookup, insert}
use labfunctions.Effects.{Result, ok}
use labfunctions.Types.Core.{ExecutionNbTask, ExecutionResult}
use labfunctions.Executors.{is_filled, Site, result_of, register}
use labfunctions.Executors.Local.{
  Executed, succeeded, failed, raised, exec_local, run, local_exec_env, error_handler,
}
use labfunctions.Executors.Docker.{
  Outcome, exited, Client, Credentials, ExecError, task_var, env_of, build_env, with_tokens,
  run_command, run_with, run_as, registered, docker_exec, reported, with_result,
}

module _ {V : Type 0} (client : Client) (dumps : ExecutionNbTask V → Text)
    (execute : ExecutionNbTask V → Executed)
    (containers_run : Text → Text → Option Text → Dict Text → Site V → Outcome × Site V)
    (logs : Text) (inner : ℕ) where
  -- A container of the image of the task, which is started with the command `lab exec local` and
  -- whose environment has the task, runs this command on it. Nothing is said of other containers.
  abbrev pub RunsTask : ExecutionNbTask V → Type 0
  RunsTask ctx =
      (gpu : Option Text) (env : Dict Text) (s : Site V)
      → lookup task_var env ≡ some (dumps ctx)
      → containers_run ctx.runtime (codes "lab exec local") gpu env s ≡ (
        exited (some (exec_local execute ctx inner s).0) logs,
        (exec_local execute ctx inner s).1,
      )

  -- What is registered for an execution.
  abbrev pub records : ExecutionNbTask V → ℕ → Executed → List (ExecutionResult V)
  records ctx outer succeeded = result_of ctx inner false none ∷ []
  records ctx outer (failed e) =
      result_of ctx inner true (some e) ∷ result_of ctx outer true (some logs) ∷ []
  records ctx outer (raised e) = result_of ctx outer true (some logs) ∷ []

  either :
      (b : Bool) (x y : Site V) (h : List (ExecutionResult V))
      → x.history ≡ h
      → y.history ≡ h
      → (if b then x else y).history ≡ h
  either true x y h p q = p
  either false x y h p q = q

  history-register :
      (r : ExecutionResult V) (s : Site V) → (register r s).history ≡ s.history ++ r ∷ []
  unfolding register
  history-register r s = either (is_filled r.output_name) _ _ (s.history ++ r ∷ []) refl refl

  -- What the command in the container leaves, by the answer of papermill.
  abbrev ran : ExecutionNbTask V → Site V → Executed → ℕ × Site V
  ran ctx s succeeded = (0, register (result_of ctx inner false none) s)
  ran ctx s (failed e) =
      (255, register (result_of ctx inner true (some e)) (error_handler execute ctx s))
  ran ctx s (raised e) = (1, s)

  exec_local_lem :
      (ctx : ExecutionNbTask V) (s : Site V) (o : Executed)
      → execute ctx ≡ o
      → exec_local execute ctx inner s ≡ ran ctx s o
  unfolding exec_local local_exec_env run result_of
  exec_local_lem ctx s succeeded e = rw e
  exec_local_lem ctx s (failed m) e = rw e
  exec_local_lem ctx s (raised m) e = rw e

  env_of_lem :
      (ctx : ExecutionNbTask V) (key : Text)
      → is_empty key ≡ false
      → (env : Dict Text) × (env_of client dumps (some key) ctx ≡ ok env)
        × ((creds : Credentials)
            → lookup task_var (with_tokens client dumps creds env) ≡ some (dumps ctx))
  unfolding lookup insert teq
  env_of_lem ctx [] h = cc
  env_of_lem ctx (c ∷ key) h = (_, refl, λ creds. refl)

  -- The executor, once the container has ended.
  abbrev ended :
      ExecutionNbTask V → ℕ → Outcome × Site V → Result ExecError (ExecutionResult V) × Site V
  ended ctx outer p =
      registered client dumps containers_run false
        (reported client dumps containers_run ctx outer (with_result containers_run p))

  abbrev exited_with : ℕ × Site V → Outcome × Site V
  exited_with (code, s) = (exited (some code) logs, s)

  history-ended :
      (ctx : ExecutionNbTask V) (outer : ℕ) (s : Site V) (o : Executed)
      → (ended ctx outer (exited_with (ran ctx s o))).1.history ≡ s.history ++ records ctx outer o
  unfolding result_of error_handler
  history-ended ctx outer s succeeded = history-register (result_of ctx inner false none) s
  history-ended ctx outer s (raised m) = history-register (result_of ctx outer true (some logs)) s
  history-ended ctx outer s (failed m) =
      let first = result_of ctx inner true (some m) in
      let second = result_of ctx outer true (some logs) in
      history-register second (register first (error_handler execute ctx s))
      ∙ ap (λ h. h ++ second ∷ []) (history-register first (error_handler execute ctx s))
      ∙ append_assoc s.history (first ∷ []) (second ∷ [])

  -- Without DEBUG, with a key and an agent of the project, and a Docker that runs the command `lab
  -- exec local` in the image of the task on the task that stands in the environment: an execution
  -- whose notebook succeeds is registered once; one whose notebook fails is registered twice, first
  -- in the container and then by the executor outside of it; and one of which papermill raises
  -- another exception is registered once, by the executor outside of the container.
  pub history-docker_exec :
      (ctx : ExecutionNbTask V) (outer : ℕ) (s : Site V) (key : Text) (creds : Credentials)
      → RunsTask ctx
      → client.private_key ctx.projectid ≡ some key
      → is_empty key ≡ false
      → client.agent_token ctx.projectid ≡ some creds
      → (docker_exec client dumps containers_run false ctx outer s).1.history
        ≡ s.history ++ records ctx outer (execute ctx)
  unfolding docker_exec labfunctions.Executors.Docker.run build_env run_command
  history-docker_exec ctx outer s key creds runs there filled agent =
      let (env, e, task) = env_of_lem ctx key filled in
      ap
        (λ r.
          (registered client dumps containers_run false
            (run_with client dumps containers_run ctx outer r s)).1.history)
        (ap (λ k. env_of client dumps k ctx) there ∙ e)
      ∙ ap
          (λ o.
            (registered client dumps containers_run false
              (run_as client dumps containers_run ctx outer env o s)).1.history)
          agent
      ∙ ap (λ p. (ended ctx outer p).1.history)
          (runs (some (codes "nvidia")) (with_tokens client dumps creds env) s (task creds)
            ∙ ap exited_with (exec_local_lem ctx s (execute ctx) refl))
      ∙ history-ended ctx outer s (execute ctx)
