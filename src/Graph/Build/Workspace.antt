-- ===== src/Graph/Build/Workspace.antt =====
-- No run writes outside its workspace.
use stack_migrate.Base.{ℕ, zero, suc, ◌≡◌, refl, sym, subst, ◌∙◌, List, [], ◌∷◌, Text}
use stack_migrate.State.{FileDiff, apply_update}
use stack_migrate.Sandbox.Workspace.{OsPath, Safe, safe, unsafe, Files, remove_paths, apply_diffs}
use stack_migrate.Sandbox.Confined.{
  SameOutside, Confined, apply_diffs-Confined, remove_paths-Confined,
}
use stack_migrate.Graph.Diffs.Effective.{effective_diffs}
use stack_migrate.Graph.Diffs.Stale.{stale_paths}
use stack_migrate.Graph.Nodes.SandboxTest.{
  Runner, NodeResult, returned, after_apply, after_remove, with_diffs, sandbox_test_node,
}
use stack_migrate.Graph.Build.Machine.{
  Point, comprehension, synthesis, budget_reconcile, sandbox_test, error_analysis, aggregate,
  request_approval, approval_gate, pr_publish, budget_abort, ended, editors, crashed, Env, Machine,
  after_sandbox_node, step_at, step, run,
}
use stack_migrate.Graph.Build.Soundness.{wave-config}

module _ (os : OsPath) (root : Text) (runner : Runner) where
  after_apply-SameOutside :
      (files : Files) (r : Safe (Files × List Text))
      → Confined os root files r
      → SameOutside os root files (after_apply runner files r).0
  after_apply-SameOutside files (unsafe p) h q out = refl
  after_apply-SameOutside files (safe (files', written)) h q out = h q out

  after_remove-SameOutside :
      (diffs : List FileDiff) (files : Files) (r : Safe (Files × List Text))
      → Confined os root files r
      → SameOutside os root files (after_remove os root diffs runner files r).0
  after_remove-SameOutside diffs files (unsafe p) h q out = refl
  after_remove-SameOutside diffs files (safe (files', removed)) h q out =
      after_apply-SameOutside files' (apply_diffs os root diffs files')
        (apply_diffs-Confined os root diffs files') q out
      ∙ h q out

  with_diffs-SameOutside :
      (stale : List Text) (files : Files) (diffs : List FileDiff)
      → SameOutside os root files (with_diffs os root stale runner files diffs).0
  with_diffs-SameOutside stale files [] q out = refl
  with_diffs-SameOutside stale files (d ∷ ds) q out =
      after_remove-SameOutside (d ∷ ds) files (remove_paths os root stale files)
        (remove_paths-Confined os root stale files) q out

module _ (env : Env) where
  -- The workspace root is that of the start, and nothing outside it has changed since.
  abbrev pub StaysInside : Machine → Machine → Type 0
  StaysInside m0 m =
      (m.state.config.target_workspace_path ≡ m0.state.config.target_workspace_path)
      × SameOutside env.os m0.state.config.target_workspace_path m0.files m.files

  then_sandbox-StaysInside :
      (m0 m : Machine) (r : Files × NodeResult)
      → StaysInside m0 m
      → SameOutside env.os m0.state.config.target_workspace_path m.files r.0
      → StaysInside m0 (after_sandbox_node env m r)
  unfolding apply_update
  then_sandbox-StaysInside m0 m (files, NodeResult.raised exc) h k =
      (h.0, λ q out. k q out ∙ h.1 q out)
  then_sandbox-StaysInside m0 m (files, returned u) h k = (h.0, λ q out. k q out ∙ h.1 q out)

  sandbox-SameOutside :
      (m : Machine)
      → SameOutside env.os m.state.config.target_workspace_path m.files
          (sandbox_test_node env.os m.state.config m.state.editor_results m.state.tasks
            (env.run_sandbox m.tick)
            m.files).0
  unfolding sandbox_test_node
  sandbox-SameOutside m =
      with_diffs-SameOutside env.os m.state.config.target_workspace_path (env.run_sandbox m.tick)
        (stale_paths m.state.editor_results m.state.tasks) m.files
        (effective_diffs m.state.editor_results m.state.tasks)

  step_at-StaysInside :
      (m0 m : Machine) (p : Point) → StaysInside m0 m → StaysInside m0 (step_at env p m)
  unfolding step_at apply_update
  step_at-StaysInside m0 m (editors ts) h = (
    subst (λ c. c.target_workspace_path ≡ m0.state.config.target_workspace_path)
        (sym (wave-config env m.state m.state m.tick ts)) h.0,
    h.1,
  )
  step_at-StaysInside m0 m sandbox_test h = then_sandbox-StaysInside m0 m _ h (
      subst
        (λ root.
          SameOutside env.os root m.files
            (sandbox_test_node env.os m.state.config m.state.editor_results m.state.tasks
              (env.run_sandbox m.tick) m.files).0)
        h.0 (sandbox-SameOutside m))
  step_at-StaysInside m0 m comprehension h = h
  step_at-StaysInside m0 m synthesis h = h
  step_at-StaysInside m0 m budget_reconcile h = h
  step_at-StaysInside m0 m error_analysis h = h
  step_at-StaysInside m0 m aggregate h = h
  step_at-StaysInside m0 m request_approval h = h
  step_at-StaysInside m0 m approval_gate h = h
  step_at-StaysInside m0 m pr_publish h = h
  step_at-StaysInside m0 m budget_abort h = h
  step_at-StaysInside m0 m ended h = h
  step_at-StaysInside m0 m (crashed exc) h = h

  run_from-StaysInside : (n : ℕ) (m0 m : Machine) → StaysInside m0 m → StaysInside m0 (run env n m)
  unfolding run step
  run_from-StaysInside zero m0 m h = h
  run_from-StaysInside (suc n) m0 m h =
      run_from-StaysInside n m0 (step_at env m.point m) (step_at-StaysInside m0 m m.point h)

  -- In any run, from any machine and for any number of supersteps, the workspace root stays the same,
  -- and every path outside it keeps its content or its absence, whatever the paths of the generated
  -- files are.
  pub run-StaysInside : (n : ℕ) (m : Machine) → StaysInside m (run env n m)
  run-StaysInside n m = run_from-StaysInside n m m (refl, λ q out. refl)
