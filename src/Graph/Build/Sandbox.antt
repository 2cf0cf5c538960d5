-- ===== src/Graph/Build/Sandbox.antt =====
-- What the sandbox node returns.
use stack_migrate.Base.{ℕ, ◌≡◌, refl, true, List, [], ◌∷◌, Option, none, some, Text}
use stack_migrate.State.{
  MigrationTask, EditorResult, MigrationRunConfig, FileDiff, TestResult, is_passed,
}
use stack_migrate.Graph.Diffs.Effective.{effective_diffs}
use stack_migrate.Graph.Build.Machine.{Env}
use stack_migrate.Sandbox.Workspace.{Files, Safe, safe, unsafe, remove_paths, apply_diffs}
use stack_migrate.Graph.Nodes.SandboxTest.{
  SandboxRun, finished, NodeResult, returned, after_run, after_apply, after_remove, with_diffs,
  sandbox_test_node,
}

-- The diffs were written to the workspace and the suite passed on the files that it then held.
abbrev pub Tested : Env → Text → List FileDiff → Files → Type 0
Tested env root diffs files =
    (n : ℕ) × (r : TestResult) × (env.run_sandbox n files ≡ finished r)
    × (is_passed r.outcome ≡ true)
    × (before : Files) × (written : List Text) × (apply_diffs env.os root diffs before
        ≡ safe (files, written))

-- A result of the suite that is recorded was returned for the files that the workspace holds, after
-- the diffs were written to it.
abbrev pub RunOf : Env → Text → List FileDiff → Files → Option TestResult → Type 0
RunOf env root diffs files none = Unit
RunOf env root diffs files (some r) =
    (n : ℕ) × (env.run_sandbox n files ≡ finished r)
    × (before : Files) × (written : List Text) × (apply_diffs env.os root diffs before
        ≡ safe (files, written))

abbrev pub SandboxResult : Env → Text → List FileDiff → Files × NodeResult → Type 0
SandboxResult env root diffs (files, returned u) =
    (u.approval_status ≡ none)
    × (u.tasks ≡ [])
    × (u.editor_results ≡ [])
    × RunOf env root diffs files u.full_suite_result
SandboxResult env root diffs (files, NodeResult.raised exc) = Unit

module _ (env : Env) (root : Text) (n : ℕ) where
  after_apply-SandboxResult :
      (diffs : List FileDiff) (before : Files) (r : Safe (Files × List Text))
      → apply_diffs env.os root diffs before ≡ r
      → SandboxResult env root diffs (after_apply (env.run_sandbox n) before r)
  unfolding after_run
  after_apply-SandboxResult diffs before (unsafe p) e = (refl, refl, refl, tt)
  after_apply-SandboxResult diffs before (safe (files, written)) e =
      go (env.run_sandbox n files) refl
    where
      go :
          (run : SandboxRun)
          → env.run_sandbox n files ≡ run
          → SandboxResult env root diffs (files, after_run run)
      go (finished r) h = (refl, refl, refl, (n, h, before, written, e))
      go (SandboxRun.raised exc) h = tt

  after_remove-SandboxResult :
      (diffs : List FileDiff) (files : Files) (r : Safe (Files × List Text))
      → SandboxResult env root diffs (after_remove env.os root diffs (env.run_sandbox n) files r)
  after_remove-SandboxResult diffs files (unsafe p) = (refl, refl, refl, tt)
  after_remove-SandboxResult diffs files (safe (files', removed)) =
      after_apply-SandboxResult diffs files' (apply_diffs env.os root diffs files') refl

  with_diffs-SandboxResult :
      (stale : List Text) (files : Files) (diffs : List FileDiff)
      → SandboxResult env root diffs (with_diffs env.os root stale (env.run_sandbox n) files diffs)
  with_diffs-SandboxResult stale files [] = (refl, refl, refl, tt)
  with_diffs-SandboxResult stale files (d ∷ ds) =
      after_remove-SandboxResult (d ∷ ds) files (remove_paths env.os root stale files)

pub sandbox_test_node-SandboxResult :
    (env : Env) (config : MigrationRunConfig) (results : List EditorResult)
    (tasks : List MigrationTask) (n : ℕ) (files : Files)
    → SandboxResult env config.target_workspace_path
        (effective_diffs results tasks)
        (sandbox_test_node env.os config results tasks (env.run_sandbox n) files)
unfolding sandbox_test_node
sandbox_test_node-SandboxResult env config results tasks n files =
    with_diffs-SandboxResult env config.target_workspace_path n _ files
      (effective_diffs results tasks)
