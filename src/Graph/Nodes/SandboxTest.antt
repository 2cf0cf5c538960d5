-- ===== src/Graph/Nodes/SandboxTest.antt =====
-- app/graph/nodes/sandbox_test.py. The node returns the files of the workspace, and its update or the
-- text of an exception that escapes from it; the sandbox runner is a collaborator, given the files.
use stack_migrate.Base.{List, [], ◌∷◌, some, Text, if◌then◌else◌}
use stack_migrate.State.{
  MigrationPhase, EditorResult, MigrationTask, MigrationRunConfig, FileDiff, TestResult, is_passed,
  Update, no_update, sandbox_skipped, sandbox_unsafe,
}
use stack_migrate.Sandbox.Workspace.{OsPath, Files, Safe, safe, unsafe, remove_paths, apply_diffs}
use stack_migrate.Graph.Diffs.Effective.{effective_diffs}
use stack_migrate.Graph.Diffs.Stale.{stale_paths}

-- What comes after the writing of the files: `SandboxRunner.run` returns the test result of its run, or an
-- exception escapes from it, or from the lookup of the test adapter before it.
pub data SandboxRun : Type 0 where
  finished : TestResult → SandboxRun
  raised : Text → SandboxRun

abbrev pub Runner : Type 0
Runner = Files → SandboxRun

pub data NodeResult : Type 0 where
  returned : Update → NodeResult
  raised : Text → NodeResult

abbrev pub refused : Text → NodeResult
refused path =
    returned (record no_update {
      phase = some MigrationPhase.failed;
      error_log = sandbox_unsafe path ∷ [];
    })

unfoldable pub after_run : SandboxRun → NodeResult
after_run (SandboxRun.raised exc) = NodeResult.raised exc
after_run (finished result) = returned (record no_update {
  test_results = result ∷ [];
  full_suite_result = some result;
  phase = some (
      if is_passed result.outcome
      then MigrationPhase.aggregating
      else MigrationPhase.error_analysis);
})

abbrev pub after_apply : Runner → Files → Safe (Files × List Text) → Files × NodeResult
after_apply runner files (unsafe p) = (files, refused p)
after_apply runner files (safe (files', written)) = (files', after_run (runner files'))

abbrev pub after_remove :
    OsPath → Text → List FileDiff → Runner → Files → Safe (Files × List Text) → Files × NodeResult
after_remove os root diffs runner files (unsafe p) = (files, refused p)
after_remove os root diffs runner files (safe (files', removed)) =
    after_apply runner files' (apply_diffs os root diffs files')

abbrev pub with_diffs :
    OsPath → Text → List Text → Runner → Files → List FileDiff → Files × NodeResult
with_diffs os root stale runner files [] = (
  files,
  returned (record no_update {
    phase = some MigrationPhase.error_analysis;
    error_log = sandbox_skipped ∷ [];
  }),
)
with_diffs os root stale runner files (d ∷ ds) =
    after_remove os root (d ∷ ds) runner files (remove_paths os root stale files)

unfoldable pub sandbox_test_node :
    OsPath
    → MigrationRunConfig
    → List EditorResult
    → List MigrationTask
    → Runner
    → Files
    → Files × NodeResult
sandbox_test_node os config results tasks runner files =
    with_diffs os config.target_workspace_path (stale_paths results tasks) runner files
      (effective_diffs results tasks)
