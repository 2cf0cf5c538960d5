-- ===== src/Graph/Nodes/Editor.antt =====
-- app/graph/nodes/editor.py. The code generator is a collaborator: its answer is an argument.
use stack_migrate.Base.{ℕ, ◌+◌, List, [], ◌∷◌, Text, ltb, if◌then◌else◌}
use stack_migrate.State.{
  BudgetState, MigrationTask, TaskStatus, FileDiff, Update, no_update, editor_skipped,
  editor_failed,
}
use stack_migrate.State.Budget.{is_exhausted, exhausted_reason}

pub record EditorResponse : Type 0 where
  pub files : List FileDiff
  pub notes : Text
  pub cost_usd : ℕ
  pub input_tokens : ℕ
  pub output_tokens : ℕ

-- `generate` returns, or raises an exception with this `repr`.
pub data Generated : Type 0 where
  response : EditorResponse → Generated
  raised : Text → Generated

-- The readings of the clock in one branch: the test, the message, and the time of the result.
pub record Clock : Type 0 where
  pub test : ℕ
  pub message : ℕ
  pub produced : ℕ

-- The status after a failed attempt, from the new retry count.
unfoldable pub status_after_failure : ℕ → ℕ → TaskStatus
status_after_failure retry_count max_retries =
    if ltb max_retries retry_count then TaskStatus.needs_human else TaskStatus.retrying

unfoldable pub after_generate : MigrationTask → ℕ → Generated → Update
after_generate task produced (raised exc) = record no_update {
  tasks =
      record task {
        status = status_after_failure (task.retry_count + 1) task.max_retries;
        retry_count = task.retry_count + 1;
      }
      ∷ [];
  error_log = editor_failed task.id exc ∷ [];
}
after_generate task produced (response r) = record no_update {
  tasks = record task { status = TaskStatus.succeeded } ∷ [];
  editor_results =
      record {
        task_id = task.id;
        diffs = r.files;
        editor_notes = r.notes;
        tokens_used = r.input_tokens + r.output_tokens;
        produced_at = produced;
      }
      ∷ [];
  budget_deltas = r.cost_usd ∷ [];
}

unfoldable pub editor_node : MigrationTask → BudgetState → Clock → Generated → Update
editor_node task budget clock answer =
    if is_exhausted budget clock.test
    then record no_update {
      tasks = record task { status = TaskStatus.skipped } ∷ [];
      error_log = editor_skipped task.id (exhausted_reason budget clock.message) ∷ [];
    }
    else after_generate task clock.produced answer
