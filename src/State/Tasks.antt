-- ===== src/State/Tasks.antt =====
-- app/graph/state/tasks.py and app/graph/state/pr.py. Money is counted in nano-dollars and time
-- in nanoseconds.
use stack_migrate.Base.{ℕ, Bool, List, Option, Text}
use stack_migrate.State.Enums.{TaskStatus, TestOutcome}

pub record TargetFileSpec : Type 0 where
  pub path : Text
  pub purpose : Text

pub record MigrationTask : Type 0 where
  pub id : Text
  pub source_unit_ids : List Text
  pub target_files : List TargetFileSpec
  pub depends_on_task_ids : List Text
  pub synthesis_instructions : Text
  pub status : TaskStatus
  pub retry_count : ℕ
  pub max_retries : ℕ

pub record FileDiff : Type 0 where
  pub path : Text
  pub content : Text
  pub is_new_file : Bool

pub record EditorResult : Type 0 where
  pub task_id : Text
  pub diffs : List FileDiff
  pub editor_notes : Text
  pub tokens_used : ℕ
  pub produced_at : ℕ

pub record TestResult : Type 0 where
  pub task_id : Option Text
  pub outcome : TestOutcome
  pub raw_output : Text
  pub failing_tests : List Text
  pub duration_seconds : ℕ

pub record ErrorAnalysis : Type 0 where
  pub task_id : Text
  pub root_cause_summary : Text
  pub is_retryable : Bool
  pub suggested_fix_instructions : Option Text
  pub requires_replan : Bool

pub record PrDraft : Type 0 where
  pub title : Text
  pub body : Text
  pub branch_name : Text
  pub commit_message : Text
