-- ===== src/State/Log.antt =====
-- The entries of `error_log`: a constructor for each message of the nodes, with the values that the
-- message prints. An exception is the text of its `repr`.
use stack_migrate.Base.{ℕ, Option, Text}
use stack_migrate.Vcs.Paths.{PathProblem}
use stack_migrate.State.Budget.{Reason}

pub data LogEntry : Type 0 where
  comprehension_skipped : LogEntry
  extraction_budget : (path : Text) (files_skipped : ℕ) → LogEntry
  extraction_failed : (path exc : Text) → LogEntry
  synthesis_skipped : LogEntry
  editor_skipped : (task : Text) (reason : Option Reason) → LogEntry
  editor_failed : (task exc : Text) → LogEntry
  sandbox_skipped : LogEntry
  sandbox_unsafe : (path : Text) → LogEntry
  analysis_no_candidates : LogEntry
  analysis_budget : LogEntry
  analysis_failed : (exc : Text) → LogEntry
  analysis_unattributable : (summary : Text) → LogEntry
  aggregate_empty : LogEntry
  aggregate_unpublishable : (path : Text) (problem : PathProblem) → LogEntry
  pr_rejected : (feedback : Option Text) → LogEntry
  publish_no_repo : LogEntry
  publish_unapproved : LogEntry
  publish_failed : (exc : Text) → LogEntry
  run_aborted : (reason : Option Reason) (skipped : ℕ) → LogEntry
