-- ===== src/State/Enums.antt =====
-- app/graph/state/enums.py
use stack_migrate.Base.{Bool, true, false}

pub data SemanticUnitKind : Type 0 where
  endpoint service data_model repository middleware config utility : SemanticUnitKind

pub data TaskStatus : Type 0 where
  pending in_progress succeeded failed retrying skipped needs_human : TaskStatus

pub data TestOutcome : Type 0 where
  passed failed error timeout not_run : TestOutcome

pub data MigrationPhase : Type 0 where
  comprehension synthesis_planning editing testing error_analysis aggregating : MigrationPhase
  awaiting_approval pr_generation done rejected failed aborted_budget needs_human : MigrationPhase

-- `status == TaskStatus.SUCCEEDED`
abbrev pub is_succeeded : TaskStatus → Bool
is_succeeded TaskStatus.succeeded = true
is_succeeded _ = false

-- `outcome == TestOutcome.PASSED`
abbrev pub is_passed : TestOutcome → Bool
is_passed TestOutcome.passed = true
is_passed _ = false
