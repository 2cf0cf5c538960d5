-- ===== src/Graph/Nodes/Budget.antt =====
-- app/graph/nodes/budget_reconcile.py and app/graph/nodes/budget_abort.py.
pub mod Ledger
use stack_migrate.Base.{ℕ, Bool, true, false, List, [], ◌∷◌, Option, none, some, drop, length, keep}
use stack_migrate.State.{
  BudgetState, MigrationTask, TaskStatus, MigrationPhase, Update, no_update, run_aborted,
}
use stack_migrate.State.Budget.{record_call, exhausted_reason}

-- `for cost in costs: budget.record_call(cost_usd=cost)`
unfoldable pub record_calls : BudgetState → List ℕ → BudgetState
record_calls b [] = b
record_calls b (cost ∷ costs) = record_calls (record_call b cost true) costs

unfoldable pub budget_reconcile_node : List ℕ → ℕ → BudgetState → Update
budget_reconcile_node deltas consumed budget = record no_update {
  budget = some (record_calls budget (drop consumed deltas));
  budget_deltas_consumed = some (length deltas);
}

-- `_UNFINISHED`
abbrev pub is_unfinished : TaskStatus → Bool
is_unfinished TaskStatus.pending = true
is_unfinished TaskStatus.retrying = true
is_unfinished TaskStatus.in_progress = true
is_unfinished _ = false

unfoldable pub skip_all : List MigrationTask → List MigrationTask
skip_all [] = []
skip_all (t ∷ ts) = record t { status = TaskStatus.skipped } ∷ skip_all ts

unfoldable pub budget_abort_node : List MigrationTask → BudgetState → ℕ → Update
budget_abort_node tasks budget now =
    let skipped = skip_all (keep (λ t. is_unfinished t.status) tasks) in
    record no_update {
      phase = some MigrationPhase.aborted_budget;
      error_log = run_aborted (exhausted_reason budget now) (length skipped) ∷ [];
      tasks = skipped;
    }
