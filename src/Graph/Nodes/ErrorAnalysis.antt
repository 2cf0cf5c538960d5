-- ===== src/Graph/Nodes/ErrorAnalysis.antt =====
-- app/graph/nodes/error_analysis.py. The analyzer is a collaborator: its answer is an argument.
use stack_migrate.Base.{
  ℕ, ◌+◌, Bool, true, false, not, ◌&&◌, ◌||◌, List, [], ◌∷◌, map, Option, none, some, Text,
  text_discrete, lookup, keep, any_of, contains, leb, ltb, ◌==◌, if◌then◌else◌,
}
use stack_migrate.State.{
  BudgetState, MigrationTask, TaskStatus, is_succeeded, EditorResult, TestResult, ErrorAnalysis,
  MigrationPhase, LogEntry, Update, no_update, analysis_no_candidates, analysis_budget,
  analysis_failed, analysis_unattributable,
}
use stack_migrate.State.Budget.{is_exhausted, record_call}
use stack_migrate.Graph.Routing.{tasks_by_id}

pub record AnalysisResponse : Type 0 where
  pub analyses : List ErrorAnalysis
  pub unattributable_summary : Text
  pub cost_usd : ℕ
  pub input_tokens : ℕ
  pub output_tokens : ℕ

pub data Analyzed : Type 0 where
  response : AnalysisResponse → Analyzed
  raised : Text → Analyzed

abbrev pub default_max_retry_rounds : ℕ
default_max_retry_rounds = 5

-- `state.get("max_retry_rounds") or max_retry_rounds_default`
abbrev pub effective_max_rounds : ℕ → ℕ
effective_max_rounds n = if n == 0 then default_max_retry_rounds else n

-- `retry_round >= max_rounds`, for the round that this call of the node begins.
unfoldable pub round_cap_hit : ℕ → ℕ → Bool
round_cap_hit retry_round max_retry_rounds =
    leb (effective_max_rounds max_retry_rounds) (retry_round + 1)

unfoldable pub candidate_tasks : List MigrationTask → List EditorResult → List MigrationTask
candidate_tasks tasks results =
    keep (λ t. is_succeeded t.status && contains t.id (map (λ r. r.task_id) results)) tasks

unfoldable pub escalate_all : List MigrationTask → List MigrationTask
escalate_all [] = []
escalate_all (t ∷ ts) = record t { status = TaskStatus.needs_human } ∷ escalate_all ts

-- The decision for one analysis of a candidate.
unfoldable pub retry_or_escalate : Bool → ErrorAnalysis → MigrationTask → MigrationTask
retry_or_escalate cap_hit analysis task = record task {
  status =
      if cap_hit || not analysis.is_retryable || ltb task.max_retries (task.retry_count + 1)
      then TaskStatus.needs_human
      else TaskStatus.retrying;
  retry_count = task.retry_count + 1;
}

-- The `for` loop; an analysis of an id that was not offered is passed over.
unfoldable pub updated_tasks : Bool → List MigrationTask → List ErrorAnalysis → List MigrationTask
updated_tasks cap_hit candidates [] = []
updated_tasks cap_hit candidates (a ∷ more) =
    let rest = updated_tasks cap_hit candidates more in
    elim (lookup text_discrete a.task_id (tasks_by_id candidates)) [
      | none ↦ rest
      | some task ↦ retry_or_escalate cap_hit a task ∷ rest
    ]

abbrev pub is_retrying : TaskStatus → Bool
is_retrying TaskStatus.retrying = true
is_retrying _ = false

abbrev pub unattributed : AnalysisResponse → List ErrorAnalysis → List LogEntry
unattributed r [] = analysis_unattributable r.unattributable_summary ∷ []
unattributed r (a ∷ rest) = []

unfoldable pub after_analyze : BudgetState → ℕ → Bool → List MigrationTask → Analyzed → Update
after_analyze budget retry_round cap_hit candidates (raised exc) = record no_update {
  tasks = escalate_all candidates;
  phase = some MigrationPhase.needs_human;
  retry_round = some (retry_round + 1);
  error_log = analysis_failed exc ∷ [];
}
after_analyze budget retry_round cap_hit candidates (response r) =
    let updated = updated_tasks cap_hit candidates r.analyses in
    record no_update {
      phase = some (
          if any_of (λ t. is_retrying t.status) updated
          then MigrationPhase.editing
          else MigrationPhase.needs_human);
      retry_round = some (retry_round + 1);
      budget = some (record_call budget r.cost_usd true);
      tasks = updated;
      error_log = unattributed r r.analyses;
    }

abbrev pub cannot_run : ℕ → Update
cannot_run retry_round = record no_update {
  phase = some MigrationPhase.needs_human;
  retry_round = some (retry_round + 1);
  error_log = analysis_no_candidates ∷ [];
}

abbrev pub analyze_candidates : BudgetState → ℕ → Bool → ℕ → Analyzed → List MigrationTask → Update
analyze_candidates budget retry_round cap_hit now answer [] = cannot_run retry_round
analyze_candidates budget retry_round cap_hit now answer (t ∷ ts) =
    if is_exhausted budget now
    then record no_update {
      tasks = escalate_all (t ∷ ts);
      phase = some MigrationPhase.needs_human;
      retry_round = some (retry_round + 1);
      error_log = analysis_budget ∷ [];
    }
    else after_analyze budget retry_round cap_hit (t ∷ ts) answer

abbrev pub with_result :
    Option TestResult → BudgetState → ℕ → Bool → ℕ → Analyzed → List MigrationTask → Update
with_result none budget retry_round cap_hit now answer candidates = cannot_run retry_round
with_result (some r) budget retry_round cap_hit now answer candidates =
    analyze_candidates budget retry_round cap_hit now answer candidates

unfoldable pub error_analysis_node :
    Option TestResult
    → List MigrationTask
    → List EditorResult
    → BudgetState
    → (retry_round max_retry_rounds now : ℕ) → Analyzed
    → Update
error_analysis_node result tasks results budget retry_round max_retry_rounds now answer =
    with_result result budget retry_round (round_cap_hit retry_round max_retry_rounds) now answer
      (candidate_tasks tasks results)
