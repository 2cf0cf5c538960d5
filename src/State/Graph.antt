-- ===== src/State/Graph.antt =====
-- app/graph/state/graph_state.py: the state, its reducers, and what a node returns. A key that a
-- node leaves out of its dict is `none` (or the empty list, for a key with an additive reducer).
use stack_migrate.Base.{
  ℕ, Bool, List, [], ◌∷◌, ◌++◌, Option, none, some, Text, text_discrete, values, set_items,
}
use stack_migrate.State.Enums.{MigrationPhase}
use stack_migrate.State.Tasks.{MigrationTask, ErrorAnalysis, EditorResult, TestResult, PrDraft}
use stack_migrate.State.Ir.{ComprehensionResult}
use stack_migrate.State.Budget.{BudgetState}
use stack_migrate.State.Log.{LogEntry}

-- `{t.id: t for t in existing}`, then each new task under its id, then the values.
unfoldable pub merge_task_lists : List MigrationTask → List MigrationTask → List MigrationTask
merge_task_lists existing new =
    values
      (set_items text_discrete (λ t. t.id) new (set_items text_discrete (λ t. t.id) existing []))

pub record MigrationRunConfig : Type 0 where
  pub run_id : Text
  pub source_repo_url : Text
  pub source_ref : Text
  pub source_stack : Text
  pub target_stack : Text
  pub scope_description : Text
  pub github_target_repo : Option Text
  pub require_human_approval_before_pr : Bool
  pub local_checkout_path : Text
  pub target_workspace_path : Text

pub data ApprovalStatus : Type 0 where
  approved rejected : ApprovalStatus

-- The worker supplies `config`, `budget` and `max_retry_rounds`; the other keys start absent, and
-- every reader takes the default that stands here for an absent key. No node writes `error_analyses`.
pub record GraphState : Type 0 where
  pub config : MigrationRunConfig
  pub phase : Option MigrationPhase
  pub comprehension : Option ComprehensionResult
  pub tasks : List MigrationTask
  pub editor_results : List EditorResult
  pub test_results : List TestResult
  pub error_analyses : List ErrorAnalysis
  pub budget_deltas : List ℕ
  pub budget_deltas_consumed : ℕ
  pub aggregated_diff_paths : List Text
  pub full_suite_result : Option TestResult
  pub pr_draft : Option PrDraft
  pub pr_url : Option Text
  pub pr_branch_name : Option Text
  pub approval_status : Option ApprovalStatus
  pub budget : BudgetState
  pub retry_round : ℕ
  pub max_retry_rounds : ℕ
  pub human_feedback : Option Text
  pub error_log : List LogEntry

pub record Update : Type 0 where
  pub phase : Option MigrationPhase
  pub comprehension : Option ComprehensionResult
  pub tasks : List MigrationTask
  pub editor_results : List EditorResult
  pub test_results : List TestResult
  pub error_analyses : List ErrorAnalysis
  pub budget_deltas : List ℕ
  pub budget_deltas_consumed : Option ℕ
  pub aggregated_diff_paths : Option (List Text)
  pub full_suite_result : Option TestResult
  pub pr_draft : Option PrDraft
  pub pr_url : Option Text
  pub pr_branch_name : Option Text
  pub approval_status : Option ApprovalStatus
  pub budget : Option BudgetState
  pub retry_round : Option ℕ
  pub human_feedback : Option (Option Text)
  pub error_log : List LogEntry

-- The empty dict.
abbrev pub no_update : Update
no_update = record {
  phase = none;
  comprehension = none;
  tasks = [];
  editor_results = [];
  test_results = [];
  error_analyses = [];
  budget_deltas = [];
  budget_deltas_consumed = none;
  aggregated_diff_paths = none;
  full_suite_result = none;
  pr_draft = none;
  pr_url = none;
  pr_branch_name = none;
  approval_status = none;
  budget = none;
  retry_round = none;
  human_feedback = none;
  error_log = [];
}

-- Last write wins.
abbrev pub written {ℓ} : {A : Type ℓ} → Option A → A → A
written none old = old
written (some new) old = new

-- A key whose absence reads as `None`.
abbrev pub written_option {ℓ} : {A : Type ℓ} → Option A → Option A → Option A
written_option none old = old
written_option (some new) old = some new

-- One update through the reducers of the annotations.
unfoldable pub apply_update : GraphState → Update → GraphState
apply_update s u = record {
  config = s.config;
  phase = written_option u.phase s.phase;
  comprehension = written_option u.comprehension s.comprehension;
  tasks = merge_task_lists s.tasks u.tasks;
  editor_results = s.editor_results ++ u.editor_results;
  test_results = s.test_results ++ u.test_results;
  error_analyses = s.error_analyses ++ u.error_analyses;
  budget_deltas = s.budget_deltas ++ u.budget_deltas;
  budget_deltas_consumed = written u.budget_deltas_consumed s.budget_deltas_consumed;
  aggregated_diff_paths = written u.aggregated_diff_paths s.aggregated_diff_paths;
  full_suite_result = written_option u.full_suite_result s.full_suite_result;
  pr_draft = written_option u.pr_draft s.pr_draft;
  pr_url = written_option u.pr_url s.pr_url;
  pr_branch_name = written_option u.pr_branch_name s.pr_branch_name;
  approval_status = written_option u.approval_status s.approval_status;
  budget = written u.budget s.budget;
  retry_round = written u.retry_round s.retry_round;
  max_retry_rounds = s.max_retry_rounds;
  human_feedback = written u.human_feedback s.human_feedback;
  error_log = s.error_log ++ u.error_log;
}

-- The updates of the parallel branches of one superstep, in their order.
unfoldable pub apply_updates : GraphState → List Update → GraphState
apply_updates s [] = s
apply_updates s (u ∷ us) = apply_updates (apply_update s u) us
