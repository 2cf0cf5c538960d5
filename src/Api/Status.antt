-- ===== src/Api/Status.antt =====
-- The status endpoint of app/api/app.py, on the run's checkpoint. `_field` reads a key of the models;
-- an enum stands for its value.
pub mod Tail
use stack_migrate.Base.{
  ℕ, ◌-◌, Bool, true, false, ◌&&◌, List, [], ◌∷◌, map, Option, none, some, Text, length, drop,
}
use stack_migrate.State.{
  MigrationPhase, MigrationTask, TaskStatus, TestResult, TestOutcome, PrDraft, GraphState,
  ApprovalStatus, LogEntry,
}
use stack_migrate.Graph.Build.Machine.{Machine}
use stack_migrate.Api.{is_awaiting_approval}

pub record TaskSummary : Type 0 where
  pub id : Text
  pub status : TaskStatus
  pub target_files : List Text
  pub retry_count : ℕ

pub record PrDraftSummary : Type 0 where
  pub title : Text
  pub branch_name : Text

-- What a reviewer needs to decide on a run that is paused at the approval gate.
pub record PendingApproval : Type 0 where
  pub title : Text
  pub body : Text
  pub branch_name : Text
  pub files : List Text

pub record MigrationStatusResponse : Type 0 where
  pub run_id : Text
  pub phase : Option MigrationPhase
  pub tasks : List TaskSummary
  pub budget_spent_usd : ℕ
  pub budget_max_usd : ℕ
  pub budget_llm_calls_made : ℕ
  pub budget_max_llm_calls : ℕ
  pub budget_max_wall_clock_seconds : ℕ
  pub full_suite_outcome : Option TestOutcome
  pub pr_draft : Option PrDraftSummary
  pub pr_url : Option Text
  pub approval_status : Option ApprovalStatus
  pub human_feedback : Option Text
  pub pending_approval : Option PendingApproval
  pub error_log_tail : List LogEntry

abbrev pub task_summary : MigrationTask → TaskSummary
task_summary t = record {
  id = t.id;
  status = t.status;
  target_files = map (λ f. f.path) t.target_files;
  retry_count = t.retry_count;
}

abbrev pub draft_summary : Option PrDraft → Option PrDraftSummary
draft_summary none = none
draft_summary (some d) = some (record { title = d.title; branch_name = d.branch_name })

abbrev pub pending_of : Bool → List Text → Option PrDraft → Option PendingApproval
pending_of true paths (some d) =
    some (record { title = d.title; body = d.body; branch_name = d.branch_name; files = paths })
pending_of _ paths _ = none

abbrev pub outcome_of : Option TestResult → Option TestOutcome
outcome_of none = none
outcome_of (some r) = some r.outcome

-- `xs[-n:]`, for a positive `n`
abbrev pub last_items {ℓ} : {A : Type ℓ} → ℕ → List A → List A
last_items n xs = drop (length xs - n) xs

-- `_state_to_status_response`
unfoldable pub state_to_status_response : Text → GraphState → Bool → MigrationStatusResponse
state_to_status_response run_id s awaiting_approval = record {
  run_id = run_id;
  phase = s.phase;
  tasks = map task_summary s.tasks;
  budget_spent_usd = s.budget.spent_usd;
  budget_max_usd = s.budget.max_usd;
  budget_llm_calls_made = s.budget.llm_calls_made;
  budget_max_llm_calls = s.budget.max_llm_calls;
  budget_max_wall_clock_seconds = s.budget.max_wall_clock_seconds;
  full_suite_outcome = outcome_of s.full_suite_result;
  pr_draft = draft_summary s.pr_draft;
  pr_url = s.pr_url;
  approval_status = s.approval_status;
  human_feedback = s.human_feedback;
  pending_approval = pending_of awaiting_approval s.aggregated_diff_paths s.pr_draft;
  error_log_tail = last_items 20 s.error_log;
}

-- `get_migration_status`: `none` is the answer 404.
unfoldable pub get_migration_status : Text → Option Machine → Option MigrationStatusResponse
get_migration_status run_id none = none
get_migration_status run_id (some m) =
    some (state_to_status_response run_id m.state (is_awaiting_approval m.point))
