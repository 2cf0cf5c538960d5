-- ===== src/Graph/Routing/Router.antt =====
-- app/graph/routing.py. A reading of the clock is an argument: the router reads it twice, once in
-- `is_exhausted` and once more in `affordable_calls`.
use stack_migrate.Base.{
  ℕ, Bool, true, false, ◌&&◌, List, [], ◌∷◌, Option, none, some, Text, text_discrete, lookup,
  set_items, keep, all_of, length, take, if◌then◌else◌,
}
use stack_migrate.State.{
  MigrationTask, TaskStatus, is_succeeded, TestResult, is_passed, MigrationPhase, PrDraft,
  MigrationRunConfig, ApprovalStatus, BudgetState,
}
use stack_migrate.State.Budget.{is_exhausted, affordable_calls}

-- `{t.id: t for t in tasks}`
abbrev pub tasks_by_id : List MigrationTask → List (Text × MigrationTask)
tasks_by_id tasks = set_items text_discrete (λ t. t.id) tasks []

-- `status_by_id.get(dep_id) == TaskStatus.SUCCEEDED`
unfoldable pub has_succeeded : List MigrationTask → Text → Bool
has_succeeded tasks dep = elim (lookup text_discrete dep (tasks_by_id tasks)) [
  | none ↦ false
  | some t ↦ is_succeeded t.status
]

-- `status in (PENDING, RETRYING)`
abbrev pub is_dispatchable : TaskStatus → Bool
is_dispatchable TaskStatus.pending = true
is_dispatchable TaskStatus.retrying = true
is_dispatchable _ = false

unfoldable pub is_ready : List MigrationTask → MigrationTask → Bool
is_ready tasks t = is_dispatchable t.status && all_of (has_succeeded tasks) t.depends_on_task_ids

unfoldable pub get_ready_tasks : List MigrationTask → List MigrationTask
get_ready_tasks tasks = keep (is_ready tasks) tasks

-- What a router answers: one of its texts, or a `Send` to the editor for each task of a list.
pub data Route : Type 0 where
  no_ready_tasks budget_exhausted : Route
  sends : List MigrationTask → Route
  zero_division : Route

abbrev pub wave : List MigrationTask → Option ℕ → Route
wave ready none = zero_division
wave ready (some n) = sends (take n ready)

-- With no budget in the state there is no gate and no cap.
abbrev pub gate : Option BudgetState → ℕ → ℕ → List MigrationTask → Route
gate none now later ready = sends ready
gate (some b) now later ready =
    if is_exhausted b now
    then budget_exhausted
    else wave ready (affordable_calls b later (length ready))

abbrev pub dispatch : Option BudgetState → ℕ → ℕ → List MigrationTask → Route
dispatch budget now later [] = no_ready_tasks
dispatch budget now later (t ∷ ts) = gate budget now later (t ∷ ts)

unfoldable pub route_to_editors : List MigrationTask → Option BudgetState → ℕ → ℕ → Route
route_to_editors tasks budget now later = dispatch budget now later (get_ready_tasks tasks)

pub data AfterSandbox : Type 0 where
  sandbox_passed sandbox_needs_analysis : AfterSandbox

unfoldable pub route_after_sandbox : Option TestResult → AfterSandbox
route_after_sandbox none = sandbox_needs_analysis
route_after_sandbox (some r) =
    if is_passed r.outcome then sandbox_passed else sandbox_needs_analysis

pub data AfterComprehension : Type 0 where
  continue budget_exhausted : AfterComprehension

unfoldable pub route_after_comprehension : Option MigrationPhase → AfterComprehension
route_after_comprehension (some MigrationPhase.aborted_budget) = AfterComprehension.budget_exhausted
route_after_comprehension _ = continue

-- `bool(text)` of an optional text.
abbrev pub is_truthy : Option Text → Bool
is_truthy none = false
is_truthy (some []) = false
is_truthy (some (c ∷ s)) = true

unfoldable pub needs_human_approval : MigrationRunConfig → Bool
needs_human_approval config =
    is_truthy config.github_target_repo && config.require_human_approval_before_pr

pub data AfterAggregate : Type 0 where
  approval_required publish finish : AfterAggregate

unfoldable pub route_after_aggregate : MigrationRunConfig → Option PrDraft → AfterAggregate
route_after_aggregate config none = finish
route_after_aggregate config (some draft) =
    if needs_human_approval config then approval_required else publish

pub data AfterApproval : Type 0 where
  approved rejected : AfterApproval

unfoldable pub route_after_approval : Option ApprovalStatus → AfterApproval
route_after_approval (some ApprovalStatus.approved) = approved
route_after_approval _ = rejected
