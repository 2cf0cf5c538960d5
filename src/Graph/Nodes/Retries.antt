-- ===== src/Graph/Nodes/Retries.antt =====
-- The retry counts that the nodes write.
use stack_migrate.Base.{
  ℕ, ◌+◌, ◌≤◌, Bool, true, false, ◌≡◌, inl, inr, List, [], ◌∷◌, Option, none, some, Text,
  text_discrete, arith, All, All-mem, All-keep, All-keep_test, Bool-cases, Option-cases, lookup,
  lookup-set_items_mem,
}
use stack_migrate.State.{
  MigrationTask, TaskStatus, is_succeeded, BudgetState, EditorResult, TestResult, ErrorAnalysis,
  SemanticUnit, ComprehensionResult,
}
use stack_migrate.State.Budget.{is_exhausted}
use stack_migrate.Adapters.Fastapi.{TargetSynthesisAdapter}
use stack_migrate.Graph.Routing.{is_dispatchable, tasks_by_id}
use stack_migrate.Graph.Nodes.Editor.{
  Clock, Generated, status_after_failure, after_generate, editor_node,
}
use stack_migrate.Graph.Nodes.Budget.{skip_all, budget_abort_node}
use stack_migrate.Graph.Nodes.Synthesis.{
  Groups, task_of_group, tasks_of_groups, run_synthesis, plan, synthesis_node,
}
use stack_migrate.Graph.Nodes.ErrorAnalysis.{
  Analyzed, after_analyze, retry_or_escalate, updated_tasks, escalate_all, candidate_tasks,
  error_analysis_node, analyze_candidates,
}

-- The task may be attempted (again), or its output may be judged.
abbrev pub is_open : TaskStatus → Bool
is_open TaskStatus.pending = true
is_open TaskStatus.retrying = true
is_open TaskStatus.succeeded = true
is_open _ = false

-- The retries of a task stay within its allowance: an open task has used no more than it, and any
-- other at most one more, the failure that closed it.
abbrev pub WithinRetries : MigrationTask → Type 0
WithinRetries t =
    (t.retry_count ≤ t.max_retries + 1) × (is_open t.status ≡ true → t.retry_count ≤ t.max_retries)

after_generate-WithinRetries :
    (t : MigrationTask) (now : ℕ) (g : Generated)
    → WithinRetries t
    → is_dispatchable t.status ≡ true
    → All WithinRetries (after_generate t now g).tasks
unfolding after_generate status_after_failure
after_generate-WithinRetries t now (Generated.response r) h d = ground arith
after_generate-WithinRetries t now (Generated.raised exc) h d = ground arith

-- An attempt at a dispatched task keeps within its retries.
pub editor_node-WithinRetries :
    (t : MigrationTask) (b : BudgetState) (c : Clock) (g : Generated)
    → WithinRetries t
    → is_dispatchable t.status ≡ true
    → All WithinRetries (editor_node t b c g).tasks
unfolding editor_node
editor_node-WithinRetries t b c g h d = elim (Bool-cases (is_exhausted b c.test)) [
  | inl e ↦ rw e ((h.0, λ o. absurd (cc)), tt)
  | inr e ↦ rw e (after_generate-WithinRetries t c.produced g h d)
]

skip_all-WithinRetries :
    (ts : List MigrationTask) → All WithinRetries ts → All WithinRetries (skip_all ts)
unfolding skip_all
skip_all-WithinRetries [] h = tt
skip_all-WithinRetries (t ∷ ts) h = ((h.0.0, λ o. absurd (cc)), skip_all-WithinRetries ts h.1)

pub budget_abort_node-WithinRetries :
    (tasks : List MigrationTask) (b : BudgetState) (now : ℕ)
    → All WithinRetries tasks
    → All WithinRetries (budget_abort_node tasks b now).tasks
unfolding budget_abort_node
budget_abort_node-WithinRetries tasks b now h =
    skip_all-WithinRetries _ (All-keep WithinRetries _ tasks h)

module _ (adapter : TargetSynthesisAdapter) where
  tasks_of_groups-WithinRetries :
      (owners : List (Text × Text)) (groups : Groups)
      → All WithinRetries (tasks_of_groups adapter owners groups)
  unfolding tasks_of_groups task_of_group
  tasks_of_groups-WithinRetries owners [] = tt
  tasks_of_groups-WithinRetries owners ((path, []) ∷ groups) =
      tasks_of_groups-WithinRetries owners groups
  tasks_of_groups-WithinRetries owners ((path, u ∷ us) ∷ groups) =
      ((omega arith, λ o. omega arith), tasks_of_groups-WithinRetries owners groups)

  plan-WithinRetries : (units : List SemanticUnit) → All WithinRetries (plan adapter units).tasks
  unfolding run_synthesis
  plan-WithinRetries [] = tt
  plan-WithinRetries (u ∷ us) = tasks_of_groups-WithinRetries _ _

  pub synthesis_node-WithinRetries :
      (c : Option ComprehensionResult) → All WithinRetries (synthesis_node adapter c).tasks
  unfolding synthesis_node
  synthesis_node-WithinRetries none = tt
  synthesis_node-WithinRetries (some c) = plan-WithinRetries c.units

abbrev Judged : MigrationTask → Type 0
Judged t = WithinRetries t × (is_succeeded t.status ≡ true)

retry_or_escalate-WithinRetries :
    (capped : Bool) (a : ErrorAnalysis) (t : MigrationTask)
    → Judged t
    → WithinRetries (retry_or_escalate capped a t)
unfolding retry_or_escalate
retry_or_escalate-WithinRetries capped a t h = ground arith

updated_tasks-WithinRetries :
    (capped : Bool) (candidates : List MigrationTask) (analyses : List ErrorAnalysis)
    → All Judged candidates
    → All WithinRetries (updated_tasks capped candidates analyses)
unfolding updated_tasks
updated_tasks-WithinRetries capped candidates [] h = tt
updated_tasks-WithinRetries capped candidates (a ∷ more) h =
    elim (Option-cases (lookup text_discrete a.task_id (tasks_by_id candidates))) [
      | inl e ↦ rw (e, updated_tasks) (updated_tasks-WithinRetries capped candidates more h)
      | inr (t, e) ↦
          let (m, k) = lookup-set_items_mem text_discrete (λ u. u.id) a.task_id candidates t e in
          rw (e, updated_tasks)
            (
              retry_or_escalate-WithinRetries capped a t (All-mem Judged t candidates m h),
              updated_tasks-WithinRetries capped candidates more h,
            )
    ]

escalate_all-WithinRetries :
    (ts : List MigrationTask) → All Judged ts → All WithinRetries (escalate_all ts)
unfolding escalate_all
escalate_all-WithinRetries [] h = tt
escalate_all-WithinRetries (t ∷ ts) h =
    ((h.0.0.0, λ o. absurd (cc)), escalate_all-WithinRetries ts h.1)

after_analyze-WithinRetries :
    (b : BudgetState) (round : ℕ) (capped : Bool) (candidates : List MigrationTask)
    (answer : Analyzed)
    → All Judged candidates
    → All WithinRetries (after_analyze b round capped candidates answer).tasks
unfolding after_analyze
after_analyze-WithinRetries b round capped candidates (Analyzed.response r) h =
    updated_tasks-WithinRetries capped candidates r.analyses h
after_analyze-WithinRetries b round capped candidates (Analyzed.raised exc) h =
    escalate_all-WithinRetries candidates h

analyze_candidates-WithinRetries :
    (candidates : List MigrationTask) (b : BudgetState) (round : ℕ) (capped : Bool) (now : ℕ)
    (answer : Analyzed)
    → All Judged candidates
    → All WithinRetries (analyze_candidates b round capped now answer candidates).tasks
analyze_candidates-WithinRetries [] b round capped now answer h = tt
analyze_candidates-WithinRetries (t ∷ ts) b round capped now answer h =
    elim (Bool-cases (is_exhausted b now)) [
      | inl e ↦ rw e (escalate_all-WithinRetries (t ∷ ts) h)
      | inr e ↦ rw e (after_analyze-WithinRetries b round capped (t ∷ ts) answer h)
    ]

-- The analysis of a failed run keeps within the retries, whatever the analyzer answers.
pub error_analysis_node-WithinRetries :
    (result : Option TestResult) (tasks : List MigrationTask) (results : List EditorResult)
    (b : BudgetState) (round rounds now : ℕ) (answer : Analyzed)
    → All WithinRetries tasks
    → All WithinRetries (error_analysis_node result tasks results b round rounds now answer).tasks
unfolding error_analysis_node candidate_tasks
error_analysis_node-WithinRetries none tasks results b round rounds now answer h = tt
error_analysis_node-WithinRetries (some r) tasks results b round rounds now answer h =
    analyze_candidates-WithinRetries _ b round _ now answer (
      All-keep_test WithinRetries (λ t. is_succeeded t.status ≡ true) _ tasks h
        (λ t e. ground arith))
