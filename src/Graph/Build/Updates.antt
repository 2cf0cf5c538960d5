-- ===== src/Graph/Build/Updates.antt =====
-- How the nodes change the weight of the task list.
use stack_migrate.Base.{
  ℕ, ◌≤◌, ◌<◌, Bool, true, ◌≡◌, inl, inr, List, [], ◌∷◌, Option, none, some, text_discrete,
  find_of_mem, lookup-set_items_mem, lookup, arith, All, All-mem, All-of_mem, All-keep,
  All-keep_test, Distinct, Option-cases, Bool-cases,
}
use stack_migrate.State.{
  MigrationTask, is_succeeded, BudgetState, ErrorAnalysis, EditorResult, TestResult,
}
use stack_migrate.State.Budget.{is_exhausted}
use stack_migrate.State.Merge.{ids, find_task}
use stack_migrate.Graph.Routing.{is_dispatchable, tasks_by_id}
use stack_migrate.Graph.Nodes.Budget.{skip_all, budget_abort_node}
use stack_migrate.Graph.Nodes.Editor.{
  Clock, Generated, response, raised, status_after_failure, after_generate, editor_node,
}
use stack_migrate.Graph.Nodes.ErrorAnalysis.{
  Analyzed, candidate_tasks, escalate_all, retry_or_escalate, updated_tasks, after_analyze,
  error_analysis_node, analyze_candidates,
}
use stack_migrate.Graph.Build.Weight.{task_weight, Tame}

-- One task with the same id and less weight.
abbrev pub Falls : MigrationTask → List MigrationTask → Type 0
Falls t (u ∷ []) = (u.id ≡ t.id) × (task_weight u < task_weight t)
Falls t _ = ⊥

after_generate-Falls :
    (t : MigrationTask) (now : ℕ) (g : Generated)
    → is_dispatchable t.status ≡ true
    → Falls t (after_generate t now g).tasks
unfolding after_generate status_after_failure task_weight
after_generate-Falls t now (response r) h = ground arith
after_generate-Falls t now (raised exc) h = ground arith

-- An attempt at a dispatched task makes it lighter, whether it succeeds, fails or is skipped.
pub editor_node-Falls :
    (t : MigrationTask) (b : BudgetState) (c : Clock) (g : Generated)
    → is_dispatchable t.status ≡ true
    → Falls t (editor_node t b c g).tasks
unfolding editor_node task_weight
editor_node-Falls t b c g h = ground (arith, after_generate-Falls t c.produced g h)

-- A listed task, found by its id.
abbrev Listed : List MigrationTask → MigrationTask → Type 0
Listed tasks t = find_task t.id tasks ≡ some t

Listed-All : (tasks : List MigrationTask) → Distinct (ids tasks) → All (Listed tasks) tasks
Listed-All tasks d =
    All-of_mem (Listed tasks) tasks (λ t m. find_of_mem text_discrete (λ u. u.id) t tasks d m)

retry_or_escalate-le :
    (capped : Bool) (a : ErrorAnalysis) (t : MigrationTask)
    → is_succeeded t.status ≡ true
    → task_weight (retry_or_escalate capped a t) ≤ task_weight t
unfolding retry_or_escalate task_weight
retry_or_escalate-le capped a t h = ground arith

-- A candidate is listed and SUCCEEDED.
abbrev Candidate : List MigrationTask → MigrationTask → Type 0
Candidate tasks t = Listed tasks t × (is_succeeded t.status ≡ true)

candidate_tasks-Candidate :
    (tasks : List MigrationTask) (results : List EditorResult)
    → Distinct (ids tasks)
    → All (Candidate tasks) (candidate_tasks tasks results)
unfolding candidate_tasks
candidate_tasks-Candidate tasks results d =
    All-keep_test (Listed tasks) (λ t. is_succeeded t.status ≡ true) _ tasks (Listed-All tasks d)
      (λ t h. ground arith)

updated_tasks-Tame :
    (capped : Bool) (tasks candidates : List MigrationTask) (analyses : List ErrorAnalysis)
    → All (Candidate tasks) candidates
    → All (Tame tasks) (updated_tasks capped candidates analyses)
unfolding updated_tasks retry_or_escalate
updated_tasks-Tame capped tasks candidates [] h = tt
updated_tasks-Tame capped tasks candidates (a ∷ more) h =
    elim (Option-cases (lookup text_discrete a.task_id (tasks_by_id candidates))) [
      | inl e ↦ rw (e, updated_tasks) (updated_tasks-Tame capped tasks candidates more h)
      | inr (t, e) ↦
          let found = lookup-set_items_mem text_discrete (λ u. u.id) a.task_id candidates t e in
          let c = All-mem (Candidate tasks) t candidates found.0 h in
          rw (e, updated_tasks)
            (
              (t, c.0, retry_or_escalate-le capped a t c.1),
              updated_tasks-Tame capped tasks candidates more h,
            )
    ]

escalate_all-Tame :
    (tasks candidates : List MigrationTask)
    → All (Candidate tasks) candidates
    → All (Tame tasks) (escalate_all candidates)
unfolding escalate_all task_weight
escalate_all-Tame tasks [] h = tt
escalate_all-Tame tasks (t ∷ ts) h = ((t, h.0.0, ground arith), escalate_all-Tame tasks ts h.1)

skip_all-Tame :
    (tasks ts : List MigrationTask) → All (Listed tasks) ts → All (Tame tasks) (skip_all ts)
unfolding skip_all task_weight
skip_all-Tame tasks [] h = tt
skip_all-Tame tasks (t ∷ ts) h = ((t, h.0, ground arith), skip_all-Tame tasks ts h.1)

pub budget_abort_node-Tame :
    (tasks : List MigrationTask) (b : BudgetState) (now : ℕ)
    → Distinct (ids tasks)
    → All (Tame tasks) (budget_abort_node tasks b now).tasks
unfolding budget_abort_node
budget_abort_node-Tame tasks b now d =
    skip_all-Tame tasks _ (All-keep (Listed tasks) _ tasks (Listed-All tasks d))

after_analyze-Tame :
    (tasks candidates : List MigrationTask) (b : BudgetState) (round : ℕ) (capped : Bool)
    (answer : Analyzed)
    → All (Candidate tasks) candidates
    → All (Tame tasks) (after_analyze b round capped candidates answer).tasks
unfolding after_analyze
after_analyze-Tame tasks candidates b round capped (Analyzed.raised exc) h =
    escalate_all-Tame tasks candidates h
after_analyze-Tame tasks candidates b round capped (Analyzed.response r) h =
    updated_tasks-Tame capped tasks candidates r.analyses h

analyze_candidates-Tame :
    (tasks candidates : List MigrationTask) (b : BudgetState) (round : ℕ) (capped : Bool) (now : ℕ)
    (answer : Analyzed)
    → All (Candidate tasks) candidates
    → All (Tame tasks) (analyze_candidates b round capped now answer candidates).tasks
analyze_candidates-Tame tasks [] b round capped now answer h = tt
analyze_candidates-Tame tasks (t ∷ ts) b round capped now answer h =
    elim (Bool-cases (is_exhausted b now)) [
      | inl e ↦ rw e (escalate_all-Tame tasks (t ∷ ts) h)
      | inr e ↦ rw e (after_analyze-Tame tasks (t ∷ ts) b round capped answer h)
    ]

-- The analysis of a failure makes no task heavier, whatever the analyzer answers.
pub error_analysis_node-Tame :
    (result : Option TestResult) (tasks : List MigrationTask) (results : List EditorResult)
    (b : BudgetState) (round rounds now : ℕ) (answer : Analyzed)
    → Distinct (ids tasks)
    → All (Tame tasks) (error_analysis_node result tasks results b round rounds now answer).tasks
unfolding error_analysis_node
error_analysis_node-Tame none tasks results b round rounds now answer d = tt
error_analysis_node-Tame (some r) tasks results b round rounds now answer d =
    analyze_candidates-Tame tasks _ b round _ now answer (candidate_tasks-Candidate tasks results d)
