-- ===== src/Graph/Build/Measure.antt =====
-- The invariant of a run, and the measure that its steps lower.
use stack_migrate.Base.{
  ℕ, ◌+◌, ◌*◌, ◌≤◌, ◌<◌, true, ◌≡◌, ◌≢◌, ◌∙◌, ap, List, [], ◌∷◌, some, text_discrete, find_of_mem,
  arith, puts, All, All-of_mem, All-keep_test, Distinct,
}
use stack_migrate.State.{MigrationTask, GraphState, Update, apply_update}
use stack_migrate.State.Merge.{
  ids, find_task, put_tasks, merge_of_Distinct, merge_task_lists-Distinct,
}
use stack_migrate.Graph.Routing.{
  is_dispatchable, get_ready_tasks, is_ready, Route, sends, no_ready_tasks, zero_division,
}
use stack_migrate.Graph.Routing.Waves.{SentAll}
use stack_migrate.Graph.Build.Machine.{
  Point, comprehension, synthesis, budget_reconcile, sandbox_test, error_analysis, aggregate,
  request_approval, approval_gate, pr_publish, budget_abort, ended, editors, crashed, Env, Machine,
  follow,
}
use stack_migrate.Graph.Build.Weight.{
  weight, Below, Below-refl, weight-le, Tame, put_task-Below, put_tasks-Below, put_task-lt,
}
use stack_migrate.Graph.Build.Updates.{Falls}

-- A task that a wave may be sent: it is in the state as it stands, and waits for its dispatch.
abbrev pub Sendable : List MigrationTask → MigrationTask → Type 0
Sendable tasks t = (find_task t.id tasks ≡ some t) × (is_dispatchable t.status ≡ true)

abbrev pub PointInv : List MigrationTask → Point → Type 0
PointInv tasks (editors ts) = (ts ≢ []) × All (Sendable tasks) ts
PointInv tasks _ = Unit

-- No id occurs twice in the task list, and a wave is a part of it.
pub record Inv (m : Machine) : Type 0 where
  pub distinct : Distinct (ids m.state.tasks)
  pub point : PointInv m.state.tasks m.point

-- The place of a point in a round of the loop, from the end.
abbrev pub rank : Point → ℕ
rank comprehension = 9
rank synthesis = 8
rank budget_reconcile = 7
rank sandbox_test = 6
rank error_analysis = 5
rank (editors ts) = 4
rank aggregate = 3
rank request_approval = 2
rank pr_publish = 1
rank budget_abort = 1
rank approval_gate = 0
rank ended = 0
rank (crashed exc) = 0

abbrev pub measure : Machine → ℕ
measure m = 8 * weight m.state.tasks + rank m.point

pub tasks-apply_update :
    (s : GraphState) (u : Update)
    → Distinct (ids s.tasks)
    → (apply_update s u).tasks ≡ put_tasks u.tasks s.tasks
unfolding apply_update
tasks-apply_update s u d = merge_of_Distinct s.tasks u.tasks d

pub Distinct-apply_update : (s : GraphState) (u : Update) → Distinct (ids (apply_update s u).tasks)
unfolding apply_update
Distinct-apply_update s u = merge_task_lists-Distinct s.tasks u.tasks

-- An update of tame tasks makes the list no heavier.
pub apply_update-le :
    (s : GraphState) (u : Update)
    → Distinct (ids s.tasks)
    → All (Tame s.tasks) u.tasks
    → weight (apply_update s u).tasks ≤ weight s.tasks
apply_update-le s u d h =
    rw (tasks-apply_update s u d)
      (weight-le _ _ (put_tasks-Below u.tasks s.tasks s.tasks (Below-refl s.tasks) h))

pub get_ready_tasks-Sendable :
    (tasks : List MigrationTask)
    → Distinct (ids tasks)
    → All (Sendable tasks) (get_ready_tasks tasks)
unfolding get_ready_tasks is_ready
get_ready_tasks-Sendable tasks d =
    All-keep_test (λ t. find_task t.id tasks ≡ some t) (λ t. is_dispatchable t.status ≡ true) _
      tasks (All-of_mem _ tasks (λ t m. find_of_mem text_discrete (λ u. u.id) t tasks d m))
      (λ t h. ground arith)

-- An attempt at a sendable task, merged into a list that is not above the original, puts it below.
pub attempt-lt :
    (t : MigrationTask) (us xs ys : List MigrationTask)
    → Below xs ys
    → find_task t.id ys ≡ some t
    → Falls t us
    → Below (put_tasks us xs) ys × (weight (put_tasks us xs) < weight ys)
unfolding puts
attempt-lt t [] xs ys b e f = absurd f
attempt-lt t (u ∷ []) xs ys b e f =
    let e' : find_task u.id ys ≡ some t = ap (λ i. find_task i ys) f.0 ∙ e in
    (put_task-Below u xs ys b (t, e', omega (arith, f.1)), put_task-lt u xs ys b t e' f.1)
attempt-lt t (u ∷ v ∷ us) xs ys b e f = absurd f

pub follow-lemma :
    (env : Env) (tasks : List MigrationTask) (idle : Point) (r : Route) (k : ℕ)
    → SentAll (Sendable tasks) r
    → PointInv tasks idle
    → rank idle ≤ k
    → 4 ≤ k
    → PointInv tasks (follow env idle r) × (rank (follow env idle r) ≤ k)
unfolding follow
follow-lemma env tasks idle no_ready_tasks k h i r l = (i, r)
follow-lemma env tasks idle Route.budget_exhausted k h i r l = (tt, omega arith)
follow-lemma env tasks idle zero_division k h i r l = (tt, omega arith)
follow-lemma env tasks idle (sends []) k h i r l = (tt, omega arith)
follow-lemma env tasks idle (sends (t ∷ ts)) k h i r l = (((λ e. cc), h), l)
