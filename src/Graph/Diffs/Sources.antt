-- ===== src/Graph/Diffs/Sources.antt =====
-- Where the effective files come from, and what is stale.
use stack_migrate.Base.{
  ◌≡◌, refl, sym, ◌∙◌, subst, inl, inr, true, List, [], ◌∷◌, map, none, some, Text, text_discrete,
  contains-mem, keep, values, values-set_items, puts, put, find, find-puts, find_of_mem,
  puts-Distinct, last_or, Distinct, All, All-of_mem, All-append, All-keep_test, Memᴰ, Bool-cases,
  if_pos, if_neg, if◌then◌else◌,
}
use stack_migrate.State.{MigrationTask, TaskStatus, is_succeeded, EditorResult, FileDiff}
use stack_migrate.Graph.Diffs.Effective.{
  latest_results_by_task, succeeded_ids, effective_results, all_diffs, effective_diffs,
}
use stack_migrate.Graph.Diffs.Stale.{paths}

-- The result is the last one of its task.
abbrev pub IsLatest : List EditorResult → EditorResult → Type 0
IsLatest results r = last_or text_discrete (λ r. r.task_id) none r.task_id results ≡ some r

-- A task of the list with this id has SUCCEEDED.
abbrev pub HasSucceeded : List MigrationTask → Text → Type 0
HasSucceeded tasks id =
    (t : MigrationTask) × Memᴰ t tasks × (t.id ≡ id) × (t.status ≡ TaskStatus.succeeded)

-- The diff belongs to the last result of a task that has SUCCEEDED.
abbrev pub IsCurrent : List EditorResult → List MigrationTask → FileDiff → Type 0
IsCurrent results tasks d =
    (r : EditorResult) × IsLatest results r × HasSucceeded tasks r.task_id × Memᴰ d r.diffs

module _ {ℓ κ} {K V : Type ℓ} (dec : Discrete K) (key : V → K) (P : V → Type κ) where
  All-put : (v : V) (ws : List V) → P v → All P ws → All P (put dec key v ws)
  unfolding put
  All-put v [] p h = (p, tt)
  All-put v (w ∷ ws) p h = elim (dec (key v) (key w)) [
    | yes e ↦ rw (if_pos _ e) (p, h.1)
    | no e ↦ rw (if_neg _ e) (h.0, All-put v ws p h.1)
  ]

  pub All-puts : (vs ws : List V) → All P vs → All P ws → All P (puts dec key vs ws)
  unfolding puts
  All-puts [] ws h k = k
  All-puts (v ∷ vs) ws h k = All-puts vs (put dec key v ws) h.1 (All-put v ws h.0 k)

succeeded_of : (s : TaskStatus) → is_succeeded s ≡ true → s ≡ TaskStatus.succeeded
succeeded_of TaskStatus.succeeded h = refl
succeeded_of _ h = absurd (cc)

HasSucceeded-cons :
    (t : MigrationTask) (ts : List MigrationTask) (id : Text)
    → HasSucceeded ts id
    → HasSucceeded (t ∷ ts) id
HasSucceeded-cons t ts id (u, m, e, s) = (u, Memᴰ.tail m, e, s)

mem_succeeded :
    (tasks : List MigrationTask) (id : Text) → Memᴰ id (succeeded_ids tasks) → HasSucceeded tasks id
unfolding succeeded_ids keep
mem_succeeded [] id m = elim m [ ]
mem_succeeded (t ∷ ts) id m = elim (Bool-cases (is_succeeded t.status)) [
  | inr e ↦ HasSucceeded-cons t ts id (
      mem_succeeded ts id (
        subst
          (λ b. Memᴰ id (
            map (λ t. t.id)
              (if b
                then t ∷ keep (λ t. is_succeeded t.status) ts
                else keep (λ t. is_succeeded t.status) ts)))
          e m))
  | inl e ↦
      head_or_tail e
        (subst
          (λ b. Memᴰ id (
            map (λ t. t.id)
              (if b
                then t ∷ keep (λ t. is_succeeded t.status) ts
                else keep (λ t. is_succeeded t.status) ts)))
          e m)
        (mem_succeeded ts id)
]
  where
    head_or_tail :
        is_succeeded t.status ≡ true
        → Memᴰ id (t.id ∷ succeeded_ids ts)
        → (Memᴰ id (succeeded_ids ts) → HasSucceeded ts id)
        → HasSucceeded (t ∷ ts) id
    head_or_tail e (Memᴰ.head h) f = (t, Memᴰ.head refl, sym h, succeeded_of t.status e)
    head_or_tail e (Memᴰ.tail h) f = HasSucceeded-cons t ts id (f h)

latest_results_by_task-IsLatest :
    (results : List EditorResult) → All (IsLatest results) (values (latest_results_by_task results))
unfolding latest_results_by_task find
latest_results_by_task-IsLatest results =
    rw (values-set_items text_discrete (λ r. r.task_id) results [] tt) (
      All-of_mem (IsLatest results) _ (λ r m.
        sym (find-puts text_discrete (λ r. r.task_id) r.task_id results [])
        ∙ find_of_mem text_discrete (λ r. r.task_id) r _
            (puts-Distinct text_discrete (λ r. r.task_id) results [] tt) m))

abbrev IsUsed : List EditorResult → List MigrationTask → EditorResult → Type 0
IsUsed results tasks r = IsLatest results r × HasSucceeded tasks r.task_id

effective_results-IsUsed :
    (results : List EditorResult) (tasks : List MigrationTask)
    → All (IsUsed results tasks) (effective_results results tasks)
unfolding effective_results
effective_results-IsUsed results tasks =
    All-keep_test (IsLatest results) (λ r. HasSucceeded tasks r.task_id) _ _
      (latest_results_by_task-IsLatest results)
      (λ r e. mem_succeeded tasks r.task_id (contains-mem r.task_id (succeeded_ids tasks) e))

all_diffs-IsCurrent :
    (results rs : List EditorResult) (tasks : List MigrationTask)
    → All (IsUsed results tasks) rs
    → All (IsCurrent results tasks) (all_diffs rs)
unfolding all_diffs
all_diffs-IsCurrent results [] tasks h = tt
all_diffs-IsCurrent results (r ∷ rs) tasks h =
    All-append (IsCurrent results tasks) r.diffs (all_diffs rs)
      (All-of_mem (IsCurrent results tasks) r.diffs (λ d m. (r, h.0.0, h.0.1, m)))
      (all_diffs-IsCurrent results rs tasks h.1)

-- Every effective diff belongs to the last result of its task, and that task has SUCCEEDED; and no path
-- occurs twice among them.
pub effective_diffs-IsCurrent :
    (results : List EditorResult) (tasks : List MigrationTask)
    → All (IsCurrent results tasks) (effective_diffs results tasks)
      × Distinct (paths (effective_diffs results tasks))
unfolding effective_diffs
effective_diffs-IsCurrent results tasks =
    rw
      (values-set_items text_discrete (λ d. d.path) (all_diffs (effective_results results tasks)) []
        tt)
      (
        All-puts text_discrete (λ d. d.path) (IsCurrent results tasks) _ []
            (all_diffs-IsCurrent results (effective_results results tasks) tasks
              (effective_results-IsUsed results tasks))
            tt,
        puts-Distinct text_discrete (λ d. d.path) _ [] tt,
      )
