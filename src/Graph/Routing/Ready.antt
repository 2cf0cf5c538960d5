-- ===== src/Graph/Routing/Ready.antt =====
-- Which tasks are dispatched.
use stack_migrate.Base.{
  ℕ, ◌≡◌, refl, inl, inr, true, List, [], ◌∷◌, Option, Text, text_discrete, All, All-of_mem,
  Bool-cases, lookup, lookup-set_items_mem, Memᴰ, arith, all_of, keep, ◌⊎◌, Option-cases,
}
use stack_migrate.State.{MigrationTask, TaskStatus, is_succeeded, BudgetState}
use stack_migrate.Graph.Routing.Router.{
  is_dispatchable, is_ready, has_succeeded, tasks_by_id, get_ready_tasks, route_to_editors,
}
use stack_migrate.Graph.Routing.Waves.{SentAll, route_to_editors-All}

-- A task of the list has this id and has succeeded.
abbrev pub HasDone : List MigrationTask → Text → Type 0
HasDone tasks dep =
    (u : MigrationTask) × Memᴰ u tasks × (u.id ≡ dep) × (u.status ≡ TaskStatus.succeeded)

-- A task of the list that waits for its dispatch, and whose dependencies have all succeeded.
abbrev pub IsDue : List MigrationTask → MigrationTask → Type 0
IsDue tasks t =
    Memᴰ t tasks
    × ((t.status ≡ TaskStatus.pending) ⊎ (t.status ≡ TaskStatus.retrying))
    × All (HasDone tasks) t.depends_on_task_ids

succeeded_of : (s : TaskStatus) → is_succeeded s ≡ true → s ≡ TaskStatus.succeeded
succeeded_of TaskStatus.succeeded h = refl
succeeded_of _ h = absurd (cc)

waits_of :
    (s : TaskStatus)
    → is_dispatchable s ≡ true
    → (s ≡ TaskStatus.pending) ⊎ (s ≡ TaskStatus.retrying)
waits_of TaskStatus.pending h = inl refl
waits_of TaskStatus.retrying h = inr refl
waits_of _ h = absurd (cc)

has_succeeded-HasDone :
    (tasks : List MigrationTask) (dep : Text) → has_succeeded tasks dep ≡ true → HasDone tasks dep
unfolding has_succeeded
has_succeeded-HasDone tasks dep h =
    elim (Option-cases (lookup text_discrete dep (tasks_by_id tasks))) [
      | inl e ↦ absurd (ground arith)
      | inr (t, e) ↦
          let (m, k) = lookup-set_items_mem text_discrete (λ u. u.id) dep tasks t e in
          (t, m, k, succeeded_of t.status (ground arith))
    ]

all_of-HasDone :
    (tasks : List MigrationTask) (deps : List Text)
    → all_of (has_succeeded tasks) deps ≡ true
    → All (HasDone tasks) deps
unfolding all_of
all_of-HasDone tasks [] h = tt
all_of-HasDone tasks (d ∷ ds) h =
    (has_succeeded-HasDone tasks d (ground arith), all_of-HasDone tasks ds (ground arith))

is_ready-IsDue :
    (tasks : List MigrationTask) (t : MigrationTask)
    → is_ready tasks t ≡ true
    → ((t.status ≡ TaskStatus.pending) ⊎ (t.status ≡ TaskStatus.retrying))
      × All (HasDone tasks) t.depends_on_task_ids
unfolding is_ready
is_ready-IsDue tasks t h =
    (waits_of t.status (ground arith), all_of-HasDone tasks t.depends_on_task_ids (ground arith))

keep_ready-IsDue :
    (tasks ts : List MigrationTask)
    → All (λ t. Memᴰ t tasks) ts
    → All (IsDue tasks) (keep (is_ready tasks) ts)
unfolding keep
keep_ready-IsDue tasks [] h = tt
keep_ready-IsDue tasks (t ∷ ts) h = elim (Bool-cases (is_ready tasks t)) [
  | inl e ↦
      let (waits, done) = is_ready-IsDue tasks t e in
      rw e ((h.0, waits, done), keep_ready-IsDue tasks ts h.1)
  | inr e ↦ rw e (keep_ready-IsDue tasks ts h.1)
]

get_ready_tasks-IsDue : (tasks : List MigrationTask) → All (IsDue tasks) (get_ready_tasks tasks)
unfolding get_ready_tasks
get_ready_tasks-IsDue tasks =
    keep_ready-IsDue tasks tasks (All-of_mem (λ t. Memᴰ t tasks) tasks (λ t m. m))

-- Every task that the router sends to the editor is in the list, is PENDING or RETRYING, and each id
-- that it depends on belongs to a task of the list that has SUCCEEDED.
pub route_to_editors-IsDue :
    (tasks : List MigrationTask) (budget : Option BudgetState) (now later : ℕ)
    → SentAll (IsDue tasks) (route_to_editors tasks budget now later)
route_to_editors-IsDue tasks budget now later =
    route_to_editors-All (IsDue tasks) now later tasks budget (get_ready_tasks-IsDue tasks)
