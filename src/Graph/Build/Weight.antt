-- ===== src/Graph/Build/Weight.antt =====
-- The work that a task list can still ask for: it falls with every attempt at a task.
use stack_migrate.Base.{
  ℕ, ◌+◌, ◌-◌, ◌*◌, ◌≤◌, ◌<◌, ◌≡◌, refl, ◌∙◌, ap, List, [], ◌∷◌, some, text_discrete, put, puts,
  find, if_pos, if_neg, arith, if◌then◌else◌, All,
}
use stack_migrate.State.{MigrationTask}
use stack_migrate.State.Merge.{put_task, put_tasks, find_task}
use stack_migrate.Graph.Routing.{is_dispatchable}

-- Two for each attempt that is left to the task, and one if it waits for its dispatch.
unfoldable pub task_weight : MigrationTask → ℕ
task_weight t =
    2 * (t.max_retries + 1 - t.retry_count) + (if is_dispatchable t.status then 1 else 0)

pub weight : List MigrationTask → ℕ
weight [] = 0
weight (t ∷ ts) = task_weight t + weight ts

-- The same ids in the same order, and no task heavier.
abbrev pub Below : List MigrationTask → List MigrationTask → Type 0
Below [] [] = Unit
Below (x ∷ xs) (y ∷ ys) = (x.id ≡ y.id) × (task_weight x ≤ task_weight y) × Below xs ys
Below _ _ = ⊥

pub Below-refl : (ts : List MigrationTask) → Below ts ts
Below-refl [] = tt
Below-refl (t ∷ ts) = (refl, omega arith, Below-refl ts)

pub weight-le : (xs ys : List MigrationTask) → Below xs ys → weight xs ≤ weight ys
unfolding weight
weight-le [] [] h = omega arith
weight-le (x ∷ xs) (y ∷ ys) h = omega (arith, weight-le xs ys h.2)
weight-le _ _ h = absurd h

-- `u` is a version of a listed task that is no heavier.
abbrev pub Tame : List MigrationTask → MigrationTask → Type 0
Tame original u =
    (t : MigrationTask) × (find_task u.id original ≡ some t) × (task_weight u ≤ task_weight t)

pub put_task-Below :
    (u : MigrationTask) (xs ys : List MigrationTask)
    → Below xs ys
    → Tame ys u
    → Below (put_task u xs) ys
unfolding put find
put_task-Below u [] [] h (t, e, l) = absurd (cc)
put_task-Below u (x ∷ xs) (y ∷ ys) (same, le, h) (t, e, l) = elim (text_discrete u.id x.id) [
  | yes p ↦
      let s : y ≡ t = ground arith in rw (if_pos _ p) (p ∙ same, omega (arith, ap task_weight s), h)
  | no p ↦ rw (if_neg _ p) (same, le, put_task-Below u xs ys h (t, ground arith, l))
]
put_task-Below u _ _ h k = absurd h

pub put_tasks-Below :
    (us xs ys : List MigrationTask) → Below xs ys → All (Tame ys) us → Below (put_tasks us xs) ys
unfolding puts
put_tasks-Below [] xs ys h k = h
put_tasks-Below (u ∷ us) xs ys h k =
    put_tasks-Below us (put_task u xs) ys (put_task-Below u xs ys h k.0) k.1

-- Writing a lighter version of a task makes the whole list lighter.
pub put_task-lt :
    (u : MigrationTask) (xs ys : List MigrationTask)
    → Below xs ys
    → (t : MigrationTask) → find_task u.id ys ≡ some t
    → task_weight u < task_weight t
    → weight (put_task u xs) < weight ys
unfolding put find weight
put_task-lt u [] [] h t e l = absurd (cc)
put_task-lt u (x ∷ xs) (y ∷ ys) (same, le, h) t e l = elim (text_discrete u.id x.id) [
  | yes p ↦
      let s : y ≡ t = ground arith in
      rw (if_pos _ p) (omega (arith, ap task_weight s, weight-le xs ys h))
  | no p ↦ rw (if_neg _ p) (omega (arith, put_task-lt u xs ys h t (ground arith) l))
]
put_task-lt u _ _ h t e l = absurd h
