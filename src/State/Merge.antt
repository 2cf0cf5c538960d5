-- ===== src/State/Merge.antt =====
-- What the reducer `_merge_task_lists` does to the task list.
use stack_migrate.Base.{
  List, [], map, ◌≡◌, ap, ◌∙◌, text_discrete, Text, Option, none, put, puts, find, last_or,
  values-set_items_twice, puts_of_Distinct, find-puts, puts-Distinct, Distinct,
}
use stack_migrate.State.Tasks.{MigrationTask}
use stack_migrate.State.Graph.{merge_task_lists}

abbrev pub ids : List MigrationTask → List Text
ids ts = map (λ t. t.id) ts

abbrev pub find_task : Text → List MigrationTask → Option MigrationTask
find_task = find text_discrete (λ t. t.id)

abbrev pub put_task : MigrationTask → List MigrationTask → List MigrationTask
put_task = put text_discrete (λ t. t.id)

abbrev pub put_tasks : List MigrationTask → List MigrationTask → List MigrationTask
put_tasks = puts text_discrete (λ t. t.id)

-- The last of the new tasks with the id, or the one given.
abbrev pub last_task_or : Option MigrationTask → Text → List MigrationTask → Option MigrationTask
last_task_or = last_or text_discrete (λ t. t.id)

merge_task_lists-put_tasks :
    (existing new : List MigrationTask)
    → merge_task_lists existing new ≡ put_tasks new (put_tasks existing [])
unfolding merge_task_lists
merge_task_lists-put_tasks existing new =
    values-set_items_twice text_discrete (λ t. t.id) existing new

-- On a list without a repeated id, a merge writes each new task over the one with its id.
pub merge_of_Distinct :
    (existing new : List MigrationTask)
    → Distinct (ids existing)
    → merge_task_lists existing new ≡ put_tasks new existing
merge_of_Distinct existing new h =
    merge_task_lists-put_tasks existing new
    ∙ ap (put_tasks new) (puts_of_Distinct text_discrete (λ t. t.id) existing h)

-- After a merge no id occurs twice, whatever was merged.
pub merge_task_lists-Distinct :
    (existing new : List MigrationTask) → Distinct (ids (merge_task_lists existing new))
merge_task_lists-Distinct existing new = rw (merge_task_lists-put_tasks existing new) (
    puts-Distinct text_discrete (λ t. t.id) new _
      (puts-Distinct text_discrete (λ t. t.id) existing [] tt))

-- After a merge, an id names the last new task that has it; where no new task has it, the last
-- existing one: nothing is lost and nothing is doubled.
pub find-merge_task_lists :
    (q : Text) (existing new : List MigrationTask)
    → find_task q (merge_task_lists existing new)
      ≡ last_task_or (last_task_or none q existing) q new
unfolding find
find-merge_task_lists q existing new = rw (merge_task_lists-put_tasks existing new) (
    find-puts text_discrete (λ t. t.id) q new (put_tasks existing [])
    ∙ ap (λ o. last_task_or o q new) (find-puts text_discrete (λ t. t.id) q existing []))

pub merge_nil :
    (existing : List MigrationTask)
    → Distinct (ids existing)
    → merge_task_lists existing [] ≡ existing
unfolding puts
merge_nil existing h = merge_of_Distinct existing [] h
