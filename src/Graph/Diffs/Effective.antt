-- ===== src/Graph/Diffs/Effective.antt =====
-- `latest_results_by_task`, `effective_results` and `effective_diffs` of app/graph/diffs.py.
use stack_migrate.Base.{
  List, [], ◌∷◌, ◌++◌, map, Text, text_discrete, set_items, keep, contains, values,
}
use stack_migrate.State.{MigrationTask, is_succeeded, EditorResult, FileDiff}

unfoldable pub latest_results_by_task : List EditorResult → List (Text × EditorResult)
latest_results_by_task results = set_items text_discrete (λ r. r.task_id) results []

-- `{t.id for t in tasks if t.status == TaskStatus.SUCCEEDED}`
unfoldable pub succeeded_ids : List MigrationTask → List Text
succeeded_ids tasks = map (λ t. t.id) (keep (λ t. is_succeeded t.status) tasks)

-- The keys of the dict are the `task_id` of its values, so the test reads those.
unfoldable pub effective_results : List EditorResult → List MigrationTask → List EditorResult
effective_results results tasks =
    keep (λ r. contains r.task_id (succeeded_ids tasks)) (values (latest_results_by_task results))

-- The diffs of the results, in the order of the two loops.
unfoldable pub all_diffs : List EditorResult → List FileDiff
all_diffs [] = []
all_diffs (r ∷ rs) = r.diffs ++ all_diffs rs

unfoldable pub effective_diffs : List EditorResult → List MigrationTask → List FileDiff
effective_diffs results tasks =
    values (set_items text_discrete (λ d. d.path) (all_diffs (effective_results results tasks)) [])
