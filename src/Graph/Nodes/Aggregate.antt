-- ===== src/Graph/Nodes/Aggregate.antt =====
-- app/graph/nodes/aggregate.py.
use stack_migrate.Base.{
  ℕ, ◌-◌, List, [], ◌∷◌, ◌++◌, map, Option, none, some, Text, codes, text_discrete, lookup, take,
  length, join, show, ltb, if◌then◌else◌,
}
use stack_migrate.State.{
  MigrationPhase, MigrationTask, MigrationRunConfig, EditorResult, FileDiff, PrDraft,
  TargetFileSpec, ComprehensionResult, LogEntry, Update, no_update, aggregate_empty,
  aggregate_unpublishable,
}
use stack_migrate.Vcs.Paths.{Unicode, publishable_path_problem}
use stack_migrate.Graph.Routing.{tasks_by_id}
use stack_migrate.Graph.Diffs.Effective.{effective_results, effective_diffs}

abbrev first_purpose : List TargetFileSpec → Text
first_purpose [] = []
first_purpose (f ∷ fs) = f.purpose

-- `tasks_by_id.get(id)`, then the purpose of its first target file, or the empty text.
unfoldable pub purpose_of : List MigrationTask → Text → Text
purpose_of tasks id = elim (lookup text_discrete id (tasks_by_id tasks)) [
  | none ↦ []
  | some task ↦ first_purpose task.target_files
]

abbrev suffix_of : Text → Text
suffix_of [] = []
suffix_of (c ∷ purpose) = codes " — " ++ c ∷ purpose

-- The lines of one result: a line for each of its files.
unfoldable pub file_lines : Text → List FileDiff → List Text
file_lines purpose [] = []
file_lines purpose (d ∷ ds) =
    (codes "- `" ++ d.path ++ codes "`" ++ suffix_of purpose) ∷ file_lines purpose ds

unfoldable pub result_lines : List MigrationTask → List EditorResult → List Text
result_lines tasks [] = []
result_lines tasks (r ∷ rs) =
    file_lines (purpose_of tasks r.task_id) r.diffs ++ result_lines tasks rs

abbrev max_notes : ℕ
max_notes = 15

unfoldable pub ambiguity_lines : List Text → List Text
ambiguity_lines [] = []
ambiguity_lines (n ∷ ns) =
    []
      ∷ codes "## Flagged for review"
      ∷ codes "The migration analysis noted the following — please check these:"
      ∷ map (λ note. codes "- " ++ note) (take max_notes (n ∷ ns))
    ++ (if ltb max_notes (length (n ∷ ns))
        then (codes "- ...and "
            ++ show (length (n ∷ ns) - max_notes)
            ++ codes " more (see full run log).")
          ∷ []
        else [])

abbrev ambiguities_of : Option ComprehensionResult → List Text
ambiguities_of none = []
ambiguities_of (some c) = c.unresolved_ambiguities

unfoldable pub pr_title : MigrationRunConfig → Text
pr_title config =
    codes "Migrate "
    ++ config.scope_description
    ++ codes " ("
    ++ config.source_stack
    ++ codes " → "
    ++ config.target_stack
    ++ codes ")"

unfoldable pub build_pr_draft :
    MigrationRunConfig
    → List EditorResult
    → List MigrationTask
    → Option ComprehensionResult
    → PrDraft
build_pr_draft config results tasks comprehension = record {
  title = pr_title config;
  body = join (codes "\n") (
      (codes "Automated migration from **"
        ++ config.source_stack
        ++ codes "** to **"
        ++ config.target_stack
        ++ codes "**.")
      ∷ []
      ∷ (codes "Scope: " ++ config.scope_description)
      ∷ []
      ∷ codes "## Files changed"
      ∷ (result_lines tasks results
          ++ ambiguity_lines (ambiguities_of comprehension)
          ++ []
            ∷ codes "---"
            ∷ codes
                "*Generated by stackmigrate. All test suites passed before this PR was opened. Please review before merging.*"
            ∷ []));
  branch_name = codes "stackmigrate/" ++ config.run_id;
  commit_message = codes "stackmigrate: " ++ pr_title config;
}

-- An entry for each path that must not be published, in order.
unfoldable pub path_problems : Unicode → List FileDiff → List LogEntry
path_problems unicode [] = []
path_problems unicode (d ∷ ds) = elim (publishable_path_problem unicode d.path) [
  | none ↦ path_problems unicode ds
  | some problem ↦ aggregate_unpublishable d.path problem ∷ path_problems unicode ds
]

abbrev pub checked : List FileDiff → PrDraft → List LogEntry → Update
checked diffs draft (e ∷ es) = record no_update {
  phase = some MigrationPhase.failed;
  error_log = e ∷ es;
}
checked diffs draft [] = record no_update {
  aggregated_diff_paths = some (map (λ d. d.path) diffs);
  pr_draft = some draft;
  phase = some MigrationPhase.aggregating;
}

abbrev pub of_diffs : Unicode → PrDraft → List FileDiff → Update
of_diffs unicode draft [] = record no_update {
  phase = some MigrationPhase.failed;
  error_log = aggregate_empty ∷ [];
}
of_diffs unicode draft (d ∷ ds) = checked (d ∷ ds) draft (path_problems unicode (d ∷ ds))

unfoldable pub aggregate_node :
    Unicode
    → MigrationRunConfig
    → List EditorResult
    → List MigrationTask
    → Option ComprehensionResult
    → Update
aggregate_node unicode config results tasks comprehension =
    of_diffs unicode (build_pr_draft config (effective_results results tasks) tasks comprehension)
      (effective_diffs results tasks)
