-- ===== src/Graph/Nodes/Synthesis.antt =====
-- app/graph/nodes/synthesis.py.
use stack_migrate.Base.{
  List, [], ◌∷◌, ◌++◌, map, Option, none, some, Text, codes, text_discrete, lookup, set_item, join,
  ite,
}
use stack_migrate.State.{
  SemanticUnit, SemanticUnitKind, ComprehensionResult, MigrationTask, TaskStatus, MigrationPhase,
  Update, no_update, synthesis_skipped,
}
use stack_migrate.Core.Slug.{slugify}
use stack_migrate.Core.Describe.{describe_unit}
use stack_migrate.Adapters.Fastapi.{TargetSynthesisAdapter, payload_name}
use stack_migrate.Graph.Diffs.Stale.{sorted_set}

abbrev pub kind_value : SemanticUnitKind → Text
kind_value SemanticUnitKind.endpoint = codes "endpoint"
kind_value SemanticUnitKind.service = codes "service"
kind_value SemanticUnitKind.data_model = codes "data_model"
kind_value SemanticUnitKind.repository = codes "repository"
kind_value SemanticUnitKind.middleware = codes "middleware"
kind_value SemanticUnitKind.config = codes "config"
kind_value SemanticUnitKind.utility = codes "utility"

abbrev pub Groups : Type 0
Groups = List (Text × List SemanticUnit)

abbrev pub or_empty : Option (List SemanticUnit) → List SemanticUnit
or_empty none = []
or_empty (some units) = units

-- The lines of one group of units, of the kind of the first.
unfoldable pub build_instructions :
    TargetSynthesisAdapter → SemanticUnitKind → List SemanticUnit → Text
build_instructions adapter kind units = join (codes "\n") (
    adapter.convention_notes kind
    ∷ []
    ∷ codes "Unit(s) to implement in this file:"
    ∷ map (λ u. codes "- " ++ describe_unit u) units)

unfoldable pub task_id_of : Text → Text
task_id_of path = codes "task::" ++ slugify path

abbrev name_or_id : SemanticUnit → Option Text → Text
name_or_id u none = u.id
name_or_id u (some name) = name

module _ (adapter : TargetSynthesisAdapter) where
  -- `path_to_units[path].append(unit)`, for each unit.
  unfoldable pub group_units : List SemanticUnit → Groups → Groups
  group_units [] groups = groups
  group_units (u ∷ us) groups =
      let path = adapter.suggest_target_path u in
      group_units us
        (set_item text_discrete path (or_empty (lookup text_discrete path groups) ++ u ∷ []) groups)

  -- `unit_to_task_id`, a later unit of an id over an earlier one.
  unfoldable pub unit_to_task_id : List SemanticUnit → List (Text × Text) → List (Text × Text)
  unit_to_task_id [] d = d
  unit_to_task_id (u ∷ us) d =
      unit_to_task_id us
        (set_item text_discrete u.id (task_id_of (adapter.suggest_target_path u)) d)

  -- `if dep_id in unit_to_task_id and unit_to_task_id[dep_id] != task_id`
  abbrev pub with_owner : Text → Option Text → List Text → List Text
  with_owner task_id none rest = rest
  with_owner task_id (some owner) rest = ite (text_discrete owner task_id) rest (owner ∷ rest)

  -- The task ids of the dependencies that are known and not the task itself.
  unfoldable pub known_tasks : List (Text × Text) → Text → List Text → List Text
  known_tasks owners task_id [] = []
  known_tasks owners task_id (dep ∷ deps) =
      with_owner task_id (lookup text_discrete dep owners) (known_tasks owners task_id deps)

  unfoldable pub all_dependencies : List SemanticUnit → List Text
  all_dependencies [] = []
  all_dependencies (u ∷ us) = u.depends_on_unit_ids ++ all_dependencies us

  -- The task of one group. A group is never empty; `u` is its first unit.
  unfoldable pub task_of_group :
      List (Text × Text) → Text → SemanticUnit → List SemanticUnit → MigrationTask
  task_of_group owners path u us = record {
    id = task_id_of path;
    source_unit_ids = map (λ v. v.id) (u ∷ us);
    target_files =
        record {
          path = path;
          purpose =
              kind_value u.kind
              ++ codes ": "
              ++ join (codes ", ") (map (λ v. name_or_id v (payload_name v.payload)) (u ∷ us));
        }
        ∷ [];
    depends_on_task_ids =
        sorted_set (known_tasks owners (task_id_of path) (all_dependencies (u ∷ us)));
    synthesis_instructions = build_instructions adapter u.kind (u ∷ us);
    status = TaskStatus.pending;
    retry_count = 0;
    max_retries = 3;
  }

  unfoldable pub tasks_of_groups : List (Text × Text) → Groups → List MigrationTask
  tasks_of_groups owners [] = []
  tasks_of_groups owners ((path, []) ∷ groups) = tasks_of_groups owners groups
  tasks_of_groups owners ((path, u ∷ us) ∷ groups) =
      task_of_group owners path u us ∷ tasks_of_groups owners groups

  unfoldable pub run_synthesis : List SemanticUnit → List MigrationTask
  run_synthesis units = tasks_of_groups (unit_to_task_id units []) (group_units units [])

abbrev pub skipped_synthesis : Update
skipped_synthesis = record no_update {
  phase = some MigrationPhase.failed;
  error_log = synthesis_skipped ∷ [];
}

abbrev pub plan : TargetSynthesisAdapter → List SemanticUnit → Update
plan adapter [] = skipped_synthesis
plan adapter (u ∷ us) = record no_update {
  tasks = run_synthesis adapter (u ∷ us);
  phase = some MigrationPhase.editing;
}

unfoldable pub synthesis_node : TargetSynthesisAdapter → Option ComprehensionResult → Update
synthesis_node adapter none = skipped_synthesis
synthesis_node adapter (some c) = plan adapter c.units
