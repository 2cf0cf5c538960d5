-- ===== src/Tests/Parts.antt =====
-- The properties of the parts, at small inputs.
use stack_migrate.Base.{
  ℕ, ◌+◌, ◌≡◌, refl, ◌↔◌, false, List, [], ◌∷◌, none, some, Text, codes, All, Distinct, Memᴰ,
}
use stack_migrate.State.{MigrationTask, TaskStatus, EditorResult, GraphState, merge_task_lists}
use stack_migrate.State.Order.{merge_task_lists_order}
use stack_migrate.State.Merge.{
  ids, find_task, last_task_or, merge_task_lists-Distinct, find-merge_task_lists,
}
use stack_migrate.State.Budget.Ceilings.{IsAffordable, affordable_calls-IsAffordable}
use stack_migrate.Vcs.Paths.Safety.{IsPublishable, publishable_path_problem-IsPublishable}
use stack_migrate.Sandbox.Workspace.{remove_paths, apply_diffs}
use stack_migrate.Sandbox.Confined.{Confined, apply_diffs-Confined, remove_paths-Confined}
use stack_migrate.Sandbox.Docker.{
  SandboxLimits, ContainerKwargs, ContainerRun, exited, run_in_containers,
}
use stack_migrate.Sandbox.Docker.Isolation.{PassedOnlyIf, run_in_containers-PassedOnlyIf}
use stack_migrate.Adapters.FastapiTests.{TargetTestAdapter, fastapi_target_adapter}
use stack_migrate.Graph.Routing.{route_to_editors}
use stack_migrate.Graph.Routing.Waves.{SentAll}
use stack_migrate.Graph.Routing.Ready.{IsDue, route_to_editors-IsDue}
use stack_migrate.Graph.Diffs.Effective.{all_diffs, effective_diffs}
use stack_migrate.Graph.Diffs.Stale.{paths, stale_paths}
use stack_migrate.Graph.Diffs.Sources.{IsCurrent, effective_diffs-IsCurrent}
use stack_migrate.Graph.Diffs.Removal.{stale_paths_iff}
use stack_migrate.Graph.Nodes.Budget.Ledger.{reconciled, reconcile_charges_once}
use stack_migrate.Tests.Samples.{program, started, ascii, plain_paths, foo_diff}

abbrev a_task : Text → List Text → TaskStatus → MigrationTask
a_task id deps status = record {
  id = id;
  source_unit_ids = [];
  target_files = [];
  depends_on_task_ids = deps;
  synthesis_instructions = [];
  status = status;
  retry_count = 0;
  max_retries = 3;
}

abbrev two_tasks : List MigrationTask
two_tasks =
    a_task (codes "a") [] TaskStatus.succeeded
    ∷ a_task (codes "b") (codes "a" ∷ []) TaskStatus.pending
    ∷ []

abbrev two_results : List EditorResult
two_results =
    record {
      task_id = codes "a";
      diffs = record foo_diff { path = codes "old.py" } ∷ [];
      editor_notes = [];
      tokens_used = 0;
      produced_at = 0;
    }
    ∷ record {
      task_id = codes "a";
      diffs = foo_diff ∷ [];
      editor_notes = [];
      tokens_used = 0;
      produced_at = 1;
    }
    ∷ []

abbrev charged : GraphState
charged = record started.state { budget_deltas = 5 ∷ 7 ∷ []; budget_deltas_consumed = 1 }

abbrev sample_container_limits : SandboxLimits
sample_container_limits = record {
  memory_limit = codes "512m";
  nano_cpus = 1_000_000_000;
  pids_limit = 256;
  install_timeout_seconds = 180;
  test_timeout_seconds = 300;
}

abbrev sample_docker : ContainerKwargs → ℕ → ContainerRun
sample_docker k seconds = exited (codes "1 passed") (some 0) 2

abbrev sample_adapter : TargetTestAdapter
sample_adapter = fastapi_target_adapter (λ c. false)

merge_task_lists-Distinct_example :
    Distinct (ids (merge_task_lists two_tasks (a_task (codes "b") [] TaskStatus.retrying ∷ [])))
merge_task_lists-Distinct_example =
    merge_task_lists-Distinct two_tasks (a_task (codes "b") [] TaskStatus.retrying ∷ [])

find-merge_task_lists_example :
    find_task
      (codes "b")
      (merge_task_lists two_tasks (a_task (codes "b") [] TaskStatus.retrying ∷ []))
    ≡ last_task_or
        (last_task_or none (codes "b") two_tasks)
        (codes "b")
        (a_task (codes "b") [] TaskStatus.retrying ∷ [])
find-merge_task_lists_example =
    find-merge_task_lists (codes "b") two_tasks (a_task (codes "b") [] TaskStatus.retrying ∷ [])

affordable_calls-IsAffordable_example : IsAffordable started.state.budget 0 9 4
unfolding program
affordable_calls-IsAffordable_example =
    affordable_calls-IsAffordable started.state.budget 0 9 4 refl

publishable_path_problem-IsPublishable_example : IsPublishable ascii (codes "app/foo.py")
unfolding program
publishable_path_problem-IsPublishable_example =
    publishable_path_problem-IsPublishable ascii (codes "app/foo.py") refl

apply_diffs-Confined_example :
    Confined plain_paths (codes "/ws") [] (apply_diffs plain_paths (codes "/ws") (foo_diff ∷ []) [])
apply_diffs-Confined_example = apply_diffs-Confined plain_paths (codes "/ws") (foo_diff ∷ []) []

remove_paths-Confined_example :
    Confined plain_paths
      (codes "/ws")
      ((codes "/ws/old.py", codes "x") ∷ (codes "/etc/x", codes "y") ∷ [])
      (remove_paths plain_paths
        (codes "/ws")
        (codes "old.py" ∷ [])
        ((codes "/ws/old.py", codes "x") ∷ (codes "/etc/x", codes "y") ∷ []))
remove_paths-Confined_example =
    remove_paths-Confined plain_paths (codes "/ws") (codes "old.py" ∷ [])
      ((codes "/ws/old.py", codes "x") ∷ (codes "/etc/x", codes "y") ∷ [])

run_in_containers-PassedOnlyIf_example :
    PassedOnlyIf
      (λ p. p)
      sample_container_limits
      sample_docker
      (codes "/ws")
      sample_adapter
      none
      (run_in_containers
        (λ p. p)
        sample_container_limits
        sample_docker
        (codes "/ws")
        sample_adapter
        none).0
run_in_containers-PassedOnlyIf_example =
    run_in_containers-PassedOnlyIf (λ p. p) sample_container_limits sample_docker (codes "/ws")
      sample_adapter none

route_to_editors-IsDue_example :
    SentAll (IsDue two_tasks) (route_to_editors two_tasks (some started.state.budget) 0 0)
route_to_editors-IsDue_example = route_to_editors-IsDue two_tasks (some started.state.budget) 0 0

effective_diffs-IsCurrent_example :
    All (IsCurrent two_results two_tasks) (effective_diffs two_results two_tasks)
    × Distinct (paths (effective_diffs two_results two_tasks))
effective_diffs-IsCurrent_example = effective_diffs-IsCurrent two_results two_tasks

stale_paths_iff_example : Memᴰ (codes "old.py") (stale_paths two_results two_tasks) ↔ (
    Memᴰ (codes "old.py") (paths (all_diffs two_results))
    × (¬ Memᴰ (codes "old.py") (paths (effective_diffs two_results two_tasks))))
stale_paths_iff_example = stale_paths_iff two_results two_tasks (codes "old.py")

old_is_stale : stale_paths two_results two_tasks ≡ codes "old.py" ∷ []
unfolding program
old_is_stale = refl

reconcile_charges_once_example :
    ((reconciled (record (reconciled charged) { budget_deltas = 5 ∷ 7 ∷ 11 ∷ [] })).budget.spent_usd
      ≡ 0 + (7 + 0) + (11 + 0))
    × ((reconciled
          (record (reconciled charged) { budget_deltas = 5 ∷ 7 ∷ 11 ∷ [] })).budget.llm_calls_made
        ≡ 0 + 1 + 1)
unfolding program
reconcile_charges_once_example =
    reconcile_charges_once charged (record (reconciled charged) { budget_deltas = 5 ∷ 7 ∷ 11 ∷ [] })
      (11 ∷ []) refl refl refl

merge_task_lists_order_example :
    find_task (codes "a") (
      merge_task_lists
        (merge_task_lists two_tasks (a_task (codes "a") [] TaskStatus.retrying ∷ []))
        (a_task (codes "ab") [] TaskStatus.succeeded ∷ []))
    ≡ find_task (codes "a") (
        merge_task_lists
          (merge_task_lists two_tasks (a_task (codes "ab") [] TaskStatus.succeeded ∷ []))
          (a_task (codes "a") [] TaskStatus.retrying ∷ []))
merge_task_lists_order_example =
    merge_task_lists_order (codes "a") two_tasks (a_task (codes "a") [] TaskStatus.retrying ∷ [])
      (a_task (codes "ab") [] TaskStatus.succeeded ∷ []) (((λ e. cc), tt), tt)
