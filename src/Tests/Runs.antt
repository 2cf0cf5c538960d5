-- ===== src/Tests/Runs.antt =====
-- The properties of whole runs, at the sample run.
use stack_migrate.Base.{ℕ, ◌≡◌, refl, true, false, [], ◌∷◌, none, some, codes, All, arith}
use stack_migrate.State.{MigrationTask, TaskStatus, MigrationPhase}
use stack_migrate.Graph.Build.Machine.{Point, Machine, run, resume, is_halted}
use stack_migrate.Graph.Build.Measure.{measure}
use stack_migrate.Graph.Build.Termination.{run_terminates, run_halts}
use stack_migrate.Graph.Build.Consent.{
  unapproved_run_publishes_nothing, rejected_run_publishes_nothing,
}
use stack_migrate.Graph.Build.Retries.{run-WithinRetries}
use stack_migrate.Graph.Nodes.Retries.{WithinRetries}
use stack_migrate.Api.{conflict, resumed, resume_value, decide, answer_of}
use stack_migrate.Api.Once.{decide_once}
use stack_migrate.Graph.Build.Workspace.{StaysInside, run-StaysInside}
use stack_migrate.Graph.Nodes.Plans.{IsClosed, run_synthesis-IsClosed}
use stack_migrate.Graph.Nodes.Links.{IsLinked, run_comprehension-IsLinked}
use stack_migrate.Graph.Nodes.Comprehension.{run_comprehension}
use stack_migrate.Graph.Nodes.Synthesis.{run_synthesis, task_id_of}
use stack_migrate.State.{SemanticUnit, SemanticUnitKind, service_payload, repository_payload}
use stack_migrate.State.Merge.{ids}
use stack_migrate.Base.{Memᴰ, List, [], ◌∷◌}
use stack_migrate.Tests.Samples.{
  fastapi_sample, ascii, source_file, foo_service, program, started, sample_env, approve, reject,
}

abbrev pending_task : MigrationTask
pending_task = record {
  id = codes "task::foo";
  source_unit_ids = codes "service::foo" ∷ [];
  target_files = [];
  depends_on_task_ids = [];
  synthesis_instructions = [];
  status = TaskStatus.pending;
  retry_count = 0;
  max_retries = 3;
}

-- A run with one planned task, whose wave is about to be dispatched.
abbrev planned : Machine
planned = record started {
  point = Point.budget_reconcile;
  state = record started.state { tasks = pending_task ∷ [] };
}

-- The approved run publishes once, and is over.
approved_run_publishes :
    ((run sample_env 1 (resume sample_env approve (run sample_env 7 started))).point ≡ Point.ended)
    × ((run sample_env 1 (resume sample_env approve (run sample_env 7 started))).state.phase
        ≡ some MigrationPhase.done)
unfolding program
approved_run_publishes = (refl, refl)

run_terminates_example : (n : ℕ) × (is_halted (run sample_env n started).point ≡ true)
run_terminates_example = run_terminates sample_env started refl

run_halts_example : is_halted (run sample_env (measure planned) planned).point ≡ true
run_halts_example =
    run_halts sample_env (measure planned) planned
      (record { distinct = (tt, tt); point = tt }, omega arith) (omega arith)

unapproved_run_publishes_nothing_example : (run sample_env 7 started).published ≡ started.published
unfolding program
unapproved_run_publishes_nothing_example =
    unapproved_run_publishes_nothing sample_env 7 started (refl, refl)

rejected_run_publishes_nothing_example :
    (run sample_env 1 (resume sample_env reject (run sample_env 7 started))).published
    ≡ started.published
unfolding program
rejected_run_publishes_nothing_example =
    rejected_run_publishes_nothing sample_env 7 1 reject started (refl, refl) refl

run-WithinRetries_example : All WithinRetries (run sample_env 7 started).state.tasks
run-WithinRetries_example = run-WithinRetries sample_env 7 started refl refl

decide_once_example :
    let after = resumed sample_env (resume_value true none) (run sample_env 7 started) in
    (decide sample_env true none (some (run sample_env 7 started)) ≡ (answer_of after, some after))
    × (after.point ≡ Point.ended)
    × (decide sample_env false none (some after) ≡ (conflict after.state.phase, some after))
unfolding program
decide_once_example = decide_once sample_env true false none none (run sample_env 7 started) refl

run-StaysInside_example : StaysInside sample_env started (run sample_env 7 started)
run-StaysInside_example = run-StaysInside sample_env 7 started

-- A service that depends on a repository.
abbrev two_units : List SemanticUnit
two_units =
    record {
      id = codes "service::foo";
      kind = SemanticUnitKind.service;
      source_files = codes "Foo.java" ∷ [];
      depends_on_unit_ids = codes "repository::bar" ∷ [];
      payload = service_payload (record {
        name = codes "Foo";
        description = [];
        depends_on = codes "Bar" ∷ [];
        business_logic_summary = [];
      });
      stack_specific_hints = [];
    }
    ∷ record {
      id = codes "repository::bar";
      kind = SemanticUnitKind.repository;
      source_files = codes "Bar.java" ∷ [];
      depends_on_unit_ids = [];
      payload = repository_payload (record {
        name = codes "Bar";
        description = [];
        target_data_model = codes "Bar";
        operations = [];
      });
      stack_specific_hints = [];
    }
    ∷ []

run_synthesis-IsClosed_example :
    All
      (λ u.
        Memᴰ
          (task_id_of (fastapi_sample.suggest_target_path u))
          (ids (run_synthesis fastapi_sample two_units)))
      two_units
    × All
        (IsClosed fastapi_sample (run_synthesis fastapi_sample two_units))
        (run_synthesis fastapi_sample two_units)
run_synthesis-IsClosed_example = run_synthesis-IsClosed fastapi_sample two_units

run_comprehension-IsLinked_example :
    All
      (IsLinked
        (run_comprehension ascii
          (codes "/src")
          (codes "Foo")
          (codes "springboot")
          50
          (source_file ∷ [])
          (λ f. foo_service)).0.units)
      (run_comprehension ascii
        (codes "/src")
        (codes "Foo")
        (codes "springboot")
        50
        (source_file ∷ [])
        (λ f. foo_service)).0.units
run_comprehension-IsLinked_example =
    run_comprehension-IsLinked ascii (codes "/src") (codes "Foo") (codes "springboot") 50
      (source_file ∷ []) (λ f. foo_service)
