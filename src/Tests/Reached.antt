-- ===== src/Tests/Reached.antt =====
-- The properties of all that a run reaches, at the sample run.
use stack_migrate.Base.{
  ◌≡◌, ◌≤◌, refl, true, [], ◌∷◌, ◌++◌, none, some, codes, All, length, List, Distinct,
}
use stack_migrate.Vcs.Interface.{Publication}
use stack_migrate.Graph.Build.Machine.{Point, Machine, run, resume}
use stack_migrate.Graph.Build.Shipping.{Shipped}
use stack_migrate.Graph.Build.Shipped.{reached_ships_tested}
use stack_migrate.Graph.Build.Reach.{Reaches, at_once, decided, Reaches-run}
use stack_migrate.Graph.Build.Lifecycle.{MovesTo, call_bound}
use stack_migrate.Graph.Build.Refinement.{
  view, stage_of, Reaches-MovesTo, reached_publishes_at_most_once,
}
use stack_migrate.Graph.Build.Approved.{IsOutcomeOf}
use stack_migrate.Api.{decide, answer_of}
use stack_migrate.Api.Status.{MigrationStatusResponse, PendingApproval, get_migration_status}
use stack_migrate.Api.Review.{
  IsFresh, IsAsShown, HasSafePaths, reached_publishes_safe_paths, decision_publishes_what_was_shown,
  approval_is_published,
}
use stack_migrate.Graph.Nodes.Comprehension.{run_comprehension}
use stack_migrate.Graph.Nodes.Links.{unit_ids}
use stack_migrate.Graph.Nodes.Fresh.{run_comprehension-Distinct}
use stack_migrate.Tests.Samples.{
  program, started, started_waits, sample_env, approve, ascii, source_file, foo_service,
}

abbrev waiting : Machine
waiting = run sample_env 7 started

abbrev published : Machine
published = run sample_env 1 (resume sample_env approve waiting)

started-IsFresh : IsFresh started
started-IsFresh = record { point = refl; tasks = refl; result = refl; draft = refl; calls = refl }

waiting-reached : Reaches sample_env started waiting
waiting-reached = Reaches-run sample_env 7 at_once

published-reached : Reaches sample_env started published
published-reached = Reaches-run sample_env 1 (decided approve waiting-reached started_waits.0)

-- The file of the approved run went out.
published_once : length published.published ≡ 1
unfolding program
published_once = refl

reached_ships_tested_example :
    All (Shipped sample_env published.state.config.target_workspace_path) published.published
reached_ships_tested_example =
    reached_ships_tested sample_env {m = started} {a = published} refl refl refl refl
      published-reached

Reaches-MovesTo_example : MovesTo (view started) (view published)
Reaches-MovesTo_example = Reaches-MovesTo sample_env {m = started} {a = published} published-reached

reached_publishes_at_most_once_example :
    length published.published ≤ call_bound (stage_of published.point)
reached_publishes_at_most_once_example =
    reached_publishes_at_most_once sample_env {m = started} {a = published} refl refl
      published-reached

reached_publishes_safe_paths_example : All (HasSafePaths sample_env) published.published
reached_publishes_safe_paths_example =
    reached_publishes_safe_paths sample_env {m = started} {a = published} started-IsFresh
      published-reached

decision_publishes_what_was_shown_example :
    (response : MigrationStatusResponse) × (shown : PendingApproval) × (get_migration_status
        (codes "r1")
        (some waiting)
      ≡ some response)
    × (response.pending_approval ≡ some shown)
    × (calls : List Publication) × (published.published ≡ waiting.published ++ calls)
    × All (IsAsShown shown) calls
decision_publishes_what_was_shown_example =
    decision_publishes_what_was_shown sample_env {m = started} {a = waiting} (codes "r1") 1 approve
      started-IsFresh waiting-reached started_waits.0

approval_is_published_example :
    (response : MigrationStatusResponse) × (shown : PendingApproval) × (p : Publication)
    × (after : Machine) × (get_migration_status (codes "r1") (some waiting) ≡ some response)
    × (response.pending_approval ≡ some shown)
    × (decide sample_env true none (some waiting) ≡ (answer_of after, some after))
    × (after.point ≡ Point.ended)
    × (after.published ≡ waiting.published ++ p ∷ [])
    × IsAsShown shown p
    × IsOutcomeOf (sample_env.publisher p) after.state
approval_is_published_example =
    approval_is_published sample_env {m = started} {a = waiting} (codes "r1") none started-IsFresh
      waiting-reached started_waits.0

run_comprehension-Distinct_example : Distinct (
    unit_ids
      (run_comprehension ascii
        (codes "/src")
        (codes "Foo")
        (codes "springboot")
        50
        (source_file ∷ source_file ∷ [])
        (λ f. foo_service)).0.units)
run_comprehension-Distinct_example =
    run_comprehension-Distinct ascii (codes "/src") (codes "Foo") (codes "springboot") 50
      (source_file ∷ source_file ∷ []) (λ f. foo_service)
