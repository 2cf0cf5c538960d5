-- ===== src/Tests/Served.antt =====
-- The system from a submission to an approved run.
use stack_migrate.Base.{
  ℕ, ◌+◌, zero, suc, ◌≤◌, ◌≡◌, refl, ◌∙◌, true, [], ◌∷◌, none, some, Text, codes, All, length, Memᴰ,
  lookup-set_item, if_pos, text_discrete,
}
use stack_migrate.Services.RepoPrep.{Git, cloned}
use stack_migrate.Graph.Build.Machine.{Machine, step, run}
use stack_migrate.Graph.Build.Lifecycle.{call_bound}
use stack_migrate.Graph.Build.Refinement.{stage_of}
use stack_migrate.Graph.Build.Shipping.{Shipped}
use stack_migrate.Api.{submitted, restarted, resumed, resume_value}
use stack_migrate.Api.Review.{HasSafePaths}
use stack_migrate.Api.Routes.{
  MigrationRequest, submit_migration, approve_migration, App, find_run, handle,
}
use stack_migrate.Worker.{run_migration, config_of}
use stack_migrate.System.{
  Deployment, checkpoint, empty_app, requested, started, advanced, Becomes, unchanged, after,
  starts,
}
use stack_migrate.System.Safety.{served_runs_are_safe, served_runs_publish_once_a_start}
use stack_migrate.Tests.Samples.{program, sample_env, sample_limits, plain_paths}

abbrev keeping : Git
keeping = λ url branch dest files. cloned files

abbrev sample_deployment : Deployment
sample_deployment = record {
  env = λ id. sample_env;
  key = none;
  os = plain_paths;
  git = keeping;
  base_dir = codes "/runs";
}

abbrev sample_request : MigrationRequest
sample_request = record {
  source_repo_url = codes "u";
  source_ref = codes "main";
  source_stack = codes "springboot";
  target_stack = codes "fastapi";
  scope_description = codes "Foo";
  github_target_repo = some (codes "o/r");
  target_repo_url = some (codes "t");
  require_human_approval_before_pr = true;
  limits = sample_limits;
}

abbrev run_1 : Text
run_1 = codes "r"

abbrev submitted_app : App
submitted_app = record { runs = []; tasks = (run_1, sample_request) ∷ [] }

abbrev machine_at : ℕ → Machine
machine_at zero =
    submitted (config_of run_1 sample_request (codes "/runs/r/source") (codes "/runs/r/target"))
      sample_limits 0 []
machine_at (suc n) = step sample_env (machine_at n)

abbrev app_at : ℕ → App
app_at zero = checkpoint run_1 (machine_at 0) submitted_app
app_at (suc n) = checkpoint run_1 (machine_at (suc n)) (app_at n)

found_at : (n : ℕ) → find_run run_1 (app_at n) ≡ some (machine_at n)
found_at zero =
    lookup-set_item text_discrete run_1 run_1 (machine_at 0) []
    ∙ if_pos (text_discrete run_1 run_1) refl _ _
found_at (suc n) =
    lookup-set_item text_discrete run_1 run_1 (machine_at (suc n)) (app_at n).runs
    ∙ if_pos (text_discrete run_1 run_1) refl _ _

start_of :
    run_migration plain_paths keeping (codes "/runs") none run_1 sample_request 0 []
    ≡ some (machine_at 0)
unfolding program
start_of = refl

history_at : (n : ℕ) → Becomes sample_deployment empty_app (app_at n)
unfolding program
history_at zero =
    after (after unchanged (requested run_1 none (submit_migration sample_request)))
      (started run_1 sample_request 0 [] (machine_at 0) (Memᴰ.head refl) start_of)
history_at (suc n) = after (history_at n) (advanced run_1 (machine_at n) (found_at n))

abbrev final_app : App
final_app =
    (handle (λ id. sample_env) (codes "x") none none (approve_migration run_1 none) (app_at 7)).1

abbrev final : Machine
final = resumed sample_env (resume_value true none) (machine_at 7)

final_published : length final.published ≡ 1
unfolding program
final_published = refl

-- The run is approved.
abbrev history : Becomes sample_deployment empty_app final_app
history = after (history_at 7) (requested (codes "x") none (approve_migration run_1 none))

final_starts : starts sample_deployment run_1 history ≡ 1
unfolding program starts history_at
final_starts = refl

served_runs_are_safe_example :
    (length final.published ≤ call_bound (stage_of final.point))
    × All (HasSafePaths sample_env) final.published
    × All (Shipped sample_env final.state.config.target_workspace_path) final.published
unfolding program
served_runs_are_safe_example =
    served_runs_are_safe sample_deployment {app = final_app} run_1 final history refl final_starts

-- Its task is delivered again.
abbrev again : Machine
again =
    restarted (config_of run_1 sample_request (codes "/runs/r/source") (codes "/runs/r/target"))
      sample_limits 0 [] final

abbrev again_app : App
again_app = checkpoint run_1 again final_app

again_of :
    run_migration plain_paths keeping (codes "/runs") (some final) run_1 sample_request 0 []
    ≡ some again
unfolding program
again_of = refl

delivered_again : Becomes sample_deployment empty_app again_app
unfolding program
delivered_again = after history (started run_1 sample_request 0 [] again (Memᴰ.head refl) again_of)

served_runs_publish_once_a_start_example :
    length again.published + 1
    ≤ starts sample_deployment run_1 delivered_again + call_bound (stage_of again.point)
unfolding program
served_runs_publish_once_a_start_example =
    served_runs_publish_once_a_start sample_deployment {app = again_app} run_1 again delivered_again
      refl

-- The run that is delivered again can be approved again, and then calls the publisher again.
published_again :
    length (resumed sample_env (resume_value true none) (run sample_env 7 again)).published ≡ 2
unfolding program
published_again = refl
