-- ===== src/Worker.antt =====
-- app/worker/tasks.py, and the submission in app/api/task_submitter.py: the task of a request carries
-- its fields to the worker unchanged.
use stack_migrate.Base.{ℕ, Text, Option, none, some}
use stack_migrate.State.{MigrationRunConfig}
use stack_migrate.Sandbox.Workspace.{OsPath, Files}
use stack_migrate.Services.RepoPrep.{Git, Prepared, prepared, prepare_source, prepare_target}
use stack_migrate.Core.Observability.{RunConfig, run_config}
use stack_migrate.Graph.Build.Machine.{Machine}
use stack_migrate.Api.{invoked}
use stack_migrate.Api.Routes.{MigrationRequest}

-- The configuration of a run on its prepared paths.
unfoldable pub config_of : Text → MigrationRequest → Text → Text → MigrationRunConfig
config_of run_id request checkout workspace = record {
  run_id = run_id;
  source_repo_url = request.source_repo_url;
  source_ref = request.source_ref;
  source_stack = request.source_stack;
  target_stack = request.target_stack;
  scope_description = request.scope_description;
  github_target_repo = request.github_target_repo;
  require_human_approval_before_pr = request.require_human_approval_before_pr;
  local_checkout_path = checkout;
  target_workspace_path = workspace;
}

-- The run that starts, given the checkpoint of its thread, or the exception of the preparation that the worker raises.
abbrev pub after_target :
    Option Machine → Text → MigrationRequest → ℕ → Text → Prepared → Option Machine
after_target saved run_id request now checkout (prepared workspace files) =
    some (invoked saved (config_of run_id request checkout workspace) request.limits now files)
after_target saved run_id request now checkout _ = none

module _ (os : OsPath) (git : Git) (base_dir : Text) where
  abbrev pub after_source : Option Machine → Text → MigrationRequest → ℕ → Prepared → Option Machine
  after_source saved run_id request now (prepared checkout files) =
      after_target saved run_id request now checkout
        (prepare_target os git base_dir request.target_repo_url request.target_stack run_id files)
  after_source saved run_id request now _ = none

  -- `_run_migration_async`, up to the first superstep.
  unfoldable pub run_migration :
      Option Machine → Text → MigrationRequest → ℕ → Files → Option Machine
  run_migration saved run_id request now files =
      after_source saved run_id request now
        (prepare_source os git base_dir request.source_repo_url request.source_ref run_id files)

-- The thread of the run and the metadata of its trace.
abbrev pub invocation : Text → MigrationRequest → RunConfig
invocation run_id request =
    run_config run_id request.source_stack request.target_stack request.limits.max_usd
