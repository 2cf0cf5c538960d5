-- ===== src/System.antt =====
-- The API of app/api/app.py and the worker of app/worker/tasks.py side by side: requests, tasks that a
-- worker takes up, and supersteps of the runs, in any order.
pub mod Safety
use stack_migrate.Base.{
  ℕ, ◌+◌, ◌≤◌, ◌≡◌, ◌≢◌, refl, sym, ap, ◌∙◌, subst, true, false, List, [], ◌∷◌, Option, none, some,
  inl, inr, Text, lookup, text_discrete, set_item, lookup-set_item, ite, if_pos, if_neg, All,
  length, Memᴰ, if◌then◌else◌, Bool, Bool-cases,
}
use stack_migrate.Sandbox.Workspace.{OsPath, Files}
use stack_migrate.Services.RepoPrep.{
  Git, Prepared, prepared, git_error, no_scaffold, prepare_source, prepare_target,
}
use stack_migrate.Graph.Nodes.Approval.{Decision}
use stack_migrate.Graph.Build.Machine.{Point, Env, Machine, step, run, resume}
use stack_migrate.Graph.Build.Reach.{Reaches, at_once, stepped, decided, Reaches-run}
use stack_migrate.Graph.Build.Shipping.{Shipped}
use stack_migrate.Graph.Build.Shipped.{reached_ships_tested}
use stack_migrate.Graph.Build.Lifecycle.{call_bound}
use stack_migrate.Graph.Build.Refinement.{stage_of, reached_publishes_at_most_once}
use stack_migrate.Api.{
  Answer, decide, MigrationLimits, submitted, resumed, is_awaiting_approval, resume_value,
}
use stack_migrate.State.{MigrationRunConfig}
use stack_migrate.Api.Review.{IsFresh, HasSafePaths, reached_publishes_safe_paths}
use stack_migrate.Api.Routes.{
  MigrationRequest, Request, healthz, submit_migration, get_status, approve_migration,
  reject_migration, Response, unauthorized, App, find_run, store_run, route, is_open, handle,
}
use stack_migrate.Api.Auth.{require_api_key}
use stack_migrate.Worker.{config_of, run_migration, after_source, after_target}

-- The checkpoint of a run, written.
abbrev pub checkpoint : Text → Machine → App → App
checkpoint run_id m app = record app { runs = set_item text_discrete run_id m app.runs }

abbrev pub empty_app : App
empty_app = record { runs = []; tasks = [] }

-- What all of the system shares: the collaborators of each run, the key of the API, and what the
-- worker prepares its repositories with.
pub record Deployment : Type 0 where
  pub env : Text → Env
  pub key : Option Text
  pub os : OsPath
  pub git : Git
  pub base_dir : Text

-- One event. A worker may take up a task that was taken up before: the queue delivers a task again
-- whose worker stopped before its end, and the worker does not ask whether the run has a checkpoint.
-- A run may make its supersteps at any time, one worker at a time; a decision resumes its run to
-- the end within the request.
pub data Happens (d : Deployment) (app : App) : App → Type 0 where
  requested :
      (fresh_id : Text) (header : Option Text) (request : Request)
      → Happens d app (handle d.env fresh_id d.key header request app).1
  started :
      (run_id : Text) (payload : MigrationRequest) (now : ℕ) (files : Files) (m : Machine)
      → Memᴰ (run_id, payload) app.tasks
      → run_migration d.os d.git d.base_dir (find_run run_id app) run_id payload now files ≡ some m
      → Happens d app (checkpoint run_id m app)
  advanced :
      (run_id : Text) (m : Machine)
      → find_run run_id app ≡ some m
      → Happens d app (checkpoint run_id (step (d.env run_id) m) app)

pub data Becomes (d : Deployment) (app : App) : App → Type 0 where
  unchanged : Becomes d app app
  after : {b c : App} → Becomes d app b → Happens d b c → Becomes d app c

abbrev pub counted : Text → Text → ℕ
counted q run_id = ite (text_discrete q run_id) 1 0

module _ (d : Deployment) (q : Text) where
  -- How often a worker has taken up a task of the run `q` and prepared its repositories.
  abbrev pub starts_in : {a b : App} → Happens d a b → ℕ
  starts_in (requested fresh_id header request) = 0
  starts_in (started run_id payload now files m task e) = counted q run_id
  starts_in (advanced run_id m e) = 0

  unfoldable pub starts : {a b : App} → Becomes d a b → ℕ
  starts unchanged = 0
  starts (after w e) = starts_in e + starts w
