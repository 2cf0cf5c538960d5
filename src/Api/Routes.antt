-- ===== src/Api/Routes.antt =====
-- The routes of app/api/app.py behind the key check, on the runs of the checkpointer and the queue.
use stack_migrate.Base.{
  Bool, true, false, List, [], ◌∷◌, ◌++◌, Option, none, some, Text, lookup, text_discrete, set_item,
  if◌then◌else◌,
}
use stack_migrate.Graph.Build.Machine.{Env, Machine}
use stack_migrate.Api.{Answer, decide, MigrationLimits}
use stack_migrate.Api.Auth.{require_api_key}
use stack_migrate.Api.Status.{MigrationStatusResponse, get_migration_status}

pub record MigrationRequest : Type 0 where
  pub source_repo_url : Text
  pub source_ref : Text
  pub source_stack : Text
  pub target_stack : Text
  pub scope_description : Text
  pub github_target_repo : Option Text
  pub target_repo_url : Option Text
  pub require_human_approval_before_pr : Bool
  pub limits : MigrationLimits

pub data Request : Type 0 where
  healthz : Request
  submit_migration : MigrationRequest → Request
  get_status : (run_id : Text) → Request
  approve_migration reject_migration : (run_id : Text) (feedback : Option Text) → Request

pub data Response : Type 0 where
  healthy : Response
  unauthorized : Response
  queued : (run_id : Text) → Response
  status : Option MigrationStatusResponse → Response
  answered : Answer → Response

-- The runs that the checkpointer knows, by their ids, and the tasks that were handed to the queue.
pub record App : Type 0 where
  pub runs : List (Text × Machine)
  pub tasks : List (Text × MigrationRequest)

abbrev pub find_run : Text → App → Option Machine
find_run run_id app = lookup text_discrete run_id app.runs

-- A decision on a run that is not there leaves no checkpoint.
abbrev pub store_run : Text → Answer × Option Machine → App → Response × App
store_run run_id (answer, none) app = (answered answer, app)
store_run run_id (answer, some m) app =
    (answered answer, record app { runs = set_item text_discrete run_id m app.runs })

-- A run id is `run-` and twelve hexadecimal digits of a fresh UUID, which is an argument; the
-- collaborators of a run are those of its id.
module _ (env : Text → Env) (fresh_id : Text) where
  unfoldable pub route : Request → App → Response × App
  route healthz app = (healthy, app)
  route (submit_migration payload) app =
      (queued fresh_id, record app { tasks = app.tasks ++ (fresh_id, payload) ∷ [] })
  route (get_status run_id) app = (status (get_migration_status run_id (find_run run_id app)), app)
  route (approve_migration run_id feedback) app =
      store_run run_id (decide (env run_id) true feedback (find_run run_id app)) app
  route (reject_migration run_id feedback) app =
      store_run run_id (decide (env run_id) false feedback (find_run run_id app)) app

  abbrev pub is_open : Request → Bool
  is_open healthz = true
  is_open _ = false

  -- Every route but `healthz` depends on the key.
  unfoldable pub handle : Option Text → Option Text → Request → App → Response × App
  handle key header request app =
      if is_open request
      then route request app
      else if require_api_key key header
      then route request app
      else (unauthorized, app)
