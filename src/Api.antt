-- ===== src/Api.antt =====
-- The decision endpoints of app/api/app.py, and the start of a run in app/worker/tasks.py. A run's
-- checkpoint is its machine; a request that holds the run's lock is one call of `decide`.
pub mod Once
pub mod Status
pub mod Auth
pub mod Routes
pub mod Access
pub mod Review
use stack_migrate.Base.{
  ℕ, ◌+◌, Bool, true, false, List, [], ◌∷◌, Option, none, some, Text, if◌then◌else◌,
}
use stack_migrate.State.{MigrationPhase, MigrationRunConfig, GraphState, BudgetState}
use stack_migrate.Sandbox.Workspace.{Files}
use stack_migrate.Graph.Nodes.Approval.{Decision, Flag}
use stack_migrate.Graph.Build.Machine.{Point, Env, Machine, run, resume}

-- The limits of a `MigrationRequest`, in nano-dollars. The request model also admits negative numbers,
-- which are not modelled: a negative ceiling exhausts the budget at once, as 0 does, and a negative
-- number of retry rounds is reached in the first round, as 1 is.
pub record MigrationLimits : Type 0 where
  pub max_usd : ℕ
  pub max_llm_calls : ℕ
  pub max_wall_clock_seconds : ℕ
  pub max_retry_rounds : ℕ

-- `BudgetState` with its defaults, at a reading of the clock.
abbrev pub fresh_budget : MigrationLimits → ℕ → BudgetState
fresh_budget limits now = record {
  max_usd = limits.max_usd;
  spent_usd = 0;
  max_llm_calls = limits.max_llm_calls;
  llm_calls_made = 0;
  max_wall_clock_seconds = limits.max_wall_clock_seconds;
  started_at = now;
  max_call_cost_usd = 0;
  default_call_reserve_usd = 250_000_000;
}

-- `initial_state`: the keys that it leaves out are absent.
abbrev pub initial_state : MigrationRunConfig → MigrationLimits → ℕ → GraphState
initial_state config limits now = record {
  config = config;
  phase = none;
  comprehension = none;
  tasks = [];
  editor_results = [];
  test_results = [];
  error_analyses = [];
  budget_deltas = [];
  budget_deltas_consumed = 0;
  aggregated_diff_paths = [];
  full_suite_result = none;
  pr_draft = none;
  pr_url = none;
  pr_branch_name = none;
  approval_status = none;
  budget = fresh_budget limits now;
  retry_round = 0;
  max_retry_rounds = limits.max_retry_rounds;
  human_feedback = none;
  error_log = [];
}

-- The first start of a run, on a prepared workspace.
abbrev pub submitted : MigrationRunConfig → MigrationLimits → ℕ → Files → Machine
submitted config limits now files = record {
  point = Point.comprehension;
  state = initial_state config limits now;
  files = files;
  published = [];
  tick = 0;
}

-- A later start of a run, which has a checkpoint. The graph library passes the keys of the initial state
-- through the reducers to the thread's state, which overwrites these three and keeps the others, and
-- begins again at the first node. The calls of the publisher that were made stay made.
abbrev pub restarted : MigrationRunConfig → MigrationLimits → ℕ → Files → Machine → Machine
restarted config limits now files m = record m {
  point = Point.comprehension;
  state = record m.state {
    config = config;
    budget = fresh_budget limits now;
    max_retry_rounds = limits.max_retry_rounds;
  };
  files = files;
}

-- `graph.ainvoke(initial_state, ...)` on the thread of the run, up to the first superstep.
abbrev pub invoked : Option Machine → MigrationRunConfig → MigrationLimits → ℕ → Files → Machine
invoked none config limits now files = submitted config limits now files
invoked (some m) config limits now files = restarted config limits now files m

-- `_is_awaiting_approval`
abbrev pub is_awaiting_approval : Point → Bool
is_awaiting_approval Point.approval_gate = true
is_awaiting_approval _ = false

-- What the endpoints answer.
pub data Answer : Type 0 where
  not_found : Answer
  conflict : Option MigrationPhase → Answer
  decided : (phase : Option MigrationPhase) (pr_url : Option Text) → Answer

-- `Command(resume={"approved": approved, "feedback": feedback})`
abbrev pub resume_value : Bool → Option Text → Decision
resume_value true feedback = Decision.dict Flag.is_true feedback
resume_value false feedback = Decision.dict Flag.not_true feedback

abbrev pub answer_of : Machine → Answer
answer_of m = decided m.state.phase m.state.pr_url

module _ (env : Env) where
  -- A resumed run goes on to its end: behind the gate there is one node at most.
  abbrev pub resumed : Decision → Machine → Machine
  resumed decision m = run env 1 (resume env decision m)

  -- `_decide`, on the run's checkpoint, inside its lock: the answer and the checkpoint after it.
  unfoldable pub decide : Bool → Option Text → Option Machine → Answer × Option Machine
  decide approved feedback none = (not_found, none)
  decide approved feedback (some m) =
      if is_awaiting_approval m.point
      then (
        answer_of (resumed (resume_value approved feedback) m),
        some (resumed (resume_value approved feedback) m),
      )
      else (conflict m.state.phase, some m)
