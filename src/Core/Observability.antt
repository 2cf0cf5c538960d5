-- ===== src/Core/Observability.antt =====
-- app/core/observability.py. A node's run is its outcome and two readings of the clock; a log line is
-- a record of its fields. Amounts are rounded as in the code, to ten-thousandths of a dollar; a
-- duration is left in nanoseconds, and the texts of `ts` and `exc` are the formatter's own.
pub mod Reports
use stack_migrate.Base.{
  ℕ, ◌+◌, ◌-◌, ◌/◌, ◌%◌, ltb, ◌==◌, Bool, true, false, ◌||◌, List, [], ◌∷◌, ◌++◌, Option, none,
  some, Text, codes, any_of, if◌then◌else◌,
}
use stack_migrate.State.{
  MigrationPhase, MigrationTask, MigrationRunConfig, BudgetState, GraphState, Update, no_update,
  written_option,
}
use stack_migrate.State.Budget.{remaining_usd}

-- `round(x, 4)` of nano-dollars, in ten-thousandths of a dollar; a half goes to the even neighbour.
unfoldable pub round4 : ℕ → ℕ
round4 n =
    if ltb (n % 100_000) 50_000
    then n / 100_000
    else if n % 100_000 == 50_000
    then n / 100_000 + n / 100_000 % 2
    else n / 100_000 + 1

-- The two amounts are in ten-thousandths of a dollar.
pub record BudgetSnapshot : Type 0 where
  pub budget_spent_usd : ℕ
  pub budget_remaining_usd : ℕ
  pub llm_calls_made : ℕ

-- `_budget_snapshot`: an absent budget adds no field.
unfoldable pub budget_snapshot : Option BudgetState → Option BudgetSnapshot
budget_snapshot none = none
budget_snapshot (some b) = some (record {
  budget_spent_usd = round4 b.spent_usd;
  budget_remaining_usd = round4 (remaining_usd b);
  llm_calls_made = b.llm_calls_made;
})

-- What `observed_node` reads of the state that a node is given: the state of the run, or the dict of an
-- editor branch.
pub record NodeState : Type 0 where
  pub config : Option MigrationRunConfig
  pub current_task : Option MigrationTask
  pub phase : Option MigrationPhase
  pub budget : Option BudgetState

abbrev pub run_state : GraphState → NodeState
run_state s = record {
  config = some s.config;
  current_task = none;
  phase = s.phase;
  budget = some s.budget;
}

-- How a node ends: with its dict or with `None`, with a control-flow signal of the graph, or with any
-- other exception.
pub data Outcome : Type 0 where
  update : Option Update → Outcome
  bubble_up : Outcome
  exception : Text → Outcome

pub record Finished : Type 0 where
  pub phase : Option MigrationPhase
  pub cost_delta_usd : ℕ
  pub budget : Option BudgetSnapshot

pub data Event : Type 0 where
  node_interrupted node_failed : Event
  node_finished : Finished → Event

pub record LogLine : Type 0 where
  pub run_id : Option Text
  pub node : Text
  pub task_id : Option Text
  pub duration : ℕ
  pub event : Event

abbrev pub run_id_of : Option MigrationRunConfig → Option Text
run_id_of none = none
run_id_of (some config) = some config.run_id

abbrev pub task_id_of_branch : Option MigrationTask → Option Text
task_id_of_branch none = none
task_id_of_branch (some t) = some t.id

abbrev pub sum : List ℕ → ℕ
sum [] = 0
sum (d ∷ ds) = d + sum ds

-- `update or {}`
abbrev pub or_empty : Option Update → Update
or_empty none = no_update
or_empty (some u) = u

abbrev pub event_of : NodeState → Outcome → Event
event_of s bubble_up = node_interrupted
event_of s (exception exc) = node_failed
event_of s (update o) = node_finished (record {
  phase = written_option (or_empty o).phase s.phase;
  cost_delta_usd = round4 (sum (or_empty o).budget_deltas);
  budget = budget_snapshot (written_option (or_empty o).budget s.budget);
})

abbrev pub passed_on : Outcome → Outcome
passed_on (update o) = update (some (or_empty o))
passed_on bubble_up = bubble_up
passed_on (exception exc) = exception exc

-- The wrapper of a node: the outcome that it passes on, and its one log line.
unfoldable pub observed_node :
    Text → (NodeState → Outcome) → (started stopped : ℕ) → NodeState → Outcome × LogLine
observed_node name fn started stopped s = (
  passed_on (fn s),
  record {
    run_id = run_id_of s.config;
    node = name;
    task_id = task_id_of_branch s.current_task;
    duration = stopped - started;
    event = event_of s (fn s);
  },
)

pub data Formatter : Type 0 where
  json_formatter other_formatter : Formatter

abbrev pub is_json : Formatter → Bool
is_json json_formatter = true
is_json other_formatter = false

-- The logger `stackmigrate`, by the formatters of its handlers.
pub record Logger : Type 0 where
  pub handlers : List Formatter
  pub level : ℕ
  pub propagate : Bool

unfoldable pub configure_logging : ℕ → Logger → Logger
configure_logging level logger = if any_of is_json logger.handlers then logger else record {
  handlers = logger.handlers ++ json_formatter ∷ [];
  level = level;
  propagate = false;
}

-- The `config=` of an invocation of the graph.
pub record RunConfig : Type 0 where
  pub thread_id : Text
  pub run_name : Text
  pub tags : List Text
  pub source_stack : Text
  pub target_stack : Text
  pub max_usd : ℕ

unfoldable pub run_config : Text → Text → Text → ℕ → RunConfig
run_config run_id source_stack target_stack max_usd = record {
  thread_id = run_id;
  run_name = codes "stackmigrate:" ++ run_id;
  tags = codes "stackmigrate" ∷ (source_stack ++ codes "->" ++ target_stack) ∷ [];
  source_stack = source_stack;
  target_stack = target_stack;
  max_usd = max_usd;
}
