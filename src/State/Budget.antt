-- ===== src/State/Budget.antt =====
-- app/graph/state/budget.py. Amounts are nano-dollars, so the epsilon 1e-9 is 1; clock readings
-- are nanoseconds. The rounding of floats is not modelled.
pub mod Ceilings
use stack_migrate.Base.{
  ℕ, ◌+◌, ◌-◌, ◌*◌, ◌/◌, min, max, Bool, true, false, ◌&&◌, ◌||◌, Option, none, some, leb, ltb,
  ◌==◌, if◌then◌else◌,
}

pub record BudgetState : Type 0 where
  pub max_usd : ℕ
  pub spent_usd : ℕ
  pub max_llm_calls : ℕ
  pub llm_calls_made : ℕ
  pub max_wall_clock_seconds : ℕ
  pub started_at : ℕ
  pub max_call_cost_usd : ℕ
  pub default_call_reserve_usd : ℕ

-- The three texts of `exhausted_reason`, with the values that they print.
pub data Reason : Type 0 where
  cost_ceiling : (spent ceiling : ℕ) → Reason
  call_cap : (made cap : ℕ) → Reason
  wall_clock : (started now limit : ℕ) → Reason

abbrev pub second : ℕ
second = 1_000_000_000

-- `max(0.0, max_usd - spent_usd)`: truncated subtraction is that maximum.
unfoldable pub remaining_usd : BudgetState → ℕ
remaining_usd b = b.max_usd - b.spent_usd

-- `now - started_at >= max_wall_clock_seconds`, with the subtraction moved to the other side.
unfoldable pub wall_clock_exceeded : BudgetState → ℕ → Bool
wall_clock_exceeded b now = leb (b.started_at + b.max_wall_clock_seconds * second) now

unfoldable pub exhausted_reason : BudgetState → ℕ → Option Reason
unfolding wall_clock_exceeded
exhausted_reason b now =
    if leb b.max_usd b.spent_usd
    then some (cost_ceiling b.spent_usd b.max_usd)
    else if leb b.max_llm_calls b.llm_calls_made
    then some (call_cap b.llm_calls_made b.max_llm_calls)
    else if wall_clock_exceeded b now
    then some (wall_clock b.started_at now b.max_wall_clock_seconds)
    else none

abbrev is_some {ℓ} : {A : Type ℓ} → Option A → Bool
is_some none = false
is_some (some a) = true

unfoldable pub is_exhausted : BudgetState → ℕ → Bool
unfolding exhausted_reason
is_exhausted b now = is_some (exhausted_reason b now)

-- Every caller leaves `calls` at 1, so the average cost of the calls is the cost.
unfoldable pub record_call : BudgetState → ℕ → Bool → BudgetState
record_call b cost track_max = record b {
  spent_usd = b.spent_usd + cost;
  llm_calls_made = b.llm_calls_made + 1;
  max_call_cost_usd = if track_max then max b.max_call_cost_usd cost else b.max_call_cost_usd;
}

-- `max_call_cost_usd or default_call_reserve_usd`
unfoldable pub call_reserve : BudgetState → ℕ
call_reserve b =
    if b.max_call_cost_usd == 0 then b.default_call_reserve_usd else b.max_call_cost_usd

-- `none` is the ZeroDivisionError of a reserve of 0.
unfoldable pub affordable_calls : BudgetState → ℕ → ℕ → Option ℕ
unfolding is_exhausted call_reserve remaining_usd
affordable_calls b now wanted =
    if wanted == 0 || is_exhausted b now
    then some 0
    else if call_reserve b == 0
    then none
    else some (max 1 (min wanted ((remaining_usd b + 1) / call_reserve b)))
