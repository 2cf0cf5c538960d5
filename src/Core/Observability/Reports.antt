-- ===== src/Core/Observability/Reports.antt =====
-- What the log says of a node, and that the log line changes nothing.
use stack_migrate.Base.{
  ℕ, ◌*◌, ◌-◌, ◌≤◌, ◌≡◌, refl, true, List, [], ◌∷◌, ◌++◌, some, any_of, inl, inr, Bool-cases, ◌+◌,
}
use stack_migrate.State.{BudgetState, GraphState, apply_update}
use stack_migrate.Core.Observability.{
  Outcome, update, bubble_up, exception, Finished, Event, node_interrupted, node_failed,
  node_finished, or_empty, sum, Logger, Formatter, json_formatter, other_formatter, is_json,
  configure_logging, BudgetSnapshot,
}

-- The amount, in ten-thousandths of a dollar, is one that is nearest to the exact one, in nano-dollars.
abbrev pub IsRounded : ℕ → ℕ → Type 0
IsRounded told exact = (told * 100_000 ≤ exact + 50_000) × (exact ≤ told * 100_000 + 50_000)

-- The logged budget: what is spent, what is left of the ceiling, and the calls made.
abbrev pub TellsBudget : BudgetState → BudgetSnapshot → Type 0
TellsBudget b told =
    IsRounded told.budget_spent_usd b.spent_usd
    × IsRounded told.budget_remaining_usd (b.max_usd - b.spent_usd)
    × (told.llm_calls_made ≡ b.llm_calls_made)

-- The state after a node's update, as a log line tells it: its phase, its budget, and by how much the
-- recorded costs have grown.
abbrev pub Tells : GraphState → GraphState → Finished → Type 0
Tells before after told =
    (told.phase ≡ after.phase)
    × ((b : BudgetSnapshot) × (told.budget ≡ some b) × TellsBudget after.budget b)
    × ((grown : ℕ) × (sum after.budget_deltas ≡ sum before.budget_deltas + grown)
        × IsRounded told.cost_delta_usd grown)

-- What a node's outcome becomes, and the event of its line.
abbrev pub Reports : GraphState → Outcome → Outcome → Event → Type 0
Reports s (update o) passed event =
    (passed ≡ update (some (or_empty o)))
    × (told : Finished) × (event ≡ node_finished told)
    × Tells s (apply_update s (or_empty o)) told
Reports s bubble_up passed event = (passed ≡ bubble_up) × (event ≡ node_interrupted)
Reports s (exception exc) passed event = (passed ≡ exception exc) × (event ≡ node_failed)

any_of-append_json : (hs : List Formatter) → any_of is_json (hs ++ json_formatter ∷ []) ≡ true
unfolding any_of
any_of-append_json [] = refl
any_of-append_json (json_formatter ∷ hs) = refl
any_of-append_json (other_formatter ∷ hs) = any_of-append_json hs

-- Only the first call of `configure_logging` that finds no JSON handler changes the logger.
pub configure_logging_once :
    (first second : ℕ) (logger : Logger)
    → configure_logging second (configure_logging first logger) ≡ configure_logging first logger
unfolding configure_logging
configure_logging_once first second logger = elim (Bool-cases (any_of is_json logger.handlers)) [
  | inl e ↦ rw (e, e) refl
  | inr e ↦ rw (e, any_of-append_json logger.handlers) refl
]
