-- ===== src/Graph/Nodes/Budget/Ledger.antt =====
-- Each cost that a wave reports is charged once.
use stack_migrate.Base.{
  ℕ, ◌+◌, ◌≡◌, ◌∙◌, ap, List, [], ◌∷◌, ◌++◌, arith, length, drop, drop-append, true,
}
use mathlib.Core.List.{append-nil}
use stack_migrate.State.{GraphState, apply_update, BudgetState}
use stack_migrate.State.Budget.{record_call}
use stack_migrate.Graph.Nodes.Budget.{record_calls, budget_reconcile_node}

abbrev pub sum : List ℕ → ℕ
sum [] = 0
sum (x ∷ xs) = x + sum xs

-- The state after the reconcile node.
abbrev pub reconciled : GraphState → GraphState
reconciled s =
    apply_update s (budget_reconcile_node s.budget_deltas s.budget_deltas_consumed s.budget)

pub record_calls-spent_usd :
    (b : BudgetState) (costs : List ℕ) → (record_calls b costs).spent_usd ≡ b.spent_usd + sum costs
unfolding record_calls record_call
record_calls-spent_usd b [] = omega arith
record_calls-spent_usd b (c ∷ cs) = omega (arith, record_calls-spent_usd (record_call b c true) cs)

pub record_calls-llm_calls_made :
    (b : BudgetState) (costs : List ℕ)
    → (record_calls b costs).llm_calls_made ≡ b.llm_calls_made + length costs
unfolding record_calls record_call
record_calls-llm_calls_made b [] = omega arith
record_calls-llm_calls_made b (c ∷ cs) =
    omega (arith, record_calls-llm_calls_made (record_call b c true) cs)

-- The budget of the reconcile node adds the costs that no earlier one has charged.
reconciled_spent :
    (s : GraphState)
    → (reconciled s).budget.spent_usd
      ≡ s.budget.spent_usd + sum (drop s.budget_deltas_consumed s.budget_deltas)
unfolding apply_update budget_reconcile_node
reconciled_spent s = record_calls-spent_usd s.budget _

-- After a reconcile node, let branches report further costs, and the node run again. The money spent
-- is then what it was at first, with each cost that was not yet charged, of either wave, added once;
-- and the calls made grow by the number of those costs.
pub reconcile_charges_once :
    (s s' : GraphState) (costs : List ℕ)
    → s'.budget ≡ (reconciled s).budget
    → s'.budget_deltas_consumed ≡ (reconciled s).budget_deltas_consumed
    → s'.budget_deltas ≡ (reconciled s).budget_deltas ++ costs
    → ((reconciled s').budget.spent_usd
        ≡ s.budget.spent_usd + sum (drop s.budget_deltas_consumed s.budget_deltas) + sum costs)
      × ((reconciled s').budget.llm_calls_made
          ≡ s.budget.llm_calls_made
            + length (drop s.budget_deltas_consumed s.budget_deltas)
            + length costs)
unfolding apply_update budget_reconcile_node
reconcile_charges_once s s' costs b c d =
    rw (b, c, d, append-nil s.budget_deltas, drop-append s.budget_deltas costs)
      (
        record_calls-spent_usd _ costs
            ∙ ap (λ n. n + sum costs) (record_calls-spent_usd s.budget _),
        record_calls-llm_calls_made _ costs
            ∙ ap (λ n. n + length costs) (record_calls-llm_calls_made s.budget _),
      )
