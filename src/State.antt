-- ===== src/State.antt =====
-- app/graph/state: the vocabulary, the task schema, the budget, the IR, and the graph's state
-- with its reducers.
mod Enums
mod Tasks
mod Ir
pub mod Budget
mod Log
mod Graph
pub mod Merge
pub mod Order
pub use Enums.*
unfoldable pub use Tasks.*
unfoldable pub use Ir.*
pub use Budget.{BudgetState, Reason, cost_ceiling, call_cap, wall_clock}
pub use Log.*
unfoldable pub use Graph.*
