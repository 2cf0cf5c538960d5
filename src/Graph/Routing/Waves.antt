-- ===== src/Graph/Routing/Waves.antt =====
-- What `route_to_editors` sends.
use stack_migrate.Base.{
  ℕ, inl, inr, List, [], ◌∷◌, Option, none, some, All, All-take, Bool-cases, length,
}
use stack_migrate.State.{MigrationTask, BudgetState}
use stack_migrate.State.Budget.{is_exhausted, affordable_calls}
use stack_migrate.Graph.Routing.Router.{
  Route, sends, wave, dispatch, get_ready_tasks, route_to_editors,
}

-- What holds of every task that a route sends.
abbrev pub SentAll : (MigrationTask → Type 0) → Route → Type 0
SentAll P (sends ts) = All P ts
SentAll P _ = Unit

module _ (P : MigrationTask → Type 0) (now later : ℕ) where
  wave-All : (ready : List MigrationTask) (o : Option ℕ) → All P ready → SentAll P (wave ready o)
  wave-All ready none h = tt
  wave-All ready (some n) h = All-take P n ready h

  dispatch-All :
      (budget : Option BudgetState) (ready : List MigrationTask)
      → All P ready
      → SentAll P (dispatch budget now later ready)
  dispatch-All budget [] h = tt
  dispatch-All none (t ∷ ts) h = h
  dispatch-All (some b) (t ∷ ts) h = elim (Bool-cases (is_exhausted b now)) [
    | inl e ↦ rw e tt
    | inr e ↦ rw e (wave-All (t ∷ ts) (affordable_calls b later (length (t ∷ ts))) h)
  ]

  -- What holds of every ready task holds of every task that is sent.
  pub route_to_editors-All :
      (tasks : List MigrationTask) (budget : Option BudgetState)
      → All P (get_ready_tasks tasks)
      → SentAll P (route_to_editors tasks budget now later)
  unfolding route_to_editors
  route_to_editors-All tasks budget h = dispatch-All budget (get_ready_tasks tasks) h
