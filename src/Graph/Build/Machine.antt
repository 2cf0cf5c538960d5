-- ===== src/Graph/Build/Machine.antt =====
-- The machine of app/graph/build.py. LangGraph runs the node at the point, applies its update through
-- the reducers, and follows the edge; the branches of a fanout run on the state before it.
use stack_migrate.Base.{
  ℕ, zero, suc, ◌+◌, Bool, true, false, List, [], ◌∷◌, ◌++◌, some, Text, codes,
}
use stack_migrate.State.{GraphState, MigrationTask, Update, apply_update, apply_updates}
use stack_migrate.Vcs.Paths.{Unicode}
use stack_migrate.Sandbox.Workspace.{OsPath, Files}
use stack_migrate.Adapters.Fastapi.{TargetSynthesisAdapter}
use stack_migrate.Graph.Routing.{
  Route, no_ready_tasks, sends, zero_division, route_to_editors, AfterSandbox, sandbox_passed,
  sandbox_needs_analysis, route_after_sandbox, AfterComprehension, continue,
  route_after_comprehension, AfterAggregate, approval_required, publish, finish,
  route_after_aggregate, AfterApproval, route_after_approval,
}
use stack_migrate.Graph.Nodes.Budget.{budget_reconcile_node, budget_abort_node}
use stack_migrate.Graph.Nodes.Editor.{Clock, Generated, editor_node}
use stack_migrate.Graph.Nodes.ErrorAnalysis.{Analyzed, error_analysis_node}
use stack_migrate.Graph.Nodes.Approval.{Decision, request_approval_node, approval_gate_node}
use stack_migrate.Graph.Nodes.Publish.{Publication, Publisher, pr_publish_node}
use stack_migrate.Graph.Nodes.SandboxTest.{Runner, NodeResult, returned, raised, sandbox_test_node}
use stack_migrate.Graph.Nodes.Aggregate.{aggregate_node}
use stack_migrate.Graph.Nodes.Synthesis.{synthesis_node}
use stack_migrate.Graph.Nodes.Comprehension.{DiscoveredFile, Extracted, comprehension_node}

pub data Point : Type 0 where
  comprehension synthesis budget_reconcile sandbox_test error_analysis : Point
  aggregate request_approval approval_gate pr_publish budget_abort ended : Point
  editors : List MigrationTask → Point
  crashed : Text → Point

-- What lies outside the repository. The number is the superstep; a node reads `clock`, the router
-- reads `clock` and then `later`, and the error analysis node has a reading of its own.
pub record Env : Type 0 where
  pub unicode : Unicode
  pub os : OsPath
  pub clock : ℕ → ℕ
  pub later : ℕ → ℕ
  pub analysis_clock : ℕ → ℕ
  pub discovered : List DiscoveredFile
  pub extract : DiscoveredFile → Extracted
  pub synthesis_adapter : TargetSynthesisAdapter
  pub branch_clock : ℕ → MigrationTask → Clock
  pub generate : ℕ → MigrationTask → Generated
  pub analyze : ℕ → Analyzed
  pub run_sandbox : ℕ → Runner
  pub publisher : Publisher

-- A run: its point, its checkpointed state, the workspace on disk, the calls of the publisher, and the
-- number of supersteps made.
pub record Machine : Type 0 where
  pub point : Point
  pub state : GraphState
  pub files : Files
  pub published : List Publication
  pub tick : ℕ

module _ (env : Env) where
  -- The three edges that `route_to_editors` decides differ in where `NO_READY_TASKS` leads. A router
  -- that answers no `Send` at all starts no node, and the run is over.
  unfoldable pub follow : Point → Route → Point
  follow idle no_ready_tasks = idle
  follow idle Route.budget_exhausted = Point.budget_abort
  follow idle zero_division = crashed (codes "ZeroDivisionError")
  follow idle (sends []) = ended
  follow idle (sends (t ∷ ts)) = editors (t ∷ ts)

  unfoldable pub dispatch_from : Point → GraphState → ℕ → Point
  dispatch_from idle s n =
      follow idle (route_to_editors s.tasks (some s.budget) (env.clock n) (env.later n))

  unfoldable pub after_comprehension : AfterComprehension → Point
  after_comprehension continue = synthesis
  after_comprehension AfterComprehension.budget_exhausted = budget_abort

  unfoldable pub after_sandbox : AfterSandbox → Point
  after_sandbox sandbox_passed = aggregate
  after_sandbox sandbox_needs_analysis = error_analysis

  unfoldable pub after_aggregate : AfterAggregate → Point
  after_aggregate approval_required = request_approval
  after_aggregate publish = pr_publish
  after_aggregate finish = ended

  unfoldable pub after_approval : AfterApproval → Point
  after_approval AfterApproval.approved = pr_publish
  after_approval AfterApproval.rejected = ended

  -- The updates of the branches of a wave.
  unfoldable pub wave_updates : GraphState → ℕ → List MigrationTask → List Update
  wave_updates s n [] = []
  wave_updates s n (t ∷ ts) =
      editor_node t s.budget (env.branch_clock n t) (env.generate n t) ∷ wave_updates s n ts

  -- The machine after a node: its update applied, and the edge from the new state.
  abbrev pub move : Machine → Update → (GraphState → Point) → Machine
  move m u edge = record m {
    state = apply_update m.state u;
    point = edge (apply_update m.state u);
    tick = m.tick + 1;
  }

  abbrev pub after_sandbox_node : Machine → Files × NodeResult → Machine
  after_sandbox_node m (files, raised exc) = record m {
    files = files;
    point = crashed exc;
    tick = m.tick + 1;
  }
  after_sandbox_node m (files, returned u) =
      move (record m { files = files }) u
        (λ s. after_sandbox (route_after_sandbox s.full_suite_result))

  abbrev pub after_publish_node : Machine → Update × List Publication → Machine
  after_publish_node m (u, calls) =
      move (record m { published = m.published ++ calls }) u (λ _. ended)

  unfoldable pub step_at : Point → Machine → Machine
  step_at comprehension m =
      move m
        (comprehension_node env.unicode m.state.config m.state.budget (env.clock m.tick)
          env.discovered env.extract)
        (λ s. after_comprehension (route_after_comprehension s.phase))
  step_at synthesis m =
      move m (synthesis_node env.synthesis_adapter m.state.comprehension)
        (λ s. dispatch_from sandbox_test s m.tick)
  step_at (editors tasks) m =
      let s = apply_updates m.state (wave_updates m.state m.tick tasks) in
      record m { state = s; point = budget_reconcile; tick = m.tick + 1 }
  step_at budget_reconcile m =
      move m
        (budget_reconcile_node m.state.budget_deltas m.state.budget_deltas_consumed m.state.budget)
        (λ s. dispatch_from sandbox_test s m.tick)
  step_at sandbox_test m = after_sandbox_node m (
      sandbox_test_node env.os m.state.config m.state.editor_results m.state.tasks
        (env.run_sandbox m.tick) m.files)
  step_at error_analysis m =
      move m
        (error_analysis_node m.state.full_suite_result m.state.tasks m.state.editor_results
          m.state.budget m.state.retry_round m.state.max_retry_rounds (env.analysis_clock m.tick)
          (env.analyze m.tick))
        (λ s. dispatch_from ended s m.tick)
  step_at aggregate m =
      move m
        (aggregate_node env.unicode m.state.config m.state.editor_results m.state.tasks
          m.state.comprehension)
        (λ s. after_aggregate (route_after_aggregate s.config s.pr_draft))
  step_at request_approval m = move m request_approval_node (λ _. approval_gate)
  step_at approval_gate m = m
  step_at pr_publish m = after_publish_node m (pr_publish_node m.state env.publisher)
  step_at budget_abort m =
      move m (budget_abort_node m.state.tasks m.state.budget (env.clock m.tick)) (λ _. ended)
  step_at ended m = m
  step_at (crashed exc) m = m

  unfoldable pub step : Machine → Machine
  step m = step_at m.point m

  -- `ainvoke`, for at most this many supersteps.
  unfoldable pub run : ℕ → Machine → Machine
  run zero m = m
  run (suc n) m = run n (step m)

  -- `ainvoke(Command(resume=decision))` on a run that is paused at the gate.
  unfoldable pub resume : Decision → Machine → Machine
  resume decision m =
      move m (approval_gate_node decision)
        (λ s. after_approval (route_after_approval s.approval_status))

-- The run is over, has failed, or is paused by `interrupt`.
abbrev pub is_halted : Point → Bool
is_halted ended = true
is_halted (crashed exc) = true
is_halted approval_gate = true
is_halted _ = false
