-- ===== src/Graph/Build/Steps.antt =====
-- Every step of a planned run lowers the measure.
use stack_migrate.Base.{
  ℕ, ◌≤◌, ◌<◌, false, ◌≡◌, refl, sym, ap, subst, List, [], ◌∷◌, ◌++◌, some, arith, All, Distinct,
}
use stack_migrate.State.{MigrationTask, GraphState, Update, apply_update, apply_updates}
use stack_migrate.State.Merge.{ids}
use stack_migrate.Graph.Routing.Waves.{route_to_editors-All}
use stack_migrate.Graph.Nodes.Editor.{editor_node}
use stack_migrate.Graph.Build.Machine.{
  Point, comprehension, synthesis, budget_reconcile, sandbox_test, error_analysis, aggregate,
  request_approval, approval_gate, pr_publish, budget_abort, ended, editors, crashed, Env, Machine,
  wave_updates, move, after_sandbox_node, step_at, is_halted, dispatch_from, after_sandbox,
  after_aggregate,
}
use stack_migrate.Graph.Build.Weight.{weight, Below, Below-refl, Tame}
use stack_migrate.Sandbox.Workspace.{Files}
use stack_migrate.Graph.Routing.{
  AfterSandbox, sandbox_passed, sandbox_needs_analysis, AfterAggregate, approval_required, publish,
  finish, route_after_sandbox, route_after_aggregate,
}
use stack_migrate.Graph.Nodes.SandboxTest.{NodeResult, returned}
use stack_migrate.Graph.Nodes.Budget.{budget_reconcile_node}
use stack_migrate.Graph.Nodes.Approval.{request_approval_node}
use stack_migrate.Graph.Nodes.Publish.{pr_publish_node}
use stack_migrate.Graph.Diffs.Effective.{effective_diffs}
use stack_migrate.Graph.Build.Sandbox.{SandboxResult, sandbox_test_node-SandboxResult}
use stack_migrate.Graph.Build.Frame.{aggregate_node-IsStill, pr_publish_node-IsStill}
use stack_migrate.Graph.Build.Updates.{
  editor_node-Falls, budget_abort_node-Tame, error_analysis_node-Tame,
}
use stack_migrate.Graph.Build.Measure.{
  Sendable, PointInv, Inv, rank, measure, tasks-apply_update, Distinct-apply_update,
  apply_update-le, get_ready_tasks-Sendable, attempt-lt, follow-lemma,
}

module _ (env : Env) where
  -- The router leads to a wave of sendable tasks, to the idle point, or to the end.
  pub dispatch_from-lemma :
      (idle : Point) (s : GraphState) (n k : ℕ)
      → Distinct (ids s.tasks)
      → PointInv s.tasks idle
      → rank idle ≤ k
      → 4 ≤ k
      → PointInv s.tasks (dispatch_from env idle s n) × (rank (dispatch_from env idle s n) ≤ k)
  unfolding dispatch_from
  dispatch_from-lemma idle s n k d i r l =
      follow-lemma env s.tasks idle _ k
        (route_to_editors-All (Sendable s.tasks) (env.clock n) (env.later n) s.tasks (some s.budget)
          (get_ready_tasks-Sendable s.tasks d))
        i r l

  attempt-Below :
      (s0 s : GraphState) (n : ℕ) (t : MigrationTask) (original : List MigrationTask)
      → Distinct (ids s.tasks)
      → Below s.tasks original
      → Sendable original t
      → let u = editor_node t s0.budget (env.branch_clock n t) (env.generate n t) in
        Below (apply_update s u).tasks original
        × (weight (apply_update s u).tasks < weight original)
  attempt-Below s0 s n t original d b h = rw (tasks-apply_update s _ d) (
      attempt-lt t _ s.tasks original b h.0
        (editor_node-Falls t s0.budget (env.branch_clock n t) (env.generate n t) h.1))

  -- A wave that is not empty makes the task list lighter.
  wave-lt :
      (s0 s : GraphState) (n : ℕ) (t : MigrationTask) (ts original : List MigrationTask)
      → Distinct (ids s.tasks)
      → Below s.tasks original
      → All (Sendable original) (t ∷ ts)
      → Distinct (ids (apply_updates s (wave_updates env s0 n (t ∷ ts))).tasks)
        × (weight (apply_updates s (wave_updates env s0 n (t ∷ ts))).tasks < weight original)
  unfolding apply_updates wave_updates
  wave-lt s0 s n t [] original d b h =
      (Distinct-apply_update s _, (attempt-Below s0 s n t original d b h.0).1)
  wave-lt s0 s n t (t' ∷ ts) original d b h =
      wave-lt s0 (apply_update s _) n t' ts original (Distinct-apply_update s _)
        (attempt-Below s0 s n t original d b h.0).0 h.1

  -- One step: the invariant is kept, the measure falls, and the tasks stay planned.
  abbrev pub Advances : Machine → Machine → Type 0
  Advances m m' = Inv m' × (measure m' < measure m) × (rank m'.point ≤ 7)

  -- A node whose tasks are tame, before an edge that leads further on.
  move-Advances :
      (m : Machine) (u : Update) (edge : GraphState → Point) (k : ℕ)
      → Inv m
      → All (Tame m.state.tasks) u.tasks
      → PointInv (apply_update m.state u).tasks (edge (apply_update m.state u))
        × (rank (edge (apply_update m.state u)) ≤ k)
      → k < rank m.point
      → k ≤ 7
      → Advances m (move env m u edge)
  move-Advances m u edge k i tame (inv, le) lt l = (
    record { distinct = Distinct-apply_update m.state u; point = inv },
    omega (arith, apply_update-le m.state u i.distinct tame),
    omega arith,
  )

  editors-Advances :
      (ts : List MigrationTask) (m : Machine)
      → rank m.point ≡ 4
      → Inv m
      → PointInv m.state.tasks (editors ts)
      → Advances m (step_at env (editors ts) m)
  unfolding step_at
  editors-Advances [] m e i h = absurd (h.0 refl)
  editors-Advances (t ∷ ts) m e i h =
      let (d, lt) =
        wave-lt m.state m.state m.tick t ts m.state.tasks i.distinct (Below-refl m.state.tasks)
          h.1 in
      (record { distinct = d; point = tt }, omega arith, omega arith)

  quiet : (tasks : List MigrationTask) {us : List MigrationTask} → us ≡ [] → All (Tame tasks) us
  quiet tasks e = subst (λ l. All (Tame tasks) l) (sym e) tt

  after_sandbox_node-Advances :
      (m : Machine) (r : Files × NodeResult)
      → rank m.point ≡ 6
      → Inv m
      → SandboxResult env m.state.config.target_workspace_path
          (effective_diffs m.state.editor_results m.state.tasks)
          r
      → Advances m (after_sandbox_node env m r)
  unfolding after_sandbox
  after_sandbox_node-Advances m (files, NodeResult.raised exc) e i q =
      (record { distinct = i.distinct; point = tt }, omega arith, omega arith)
  after_sandbox_node-Advances m (files, returned u) e i q =
      let after = route_after_sandbox (apply_update m.state u).full_suite_result in
      move-Advances (record m { files = files }) u
        (λ s. after_sandbox env (route_after_sandbox s.full_suite_result)) 5
        (record { distinct = i.distinct; point = i.point }) (quiet m.state.tasks q.1)
        (after_sandbox-lemma (apply_update m.state u).tasks after) (omega arith) (omega arith)
    where
      after_sandbox-lemma :
          (tasks : List MigrationTask) (a : AfterSandbox)
          → PointInv tasks (after_sandbox env a) × (rank (after_sandbox env a) ≤ 5)
      after_sandbox-lemma tasks sandbox_passed = (tt, omega arith)
      after_sandbox-lemma tasks sandbox_needs_analysis = (tt, omega arith)

  after_aggregate-lemma :
      (tasks : List MigrationTask) (a : AfterAggregate)
      → PointInv tasks (after_aggregate env a) × (rank (after_aggregate env a) ≤ 2)
  unfolding after_aggregate
  after_aggregate-lemma tasks approval_required = (tt, omega arith)
  after_aggregate-lemma tasks publish = (tt, omega arith)
  after_aggregate-lemma tasks finish = (tt, omega arith)

  -- Every step from a planned point keeps the invariant and lowers the measure.
  pub step_at-Advances :
      (p : Point) (m : Machine)
      → m.point ≡ p
      → Inv m
      → rank p ≤ 7
      → is_halted p ≡ false
      → Advances m (step_at env p m)
  unfolding step_at budget_reconcile_node request_approval_node
  step_at-Advances comprehension m e i pl ha = absurd (omega arith)
  step_at-Advances synthesis m e i pl ha = absurd (omega arith)
  step_at-Advances ended m e i pl ha = absurd (cc)
  step_at-Advances approval_gate m e i pl ha = absurd (cc)
  step_at-Advances (crashed exc) m e i pl ha = absurd (cc)
  step_at-Advances (editors ts) m e i pl ha =
      editors-Advances ts m (ap rank e) i (subst (PointInv m.state.tasks) e i.point)
  step_at-Advances budget_reconcile m e i pl ha =
      move-Advances m _ (λ s. dispatch_from env sandbox_test s m.tick) 6 i tt
        (dispatch_from-lemma sandbox_test _ m.tick 6 (Distinct-apply_update m.state _) tt
          (omega arith) (omega arith))
        (omega (arith, ap rank e)) (omega arith)
  step_at-Advances sandbox_test m e i pl ha = after_sandbox_node-Advances m _ (ap rank e) i (
      sandbox_test_node-SandboxResult env m.state.config m.state.editor_results m.state.tasks m.tick
        m.files)
  step_at-Advances error_analysis m e i pl ha =
      move-Advances m _ (λ s. dispatch_from env ended s m.tick) 4 i
        (error_analysis_node-Tame m.state.full_suite_result m.state.tasks m.state.editor_results
          m.state.budget m.state.retry_round m.state.max_retry_rounds (env.analysis_clock m.tick)
          (env.analyze m.tick) i.distinct)
        (dispatch_from-lemma ended _ m.tick 4 (Distinct-apply_update m.state _) tt (omega arith)
          (omega arith))
        (omega (arith, ap rank e)) (omega arith)
  step_at-Advances aggregate m e i pl ha =
      move-Advances m _ (λ s. after_aggregate env (route_after_aggregate s.config s.pr_draft)) 2 i
        (quiet m.state.tasks
          (aggregate_node-IsStill env.unicode m.state.config m.state.editor_results m.state.tasks
            m.state.comprehension).1)
        (after_aggregate-lemma _ _) (omega (arith, ap rank e)) (omega arith)
  step_at-Advances request_approval m e i pl ha =
      move-Advances m _ (λ _. approval_gate) 0 i tt (tt, omega arith) (omega (arith, ap rank e))
        (omega arith)
  step_at-Advances pr_publish m e i pl ha =
      let calls = (pr_publish_node m.state env.publisher).1 in
      move-Advances (record m { published = m.published ++ calls }) _ (λ _. ended) 0
        (record { distinct = i.distinct; point = i.point })
        (quiet m.state.tasks (pr_publish_node-IsStill m.state env.publisher).1) (tt, omega arith)
        (omega (arith, ap rank e)) (omega arith)
  step_at-Advances budget_abort m e i pl ha =
      move-Advances m _ (λ _. ended) 0 i
        (budget_abort_node-Tame m.state.tasks m.state.budget (env.clock m.tick) i.distinct)
        (tt, omega arith) (omega (arith, ap rank e)) (omega arith)
