-- ===== src/Graph/Build/Retries.antt =====
-- No run attempts a task more often than its retries allow.
use stack_migrate.Base.{
  ℕ, zero, suc, true, ◌≡◌, refl, sym, subst, ◌⊎◌, inl, inr, List, [], ◌∷◌, some, text_discrete,
  arith, All, All-keep_test, values-set_items_twice,
}
use stack_migrate.State.{
  GraphState, MigrationTask, Update, apply_update, apply_updates, merge_task_lists,
}
use stack_migrate.Sandbox.Workspace.{Files}
use stack_migrate.Graph.Diffs.Effective.{effective_diffs}
use stack_migrate.Graph.Diffs.Sources.{All-puts}
use stack_migrate.Graph.Routing.{
  Route, sends, no_ready_tasks, zero_division, is_dispatchable, get_ready_tasks, is_ready,
  AfterSandbox, sandbox_passed, sandbox_needs_analysis, AfterAggregate, approval_required, publish,
  finish, AfterComprehension, continue, route_after_aggregate, route_after_comprehension,
}
use stack_migrate.Graph.Routing.Waves.{SentAll, route_to_editors-All}
use stack_migrate.Graph.Nodes.SandboxTest.{NodeResult, returned}
use stack_migrate.Graph.Nodes.Editor.{editor_node}
use stack_migrate.Graph.Nodes.Comprehension.{comprehension_node}
use stack_migrate.Graph.Nodes.Budget.{budget_reconcile_node}
use stack_migrate.Graph.Nodes.Approval.{request_approval_node}
use stack_migrate.Graph.Nodes.Aggregate.{aggregate_node}
use stack_migrate.Graph.Nodes.Retries.{
  WithinRetries, editor_node-WithinRetries, budget_abort_node-WithinRetries,
  synthesis_node-WithinRetries, error_analysis_node-WithinRetries,
}
use stack_migrate.Graph.Build.Machine.{
  Point, comprehension, synthesis, budget_reconcile, sandbox_test, error_analysis, aggregate,
  request_approval, approval_gate, pr_publish, budget_abort, ended, editors, crashed, Env, Machine,
  wave_updates, move, after_sandbox_node, step_at, step, run, follow, dispatch_from, after_sandbox,
  after_aggregate, after_comprehension,
}
use stack_migrate.Graph.Build.Frame.{
  budget_reconcile_node-IsStill, aggregate_node-IsStill, request_approval_node-IsStill,
  pr_publish_node-IsStill, comprehension_node-no_tasks,
}
use stack_migrate.Graph.Build.Sandbox.{SandboxResult, sandbox_test_node-SandboxResult}

-- A task that waits for an attempt and has one left.
abbrev pub MayAttempt : MigrationTask → Type 0
MayAttempt t = WithinRetries t × (is_dispatchable t.status ≡ true)

abbrev pub PointMay : Point → Type 0
PointMay (editors ts) = All MayAttempt ts
PointMay _ = Unit

-- Every task of the state is within its retries, and so is every task of a wave.
abbrev pub Bounded : Machine → Type 0
Bounded m = All WithinRetries m.state.tasks × PointMay m.point

merge-WithinRetries :
    (existing new : List MigrationTask)
    → All WithinRetries existing
    → All WithinRetries new
    → All WithinRetries (merge_task_lists existing new)
unfolding merge_task_lists
merge-WithinRetries existing new h k =
    rw (values-set_items_twice text_discrete (λ t. t.id) existing new) (
      All-puts text_discrete (λ t. t.id) WithinRetries new _ k
        (All-puts text_discrete (λ t. t.id) WithinRetries existing [] h tt))

update-WithinRetries :
    (s : GraphState) (u : Update)
    → All WithinRetries s.tasks
    → All WithinRetries u.tasks
    → All WithinRetries (apply_update s u).tasks
unfolding apply_update
update-WithinRetries s u h k = merge-WithinRetries s.tasks u.tasks h k

no_tasks : {us : List MigrationTask} → us ≡ [] → All WithinRetries us
no_tasks e = subst (All WithinRetries) (sym e) tt

module _ (env : Env) where
  wave-WithinRetries :
      (s0 s : GraphState) (n : ℕ) (ts : List MigrationTask)
      → All WithinRetries s.tasks
      → All MayAttempt ts
      → All WithinRetries (apply_updates s (wave_updates env s0 n ts)).tasks
  unfolding apply_updates wave_updates
  wave-WithinRetries s0 s n [] h k = h
  wave-WithinRetries s0 s n (t ∷ ts) h k =
      let u = editor_node t s0.budget (env.branch_clock n t) (env.generate n t) in
      wave-WithinRetries s0 (apply_update s u) n ts
        (update-WithinRetries s u h (
          editor_node-WithinRetries t s0.budget (env.branch_clock n t) (env.generate n t) k.0.0
            k.0.1))
        k.1

  follow-PointMay :
      (idle : Point) (r : Route)
      → PointMay idle
      → SentAll MayAttempt r
      → PointMay (follow env idle r)
  unfolding follow
  follow-PointMay idle no_ready_tasks i h = i
  follow-PointMay idle Route.budget_exhausted i h = tt
  follow-PointMay idle zero_division i h = tt
  follow-PointMay idle (sends []) i h = tt
  follow-PointMay idle (sends (t ∷ ts)) i h = h

  ready-MayAttempt :
      (tasks : List MigrationTask)
      → All WithinRetries tasks
      → All MayAttempt (get_ready_tasks tasks)
  unfolding get_ready_tasks is_ready
  ready-MayAttempt tasks h =
      All-keep_test WithinRetries (λ t. is_dispatchable t.status ≡ true) _ tasks h
        (λ t e. ground arith)

  dispatch_from-PointMay :
      (idle : Point) (s : GraphState) (n : ℕ)
      → All WithinRetries s.tasks
      → PointMay idle
      → PointMay (dispatch_from env idle s n)
  unfolding dispatch_from
  dispatch_from-PointMay idle s n h i = follow-PointMay idle _ i (
      route_to_editors-All MayAttempt (env.clock n) (env.later n) s.tasks (some s.budget)
        (ready-MayAttempt s.tasks h))

  after_comprehension-PointMay : (a : AfterComprehension) → PointMay (after_comprehension env a)
  unfolding after_comprehension
  after_comprehension-PointMay continue = tt
  after_comprehension-PointMay AfterComprehension.budget_exhausted = tt

  after_aggregate-PointMay : (a : AfterAggregate) → PointMay (after_aggregate env a)
  unfolding after_aggregate
  after_aggregate-PointMay approval_required = tt
  after_aggregate-PointMay publish = tt
  after_aggregate-PointMay finish = tt

  after_sandbox-PointMay : (a : AfterSandbox) → PointMay (after_sandbox env a)
  unfolding after_sandbox
  after_sandbox-PointMay sandbox_passed = tt
  after_sandbox-PointMay sandbox_needs_analysis = tt

  sandbox-Bounded :
      (m : Machine) (r : Files × NodeResult)
      → SandboxResult env m.state.config.target_workspace_path
          (effective_diffs m.state.editor_results m.state.tasks)
          r
      → All WithinRetries m.state.tasks
      → Bounded (after_sandbox_node env m r)
  sandbox-Bounded m (files, NodeResult.raised exc) q h = (h, tt)
  sandbox-Bounded m (files, returned u) q h =
      (update-WithinRetries m.state u h (no_tasks q.1), after_sandbox-PointMay _)

  -- A node whose tasks are within their retries, before an edge that the router or nothing decides.
  move-Bounded :
      (m : Machine) (u : Update) (edge : GraphState → Point)
      → All WithinRetries m.state.tasks
      → All WithinRetries u.tasks
      → ((s : GraphState) → All WithinRetries s.tasks → PointMay (edge s))
      → Bounded (move env m u edge)
  move-Bounded m u edge h k e =
      (update-WithinRetries m.state u h k, e _ (update-WithinRetries m.state u h k))

  step_at-Bounded :
      (p : Point) (m : Machine)
      → PointMay p
      → All WithinRetries m.state.tasks
      → Bounded (step_at env p m) ⊎ (step_at env p m ≡ m)
  unfolding step_at
  step_at-Bounded ended m t h = inr refl
  step_at-Bounded approval_gate m t h = inr refl
  step_at-Bounded (crashed exc) m t h = inr refl
  step_at-Bounded (editors ts) m t h = inl (wave-WithinRetries m.state m.state m.tick ts h t, tt)
  step_at-Bounded comprehension m t h = inl (
      move-Bounded m
        (comprehension_node env.unicode m.state.config m.state.budget (env.clock m.tick)
          env.discovered env.extract)
        (λ s. after_comprehension env (route_after_comprehension s.phase)) h
        (no_tasks (comprehension_node-no_tasks _ _ _ _ _ _))
        (λ s k. after_comprehension-PointMay _))
  step_at-Bounded synthesis m t h = inl (
      move-Bounded m _ (λ s. dispatch_from env sandbox_test s m.tick) h
        (synthesis_node-WithinRetries env.synthesis_adapter m.state.comprehension)
        (λ s k. dispatch_from-PointMay sandbox_test s m.tick k tt))
  step_at-Bounded budget_reconcile m t h = inl (
      move-Bounded m
        (budget_reconcile_node m.state.budget_deltas m.state.budget_deltas_consumed m.state.budget)
        (λ s. dispatch_from env sandbox_test s m.tick) h
        (no_tasks (budget_reconcile_node-IsStill _ _ _).1)
        (λ s k. dispatch_from-PointMay sandbox_test s m.tick k tt))
  step_at-Bounded sandbox_test m t h = inl (
      sandbox-Bounded m _
        (sandbox_test_node-SandboxResult env m.state.config m.state.editor_results m.state.tasks
          m.tick m.files)
        h)
  step_at-Bounded error_analysis m t h = inl (
      move-Bounded m _ (λ s. dispatch_from env ended s m.tick) h
        (error_analysis_node-WithinRetries m.state.full_suite_result m.state.tasks
          m.state.editor_results m.state.budget m.state.retry_round m.state.max_retry_rounds
          (env.analysis_clock m.tick) (env.analyze m.tick) h)
        (λ s k. dispatch_from-PointMay ended s m.tick k tt))
  step_at-Bounded aggregate m t h = inl (
      move-Bounded m
        (aggregate_node env.unicode m.state.config m.state.editor_results m.state.tasks
          m.state.comprehension)
        (λ s. after_aggregate env (route_after_aggregate s.config s.pr_draft)) h
        (no_tasks (aggregate_node-IsStill _ _ _ _ _).1) (λ s k. after_aggregate-PointMay _))
  step_at-Bounded request_approval m t h = inl (
      move-Bounded m request_approval_node (λ _. approval_gate) h
        (no_tasks request_approval_node-IsStill.1) (λ s k. tt))
  step_at-Bounded pr_publish m t h = inl (
    update-WithinRetries m.state _ h (no_tasks (pr_publish_node-IsStill m.state env.publisher).1),
    tt,
  )
  step_at-Bounded budget_abort m t h = inl (
      move-Bounded m _ (λ _. ended) h
        (budget_abort_node-WithinRetries m.state.tasks m.state.budget (env.clock m.tick) h)
        (λ s k. tt))

  step-Bounded : (m : Machine) → Bounded m → Bounded (step env m)
  unfolding step
  step-Bounded m h = elim (step_at-Bounded m.point m h.1 h.0) [
    | inl b ↦ b
    | inr e ↦ subst Bounded (sym e) h
  ]

  run-Bounded : (n : ℕ) (m : Machine) → Bounded m → Bounded (run env n m)
  unfolding run
  run-Bounded zero m h = h
  run-Bounded (suc n) m h = run-Bounded n (step env m) (step-Bounded m h)

  -- Let a run start at the comprehension node with no task. After any number of supersteps, a task
  -- that is PENDING, RETRYING or SUCCEEDED has used no more retries than it is allowed, and any
  -- other task at most one more.
  pub run-WithinRetries :
      (n : ℕ) (m : Machine)
      → m.point ≡ comprehension
      → m.state.tasks ≡ []
      → All WithinRetries (run env n m).state.tasks
  run-WithinRetries n m at tasks = (run-Bounded n m (no_tasks tasks, subst PointMay (sym at) tt)).0
