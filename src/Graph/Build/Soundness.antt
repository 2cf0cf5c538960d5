-- ===== src/Graph/Build/Soundness.antt =====
-- Every run ships only what it has tested.
use stack_migrate.Base.{
  ℕ, zero, suc, ◌≡◌, inl, inr, refl, sym, subst, List, [], ◌∷◌, none, All, Distinct, Bool-cases,
}
use stack_migrate.State.{GraphState, apply_update, apply_updates, MigrationTask}
use stack_migrate.State.Merge.{ids}
use stack_migrate.Sandbox.Workspace.{Files}
use stack_migrate.Graph.Diffs.Effective.{effective_diffs}
use stack_migrate.Graph.Routing.{
  route_after_comprehension, route_after_aggregate, AfterAggregate, approval_required, publish,
  finish, AfterApproval, AfterComprehension, continue,
}
use stack_migrate.Graph.Nodes.Approval.{Decision, is_approved, approval_gate_node}
use stack_migrate.Graph.Nodes.Editor.{editor_node}
use stack_migrate.Graph.Nodes.Comprehension.{comprehension_node}
use stack_migrate.Graph.Nodes.Synthesis.{synthesis_node}
use stack_migrate.Graph.Nodes.Budget.{budget_reconcile_node, budget_abort_node}
use stack_migrate.Graph.Nodes.ErrorAnalysis.{error_analysis_node}
use stack_migrate.Graph.Nodes.Aggregate.{aggregate_node}
use stack_migrate.Graph.Nodes.Approval.{request_approval_node}
use stack_migrate.Graph.Build.Machine.{
  Point, comprehension, synthesis, budget_reconcile, sandbox_test, error_analysis, aggregate,
  request_approval, approval_gate, pr_publish, budget_abort, ended, editors, crashed, Env, Machine,
  wave_updates, step_at, step, run, resume, dispatch_from, after_aggregate, after_comprehension,
  after_approval,
}
use stack_migrate.Graph.Routing.{route_after_approval}
use stack_migrate.Graph.Build.Measure.{Distinct-apply_update}
use stack_migrate.Graph.Build.Frame.{
  comprehension_node-IsSilent, synthesis_node-IsSilent, budget_reconcile_node-IsStill,
  error_analysis_node-IsSilent, aggregate_node-IsStill, request_approval_node-IsStill,
}
use stack_migrate.Graph.Build.Sandbox.{Tested, sandbox_test_node-SandboxResult}
use stack_migrate.Graph.Build.Shipping.{
  IsUnpassed, Shipped, PointTested, IsSound, dispatch_from-PointTested, silent-IsUnpassed,
  wave-IsUnpassed, effective_diffs_still, still-Tested, move-IsSound, sandbox-IsSound,
  publish-IsSound,
}

module _ (env : Env) where
  pub wave-Distinct :
      (s0 s : GraphState) (n : ℕ) (ts : List MigrationTask)
      → Distinct (ids s.tasks)
      → Distinct (ids (apply_updates s (wave_updates env s0 n ts)).tasks)
  unfolding apply_updates wave_updates
  wave-Distinct s0 s n [] d = d
  wave-Distinct s0 s n (t ∷ ts) d =
      wave-Distinct s0 (apply_update s _) n ts (Distinct-apply_update s _)

  pub wave-config :
      (s0 s : GraphState) (n : ℕ) (ts : List MigrationTask)
      → (apply_updates s (wave_updates env s0 n ts)).config ≡ s.config
  unfolding apply_updates wave_updates apply_update
  wave-config s0 s n [] = refl
  wave-config s0 s n (t ∷ ts) =
      wave-config s0
        (apply_update s (editor_node t s0.budget (env.branch_clock n t) (env.generate n t))) n ts

  editors-IsSound :
      (ts : List MigrationTask) (m : Machine)
      → IsSound env m
      → IsUnpassed m.state.full_suite_result
      → IsSound env (step_at env (editors ts) m)
  unfolding step_at
  editors-IsSound ts m h un = record {
    distinct = wave-Distinct m.state m.state m.tick ts h.distinct;
    tested = wave-IsUnpassed env m.state m.state m.tick ts un;
    shipped =
        subst (λ c. All (Shipped env c.target_workspace_path) m.published)
          (sym (wave-config m.state m.state m.tick ts)) h.shipped;
  }

  after_aggregate-Tested :
      (s : GraphState) (files : Files) (a : AfterAggregate)
      → Tested env s.config.target_workspace_path (effective_diffs s.editor_results s.tasks) files
      → PointTested env s files (after_aggregate env a)
  unfolding after_aggregate
  after_aggregate-Tested s files approval_required h = h
  after_aggregate-Tested s files publish h = h
  after_aggregate-Tested s files finish h = tt

  after_comprehension-PointTested :
      (s : GraphState) (files : Files) (a : AfterComprehension)
      → IsUnpassed s.full_suite_result
      → PointTested env s files (after_comprehension env a)
  unfolding after_comprehension
  after_comprehension-PointTested s files continue h = h
  after_comprehension-PointTested s files AfterComprehension.budget_exhausted h = tt

  step_at-IsSound :
      (p : Point) (m : Machine)
      → PointTested env m.state m.files p
      → IsSound env m
      → IsSound env (step_at env p m)
  unfolding step_at
  step_at-IsSound ended m t h = h
  step_at-IsSound approval_gate m t h = h
  step_at-IsSound (crashed exc) m t h = h
  step_at-IsSound (editors ts) m t h = editors-IsSound ts m h t
  step_at-IsSound pr_publish m t h = publish-IsSound env m h t
  step_at-IsSound sandbox_test m t h = sandbox-IsSound env m _ h t (
      sandbox_test_node-SandboxResult env m.state.config m.state.editor_results m.state.tasks m.tick
        m.files)
  step_at-IsSound comprehension m t h =
      let u =
        comprehension_node env.unicode m.state.config m.state.budget (env.clock m.tick)
          env.discovered env.extract in
      let s = apply_update m.state u in
      move-IsSound env m u (λ s. after_comprehension env (route_after_comprehension s.phase)) h
        (after_comprehension-PointTested s m.files (route_after_comprehension s.phase)
          (silent-IsUnpassed env m.state u (comprehension_node-IsSilent _ _ _ _ _ _) t))
  step_at-IsSound synthesis m t h =
      let u = synthesis_node env.synthesis_adapter m.state.comprehension in
      let un = silent-IsUnpassed env m.state u (synthesis_node-IsSilent _ _) t in
      move-IsSound env m u (λ s. dispatch_from env sandbox_test s m.tick) h
        (dispatch_from-PointTested env (apply_update m.state u) m.files sandbox_test m.tick un un)
  step_at-IsSound budget_reconcile m t h =
      let u =
        budget_reconcile_node m.state.budget_deltas m.state.budget_deltas_consumed m.state.budget in
      let un = silent-IsUnpassed env m.state u (budget_reconcile_node-IsStill _ _ _).0 t in
      move-IsSound env m u (λ s. dispatch_from env sandbox_test s m.tick) h
        (dispatch_from-PointTested env (apply_update m.state u) m.files sandbox_test m.tick un un)
  step_at-IsSound error_analysis m t h =
      let u =
        error_analysis_node m.state.full_suite_result m.state.tasks m.state.editor_results
          m.state.budget m.state.retry_round m.state.max_retry_rounds (env.analysis_clock m.tick)
          (env.analyze m.tick) in
      let un = silent-IsUnpassed env m.state u (error_analysis_node-IsSilent _ _ _ _ _ _ _ _) t in
      move-IsSound env m u (λ s. dispatch_from env ended s m.tick) h
        (dispatch_from-PointTested env (apply_update m.state u) m.files ended m.tick un tt)
  step_at-IsSound aggregate m t h =
      let u =
        aggregate_node env.unicode m.state.config m.state.editor_results m.state.tasks
          m.state.comprehension in
      move-IsSound env m u (λ s. after_aggregate env (route_after_aggregate s.config s.pr_draft)) h
        (after_aggregate-Tested (apply_update m.state u) m.files _
          (still-Tested env m.state u m.files h.distinct (aggregate_node-IsStill _ _ _ _ _) t))
  step_at-IsSound request_approval m t h =
      move-IsSound env m request_approval_node (λ _. approval_gate) h
        (still-Tested env m.state request_approval_node m.files h.distinct
          request_approval_node-IsStill t)
  step_at-IsSound budget_abort m t h =
      move-IsSound env m (budget_abort_node m.state.tasks m.state.budget (env.clock m.tick))
        (λ _. ended) h tt

  -- Soundness is kept by every superstep.
  pub step-IsSound : (m : Machine) → IsSound env m → IsSound env (step env m)
  unfolding step
  step-IsSound m h = step_at-IsSound m.point m h.tested h

  pub run-IsSound : (n : ℕ) (m : Machine) → IsSound env m → IsSound env (run env n m)
  unfolding run step
  run-IsSound zero m h = h
  run-IsSound (suc n) m h =
      run-IsSound n (step_at env m.point m) (step_at-IsSound m.point m h.tested h)

  resume-Tested :
      (s : GraphState) (files : Files) (a : AfterApproval)
      → Tested env s.config.target_workspace_path (effective_diffs s.editor_results s.tasks) files
      → PointTested env s files (after_approval env a)
  unfolding after_approval
  resume-Tested s files AfterApproval.approved h = h
  resume-Tested s files AfterApproval.rejected h = tt

  pub gate_touches_nothing :
      (d : Decision)
      → ((approval_gate_node d).tasks ≡ []) × ((approval_gate_node d).editor_results ≡ [])
  unfolding approval_gate_node
  gate_touches_nothing d = elim (Bool-cases (is_approved d)) [
    | inl e ↦ rw e (refl, refl)
    | inr e ↦ rw e (refl, refl)
  ]

  gate-Tested :
      (d : Decision) (s : GraphState) (files : Files)
      → Distinct (ids s.tasks)
      → Tested env s.config.target_workspace_path (effective_diffs s.editor_results s.tasks) files
      → Tested env
          (apply_update s (approval_gate_node d)).config.target_workspace_path
          (effective_diffs
            (apply_update s (approval_gate_node d)).editor_results
            (apply_update s (approval_gate_node d)).tasks)
          files
  unfolding apply_update
  gate-Tested d s files h t =
      let q = gate_touches_nothing d in
      subst (λ ds. Tested env s.config.target_workspace_path ds files)
        (sym (effective_diffs_still env s (approval_gate_node d) h q.0 q.1)) t

  -- A resumption of a run that waits at the gate is sound if the run is.
  pub resume-IsSound :
      (d : Decision) (m : Machine)
      → m.point ≡ approval_gate
      → IsSound env m
      → IsSound env (resume env d m)
  unfolding resume
  resume-IsSound d m at h =
      let u = approval_gate_node d in
      move-IsSound env m u (λ s. after_approval env (route_after_approval s.approval_status)) h
        (resume-Tested (apply_update m.state u) m.files _ (
          gate-Tested d m.state m.files h.distinct
            (subst (PointTested env m.state m.files) at h.tested)))

  pub start-IsSound :
      (m : Machine)
      → m.point ≡ comprehension
      → m.state.tasks ≡ []
      → m.state.full_suite_result ≡ none
      → m.published ≡ []
      → IsSound env m
  start-IsSound m at tasks result calls = record {
    distinct = subst (λ ts. Distinct (ids ts)) (sym tasks) tt;
    tested = subst (PointTested env m.state m.files) (sym at) (subst IsUnpassed (sym result) tt);
    shipped = subst (All (Shipped env m.state.config.target_workspace_path)) (sym calls) tt;
  }

  -- Let a run start at the comprehension node with no task, no test result and no publisher call,
  -- and make any number of supersteps. Every call of the publisher then carries files that were
  -- written to the workspace, whose content at that time passed the test suite.
  pub run_ships_tested :
      (n : ℕ) (m : Machine)
      → m.point ≡ comprehension
      → m.state.tasks ≡ []
      → m.state.full_suite_result ≡ none
      → m.published ≡ []
      → All (Shipped env (run env n m).state.config.target_workspace_path) (run env n m).published
  run_ships_tested n m at tasks result calls =
      (run-IsSound n m (start-IsSound m at tasks result calls)).shipped

  -- Let such a run pause at the approval gate, and be resumed with any decision for any number of
  -- supersteps. Every call of the publisher still carries files that were written to the workspace,
  -- whose content at that time passed the test suite.
  pub resumed_run_ships_tested :
      (n k : ℕ) (d : Decision) (m : Machine)
      → m.point ≡ comprehension
      → m.state.tasks ≡ []
      → m.state.full_suite_result ≡ none
      → m.published ≡ []
      → (run env n m).point ≡ approval_gate
      → All
          (Shipped env (run env k (resume env d (run env n m))).state.config.target_workspace_path)
          (run env k (resume env d (run env n m))).published
  resumed_run_ships_tested n k d m at tasks result calls paused =
      (run-IsSound k _ (
        resume-IsSound d (run env n m) paused
          (run-IsSound n m (start-IsSound m at tasks result calls)))).shipped
