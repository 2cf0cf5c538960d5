-- ===== src/Graph/Build/Reviewed.antt =====
-- Every superstep keeps the review.
use stack_migrate.Base.{◌≡◌, refl, sym, subst, List, [], ◌∷◌, none, All, All-append, Distinct}
use stack_migrate.State.{GraphState, apply_update}
use stack_migrate.State.Merge.{ids}
use stack_migrate.Sandbox.Workspace.{Files}
use stack_migrate.Graph.Diffs.Effective.{effective_diffs}
use stack_migrate.Graph.Routing.{
  AfterSandbox, sandbox_passed, sandbox_needs_analysis, AfterComprehension, continue,
  route_after_comprehension, route_after_aggregate,
}
use stack_migrate.Graph.Nodes.Aggregate.{aggregate_node}
use stack_migrate.Graph.Nodes.Approval.{request_approval_node}
use stack_migrate.Graph.Nodes.Budget.{budget_reconcile_node, budget_abort_node}
use stack_migrate.Graph.Nodes.Comprehension.{comprehension_node}
use stack_migrate.Graph.Nodes.ErrorAnalysis.{error_analysis_node}
use stack_migrate.Graph.Nodes.Publish.{Publication, publication, pr_publish_node}
use stack_migrate.Graph.Nodes.Publish.Policy.{IsDrafted, pr_publish_node-IsDrafted}
use stack_migrate.Graph.Nodes.SandboxTest.{NodeResult, returned}
use stack_migrate.Graph.Nodes.Synthesis.{synthesis_node}
use stack_migrate.Graph.Build.Draftless.{
  IsDraftlessResult, comprehension_node-IsDraftless, synthesis_node-IsDraftless,
  budget_reconcile_node-IsDraftless, error_analysis_node-IsDraftless, sandbox_test_node-IsDraftless,
  draftless-apply_update,
}
use stack_migrate.Graph.Build.Frame.{aggregate_node-IsStill, request_approval_node-IsStill}
use stack_migrate.Graph.Build.Machine.{
  Point, comprehension, synthesis, budget_reconcile, sandbox_test, error_analysis, aggregate,
  request_approval, approval_gate, pr_publish, budget_abort, ended, editors, crashed, Env, Machine,
  after_sandbox_node, step_at, step, dispatch_from, after_sandbox, after_comprehension,
  after_aggregate,
}
use stack_migrate.Graph.Build.Measure.{Distinct-apply_update}
use stack_migrate.Graph.Build.Soundness.{wave-Distinct}
use stack_migrate.Graph.Build.Review.{
  Accepted, Review, PointReviewed, Deliverable, IsReviewed, aggregate_node-AggregateResult,
  move-IsReviewed, dispatch_from-PointReviewed, wave-draftless, after_aggregate-PointReviewed,
  written-Review, still-Review,
}

module _ (env : Env) where
  aggregate-PointReviewed :
      (m : Machine)
      → IsReviewed env m
      → m.state.pr_draft ≡ none
      → IsReviewed env (step_at env aggregate m)
  unfolding step_at apply_update
  aggregate-PointReviewed m h e =
      let u =
        aggregate_node env.unicode m.state.config m.state.editor_results m.state.tasks
          m.state.comprehension in
      move-IsReviewed env m u (λ s. after_aggregate env (route_after_aggregate s.config s.pr_draft))
        h
        (after_aggregate-PointReviewed env (apply_update m.state u) m.state.config (
          written-Review env m.state u h.distinct (aggregate_node-IsStill _ _ _ _ _) e
            (aggregate_node-AggregateResult _ _ _ _ _)))

  sandbox-IsReviewed :
      (m : Machine) (r : Files × NodeResult)
      → IsReviewed env m
      → m.state.pr_draft ≡ none
      → IsDraftlessResult r
      → IsReviewed env (after_sandbox_node env m r)
  unfolding after_sandbox
  sandbox-IsReviewed m (files, NodeResult.raised exc) h e q = record {
    distinct = h.distinct;
    review = tt;
    deliverable = h.deliverable;
  }
  sandbox-IsReviewed m (files, returned u) h e q = record {
    distinct = Distinct-apply_update m.state u;
    review = go _;
    deliverable = h.deliverable;
  }
    where
      go :
          (a : AfterSandbox)
          → PointReviewed env.unicode (apply_update m.state u) (after_sandbox env a)
      go sandbox_passed = draftless-apply_update m.state u q e
      go sandbox_needs_analysis = draftless-apply_update m.state u q e

  pub drafted-Deliverable :
      (s : GraphState) (ps : List Publication)
      → Accepted env.unicode (effective_diffs s.editor_results s.tasks)
      → All (IsDrafted s) ps
      → All (Deliverable env.unicode) ps
  unfolding publication
  drafted-Deliverable s [] a h = tt
  drafted-Deliverable s (p ∷ ps) a h =
      (subst (Deliverable env.unicode) (sym h.0.2) a, drafted-Deliverable s ps a h.1)

  after_comprehension-PointReviewed :
      (s : GraphState) (a : AfterComprehension)
      → s.pr_draft ≡ none
      → PointReviewed env.unicode s (after_comprehension env a)
  unfolding after_comprehension
  after_comprehension-PointReviewed s continue h = h
  after_comprehension-PointReviewed s AfterComprehension.budget_exhausted h = tt

  request-Review :
      (s : GraphState)
      → Distinct (ids s.tasks)
      → Review env.unicode s
      → Review env.unicode (apply_update s request_approval_node)
  unfolding request_approval_node
  request-Review s d r =
      still-Review env s request_approval_node d request_approval_node-IsStill.1
        request_approval_node-IsStill.2 (refl, refl) r

  step_at-IsReviewed :
      (p : Point) (m : Machine)
      → PointReviewed env.unicode m.state p
      → IsReviewed env m
      → IsReviewed env (step_at env p m)
  unfolding step_at apply_update
  step_at-IsReviewed ended m r h = h
  step_at-IsReviewed approval_gate m r h = h
  step_at-IsReviewed (crashed exc) m r h = h
  step_at-IsReviewed (editors ts) m r h = record {
    distinct = wave-Distinct env m.state m.state m.tick ts h.distinct;
    review = wave-draftless env m.state m.state m.tick ts r;
    deliverable = h.deliverable;
  }
  step_at-IsReviewed comprehension m r h =
      let u =
        comprehension_node env.unicode m.state.config m.state.budget (env.clock m.tick)
          env.discovered env.extract in
      move-IsReviewed env m u (λ s. after_comprehension env (route_after_comprehension s.phase)) h
        (after_comprehension-PointReviewed (apply_update m.state u) _
          (draftless-apply_update m.state u (comprehension_node-IsDraftless _ _ _ _ _ _) r))
  step_at-IsReviewed synthesis m r h =
      let u = synthesis_node env.synthesis_adapter m.state.comprehension in
      let e = draftless-apply_update m.state u (synthesis_node-IsDraftless _ _) r in
      move-IsReviewed env m u (λ s. dispatch_from env sandbox_test s m.tick) h
        (dispatch_from-PointReviewed env (apply_update m.state u) sandbox_test m.tick e e)
  step_at-IsReviewed budget_reconcile m r h =
      let u =
        budget_reconcile_node m.state.budget_deltas m.state.budget_deltas_consumed m.state.budget in
      let e = draftless-apply_update m.state u (budget_reconcile_node-IsDraftless _ _ _) r in
      move-IsReviewed env m u (λ s. dispatch_from env sandbox_test s m.tick) h
        (dispatch_from-PointReviewed env (apply_update m.state u) sandbox_test m.tick e e)
  step_at-IsReviewed error_analysis m r h =
      let u =
        error_analysis_node m.state.full_suite_result m.state.tasks m.state.editor_results
          m.state.budget m.state.retry_round m.state.max_retry_rounds (env.analysis_clock m.tick)
          (env.analyze m.tick) in
      let e =
        draftless-apply_update m.state u (error_analysis_node-IsDraftless _ _ _ _ _ _ _ _) r in
      move-IsReviewed env m u (λ s. dispatch_from env ended s m.tick) h
        (dispatch_from-PointReviewed env (apply_update m.state u) ended m.tick e tt)
  step_at-IsReviewed sandbox_test m r h =
      sandbox-IsReviewed m _ h r (sandbox_test_node-IsDraftless _ _ _ _ _ _)
  step_at-IsReviewed aggregate m r h = aggregate-PointReviewed m h r
  step_at-IsReviewed request_approval m r h =
      move-IsReviewed env m request_approval_node (λ _. approval_gate) h
        (request-Review m.state h.distinct r)
  step_at-IsReviewed pr_publish m r h = record {
    distinct = Distinct-apply_update m.state (pr_publish_node m.state env.publisher).0;
    review = tt;
    deliverable =
        All-append (Deliverable env.unicode) m.published _ h.deliverable
          (drafted-Deliverable m.state _ r.1.1 (pr_publish_node-IsDrafted m.state env.publisher));
  }
  step_at-IsReviewed budget_abort m r h =
      move-IsReviewed env m (budget_abort_node m.state.tasks m.state.budget (env.clock m.tick))
        (λ _. ended) h tt

  pub step-IsReviewed : (m : Machine) → IsReviewed env m → IsReviewed env (step env m)
  unfolding step
  step-IsReviewed m h = step_at-IsReviewed m.point m h.review h
