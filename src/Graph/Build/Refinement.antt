-- ===== src/Graph/Build/Refinement.antt =====
-- A run of the machine is a life of the abstract one.
use stack_migrate.Base.{
  ℕ, ◌+◌, ◌≤◌, ◌≡◌, refl, sym, subst, true, List, [], ◌∷◌, length, length-append, Option, none,
  some, inl, inr, Bool-cases, not, ◌&&◌, arith,
}
use stack_migrate.State.{GraphState, PrDraft, MigrationRunConfig, apply_update}
use stack_migrate.Sandbox.Workspace.{Files}
use stack_migrate.Graph.Routing.{
  Route, sends, no_ready_tasks, zero_division, AfterSandbox, sandbox_passed, sandbox_needs_analysis,
  AfterComprehension, continue, route_after_aggregate, AfterApproval, needs_human_approval,
  is_truthy,
}
use stack_migrate.Graph.Nodes.Approval.{Decision}
use stack_migrate.Graph.Nodes.Publish.{
  Publication, Publisher, is_recorded, with_draft, publish_approved_pr, pr_publish_node,
}
use stack_migrate.Graph.Nodes.SandboxTest.{NodeResult, returned}
use stack_migrate.Graph.Build.Machine.{
  Point, comprehension, synthesis, budget_reconcile, sandbox_test, error_analysis, aggregate,
  request_approval, approval_gate, pr_publish, budget_abort, ended, editors, crashed, Env, Machine,
  after_sandbox_node, step_at, step, resume, follow, dispatch_from, after_sandbox,
  after_comprehension, after_aggregate, after_approval,
}
use stack_migrate.Graph.Build.Reach.{Reaches, at_once, stepped, decided}
use stack_migrate.Graph.Build.Soundness.{wave-config}
use stack_migrate.Graph.Build.Lifecycle.{
  Stage, working, packaging, deciding, publishing, over, View, in_stage, Moves, stays, stops,
  passes, asks, goes_out, drops, approves, rejects, publishes, MovesTo, done, next, call_bound,
  MovesTo-IsBounded, AskedIn, MovesTo-IsAsked,
}

unfoldable pub stage_of : Point → Stage
stage_of aggregate = packaging
stage_of request_approval = deciding
stage_of approval_gate = deciding
stage_of pr_publish = publishing
stage_of budget_abort = over
stage_of ended = over
stage_of (crashed exc) = over
stage_of _ = working

-- What the abstract machine sees of a run.
abbrev pub view_at : Point → MigrationRunConfig → List Publication → View
view_at p config calls = in_stage (stage_of p) (needs_human_approval config) (length calls)

abbrev pub view : Machine → View
view m = view_at m.point m.state.config m.published

calls-le :
    (s : GraphState) (publisher : Publisher) (o : Option PrDraft)
    → length (with_draft s publisher o).1 ≤ 1
unfolding publish_approved_pr
calls-le s publisher none = omega arith
calls-le s publisher (some draft) =
    elim (Bool-cases (not (is_truthy s.config.github_target_repo))) [
      | inl h ↦ rw h (omega arith)
      | inr h ↦
          elim (Bool-cases (needs_human_approval s.config && not (is_recorded s.approval_status))) [
            | inl h' ↦ rw (h, h') (omega arith)
            | inr h' ↦ rw (h, h') (omega arith)
          ]
    ]

module _ (env : Env) (config : MigrationRunConfig) (calls : List Publication) where
  -- A point of the working stage is followed by one of it or by the end.
  abbrev FromWork : Point → Type 0
  FromWork p = Moves (view_at synthesis config calls) (view_at p config calls)

  follow-FromWork : (idle : Point) (r : Route) → FromWork idle → FromWork (follow env idle r)
  unfolding follow stage_of
  follow-FromWork idle no_ready_tasks h = h
  follow-FromWork idle Route.budget_exhausted h = stops
  follow-FromWork idle zero_division h = stops
  follow-FromWork idle (sends []) h = stops
  follow-FromWork idle (sends (t ∷ ts)) h = stays

  after_sandbox-FromWork : (a : AfterSandbox) → FromWork (after_sandbox env a)
  unfolding after_sandbox stage_of
  after_sandbox-FromWork sandbox_passed = passes
  after_sandbox-FromWork sandbox_needs_analysis = stays

  after_comprehension-FromWork : (a : AfterComprehension) → FromWork (after_comprehension env a)
  unfolding after_comprehension stage_of
  after_comprehension-FromWork continue = stays
  after_comprehension-FromWork AfterComprehension.budget_exhausted = stops

  after_aggregate-Moves :
      (o : Option PrDraft)
      → Moves
          (view_at aggregate config calls)
          (view_at (after_aggregate env (route_after_aggregate config o)) config calls)
  unfolding after_aggregate route_after_aggregate stage_of
  after_aggregate-Moves none = drops
  after_aggregate-Moves (some d) = elim (Bool-cases (needs_human_approval config)) [
    | inl e ↦ rw e asks
    | inr e ↦ rw e goes_out
  ]

  after_approval-Moves :
      (a : AfterApproval)
      → Moves (view_at approval_gate config calls) (view_at (after_approval env a) config calls)
  unfolding after_approval stage_of
  after_approval-Moves AfterApproval.approved = approves
  after_approval-Moves AfterApproval.rejected = rejects

module _ (env : Env) where
  dispatch_from-FromWork :
      (idle : Point) (s : GraphState) (n : ℕ) (config : MigrationRunConfig)
      (calls : List Publication)
      → FromWork env config calls idle
      → FromWork env config calls (dispatch_from env idle s n)
  unfolding dispatch_from
  dispatch_from-FromWork idle s n config calls h = follow-FromWork env config calls idle _ h

  sandbox-Moves :
      (m : Machine) (r : Files × NodeResult)
      → Moves (view_at sandbox_test m.state.config m.published) (view (after_sandbox_node env m r))
  unfolding stage_of apply_update
  sandbox-Moves m (files, NodeResult.raised exc) = stops
  sandbox-Moves m (files, returned u) = after_sandbox-FromWork env m.state.config m.published _

  publish-Moves :
      (m : Machine)
      → Moves (view_at pr_publish m.state.config m.published) (view (step_at env pr_publish m))
  unfolding step_at stage_of apply_update pr_publish_node
  publish-Moves m =
      rw (length-append m.published (with_draft m.state env.publisher m.state.pr_draft).1)
        (publishes (calls-le m.state env.publisher m.state.pr_draft))

  step_at-Moves :
      (p : Point) (m : Machine)
      → m.point ≡ p
      → Moves (view_at p m.state.config m.published) (view (step_at env p m))
  unfolding step_at stage_of apply_update
  step_at-Moves ended m e = rw e stays
  step_at-Moves approval_gate m e = rw e stays
  step_at-Moves (crashed exc) m e = rw e stays
  step_at-Moves (editors ts) m e = rw (wave-config env m.state m.state m.tick ts) stays
  step_at-Moves comprehension m e = after_comprehension-FromWork env m.state.config m.published _
  step_at-Moves synthesis m e =
      dispatch_from-FromWork sandbox_test _ m.tick m.state.config m.published stays
  step_at-Moves budget_reconcile m e =
      dispatch_from-FromWork sandbox_test _ m.tick m.state.config m.published stays
  step_at-Moves error_analysis m e =
      dispatch_from-FromWork ended _ m.tick m.state.config m.published stops
  step_at-Moves sandbox_test m e = sandbox-Moves m _
  step_at-Moves aggregate m e = after_aggregate-Moves env m.state.config m.published _
  step_at-Moves request_approval m e = stays
  step_at-Moves budget_abort m e = stays
  step_at-Moves pr_publish m e = publish-Moves m

  -- Every superstep of a run is a move of the abstract machine.
  pub step-Moves : (m : Machine) → Moves (view m) (view (step env m))
  unfolding step
  step-Moves m = step_at-Moves m.point m refl

  pub resume-Moves :
      (d : Decision) (m : Machine)
      → m.point ≡ approval_gate
      → Moves (view m) (view (resume env d m))
  unfolding resume apply_update
  resume-Moves d m e =
      subst (λ p. Moves (view_at p m.state.config m.published) (view (resume env d m))) (sym e)
        (after_approval-Moves env m.state.config m.published _)

  -- Whatever becomes of a run, by supersteps and by decisions at the gate, is a life of the abstract
  -- machine: seen through its stage, its need of an approval and the number of publisher calls, it
  -- makes only the moves that the abstract machine allows.
  pub Reaches-MovesTo : {m a : Machine} → Reaches env m a → MovesTo (view m) (view a)
  Reaches-MovesTo at_once = done
  Reaches-MovesTo (stepped {a = a} w) = next (Reaches-MovesTo w) (step-Moves a)
  Reaches-MovesTo (decided {a = a} d w e) = next (Reaches-MovesTo w) (resume-Moves d a e)

  -- From its first node on, a run makes at most one further call of the publisher, and none unless it
  -- is over.
  pub reached_publishes_once_more :
      {m a : Machine}
      → m.point ≡ comprehension
      → Reaches env m a
      → length a.published ≤ length m.published + call_bound (stage_of a.point)
  unfolding stage_of call_bound
  reached_publishes_once_more {m = m} at w =
      MovesTo-IsBounded (length m.published) (Reaches-MovesTo w) (rw at (omega arith))

  -- A run that starts with no call of the publisher has made at most one, whatever becomes of it by
  -- supersteps and decisions, and none unless it is over.
  pub reached_publishes_at_most_once :
      {m a : Machine}
      → m.point ≡ comprehension
      → m.published ≡ []
      → Reaches env m a
      → length a.published ≤ call_bound (stage_of a.point)
  reached_publishes_at_most_once {a = a} at none_yet w =
      let bound =
        subst (λ calls. length a.published ≤ length calls + call_bound (stage_of a.point)) none_yet
          (reached_publishes_once_more at w) in
      omega (arith, bound)

  -- A run that waits at the gate needs an approval.
  pub waiting_needs_approval :
      {m a : Machine}
      → m.point ≡ comprehension
      → Reaches env m a
      → a.point ≡ approval_gate
      → needs_human_approval a.state.config ≡ true
  unfolding stage_of
  waiting_needs_approval {m = m} {a = a} start w at =
      subst (λ p. AskedIn (stage_of p) (needs_human_approval a.state.config)) at
        (MovesTo-IsAsked (Reaches-MovesTo w) (rw start tt))
