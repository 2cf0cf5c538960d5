-- ===== src/Graph/Build/Consent.antt =====
-- Nothing is published without the approval that the configuration asks for.
use stack_migrate.Base.{
  ℕ, zero, suc, true, false, ◌≡◌, refl, ◌∙◌, ap, List, [], ◌∷◌, ◌++◌, none, All,
}
use mathlib.Core.List.{append-nil}
use stack_migrate.State.{GraphState, Update, apply_update, apply_updates, MigrationTask}
use stack_migrate.Sandbox.Workspace.{Files}
use stack_migrate.Graph.Diffs.Effective.{effective_diffs}
use stack_migrate.Graph.Routing.{needs_human_approval}
use stack_migrate.Graph.Nodes.Publish.{Publication, is_recorded}
use stack_migrate.Graph.Nodes.Publish.Policy.{IsPermitted, pr_publish_node-IsPermitted}
use stack_migrate.Graph.Nodes.SandboxTest.{NodeResult, returned}
use stack_migrate.Graph.Nodes.Approval.{
  Decision, is_approved, approval_gate_node, request_approval_node,
}
use stack_migrate.Graph.Nodes.Editor.{editor_node}
use stack_migrate.Graph.Build.Machine.{
  Point, comprehension, synthesis, budget_reconcile, sandbox_test, error_analysis, aggregate,
  request_approval, approval_gate, pr_publish, budget_abort, ended, editors, crashed, Env, Machine,
  wave_updates, after_sandbox_node, step_at, step, run, resume,
}
use stack_migrate.Graph.Build.Frame.{
  comprehension_node-IsSilent, synthesis_node-IsSilent, editor_node-IsSilent,
  budget_reconcile_node-IsStill, budget_abort_node-IsSilent, error_analysis_node-IsSilent,
  aggregate_node-IsStill, request_approval_node-IsStill, pr_publish_node-IsStill,
}
use stack_migrate.Graph.Build.Sandbox.{SandboxResult, sandbox_test_node-SandboxResult}

-- The configuration asks for an approval, and none is recorded.
abbrev pub IsWithheld : GraphState → Type 0
IsWithheld s = (needs_human_approval s.config ≡ true) × (is_recorded s.approval_status ≡ false)

-- The approval is still withheld, and the publisher has been called as often as before.
abbrev pub HoldsBack : List Publication → Machine → Type 0
HoldsBack calls m = IsWithheld m.state × (m.published ≡ calls)

update-IsWithheld :
    (s : GraphState) (u : Update)
    → u.approval_status ≡ none
    → IsWithheld s
    → IsWithheld (apply_update s u)
unfolding apply_update
update-IsWithheld s u e h = (h.0, rw e h.1)

no_calls :
    (s : GraphState) (ps : List Publication) → IsWithheld s → All (IsPermitted s) ps → ps ≡ []
no_calls s [] h a = refl
no_calls s (p ∷ ps) h a = absurd (cc (h.1, a.0.approval h.0))

module _ (env : Env) where
  wave-IsWithheld :
      (s0 s : GraphState) (n : ℕ) (ts : List MigrationTask)
      → IsWithheld s
      → IsWithheld (apply_updates s (wave_updates env s0 n ts))
  unfolding apply_updates wave_updates
  wave-IsWithheld s0 s n [] h = h
  wave-IsWithheld s0 s n (t ∷ ts) h =
      let u = editor_node t s0.budget (env.branch_clock n t) (env.generate n t) in
      wave-IsWithheld s0 (apply_update s u) n ts
        (update-IsWithheld s u (editor_node-IsSilent t s0.budget _ _).0 h)

  sandbox-HoldsBack :
      (calls : List Publication) (m : Machine) (r : Files × NodeResult)
      → SandboxResult env m.state.config.target_workspace_path
          (effective_diffs m.state.editor_results m.state.tasks)
          r
      → HoldsBack calls m
      → HoldsBack calls (after_sandbox_node env m r)
  sandbox-HoldsBack calls m (files, NodeResult.raised exc) q h = h
  sandbox-HoldsBack calls m (files, returned u) q h = (update-IsWithheld m.state u q.0 h.0, h.1)

  step_at-HoldsBack :
      (calls : List Publication) (p : Point) (m : Machine)
      → HoldsBack calls m
      → HoldsBack calls (step_at env p m)
  unfolding step_at
  step_at-HoldsBack calls ended m h = h
  step_at-HoldsBack calls approval_gate m h = h
  step_at-HoldsBack calls (crashed exc) m h = h
  step_at-HoldsBack calls (editors ts) m h = (wave-IsWithheld m.state m.state m.tick ts h.0, h.1)
  step_at-HoldsBack calls comprehension m h = (
    update-IsWithheld m.state _
        (comprehension_node-IsSilent env.unicode m.state.config m.state.budget (env.clock m.tick)
          env.discovered env.extract).0
        h.0,
    h.1,
  )
  step_at-HoldsBack calls synthesis m h = (
    update-IsWithheld m.state _
        (synthesis_node-IsSilent env.synthesis_adapter m.state.comprehension).0 h.0,
    h.1,
  )
  step_at-HoldsBack calls budget_reconcile m h = (
    update-IsWithheld m.state _
        (budget_reconcile_node-IsStill m.state.budget_deltas m.state.budget_deltas_consumed
          m.state.budget).0.0
        h.0,
    h.1,
  )
  step_at-HoldsBack calls sandbox_test m h =
      sandbox-HoldsBack calls m _
        (sandbox_test_node-SandboxResult env m.state.config m.state.editor_results m.state.tasks
          m.tick m.files)
        h
  step_at-HoldsBack calls error_analysis m h = (
    update-IsWithheld m.state _
        (error_analysis_node-IsSilent m.state.full_suite_result m.state.tasks m.state.editor_results
          m.state.budget m.state.retry_round m.state.max_retry_rounds (env.analysis_clock m.tick)
          (env.analyze m.tick)).0
        h.0,
    h.1,
  )
  step_at-HoldsBack calls aggregate m h = (
    update-IsWithheld m.state _
        (aggregate_node-IsStill env.unicode m.state.config m.state.editor_results m.state.tasks
          m.state.comprehension).0.0
        h.0,
    h.1,
  )
  step_at-HoldsBack calls request_approval m h =
      (update-IsWithheld m.state request_approval_node request_approval_node-IsStill.0.0 h.0, h.1)
  step_at-HoldsBack calls budget_abort m h = (
    update-IsWithheld m.state _
        (budget_abort_node-IsSilent m.state.tasks m.state.budget (env.clock m.tick)).0 h.0,
    h.1,
  )
  step_at-HoldsBack calls pr_publish m h = (
    update-IsWithheld m.state _ (pr_publish_node-IsStill m.state env.publisher).0.0 h.0,
    ap (λ more. m.published ++ more)
          (no_calls m.state _ h.0 (pr_publish_node-IsPermitted m.state env.publisher))
        ∙ append-nil m.published
        ∙ h.1,
  )

  run-HoldsBack :
      (calls : List Publication) (n : ℕ) (m : Machine)
      → HoldsBack calls m
      → HoldsBack calls (run env n m)
  unfolding run step
  run-HoldsBack calls zero m h = h
  run-HoldsBack calls (suc n) m h =
      run-HoldsBack calls n (step_at env m.point m) (step_at-HoldsBack calls m.point m h)

  -- As long as the configuration asks for an approval and none is recorded, no number of supersteps
  -- from any point makes a call of the publisher.
  pub unapproved_run_publishes_nothing :
      (n : ℕ) (m : Machine) → IsWithheld m.state → (run env n m).published ≡ m.published
  unapproved_run_publishes_nothing n m h = (run-HoldsBack m.published n m (h, refl)).1

  resume-HoldsBack :
      (d : Decision) (m : Machine)
      → is_approved d ≡ false
      → IsWithheld m.state
      → HoldsBack m.published (resume env d m)
  unfolding resume apply_update approval_gate_node
  resume-HoldsBack d m rejected h = ((h.0, rw rejected refl), refl)

  -- Let the configuration ask for an approval, and none be recorded when a run starts. Where the run is
  -- then resumed with anything but the object `True` under `approved`, nothing is published, before
  -- or after, in any number of supersteps.
  pub rejected_run_publishes_nothing :
      (n k : ℕ) (d : Decision) (m : Machine)
      → IsWithheld m.state
      → is_approved d ≡ false
      → (run env k (resume env d (run env n m))).published ≡ m.published
  rejected_run_publishes_nothing n k d m h rejected =
      let before = run-HoldsBack m.published n m (h, refl) in
      (run-HoldsBack (run env n m).published k _
        (resume-HoldsBack d (run env n m) rejected before.0)).1
      ∙ before.1
