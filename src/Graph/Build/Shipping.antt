-- ===== src/Graph/Build/Shipping.antt =====
-- What is published has been tested.
use stack_migrate.Base.{
  ℕ, true, false, ◌≡◌, refl, sym, subst, List, [], ◌∷◌, Option, none, some, Text, All, All-append,
  Distinct,
}
use mathlib.Core.List.{append-nil}
use stack_migrate.Base.{arith}
use stack_migrate.State.{
  GraphState, Update, apply_update, apply_updates, TestResult, is_passed, written_option, FileDiff,
  MigrationTask,
}
use stack_migrate.State.Merge.{ids, merge_nil}
use stack_migrate.Sandbox.Workspace.{Files}
use stack_migrate.Graph.Diffs.Effective.{effective_diffs}
use stack_migrate.Graph.Routing.{
  Route, sends, no_ready_tasks, zero_division, AfterSandbox, sandbox_passed, sandbox_needs_analysis,
  route_after_sandbox,
}
use stack_migrate.Graph.Nodes.Publish.{Publication, pr_publish_node}
use stack_migrate.Graph.Nodes.Publish.Policy.{IsPermitted, pr_publish_node-IsPermitted}
use stack_migrate.Graph.Nodes.SandboxTest.{NodeResult, returned}
use stack_migrate.Graph.Build.Machine.{
  Point, aggregate, request_approval, approval_gate, pr_publish, budget_abort, ended, crashed, Env,
  Machine, wave_updates, move, after_sandbox_node, step_at, follow, dispatch_from, after_sandbox,
}
use stack_migrate.Graph.Build.Measure.{Distinct-apply_update}
use stack_migrate.Graph.Build.Frame.{IsSilent, IsStill, editor_node-IsSilent}
use stack_migrate.Graph.Build.Sandbox.{Tested, RunOf, SandboxResult}

abbrev pub IsUnpassed : Option TestResult → Type 0
IsUnpassed none = Unit
IsUnpassed (some r) = is_passed r.outcome ≡ false

-- The files of a call were written to the workspace, and the suite passed on what it then held.
abbrev pub Shipped : Env → Text → Publication → Type 0
Shipped env root p = (files : Files) × Tested env root p.files files

passed_of_route :
    (o : Option TestResult)
    → route_after_sandbox o ≡ sandbox_passed
    → (r : TestResult) × (o ≡ some r) × (is_passed r.outcome ≡ true)
unfolding route_after_sandbox
passed_of_route none e = absurd (cc)
passed_of_route (some r) e = (r, refl, ground arith)

IsUnpassed-of_route :
    (o : Option TestResult) → route_after_sandbox o ≡ sandbox_needs_analysis → IsUnpassed o
unfolding route_after_sandbox
IsUnpassed-of_route none e = tt
IsUnpassed-of_route (some r) e = ground arith

-- Over a result that has not passed, a passed one is new.
written_of_unpassed :
    (new old : Option TestResult) (r : TestResult)
    → IsUnpassed old
    → written_option new old ≡ some r
    → is_passed r.outcome ≡ true
    → new ≡ some r
written_of_unpassed (some n) old r un e ok = e
written_of_unpassed none none r un e ok = absurd (cc)
written_of_unpassed none (some o) r un e ok = absurd (ground arith)

module _ (env : Env) where
  -- Between the sandbox and the publisher the effective files are the tested ones; before it no
  -- result has passed.
  abbrev pub PointTested : GraphState → Files → Point → Type 0
  PointTested s files aggregate =
      Tested env s.config.target_workspace_path (effective_diffs s.editor_results s.tasks) files
  PointTested s files request_approval =
      Tested env s.config.target_workspace_path (effective_diffs s.editor_results s.tasks) files
  PointTested s files approval_gate =
      Tested env s.config.target_workspace_path (effective_diffs s.editor_results s.tasks) files
  PointTested s files pr_publish =
      Tested env s.config.target_workspace_path (effective_diffs s.editor_results s.tasks) files
  PointTested s files budget_abort = Unit
  PointTested s files ended = Unit
  PointTested s files (crashed exc) = Unit
  PointTested s files _ = IsUnpassed s.full_suite_result

  pub record IsSound (m : Machine) : Type 0 where
    pub distinct : Distinct (ids m.state.tasks)
    pub tested : PointTested m.state m.files m.point
    pub shipped : All (Shipped env m.state.config.target_workspace_path) m.published

  follow-PointTested :
      (s : GraphState) (files : Files) (idle : Point) (r : Route)
      → IsUnpassed s.full_suite_result
      → PointTested s files idle
      → PointTested s files (follow env idle r)
  unfolding follow
  follow-PointTested s files idle no_ready_tasks h i = i
  follow-PointTested s files idle Route.budget_exhausted h i = tt
  follow-PointTested s files idle zero_division h i = tt
  follow-PointTested s files idle (sends []) h i = tt
  follow-PointTested s files idle (sends (t ∷ ts)) h i = h

  pub dispatch_from-PointTested :
      (s : GraphState) (files : Files) (idle : Point) (n : ℕ)
      → IsUnpassed s.full_suite_result
      → PointTested s files idle
      → PointTested s files (dispatch_from env idle s n)
  unfolding dispatch_from
  dispatch_from-PointTested s files idle n h i = follow-PointTested s files idle _ h i

  pub silent-IsUnpassed :
      (s : GraphState) (u : Update)
      → IsSilent u
      → IsUnpassed s.full_suite_result
      → IsUnpassed (apply_update s u).full_suite_result
  unfolding apply_update
  silent-IsUnpassed s u q h = rw q.1 h

  pub wave-IsUnpassed :
      (s0 s : GraphState) (n : ℕ) (ts : List MigrationTask)
      → IsUnpassed s.full_suite_result
      → IsUnpassed (apply_updates s (wave_updates env s0 n ts)).full_suite_result
  unfolding apply_updates wave_updates
  wave-IsUnpassed s0 s n [] h = h
  wave-IsUnpassed s0 s n (t ∷ ts) h = wave-IsUnpassed s0 (apply_update s _) n ts (
      silent-IsUnpassed s _
        (editor_node-IsSilent t s0.budget (env.branch_clock n t) (env.generate n t)) h)

  -- A node that touches neither tasks nor results leaves the effective files as they are.
  pub effective_diffs_still :
      (s : GraphState) (u : Update)
      → Distinct (ids s.tasks)
      → u.tasks ≡ []
      → u.editor_results ≡ []
      → effective_diffs (apply_update s u).editor_results (apply_update s u).tasks
        ≡ effective_diffs s.editor_results s.tasks
  unfolding apply_update
  effective_diffs_still s u d t r = rw (r, t, append-nil, merge_nil s.tasks d)

  pub still-Tested :
      (s : GraphState) (u : Update) (files : Files)
      → Distinct (ids s.tasks)
      → IsStill u
      → Tested env s.config.target_workspace_path (effective_diffs s.editor_results s.tasks) files
      → Tested env
          (apply_update s u).config.target_workspace_path
          (effective_diffs (apply_update s u).editor_results (apply_update s u).tasks)
          files
  unfolding apply_update
  still-Tested s u files d q h =
      subst (λ ds. Tested env s.config.target_workspace_path ds files)
        (sym (effective_diffs_still s u d q.1 q.2)) h

  -- A node's move is sound if its edge leads to a point with what that point wants.
  pub move-IsSound :
      (m : Machine) (u : Update) (edge : GraphState → Point)
      → IsSound m
      → PointTested (apply_update m.state u) m.files (edge (apply_update m.state u))
      → IsSound (move env m u edge)
  unfolding apply_update
  move-IsSound m u edge h t = record {
    distinct = Distinct-apply_update m.state u;
    tested = t;
    shipped = h.shipped;
  }

  after_sandbox-Tested :
      (s : GraphState) (files : Files) (a : AfterSandbox)
      → (a ≡ sandbox_passed
          → Tested env s.config.target_workspace_path
              (effective_diffs s.editor_results s.tasks)
              files)
      → (a ≡ sandbox_needs_analysis → IsUnpassed s.full_suite_result)
      → PointTested s files (after_sandbox env a)
  unfolding after_sandbox
  after_sandbox-Tested s files sandbox_passed p n = p refl
  after_sandbox-Tested s files sandbox_needs_analysis p n = n refl

  pub sandbox-IsSound :
      (m : Machine) (r : Files × NodeResult)
      → IsSound m
      → IsUnpassed m.state.full_suite_result
      → SandboxResult env m.state.config.target_workspace_path
          (effective_diffs m.state.editor_results m.state.tasks)
          r
      → IsSound (after_sandbox_node env m r)
  unfolding apply_update
  sandbox-IsSound m (files, NodeResult.raised exc) h un q = record {
    distinct = h.distinct;
    tested = tt;
    shipped = h.shipped;
  }
  sandbox-IsSound m (files, returned u) h un q = record {
    distinct = Distinct-apply_update m.state u;
    tested =
        after_sandbox-Tested (apply_update m.state u) files (route_after_sandbox result) passed_run
          (IsUnpassed-of_route result);
    shipped = h.shipped;
  }
    where
      result : Option TestResult
      result = written_option u.full_suite_result m.state.full_suite_result

      diffs : List FileDiff
      diffs = effective_diffs m.state.editor_results m.state.tasks

      passed_run :
          route_after_sandbox result ≡ sandbox_passed
          → Tested env m.state.config.target_workspace_path
              (effective_diffs
                (apply_update m.state u).editor_results
                (apply_update m.state u).tasks)
              files
      passed_run e =
          let (r, found, ok) = passed_of_route result e in
          let new =
            written_of_unpassed u.full_suite_result m.state.full_suite_result r un found ok in
          let (tick, ran, before, written, applied) =
            subst (RunOf env m.state.config.target_workspace_path diffs files) new q.3 in
          subst (λ ds. Tested env m.state.config.target_workspace_path ds files)
            (sym (effective_diffs_still m.state u h.distinct q.1 q.2))
            (tick, r, ran, ok, before, written, applied)

  Shipped-of_permitted :
      (s : GraphState) (files : Files) (ps : List Publication)
      → Tested env s.config.target_workspace_path (effective_diffs s.editor_results s.tasks) files
      → All (IsPermitted s) ps
      → All (Shipped env s.config.target_workspace_path) ps
  Shipped-of_permitted s files [] t h = tt
  Shipped-of_permitted s files (p ∷ ps) t h = (
    (files, subst (λ ds. Tested env s.config.target_workspace_path ds files) (sym h.0.files) t),
    Shipped-of_permitted s files ps t h.1,
  )

  pub publish-IsSound :
      (m : Machine)
      → IsSound m
      → Tested env m.state.config.target_workspace_path
          (effective_diffs m.state.editor_results m.state.tasks)
          m.files
      → IsSound (step_at env pr_publish m)
  unfolding step_at apply_update
  publish-IsSound m h t =
      let (u, calls) = pr_publish_node m.state env.publisher in
      record {
        distinct = Distinct-apply_update m.state u;
        tested = tt;
        shipped =
            All-append (Shipped env m.state.config.target_workspace_path) m.published calls
              h.shipped
              (Shipped-of_permitted m.state m.files calls t
                (pr_publish_node-IsPermitted m.state env.publisher));
      }
