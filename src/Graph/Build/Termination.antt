-- ===== src/Graph/Build/Termination.antt =====
-- Every run ends: it is over, has failed, or waits at the approval gate.
use stack_migrate.Base.{
  ℕ, zero, suc, ◌+◌, ◌≤◌, ◌<◌, true, false, ◌≡◌, ◌⊎◌, inl, inr, refl, sym, ◌∙◌, ap, subst, arith,
  Bool-cases,
}
use stack_migrate.State.{Update, apply_update}
use stack_migrate.Graph.Build.Machine.{
  Point, comprehension, synthesis, budget_reconcile, sandbox_test, error_analysis, aggregate,
  request_approval, approval_gate, pr_publish, budget_abort, ended, editors, crashed, Env, Machine,
  step_at, step, run, is_halted, after_comprehension,
}
use stack_migrate.Graph.Routing.{AfterComprehension, continue, route_after_comprehension}
use stack_migrate.Graph.Nodes.Synthesis.{synthesis_node}
use stack_migrate.Graph.Nodes.Comprehension.{comprehension_node}
use stack_migrate.Graph.Build.Measure.{Inv, rank, measure, Distinct-apply_update}
use stack_migrate.Graph.Build.Steps.{step_at-Advances, dispatch_from-lemma}

module _ (env : Env) where
  step_at_halted : (p : Point) (m : Machine) → is_halted p ≡ true → step_at env p m ≡ m
  unfolding step_at
  step_at_halted ended m h = refl
  step_at_halted approval_gate m h = refl
  step_at_halted (crashed exc) m h = refl
  step_at_halted comprehension m h = absurd (cc)
  step_at_halted synthesis m h = absurd (cc)
  step_at_halted budget_reconcile m h = absurd (cc)
  step_at_halted sandbox_test m h = absurd (cc)
  step_at_halted error_analysis m h = absurd (cc)
  step_at_halted aggregate m h = absurd (cc)
  step_at_halted request_approval m h = absurd (cc)
  step_at_halted pr_publish m h = absurd (cc)
  step_at_halted budget_abort m h = absurd (cc)
  step_at_halted (editors ts) m h = absurd (cc)

  -- A machine that has halted stays as it is.
  pub run_halted : (n : ℕ) (m : Machine) → is_halted m.point ≡ true → run env n m ≡ m
  unfolding run step
  run_halted zero m h = refl
  run_halted (suc n) m h = rw (step_at_halted m.point m h) (run_halted n m h)

  is_halted_of_rank : (p : Point) → is_halted p ≡ false → 0 < rank p
  is_halted_of_rank ended h = absurd (cc)
  is_halted_of_rank approval_gate h = absurd (cc)
  is_halted_of_rank (crashed exc) h = absurd (cc)
  is_halted_of_rank _ h = omega arith

  -- The invariant holds, and the run is past synthesis.
  abbrev pub IsPlanned : Machine → Type 0
  IsPlanned m = Inv m × (rank m.point ≤ 7)

  -- A run whose tasks are planned halts within as many supersteps as its measure says.
  pub run_halts :
      (fuel : ℕ) (m : Machine)
      → IsPlanned m
      → measure m ≤ fuel
      → is_halted (run env fuel m).point ≡ true
  unfolding run step
  run_halts zero m (i, pl) h = elim (Bool-cases (is_halted m.point)) [
    | inl done ↦ done
    | inr more ↦ absurd (omega (arith, is_halted_of_rank m.point more))
  ]
  run_halts (suc fuel) m (i, pl) h = elim (Bool-cases (is_halted m.point)) [
    | inl done ↦ rw (run_halted (suc fuel) m done) done
    | inr more ↦
        let (i', lt, pl') = step_at-Advances env m.point m refl i pl more in
        run_halts fuel (step_at env m.point m) (i', pl') (omega arith)
  ]

  synthesis-IsPlanned : (m : Machine) → IsPlanned (step_at env synthesis m)
  unfolding step_at
  synthesis-IsPlanned m =
      let s = apply_update m.state (synthesis_node env.synthesis_adapter m.state.comprehension) in
      let (inv, le) =
        dispatch_from-lemma env sandbox_test s m.tick 6 (Distinct-apply_update m.state _) tt
          (omega arith) (omega arith) in
      (record { distinct = Distinct-apply_update m.state _; point = inv }, omega arith)

  step-eq : (p : Point) (m : Machine) → m.point ≡ p → step env m ≡ step_at env p m
  unfolding step
  step-eq p m e = ap (λ q. step_at env q m) e

  synthesis_halts :
      (m : Machine)
      → m.point ≡ synthesis
      → is_halted (run env (suc (measure (step env m))) m).point ≡ true
  unfolding run
  synthesis_halts m e =
      run_halts (measure (step env m)) (step env m)
        (subst IsPlanned (sym (step-eq synthesis m e)) (synthesis-IsPlanned m)) (omega arith)

  first_step :
      (m : Machine)
      → ((step_at env comprehension m).point ≡ synthesis) ⊎ IsPlanned (step_at env comprehension m)
  unfolding step_at after_comprehension
  first_step m = go (route_after_comprehension (apply_update m.state u).phase)
    where
      u : Update
      u =
          comprehension_node env.unicode m.state.config m.state.budget (env.clock m.tick)
            env.discovered env.extract

      go :
          (a : AfterComprehension)
          → (after_comprehension env a ≡ synthesis)
            ⊎ IsPlanned (record m {
              state = apply_update m.state u;
              point = after_comprehension env a;
              tick = m.tick + 1;
            })
      go continue = inl refl
      go AfterComprehension.budget_exhausted =
          inr (record { distinct = Distinct-apply_update m.state u; point = tt }, omega arith)

  -- A whole run, from its first node, halts: there is a number of supersteps after which it is over,
  -- has failed, or is paused for a decision, whatever the collaborators answer.
  pub run_terminates :
      (m : Machine) → m.point ≡ comprehension → (n : ℕ) × (is_halted (run env n m).point ≡ true)
  unfolding run
  run_terminates m e =
      let next = step env m in
      let same : next ≡ step_at env comprehension m = step-eq comprehension m e in
      elim (first_step m) [
        | inl s ↦
            (suc (suc (measure (step env next))), synthesis_halts next (ap (λ k. k.point) same ∙ s))
        | inr p ↦ (
          suc (measure next),
          run_halts (measure next) next (subst IsPlanned (sym same) p) (omega arith),
        )
      ]
