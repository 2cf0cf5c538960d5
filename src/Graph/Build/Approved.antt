-- ===== src/Graph/Build/Approved.antt =====
-- An approved run is published.
use stack_migrate.Base.{
  ◌≡◌, refl, sym, ap, ◌∙◌, subst, Bool, true, false, not, ◌&&◌, List, [], ◌∷◌, ◌++◌, some,
}
use stack_migrate.State.{GraphState, MigrationPhase, PrDraft, apply_update, ApprovalStatus}
use stack_migrate.Graph.Routing.{needs_human_approval, is_truthy, route_after_approval}
use stack_migrate.Graph.Nodes.Approval.{Decision, is_approved, approval_gate_node}
use stack_migrate.Graph.Nodes.Publish.{
  Publication, Publisher, Published, opened, raised, after_publish, publication,
  publish_approved_pr, is_recorded, with_draft, pr_publish_node,
}
use stack_migrate.Graph.Build.Machine.{
  pr_publish, ended, Env, Machine, step_at, step, run, resume, after_approval, after_publish_node,
}

-- The state tells what the publisher answered.
abbrev pub IsOutcomeOf : Published → GraphState → Type 0
IsOutcomeOf (opened pr) s = (s.phase ≡ some MigrationPhase.done) × (s.pr_url ≡ some pr.url)
IsOutcomeOf (raised exc) s = s.phase ≡ some MigrationPhase.failed

after_publish-IsOutcomeOf :
    (s : GraphState) (r : Published) → IsOutcomeOf r (apply_update s (after_publish r))
unfolding apply_update
after_publish-IsOutcomeOf s (opened pr) = (refl, refl)
after_publish-IsOutcomeOf s (raised exc) = refl

repository_of_needs : (a b : Bool) → a && b ≡ true → a ≡ true
repository_of_needs true b h = refl
repository_of_needs false b h = absurd (cc h)

and_refuted : (b : Bool) → b && not true ≡ false
and_refuted true = refl
and_refuted false = refl

-- With a draft, a repository and a recorded approval the node publishes.
with_draft-publishes :
    (s : GraphState) (publisher : Publisher) (draft : PrDraft)
    → is_truthy s.config.github_target_repo ≡ true
    → is_recorded s.approval_status ≡ true
    → with_draft s publisher (some draft) ≡ publish_approved_pr s draft publisher
with_draft-publishes s publisher draft repo recorded =
    rw (repo, recorded, and_refuted (needs_human_approval s.config)) refl

module _ (env : Env) where
  -- What a publishing superstep leaves.
  abbrev IsPublishedBy : PrDraft → GraphState → List Publication → Machine → Type 0
  IsPublishedBy draft s before after =
      (after.point ≡ ended)
      × (after.published ≡ before ++ publication s draft ∷ [])
      × IsOutcomeOf (env.publisher (publication s draft)) after.state

  publish_step :
      (m : Machine) (draft : PrDraft)
      → m.state.pr_draft ≡ some draft
      → is_truthy m.state.config.github_target_repo ≡ true
      → is_recorded m.state.approval_status ≡ true
      → IsPublishedBy draft m.state m.published (step_at env pr_publish m)
  unfolding step_at pr_publish_node publish_approved_pr
  publish_step m draft has repo recorded =
      subst (λ r. IsPublishedBy draft m.state m.published (after_publish_node env m r))
        (sym (
          ap (with_draft m.state env.publisher) has
          ∙ with_draft-publishes m.state env.publisher draft repo recorded))
        (refl, refl, after_publish-IsOutcomeOf m.state (env.publisher (publication m.state draft)))

  gate_approves :
      (d : Decision) (s : GraphState)
      → is_approved d ≡ true
      → (apply_update s (approval_gate_node d)).approval_status ≡ some ApprovalStatus.approved
  unfolding approval_gate_node apply_update
  gate_approves d s h = rw h refl

  gate_keeps_draft :
      (d : Decision) (s : GraphState)
      → is_approved d ≡ true
      → (apply_update s (approval_gate_node d)).pr_draft ≡ s.pr_draft
  unfolding approval_gate_node apply_update
  gate_keeps_draft d s h = rw h refl

  resume-point :
      (d : Decision) (m : Machine) → is_approved d ≡ true → (resume env d m).point ≡ pr_publish
  unfolding resume after_approval route_after_approval
  resume-point d m h = rw (gate_approves d m.state h) refl

  -- Let a run wait at the gate with a draft, in a configuration that needs an approval. If it is
  -- approved, then one superstep later it is over: the publisher has been called once more, with
  -- the draft and the files of the state, and the phase says whether it opened the pull request.
  pub approved_run_is_published :
      (d : Decision) (m : Machine) (draft : PrDraft)
      → needs_human_approval m.state.config ≡ true
      → m.state.pr_draft ≡ some draft
      → is_approved d ≡ true
      → let after = run env 1 (resume env d m) in
        let p = publication (apply_update m.state (approval_gate_node d)) draft in
        (after.point ≡ ended)
        × (after.published ≡ m.published ++ p ∷ [])
        × IsOutcomeOf (env.publisher p) after.state
  unfolding run step resume apply_update needs_human_approval
  approved_run_is_published d m draft needs has h =
      subst
        (λ p.
          IsPublishedBy draft (resume env d m).state m.published (step_at env p (resume env d m)))
        (sym (resume-point d m h))
        (publish_step (resume env d m) draft (gate_keeps_draft d m.state h ∙ has)
          (repository_of_needs _ _ needs) (ap is_recorded (gate_approves d m.state h)))
