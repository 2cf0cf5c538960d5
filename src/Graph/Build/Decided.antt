-- ===== src/Graph/Build/Decided.antt =====
-- A run that is resumed at the gate publishes what waited there.
use stack_migrate.Base.{
  ℕ, zero, suc, ◌+◌, ◌≡◌, refl, sym, ap, subst, ◌∙◌, List, [], ◌∷◌, ◌++◌, map, some, Text, All, inl,
  inr, Bool-cases, Distinct,
}
use mathlib.Core.List.{append-nil}
use stack_migrate.State.{GraphState, PrDraft, apply_update}
use stack_migrate.State.Merge.{ids}
use stack_migrate.Graph.Routing.{AfterApproval, route_after_approval}
use stack_migrate.Graph.Nodes.Approval.{Decision, is_approved, approval_gate_node}
use stack_migrate.Graph.Nodes.Publish.{Publication, publication, pr_publish_node}
use stack_migrate.Graph.Nodes.Publish.Policy.{IsDrafted, pr_publish_node-IsDrafted}
use stack_migrate.Graph.Build.Draftless.{IsDraftless}
use stack_migrate.Graph.Build.Machine.{
  Point, approval_gate, pr_publish, ended, Env, Machine, step_at, step, run, resume, after_approval,
}
use stack_migrate.Graph.Build.Review.{Review, PointReviewed, IsReviewed, still-Review}
use stack_migrate.Graph.Build.Measure.{Distinct-apply_update}
use stack_migrate.Graph.Build.Soundness.{gate_touches_nothing}

-- The call has the title, the body, the branch and the commit message of this draft, and files at
-- these paths.
pub record IsCallOf (draft : PrDraft) (reviewed : List Text) (p : Publication) : Type 0 where
  pub title : p.pr_title ≡ draft.title
  pub body : p.pr_body ≡ draft.body
  pub branch : p.branch_name ≡ draft.branch_name
  pub message : p.commit_message ≡ draft.commit_message
  pub paths : map (λ d. d.path) p.files ≡ reviewed

-- A call for the draft and the paths of a state.
abbrev pub IsReviewedCall : GraphState → Publication → Type 0
IsReviewedCall s p =
    (draft : PrDraft) × (s.pr_draft ≡ some draft) × IsCallOf draft s.aggregated_diff_paths p

module _ (env : Env) where
  gate-IsDraftless : (d : Decision) → IsDraftless (approval_gate_node d)
  unfolding approval_gate_node
  gate-IsDraftless d = elim (Bool-cases (is_approved d)) [
    | inl e ↦ rw e (refl, refl)
    | inr e ↦ rw e (refl, refl)
  ]

  pub gate-Review :
      (d : Decision) (s : GraphState)
      → Distinct (ids s.tasks)
      → Review env.unicode s
      → Review env.unicode (apply_update s (approval_gate_node d))
  gate-Review d s h r =
      let q = gate_touches_nothing env d in
      still-Review env s (approval_gate_node d) h q.0 q.1 (gate-IsDraftless d) r

  -- A resumption of a run that waits at the gate keeps the review.
  pub resume-IsReviewed :
      (d : Decision) (m : Machine)
      → m.point ≡ approval_gate
      → IsReviewed env m
      → IsReviewed env (resume env d m)
  unfolding resume after_approval
  resume-IsReviewed d m at h = record {
    distinct = Distinct-apply_update m.state (approval_gate_node d);
    review =
        go (route_after_approval (apply_update m.state (approval_gate_node d)).approval_status);
    deliverable = h.deliverable;
  }
    where
      go :
          (a : AfterApproval)
          → PointReviewed env.unicode
              (apply_update m.state (approval_gate_node d))
              (after_approval env a)
      go AfterApproval.approved =
          gate-Review d m.state h.distinct (subst (PointReviewed env.unicode m.state) at h.review)
      go AfterApproval.rejected = tt

  ended_stays : (m : Machine) → m.point ≡ ended → step_at env m.point m ≡ m
  unfolding step_at
  ended_stays m e = subst (λ p. step_at env p m ≡ m) (sym e) refl

  run-ended : (k : ℕ) (m : Machine) → m.point ≡ ended → (run env k m).published ≡ m.published
  unfolding run step
  run-ended zero m e = refl
  run-ended (suc k) m e =
      ap (λ after. (run env k after).published) (ended_stays m e) ∙ run-ended k m e

  drafted-IsReviewedCall :
      (s : GraphState) (ps : List Publication)
      → Review env.unicode s
      → All (IsDrafted s) ps
      → All (IsReviewedCall s) ps
  unfolding publication
  drafted-IsReviewedCall s [] r h = tt
  drafted-IsReviewedCall s (p ∷ ps) r h = (
    (
      h.0.0,
      h.0.1,
      rw h.0.2
          (record { title = refl; body = refl; branch = refl; message = refl; paths = sym r.1.0 }),
    ),
    drafted-IsReviewedCall s ps r h.1,
  )

  -- The calls that a run makes from here on.
  abbrev CallsOf : GraphState → Machine → Machine → Type 0
  CallsOf s m after =
      (calls : List Publication) × (after.published ≡ m.published ++ calls)
      × All (IsReviewedCall s) calls

  no_calls :
      (s : GraphState) (m after : Machine) → after.published ≡ m.published → CallsOf s m after
  no_calls s m after e = ([], e ∙ sym (append-nil m.published), tt)

  publish-CallsOf :
      (k : ℕ) (m : Machine)
      → m.point ≡ pr_publish
      → Review env.unicode m.state
      → CallsOf m.state m (run env k m)
  unfolding run step step_at
  publish-CallsOf zero m e r = no_calls m.state m m refl
  publish-CallsOf (suc k) m e r =
      subst (λ p. CallsOf m.state m (run env k (step_at env p m))) (sym e)
        (
          (pr_publish_node m.state env.publisher).1,
          run-ended k (step_at env pr_publish m) refl,
          drafted-IsReviewedCall m.state _ r (pr_publish_node-IsDrafted m.state env.publisher),
        )

  same-IsReviewedCall :
      (s after : GraphState) (ps : List Publication)
      → after.pr_draft ≡ s.pr_draft
      → after.aggregated_diff_paths ≡ s.aggregated_diff_paths
      → All (IsReviewedCall after) ps
      → All (IsReviewedCall s) ps
  same-IsReviewedCall s after [] d a h = tt
  same-IsReviewedCall s after (p ∷ ps) d a h = (
    (h.0.0, sym d ∙ h.0.1, subst (λ paths. IsCallOf h.0.0 paths p) a h.0.2),
    same-IsReviewedCall s after ps d a h.1,
  )

  pub gate_keeps :
      (d : Decision) (s : GraphState)
      → let after = apply_update s (approval_gate_node d) in
        (after.pr_draft ≡ s.pr_draft) × (after.aggregated_diff_paths ≡ s.aggregated_diff_paths)
  unfolding apply_update
  gate_keeps d s = let q = gate-IsDraftless d in (rw q.0 refl, rw q.1 refl)

  -- Whatever is decided at the gate, the calls that follow are for the draft and the paths that waited.
  pub resume-CallsOf :
      (k : ℕ) (d : Decision) (m : Machine)
      → m.point ≡ approval_gate
      → IsReviewed env m
      → (calls : List Publication) × ((run env k (resume env d m)).published ≡ m.published ++ calls)
        × All (IsReviewedCall m.state) calls
  unfolding resume after_approval
  resume-CallsOf k d m at h =
      go (route_after_approval (apply_update m.state (approval_gate_node d)).approval_status)
    where
      s : GraphState
      s = apply_update m.state (approval_gate_node d)

      r : Review env.unicode s
      r = gate-Review d m.state h.distinct (subst (PointReviewed env.unicode m.state) at h.review)

      at_point : Point → Machine
      at_point p = record m { state = s; point = p; tick = m.tick + 1 }

      go : (a : AfterApproval) → CallsOf m.state m (run env k (at_point (after_approval env a)))
      go AfterApproval.approved =
          let (calls, e, all) = publish-CallsOf k (at_point pr_publish) refl r in
          let kept = gate_keeps d m.state in
          (calls, e, same-IsReviewedCall m.state s calls kept.0 kept.1 all)
      go AfterApproval.rejected =
          no_calls m.state m (run env k (at_point ended)) (run-ended k (at_point ended) refl)
