-- ===== src/Api/Review.antt =====
-- What the status endpoint shows of a run that waits at the gate is what a decision publishes.
use stack_migrate.Base.{
  ℕ, ◌≡◌, refl, sym, ap, subst, ◌∙◌, true, List, [], ◌∷◌, ◌++◌, map, Option, none, some, Text, All,
  All-weaken, Distinct,
}
use stack_migrate.State.Merge.{ids}
use stack_migrate.State.{GraphState, PrDraft, apply_update}
use stack_migrate.Graph.Nodes.Approval.{Decision, is_approved, approval_gate_node}
use stack_migrate.Graph.Nodes.Publish.{Publication, publication}
use stack_migrate.Graph.Build.Machine.{Point, Env, Machine, run, resume}
use stack_migrate.Graph.Build.Review.{Review, PointReviewed, IsReviewed, Deliverable}
use stack_migrate.Graph.Build.Reviewed.{step-IsReviewed}
use stack_migrate.Graph.Build.Reach.{Reaches, Reaches-keeps}
use stack_migrate.Graph.Build.Decided.{
  gate-Review, gate_keeps, IsReviewedCall, resume-IsReviewed, resume-CallsOf,
}
use stack_migrate.Vcs.Paths.Safety.{IsPublishable, publishable_path_problem-IsPublishable}
use stack_migrate.Graph.Build.Refinement.{waiting_needs_approval}
use stack_migrate.Graph.Build.Approved.{IsOutcomeOf, approved_run_is_published}
use stack_migrate.Api.{decide, answer_of, resumed, resume_value}
use stack_migrate.Api.Status.{
  PendingApproval, MigrationStatusResponse, get_migration_status, state_to_status_response,
}

-- The call has what is shown: the title, the body, the branch, and the paths of the files.
pub record IsAsShown (shown : PendingApproval) (p : Publication) : Type 0 where
  pub title : p.pr_title ≡ shown.title
  pub body : p.pr_body ≡ shown.body
  pub branch : p.branch_name ≡ shown.branch_name
  pub files : map (λ d. d.path) p.files ≡ shown.files

-- Every file of the call has a publishable path.
abbrev pub HasSafePaths : Env → Publication → Type 0
HasSafePaths env p = All (λ d. IsPublishable env.unicode d.path) p.files

-- A run that starts: at its first node, with no task, no test result, no draft and no call of the
-- publisher.
pub record IsFresh (m : Machine) : Type 0 where
  pub point : m.point ≡ Point.comprehension
  pub tasks : m.state.tasks ≡ []
  pub result : m.state.full_suite_result ≡ none
  pub draft : m.state.pr_draft ≡ none
  pub calls : m.published ≡ []

module _ (env : Env) where
  fresh-IsReviewed : (m : Machine) → IsFresh m → IsReviewed env m
  fresh-IsReviewed m h = record {
    distinct = subst (λ ts. Distinct (ids ts)) (sym h.tasks) tt;
    review = subst (PointReviewed env.unicode m.state) (sym h.point) h.draft;
    deliverable = subst (All (Deliverable env.unicode)) (sym h.calls) tt;
  }

  Deliverable-HasSafePaths : (p : Publication) → Deliverable env.unicode p → HasSafePaths env p
  Deliverable-HasSafePaths p h =
      All-weaken _ (λ d. IsPublishable env.unicode d.path) p.files
        (λ d. publishable_path_problem-IsPublishable env.unicode d.path) h

  reached-IsReviewed : {m a : Machine} → IsFresh m → Reaches env m a → IsReviewed env a
  reached-IsReviewed h w =
      Reaches-keeps env (IsReviewed env) (step-IsReviewed env) (resume-IsReviewed env) w
        (fresh-IsReviewed _ h)

  -- Whatever a fresh run reaches, by supersteps and by decisions at the gate: every file of every
  -- call of the publisher has a publishable path.
  pub reached_publishes_safe_paths :
      {m a : Machine} → IsFresh m → Reaches env m a → All (HasSafePaths env) a.published
  reached_publishes_safe_paths h w =
      All-weaken _ (HasSafePaths env) _ Deliverable-HasSafePaths
        (reached-IsReviewed h w).deliverable

  shown_of : GraphState → PrDraft → PendingApproval
  shown_of s draft = record {
    title = draft.title;
    body = draft.body;
    branch_name = draft.branch_name;
    files = s.aggregated_diff_paths;
  }

  reviewed-IsAsShown :
      (s : GraphState) (draft : PrDraft) (ps : List Publication)
      → s.pr_draft ≡ some draft
      → All (IsReviewedCall s) ps
      → All (IsAsShown (shown_of s draft)) ps
  unfolding shown_of
  reviewed-IsAsShown s draft ps e h =
      All-weaken _ (IsAsShown (shown_of s draft)) ps
        (λ p q.
          let same : q.0 ≡ draft = cc (q.1, e) in
          record {
            title = q.2.title ∙ ap (λ d. d.title) same;
            body = q.2.body ∙ ap (λ d. d.body) same;
            branch = q.2.branch ∙ ap (λ d. d.branch_name) same;
            files = q.2.paths;
          })
        h

  -- Let a fresh run reach the gate. The status endpoint then shows a pending approval; and whatever is
  -- decided, in any number of supersteps from there, every further call of the publisher has the
  -- title, the body, the branch and the paths that were shown.
  pub decision_publishes_what_was_shown :
      {m a : Machine} (run_id : Text) (k : ℕ) (d : Decision)
      → IsFresh m
      → Reaches env m a
      → a.point ≡ Point.approval_gate
      → (response : MigrationStatusResponse) × (shown : PendingApproval) × (get_migration_status
            run_id
            (some a)
          ≡ some response)
        × (response.pending_approval ≡ some shown)
        × (calls : List Publication) × ((run env k (resume env d a)).published
            ≡ a.published ++ calls)
        × All (IsAsShown shown) calls
  unfolding get_migration_status state_to_status_response shown_of
  decision_publishes_what_was_shown {a = a} run_id k d h w at =
      let r = reached-IsReviewed h w in
      let (draft, e) = (subst (PointReviewed env.unicode a.state) at r.review).0 in
      let (calls, made, all) = resume-CallsOf env k d a at r in
      (
        state_to_status_response run_id a.state true,
        shown_of a.state draft,
        rw at refl,
        rw e refl,
        calls,
        made,
        reviewed-IsAsShown a.state draft calls e all,
      )

  publication-IsAsShown :
      (d : Decision) (s : GraphState) (draft : PrDraft)
      → Review env.unicode (apply_update s (approval_gate_node d))
      → IsAsShown (shown_of s draft) (publication (apply_update s (approval_gate_node d)) draft)
  unfolding publication shown_of
  publication-IsAsShown d s draft r = record {
    title = refl;
    body = refl;
    branch = refl;
    files = sym r.1.0 ∙ (gate_keeps env d s).1;
  }

  -- Let a fresh run reach the gate, and an approval arrive. The request ends the run: the publisher is
  -- called exactly once more, with the title, the body, the branch and the paths that the status
  -- endpoint showed, and the phase is DONE with the URL of the opened pull request, or FAILED if
  -- the publisher raised.
  pub approval_is_published :
      {m a : Machine} (run_id : Text) (feedback : Option Text)
      → IsFresh m
      → Reaches env m a
      → a.point ≡ Point.approval_gate
      → (response : MigrationStatusResponse) × (shown : PendingApproval) × (p : Publication)
        × (after : Machine) × (get_migration_status run_id (some a) ≡ some response)
        × (response.pending_approval ≡ some shown)
        × (decide env true feedback (some a) ≡ (answer_of after, some after))
        × (after.point ≡ Point.ended)
        × (after.published ≡ a.published ++ p ∷ [])
        × IsAsShown shown p
        × IsOutcomeOf (env.publisher p) after.state
  unfolding get_migration_status state_to_status_response shown_of decide is_approved
  approval_is_published {a = a} run_id feedback h w at =
      let d = resume_value true feedback in
      let r = reached-IsReviewed h w in
      let review = subst (PointReviewed env.unicode a.state) at r.review in
      let (draft, e) = review.0 in
      let (ends, made, outcome) =
        approved_run_is_published env d a draft (waiting_needs_approval env h.point w at) e refl in
      (
        state_to_status_response run_id a.state true,
        shown_of a.state draft,
        publication (apply_update a.state (approval_gate_node d)) draft,
        resumed env d a,
        rw at refl,
        rw e refl,
        rw at refl,
        ends,
        made,
        publication-IsAsShown d a.state draft (gate-Review env d a.state r.distinct review),
        outcome,
      )
