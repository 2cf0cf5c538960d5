-- ===== src/Graph/Nodes/Publish/Policy.antt =====
-- When the publisher is called, and with which files.
use stack_migrate.Base.{
  ◌≡◌, refl, inl, inr, Bool, true, false, not, ◌&&◌, Option, none, some, Bool-cases, All,
}
use stack_migrate.State.{GraphState, PrDraft}
use stack_migrate.Graph.Routing.{needs_human_approval, is_truthy}
use stack_migrate.Graph.Diffs.Effective.{effective_diffs}
use stack_migrate.Graph.Nodes.Publish.Node.{
  Publication, Publisher, publication, publish_approved_pr, is_recorded, with_draft,
  pr_publish_node,
}

-- A call that the policy permits in a state: with the effective files, into a configured repository,
-- and with a recorded approval where one is required.
pub record IsPermitted (s : GraphState) (p : Publication) : Type 0 where
  pub files : p.files ≡ effective_diffs s.editor_results s.tasks
  pub repository : is_truthy s.config.github_target_repo ≡ true
  pub approval : needs_human_approval s.config ≡ true → is_recorded s.approval_status ≡ true

approved_of : (a b : Bool) → a && not b ≡ false → a ≡ true → b ≡ true
approved_of true true h e = refl
approved_of true false h e = absurd (cc)
approved_of false b h e = absurd (cc)

truthy_of : (a : Bool) → not a ≡ false → a ≡ true
truthy_of true h = refl
truthy_of false h = absurd (cc)

with_draft-IsPermitted :
    (s : GraphState) (publisher : Publisher) (p : Option PrDraft)
    → All (IsPermitted s) (with_draft s publisher p).1
unfolding publish_approved_pr publication
with_draft-IsPermitted s publisher none = tt
with_draft-IsPermitted s publisher (some draft) =
    elim (Bool-cases (not (is_truthy s.config.github_target_repo))) [
      | inl e ↦ rw e tt
      | inr e ↦
          elim (Bool-cases (needs_human_approval s.config && not (is_recorded s.approval_status))) [
            | inl e' ↦ rw (e, e') tt
            | inr e' ↦
                rw (e, e')
                  (
                    record {
                      files = refl;
                      repository = truthy_of _ e;
                      approval = approved_of _ _ e';
                    },
                    tt,
                  )
          ]
    ]

pub pr_publish_node-IsPermitted :
    (s : GraphState) (publisher : Publisher) → All (IsPermitted s) (pr_publish_node s publisher).1
unfolding pr_publish_node
pr_publish_node-IsPermitted s publisher = with_draft-IsPermitted s publisher s.pr_draft

-- The call is the publication of the state's own draft.
abbrev pub IsDrafted : GraphState → Publication → Type 0
IsDrafted s p = (d : PrDraft) × (s.pr_draft ≡ some d) × (p ≡ publication s d)

with_draft-IsDrafted :
    (s : GraphState) (publisher : Publisher) (o : Option PrDraft)
    → s.pr_draft ≡ o
    → All (IsDrafted s) (with_draft s publisher o).1
unfolding publish_approved_pr
with_draft-IsDrafted s publisher none e = tt
with_draft-IsDrafted s publisher (some draft) e =
    elim (Bool-cases (not (is_truthy s.config.github_target_repo))) [
      | inl h ↦ rw h tt
      | inr h ↦
          elim (Bool-cases (needs_human_approval s.config && not (is_recorded s.approval_status))) [
            | inl h' ↦ rw (h, h') tt
            | inr h' ↦ rw (h, h') ((draft, e, refl), tt)
          ]
    ]

pub pr_publish_node-IsDrafted :
    (s : GraphState) (publisher : Publisher) → All (IsDrafted s) (pr_publish_node s publisher).1
unfolding pr_publish_node
pr_publish_node-IsDrafted s publisher = with_draft-IsDrafted s publisher s.pr_draft refl
