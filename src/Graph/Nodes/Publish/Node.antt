-- ===== src/Graph/Nodes/Publish/Node.antt =====
-- app/graph/nodes/pr_publish.py. The node returns its update and the calls of the publisher that it
-- made; the publisher's answer is a function of the call.
use stack_migrate.Base.{
  Bool, true, false, not, ◌&&◌, List, [], ◌∷◌, Option, none, some, Text, codes, if◌then◌else◌,
}
use stack_migrate.State.{
  MigrationPhase, PrDraft, GraphState, ApprovalStatus, Update, no_update, publish_no_repo,
  publish_unapproved, publish_failed,
}
pub use stack_migrate.Vcs.Interface.{Publication, PublishedPr}
use stack_migrate.Graph.Routing.{needs_human_approval, is_truthy}
use stack_migrate.Graph.Diffs.Effective.{effective_diffs}

pub data Published : Type 0 where
  opened : PublishedPr → Published
  raised : Text → Published

abbrev pub Publisher : Type 0
Publisher = Publication → Published

abbrev pub after_publish : Published → Update
after_publish (raised exc) = record no_update {
  phase = some MigrationPhase.failed;
  error_log = publish_failed exc ∷ [];
}
after_publish (opened pr) = record no_update {
  phase = some MigrationPhase.done;
  pr_url = some pr.url;
  pr_branch_name = some pr.branch_name;
}

-- No configuration has `target_base_branch`, and no state `_effective_diffs_cache`.
unfoldable pub publication : GraphState → PrDraft → Publication
publication s draft = record {
  repo_full_name = s.config.github_target_repo;
  base_branch = codes "main";
  branch_name = draft.branch_name;
  commit_message = draft.commit_message;
  pr_title = draft.title;
  pr_body = draft.body;
  files = effective_diffs s.editor_results s.tasks;
}

unfoldable pub publish_approved_pr : GraphState → PrDraft → Publisher → Update × List Publication
publish_approved_pr s draft publisher =
    (after_publish (publisher (publication s draft)), publication s draft ∷ [])

abbrev pub is_recorded : Option ApprovalStatus → Bool
is_recorded (some ApprovalStatus.approved) = true
is_recorded _ = false

abbrev pub with_draft : GraphState → Publisher → Option PrDraft → Update × List Publication
with_draft s publisher none = (no_update, [])
with_draft s publisher (some draft) =
    if not (is_truthy s.config.github_target_repo)
    then (
      record no_update { phase = some MigrationPhase.done; error_log = publish_no_repo ∷ [] },
      [],
    )
    else if needs_human_approval s.config && not (is_recorded s.approval_status)
    then (
      record no_update { phase = some MigrationPhase.failed; error_log = publish_unapproved ∷ [] },
      [],
    )
    else publish_approved_pr s draft publisher

unfoldable pub pr_publish_node : GraphState → Publisher → Update × List Publication
pr_publish_node s publisher = with_draft s publisher s.pr_draft
