-- ===== src/Graph/Nodes/Approval.antt =====
-- app/graph/nodes/approval.py. The value that the paused run is resumed with is an argument.
use stack_migrate.Base.{Bool, true, false, [], ◌∷◌, Option, none, some, Text, if◌then◌else◌}
use stack_migrate.State.{MigrationPhase, ApprovalStatus, Update, no_update, pr_rejected}

-- `decision["approved"]`: the object `True`, or anything else, an absent key included.
pub data Flag : Type 0 where
  is_true not_true : Flag

-- A resume value: a dict, with its `approved` and its `feedback`, or no dict at all.
pub data Decision : Type 0 where
  dict : Flag → Option Text → Decision
  not_a_dict : Decision

unfoldable pub request_approval_node : Update
request_approval_node = record no_update { phase = some MigrationPhase.awaiting_approval }

abbrev feedback_of : Decision → Option Text
feedback_of (dict flag feedback) = feedback
feedback_of not_a_dict = none

unfoldable pub is_approved : Decision → Bool
is_approved (dict Flag.is_true feedback) = true
is_approved _ = false

unfoldable pub approval_gate_node : Decision → Update
approval_gate_node decision =
    if is_approved decision
    then record no_update {
      approval_status = some ApprovalStatus.approved;
      human_feedback = some (feedback_of decision);
      phase = some MigrationPhase.pr_generation;
    }
    else record no_update {
      approval_status = some ApprovalStatus.rejected;
      human_feedback = some (feedback_of decision);
      phase = some MigrationPhase.rejected;
      error_log = pr_rejected (feedback_of decision) ∷ [];
    }
