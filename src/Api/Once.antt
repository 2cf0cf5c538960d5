-- ===== src/Api/Once.antt =====
-- A run is decided at most once.
use stack_migrate.Base.{◌+◌, ◌≡◌, refl, Bool, true, Option, some, Text}
use stack_migrate.State.{apply_update}
use stack_migrate.Graph.Routing.{AfterApproval, route_after_approval}
use stack_migrate.Graph.Nodes.Approval.{Decision, approval_gate_node}
use stack_migrate.Graph.Build.Machine.{
  Point, Env, Machine, run, resume, step, step_at, after_approval,
}
use stack_migrate.Api.{conflict, is_awaiting_approval, resume_value, resumed, decide, answer_of}

module _ (env : Env) where
  -- Behind the gate a run is over within one superstep.
  resumed_ended : (d : Decision) (m : Machine) → (resumed env d m).point ≡ Point.ended
  unfolding run step resume step_at after_approval
  resumed_ended d m =
      go (route_after_approval (apply_update m.state (approval_gate_node d)).approval_status)
    where
      after : AfterApproval → Machine
      after a = record m {
        state = apply_update m.state (approval_gate_node d);
        point = after_approval env a;
        tick = m.tick + 1;
      }

      go : (a : AfterApproval) → (step_at env (after_approval env a) (after a)).point ≡ Point.ended
      go AfterApproval.approved = refl
      go AfterApproval.rejected = refl

  -- Let a run wait at the gate, and two decisions come, one after the other, in either order and of
  -- either kind. The first ends the run; the second is answered with a conflict and changes nothing:
  -- no second publication.
  pub decide_once :
      (first second : Bool) (feedback more : Option Text) (m : Machine)
      → is_awaiting_approval m.point ≡ true
      → let after = resumed env (resume_value first feedback) m in
        (decide env first feedback (some m) ≡ (answer_of after, some after))
        × (after.point ≡ Point.ended)
        × (decide env second more (some after) ≡ (conflict after.state.phase, some after))
  unfolding decide
  decide_once first second feedback more m waits =
      let ends = resumed_ended (resume_value first feedback) m in
      (rw waits refl, ends, rw ends refl)
