-- ===== src/Tests/Requests.antt =====
-- Approvals and tasks on concrete records.
use harness_core.Base.{◌≡◌, ◌≢◌, ◌⊎◌, refl, true, []}
use harness_core.Base.Int.{pos}
use harness_core.Permission.{allow, deny}
use harness_core.Plan.Spec.{StepSpec, StepStatus}
use harness_core.Approval.{Record, approved, once, reject, valid_reply, resolve}
use harness_core.Approval.Laws.{resolve_sound}
use harness_core.Task
use harness_core.Tests.Data.{step_with}

abbrev pending : StepSpec
pending = step_with "retry" StepStatus.pending

abbrev request : Record
request = record {
  approval_id = "a1";
  session_id = "s1";
  task_id = "";
  step_id = "build";
  tool_name = "shell.exec";
  reason = "";
  matched_rule = "";
  status = approved;
  reply = once;
  step = pending;
  metadata = [];
  requested_at = pos 1;
  responded_at = pos 2;
  consumed_at = pos 0;
  version = pos 2;
  created_at = pos 1;
  updated_at = pos 2;
}

resolve_sound_example :
    (request.status ≡ approved)
    × (request.step_id ≡ pending.step_id)
    × (request.tool_name ≡ pending.action.tool_name)
    × (valid_reply request.reply ≡ true)
    × (((request.reply ≡ reject) × (allow ≡ deny)) ⊎ ((request.reply ≢ reject) × (allow ≡ allow)))
unfolding resolve
resolve_sound_example =
    resolve_sound request pending
      {d = record { action = allow; reason = "approval granted"; matched_rule = "approval/once" }}
      refl

abbrev task : Task.Record
task = record {
  task_id = "t1";
  task_type = "";
  goal = "";
  status = Task.Status.running;
  session_id = "s1";
  constraints = [];
  metadata = [];
  created_at = pos 1;
  updated_at = pos 1;
}
