-- ===== src/Tests/Answers.antt =====
-- Answers to an approval of a concrete session.
use harness_core.Base.{◌≡◌, refl, some, none, [], ◌∷◌}
use harness_core.Base.Int.{pos, inc64, add64}
use harness_core.Base.Dict.{lookup, insert}
use harness_core.Base.Result.{ok, err, record_not_found, approval_not_pending}
use harness_core.Plan.Spec.{StepStatus}
use harness_core.Session.State.{State, awaiting_approval, idle}
use harness_core.Session.Store
use harness_core.Approval
use harness_core.Approval.{Record, Reply, once, always}
use harness_core.Runtime.ApprovalFlow.{Response, respond_approval, admits}
use harness_core.Runtime.ApprovalFlow.Memory.{Kernel, memory_stores}
use harness_core.Runtime.ApprovalFlow.Once.{IsValid, Answered, respond_ok, answered_is_final}
use harness_core.Runtime.ApprovalFlow.Restored.{refusing, refused_answer_undone}
use harness_core.Tests.Data.{differ, created, budgets, step_with}

abbrev request : Record
request = record {
  approval_id = "a1";
  session_id = "s1";
  task_id = "";
  step_id = "build";
  tool_name = "shell.exec";
  reason = "";
  matched_rule = "";
  status = Approval.pending;
  reply = Reply.unknown "";
  step = step_with "retry" StepStatus.blocked;
  metadata = [];
  requested_at = pos 2;
  responded_at = pos 0;
  consumed_at = pos 0;
  version = pos 1;
  created_at = pos 2;
  updated_at = pos 2;
}

abbrev waiting : State
waiting = record created { pending_approval_id = "a1"; execution_state = awaiting_approval }

abbrev kernel : Kernel
kernel = record {
  approvals = record { approvals = ("a1", request) ∷ [] };
  sessions = record { sessions = ("s1", waiting) ∷ [] };
  attempts = record { items = [] };
  plans = record { plans = [] };
  tasks = record { tasks = [] };
}

kernel-IsValid : IsValid kernel
unfolding lookup
kernel-IsValid = ((refl, refl, tt), (refl, refl, tt))

abbrev granting : Response
granting = record { reply = once; metadata = none }

abbrev granted : Record × State
granted = (
  record request {
    status = Approval.approved;
    reply = once;
    responded_at = pos 8;
    version = pos 2;
  },
  record waiting { execution_state = idle; version = pos 2 },
)

abbrev kernel_after : Kernel
kernel_after = record kernel {
  approvals = record { approvals = ("a1", record granted.0 { updated_at = pos 9 }) ∷ [] };
  sessions = record { sessions = ("s1", record granted.1 { updated_at = pos 9 }) ∷ [] };
}

grant_once :
    respond_approval (memory_stores (pos 9) budgets) "a1" granting (pos 8) kernel
    ≡ (ok granted, kernel_after)
unfolding respond_approval Approval.get Store.get lookup add64 insert Approval.update Store.update
grant_once = refl

respond_ok_example : Answered (pos 9) budgets "a1" granting (pos 8) kernel granted kernel_after
respond_ok_example =
    respond_ok (pos 9) budgets "a1" granting (pos 8) kernel granted kernel_after kernel-IsValid
      grant_once

answered_is_final_example :
    respond_approval
      (memory_stores (pos 9) budgets)
      "a1"
      (record { reply = always; metadata = none })
      (pos 10)
      kernel_after
    ≡ (err approval_not_pending, kernel_after)
answered_is_final_example =
    answered_is_final (pos 9) budgets "a1" granting (pos 8) kernel granted kernel_after
      (record { reply = always; metadata = none }) (pos 10) kernel-IsValid grant_once

refused_answer_undone_example :
    (w' : Kernel) × (respond_approval
        (refusing (pos 9) budgets record_not_found)
        "a1"
        granting
        (pos 8)
        kernel
      ≡ (err record_not_found, w'))
    × (w'.sessions ≡ kernel.sessions)
    × (lookup "a1" w'.approvals.approvals
        ≡ some (record request { version = inc64 (inc64 request.version); updated_at = pos 9 }))
unfolding lookup admits
refused_answer_undone_example =
    refused_answer_undone (pos 9) budgets record_not_found "a1" granting (pos 8) kernel request
      waiting kernel-IsValid refl refl (differ "a1" "" refl) refl refl
