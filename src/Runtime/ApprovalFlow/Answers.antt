-- ===== src/Runtime/ApprovalFlow/Answers.antt =====
-- What an answer to an approval makes of its records: pkg/harness/runtime/approval_flow.go.
use harness_core.Base.{
  String, Bool, true, false, not, ◌||◌, ◌&&◌, ◌==◌, List, [], ◌∷◌, Option, none, some,
  if◌then◌else◌,
}
use harness_core.Base.Int.{ℤ, is_zero, inc64}
use harness_core.Base.Dict.{insert}
use harness_core.Base.Result.{Result, ok, err, approval_not_pending, invalid_reply}
use harness_core.Metadata.{Metadata, text, opaque}
use harness_core.Plan.Spec.{StepSpec, StepStatus}
use harness_core.Session.State.{State, idle}
use harness_core.Approval
use harness_core.Approval.{Reply, once, always, reject, valid_reply, pending, approved, rejected}
use harness_core.Execution.Attempts.{Attempt, AttemptStatus, blocked}
use harness_core.Runtime.Transition.{Transition, TransitionDecision, apply_transition}

pub record Response : Type 0 where
  pub reply : Reply
  -- `none` is the nil map.
  pub metadata : Option Metadata

abbrev pub is_blocked_attempt : AttemptStatus → Bool
is_blocked_attempt blocked = true
is_blocked_attempt _ = false

-- The loop of `findLatestBlockedAttemptInStore`, which runs from the end of the list.
unfoldable pub latest_blocked : String → List Attempt → Option Attempt
latest_blocked approval_id [] = none
latest_blocked approval_id (attempt ∷ rest) = elim (latest_blocked approval_id rest) [
  | some later ↦ some later
  | none ↦
      if attempt.approval_id == approval_id && is_blocked_attempt attempt.status
      then some attempt
      else none
]

-- mergeApprovalResponseMetadata
abbrev pub merge_response_metadata : Metadata → Option Metadata → Metadata
merge_response_metadata existing none = existing
merge_response_metadata existing (some _) = insert "response" opaque existing

abbrev pub is_reject : Reply → Bool
is_reject reject = true
is_reject _ = false

abbrev pub reply_text : Reply → String
reply_text once = "once"
reply_text always = "always"
reply_text reject = "reject"
reply_text (Reply.unknown t) = t

-- The record after the answer.
unfoldable pub responded : Approval.Record → Response → ℤ → Approval.Record
responded rec response now = record rec {
  reply = response.reply;
  metadata = merge_response_metadata rec.metadata response.metadata;
  responded_at = now;
  status = if is_reject response.reply then rejected else approved;
  version = inc64 rec.version;
}

-- The step of a rejected approval.
abbrev pub rejected_step : Approval.Record → ℤ → StepSpec
rejected_step rec now = record rec.step { status = StepStatus.failed; finished_at = now }

-- The session after the answer.
unfoldable pub session_after : State → Approval.Record → Reply → State
unfolding apply_transition
session_after st rec reply =
    if is_reject reply
    then (let next : TransitionDecision = record {
      from = st.phase;
      to = Transition.failed;
      step_id = rec.step_id;
      reason = "approval rejected";
    } in
        record (apply_transition st next) {
          pending_approval_id = "";
          execution_state = idle;
          in_flight_step_id = "";
          version = inc64 st.version;
        })
    else record st { execution_state = idle; version = inc64 st.version }

-- The attempt that `finalizeBlockedAttemptInStore` writes.
abbrev pub finalized : Attempt → StepSpec → Reply → ℤ → Attempt
finalized attempt step reply now = record attempt {
  status = AttemptStatus.failed;
  step = step;
  metadata = insert "approval_reply" (text (reply_text reply)) attempt.metadata;
  finished_at = if is_zero attempt.finished_at then now else attempt.finished_at;
}

abbrev pub is_pending : Approval.Status → Bool
is_pending pending = true
is_pending _ = false

-- The guards: the approval is pending and the session's own, and the reply is a known one.
unfoldable pub admits : Approval.Record → State → String → Reply → Result (Unit {0})
unfolding valid_reply
admits rec st approval_id reply =
    if not (is_pending rec.status) || not (st.pending_approval_id == approval_id)
    then err approval_not_pending
    else if not (valid_reply reply)
    then err invalid_reply
    else ok tt
