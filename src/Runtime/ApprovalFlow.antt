-- ===== src/Runtime/ApprovalFlow.antt =====
-- The answer to an approval: RespondApproval of pkg/harness/runtime/approval_flow.go on the path
-- without a transaction runner, with the undoing of its writes (rollback.go). The events that it
-- emits change no store.
mod Answers
pub mod Memory
pub mod Answered
pub mod Writes
pub mod Once
pub mod Restored
unfoldable pub use Answers.*
use harness_core.Base.{
  String, Bool, true, false, not, ◌||◌, ◌&&◌, ◌==◌, List, [], ◌∷◌, Option, none, some,
  if◌then◌else◌,
}
use harness_core.Base.Int.{ℤ, is_zero, inc64}
use harness_core.Base.Dict.{insert}
use harness_core.Base.Result.{Error, Result, ok, err, approval_not_pending, invalid_reply}
use harness_core.Base.Act.{Act, ◌>>=◌, ◌>>◌, give, done}
use harness_core.Metadata.{Metadata, text, opaque}
use harness_core.Plan.Spec.{Spec, StepSpec, StepStatus}
use harness_core.Session.State.{State, idle}
use harness_core.Approval
use harness_core.Approval.{Reply, once, always, reject, valid_reply, pending, approved, rejected}
use harness_core.Task
use harness_core.Execution.Attempts.{Attempt, AttemptStatus, blocked}
use harness_core.Runtime.Transition.{Transition, TransitionDecision, apply_transition}
use harness_core.Runtime.SessionUpdate.{SessionStore}
use harness_core.Runtime.Rollback.{join_rollback_error, or_rollback, error_of}

-- The stores, as far as the answer uses them. `write_plan_step` is `updateLatestPlanStepInStore` on
-- the plan store, and `end_task` is `updateTaskForTerminalInStore` on the task store.
pub record ApprovalStores (W : Type 0) : Type 0 where
  pub sessions : SessionStore W
  pub get_approval : String → Act W Approval.Record
  pub update_approval : Approval.Record → Act W (Unit {0})
  pub list_attempts : String → Act W (List Attempt)
  pub update_attempt : Attempt → Act W (Unit {0})
  pub get_task : String → Act W Task.Record
  pub update_task : Task.Record → Act W (Unit {0})
  pub write_plan_step : String → StepSpec → Act W (Option Spec)
  pub end_task : State → Act W (Option Task.Record)

-- What undoes a write: an error, or none, and the world after it.
abbrev pub Undo : Type 0 → Type 0
Undo W = W → Option Error × W

abbrev pub nothing : {W : Type 0} → Undo W
nothing w = (none, w)

abbrev pub and_undo : {W : Type 0} → Undo W → Undo W → Undo W
and_undo first second w =
    let (e, w1) = first w in let (e', w2) = second w1 in (join_rollback_error e e', w2)

abbrev pub undo_of {ℓ} : {W : Type 0} {A : Type ℓ} → Act W A → Undo W
undo_of act w = let (r, w') = act w in (error_of r, w')

module _ {W : Type 0} (stores : ApprovalStores W) where
  -- findLatestBlockedAttemptInStore
  unfoldable pub find_latest_blocked_attempt : String → String → Act W (Option Attempt)
  unfolding latest_blocked
  find_latest_blocked_attempt session_id approval_id =
      if approval_id == ""
      then done none
      else do attempts ← stores.list_attempts session_id; done (latest_blocked approval_id attempts)

  -- finalizeBlockedAttemptInStore
  unfoldable pub finalize_blocked_attempt :
      String → String → StepSpec → Reply → ℤ → Act W (Unit {0})
  unfolding find_latest_blocked_attempt
  finalize_blocked_attempt session_id approval_id step reply now = do
    found ← find_latest_blocked_attempt session_id approval_id
    elim found [
      | none ↦ done tt
      | some attempt ↦ stores.update_attempt (finalized attempt step reply now)
    ]

  -- restoreApprovalRecord
  unfoldable pub restore_approval_record : Approval.Record → Undo W
  restore_approval_record before =
      if before.approval_id == ""
      then nothing
      else undo_of (do
        current ← stores.get_approval before.approval_id
        stores.update_approval (record before { version = inc64 current.version }))

  -- restoreAttemptRecord; `none` if there was no attempt to restore.
  unfoldable pub restore_attempt_record : Option Attempt → Undo W
  restore_attempt_record none = nothing
  restore_attempt_record (some before) =
      if before.attempt_id == "" then nothing else undo_of (stores.update_attempt before)

  -- restoreTaskRecord; `none` if there was no task to restore.
  unfoldable pub restore_task_record : Option Task.Record → Undo W
  restore_task_record none = nothing
  restore_task_record (some before) =
      if before.task_id == "" then nothing else undo_of (stores.update_task before)

  -- restorePlanStepState
  unfoldable pub restore_plan_step_state : String → StepSpec → Undo W
  restore_plan_step_state session_id before =
      if session_id == "" || before.step_id == ""
      then nothing
      else undo_of (stores.write_plan_step session_id before)

  -- The task that a rejection ends, as it was.
  abbrev pub original_task : State → Act W (Option Task.Record)
  original_task st =
      if st.task_id == "" then done none else do rec ← stores.get_task st.task_id; done (some rec)

  -- What a rejection writes before the session: the attempt, then the step in its plan, then the task.
  unfoldable pub end_rejected_task : Approval.Record → State → Option Attempt → Act W (Unit {0})
  unfolding restore_approval_record restore_attempt_record restore_plan_step_state
  end_rejected_task rec after attempt = do
    _ ← or_rollback (stores.end_task after) (
        and_undo
          (and_undo (restore_plan_step_state rec.session_id rec.step)
            (restore_attempt_record attempt))
          (restore_approval_record rec))
    done tt

  unfoldable pub write_rejected_step :
      Approval.Record → State → Option Attempt → ℤ → Act W (Unit {0})
  unfolding end_rejected_task restore_approval_record restore_attempt_record
  write_rejected_step rec after attempt now = do
    _ ←
        or_rollback (stores.write_plan_step rec.session_id (rejected_step rec now))
          (and_undo (restore_attempt_record attempt) (restore_approval_record rec))
    end_rejected_task rec after attempt

  unfoldable pub reject_writes :
      Approval.Record → State → Option Attempt → Reply → ℤ → Act W (Unit {0})
  unfolding finalize_blocked_attempt write_rejected_step restore_approval_record
  reject_writes rec after attempt reply now = do
    _ ←
        or_rollback
          (finalize_blocked_attempt rec.session_id rec.approval_id (rejected_step rec now) reply
            now)
          (restore_approval_record rec)
    write_rejected_step rec after attempt now

  -- The writes of an answer, for a rejection and for an approval.
  unfoldable pub write_rejection :
      Approval.Record
      → State
      → Approval.Record
      → State
      → Reply
      → ℤ
      → Act W (Approval.Record × State)
  unfolding reject_writes find_latest_blocked_attempt restore_task_record restore_attempt_record
      restore_plan_step_state restore_approval_record
  write_rejection rec st answer after reply now = do
    attempt ← find_latest_blocked_attempt rec.session_id rec.approval_id
    task ← original_task st
    _ ← stores.update_approval answer
    _ ← reject_writes rec after attempt reply now
    _ ← or_rollback (stores.sessions.update after) (
        and_undo
          (and_undo
            (and_undo (restore_task_record task) (restore_plan_step_state rec.session_id rec.step))
            (restore_attempt_record attempt))
          (restore_approval_record rec))
    done (answer, after)

  unfoldable pub write_approval :
      Approval.Record → Approval.Record → State → Act W (Approval.Record × State)
  unfolding restore_approval_record
  write_approval rec answer after = do
    _ ← stores.update_approval answer
    _ ← or_rollback (stores.sessions.update after) (restore_approval_record rec)
    done (answer, after)

  -- RespondApproval
  unfoldable pub respond_approval : String → Response → ℤ → Act W (Approval.Record × State)
  unfolding responded session_after admits write_rejection write_approval
  respond_approval approval_id response now = do
    rec ← stores.get_approval approval_id
    st ← stores.sessions.get rec.session_id
    _ ← give (admits rec st approval_id response.reply)
    let after = session_after st rec response.reply
    let answer = responded rec response now
    if is_reject response.reply
        then write_rejection rec st answer after response.reply now
        else write_approval rec answer after
