-- ===== src/Runtime/Blocked.antt =====
-- pkg/harness/runtime/blocked_runtime_lifecycle.go on the path without a transaction runner, where
-- the events that a call emits change no store.
mod Requests
pub mod Machine
pub mod Memory
pub mod Calls
pub mod Writes
pub mod Guards
pub mod Refinement
pub mod Guarantees
pub mod Release
unfoldable pub use Requests.*
use harness_core.Base.{String, Bool, true, false, not, ◌||◌, ◌==◌, List, [], ◌∷◌, if◌then◌else◌}
use harness_core.Base.Int.{ℤ, pos}
use harness_core.Base.Dict.{insert}
use harness_core.Base.Result.{
  Result, ok, err, invalid_blocked_runtime_request, invalid_blocked_runtime_response,
  session_terminal, session_awaiting_approval, blocked_runtime_already_active,
  blocked_runtime_not_active, blocked_runtime_not_pending,
}
use harness_core.Base.Act.{Act, ◌>>=◌, ◌>>◌, give, done}
use harness_core.Metadata.{Metadata, text, opaque}
use harness_core.Session.State.{State, ExecutionState, idle, blocked, is_terminal_phase}
use harness_core.Execution.Blocked.{
  BlockedRuntimeKind, BlockedRuntimeStatus, BlockedRuntimeConditionKind, BlockedRuntimeSubject,
  BlockedRuntimeCondition, BlockedRuntimeRecord, unset, pending, approved, rejected, confirmed,
  resumed, aborted, blocked_id,
}
use harness_core.Runtime.SessionUpdate.{SessionStore}
use harness_core.Runtime.SessionNotes.{
  current_blocked_runtime_id, has_current_blocked_runtime, set_current_blocked_runtime,
}
use harness_core.Runtime.Rollback.{persist_session_update, rollback_session_state, or_rollback}

-- `execution.BlockedRuntimeStore`, as far as the calls use it; `W` is the world in which the stores
-- and whoever else uses them live.
pub record BlockedRuntimeStore (W : Type 0) : Type 0 where
  pub create : BlockedRuntimeRecord → Act W BlockedRuntimeRecord
  pub get : String → Act W BlockedRuntimeRecord
  pub update : BlockedRuntimeRecord → Act W (Unit {0})

module _ {W : Type 0} (sessions : SessionStore W) (runtimes : BlockedRuntimeStore W)
    (now clock : ℤ) where
  -- CreateBlockedRuntime
  unfoldable pub create_blocked_runtime :
      String → String → BlockedRuntimeRequest → Act W (BlockedRuntimeRecord × State)
  unfolding validate_request validate_session_state prepared_record persist_session_update
      rollback_session_state set_current_blocked_runtime
  create_blocked_runtime uuid session_id request = do
    _ ← give (validate_request request)
    let prepared = prepared_record uuid now session_id request
    st ← sessions.get session_id
    _ ← give (validate_session_state st)
    updated ← persist_session_update sessions (blocked_by st prepared.blocked_runtime_id) "" clock
    created ←
        or_rollback (runtimes.create (record prepared { task_id = st.task_id }))
          (rollback_session_state sessions st updated "" clock)
    done (created, updated)

  -- RespondBlockedRuntime
  unfoldable pub respond_blocked_runtime :
      String → BlockedRuntimeResponse → Act W (BlockedRuntimeRecord × State)
  unfolding validate_response require_current
  respond_blocked_runtime blocked_runtime_id response = do
    _ ← give (validate_response response)
    rec ← runtimes.get blocked_runtime_id
    st ← sessions.get rec.session_id
    _ ← give (require_current st rec)
    _ ← give (require_pending rec.status)
    _ ← runtimes.update (answered now response rec)
    done (answered now response rec, st)

  -- resolveBlockedRuntimeState
  unfoldable pub resolve_blocked_runtime_state :
      String → BlockedRuntimeStatus → String → Metadata → Act W (BlockedRuntimeRecord × State)
  unfolding require_current persist_session_update rollback_session_state merge_terminal_metadata
      set_current_blocked_runtime
  resolve_blocked_runtime_state blocked_runtime_id next_status reason metadata = do
    rec ← runtimes.get blocked_runtime_id
    st ← sessions.get rec.session_id
    _ ← give (require_current st rec)
    _ ← give (require_open rec.status)
    updated ← persist_session_update sessions (unblocked st) "" clock
    _ ←
        or_rollback (runtimes.update (resolved now next_status reason metadata rec))
          (rollback_session_state sessions st updated "" clock)
    done (resolved now next_status reason metadata rec, updated)

  -- ResumeBlockedRuntime
  unfoldable pub resume_blocked_runtime : String → Act W (BlockedRuntimeRecord × State)
  unfolding resolve_blocked_runtime_state
  resume_blocked_runtime blocked_runtime_id =
      resolve_blocked_runtime_state blocked_runtime_id resumed "" []

  -- AbortBlockedRuntime
  unfoldable pub abort_blocked_runtime :
      String → BlockedRuntimeAbortRequest → Act W (BlockedRuntimeRecord × State)
  unfolding resolve_blocked_runtime_state
  abort_blocked_runtime blocked_runtime_id request =
      resolve_blocked_runtime_state blocked_runtime_id aborted request.reason request.metadata
