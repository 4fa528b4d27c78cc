-- ===== src/Runtime/Blocked/Requests.antt =====
-- The requests of pkg/harness/runtime/blocked_runtime_lifecycle.go, their checks, and the records
-- that the calls write.
use harness_core.Base.{String, Bool, true, false, not, ◌||◌, ◌==◌, [], ◌∷◌, if◌then◌else◌}
use harness_core.Base.Int.{ℤ, pos}
use harness_core.Base.Dict.{insert}
use harness_core.Base.Result.{
  Result, ok, err, invalid_blocked_runtime_request, invalid_blocked_runtime_response,
  session_terminal, session_awaiting_approval, blocked_runtime_already_active,
  blocked_runtime_not_active, blocked_runtime_not_pending,
}
use harness_core.Metadata.{Metadata, text, opaque}
use harness_core.Session.State.{State, ExecutionState, idle, blocked, is_terminal_phase}
use harness_core.Execution.Blocked.{
  BlockedRuntimeKind, BlockedRuntimeStatus, BlockedRuntimeConditionKind, BlockedRuntimeSubject,
  BlockedRuntimeCondition, BlockedRuntimeRecord, unset, pending, approved, rejected, confirmed,
  resumed, aborted, blocked_id,
}
use harness_core.Runtime.SessionNotes.{
  current_blocked_runtime_id, has_current_blocked_runtime, set_current_blocked_runtime,
}

pub record BlockedRuntimeRequest : Type 0 where
  pub kind : BlockedRuntimeKind
  pub subject : BlockedRuntimeSubject
  pub condition : BlockedRuntimeCondition
  pub metadata : Metadata

pub record BlockedRuntimeResponse : Type 0 where
  pub status : BlockedRuntimeStatus
  pub metadata : Metadata

pub record BlockedRuntimeAbortRequest : Type 0 where
  pub reason : String
  pub metadata : Metadata

-- blockedRuntimeKindMatchesCondition
unfoldable pub kind_matches_condition : BlockedRuntimeKind → BlockedRuntimeConditionKind → Bool
kind_matches_condition BlockedRuntimeKind.confirmation BlockedRuntimeConditionKind.confirmation =
    true
kind_matches_condition BlockedRuntimeKind.external BlockedRuntimeConditionKind.external = true
kind_matches_condition BlockedRuntimeKind.interactive BlockedRuntimeConditionKind.interactive = true
kind_matches_condition _ _ = false

-- The `switch` on the kind in `validateBlockedRuntimeRequest`.
abbrev pub requestable : BlockedRuntimeKind → Bool
requestable BlockedRuntimeKind.confirmation = true
requestable BlockedRuntimeKind.external = true
requestable BlockedRuntimeKind.interactive = true
requestable _ = false

-- `condition.Kind == "" || condition.Kind == BlockedRuntimeConditionApproval`
abbrev pub is_unset_or_approval : BlockedRuntimeConditionKind → Bool
is_unset_or_approval unset = true
is_unset_or_approval BlockedRuntimeConditionKind.approval = true
is_unset_or_approval _ = false

-- validateBlockedRuntimeRequest
unfoldable pub validate_request : BlockedRuntimeRequest → Result (Unit {0})
unfolding kind_matches_condition
validate_request request =
    if not (requestable request.kind)
    then err invalid_blocked_runtime_request
    else if is_unset_or_approval request.condition.kind
    then err invalid_blocked_runtime_request
    else if not (kind_matches_condition request.kind request.condition.kind)
    then err invalid_blocked_runtime_request
    else ok tt

abbrev pub is_answer : BlockedRuntimeStatus → Bool
is_answer approved = true
is_answer rejected = true
is_answer confirmed = true
is_answer _ = false

-- validateBlockedRuntimeResponse
unfoldable pub validate_response : BlockedRuntimeResponse → Result (Unit {0})
validate_response response =
    if is_answer response.status then ok tt else err invalid_blocked_runtime_response

-- `st.ExecutionState == session.ExecutionBlocked`
abbrev pub is_blocked : ExecutionState → Bool
is_blocked blocked = true
is_blocked _ = false

-- validateBlockedRuntimeSessionState
unfoldable pub validate_session_state : State → Result (Unit {0})
unfolding has_current_blocked_runtime
validate_session_state st =
    if is_terminal_phase st.phase
    then err session_terminal
    else if not (st.pending_approval_id == "")
    then err session_awaiting_approval
    else if has_current_blocked_runtime st || is_blocked st.execution_state
    then err blocked_runtime_already_active
    else ok tt

-- requireCurrentBlockedRuntime
unfoldable pub require_current : State → BlockedRuntimeRecord → Result (Unit {0})
unfolding current_blocked_runtime_id
require_current st rec =
    if not (current_blocked_runtime_id st == rec.blocked_runtime_id)
      || not (is_blocked st.execution_state)
    then err blocked_runtime_not_active
    else ok tt

-- The text of the constant.
abbrev pub condition_text : BlockedRuntimeConditionKind → String
condition_text unset = ""
condition_text BlockedRuntimeConditionKind.approval = "approval"
condition_text BlockedRuntimeConditionKind.confirmation = "confirmation"
condition_text BlockedRuntimeConditionKind.external = "external"
condition_text BlockedRuntimeConditionKind.interactive = "interactive"
condition_text (BlockedRuntimeConditionKind.unknown t) = t

abbrev pub status_text : BlockedRuntimeStatus → String
status_text pending = "pending"
status_text approved = "approved"
status_text rejected = "rejected"
status_text confirmed = "confirmed"
status_text resumed = "resumed"
status_text aborted = "aborted"
status_text (BlockedRuntimeStatus.unknown t) = t

-- normalizeBlockedRuntimeCondition
unfoldable pub normalize_condition : BlockedRuntimeCondition → BlockedRuntimeCondition
normalize_condition condition = record condition {
  waiting_for =
      if condition.waiting_for == "" then condition_text condition.kind else condition.waiting_for;
}

-- The record that `CreateBlockedRuntime` prepares; the task is that of the session.
unfoldable pub prepared_record : String → ℤ → String → BlockedRuntimeRequest → BlockedRuntimeRecord
unfolding normalize_condition
prepared_record uuid now session_id request = record {
  blocked_runtime_id = blocked_id uuid;
  kind = request.kind;
  status = pending;
  session_id = session_id;
  task_id = "";
  subject = request.subject;
  condition = normalize_condition request.condition;
  metadata = request.metadata;
  requested_at = now;
  updated_at = now;
  resolved_at = pos 0;
}

-- mergeBlockedRuntimeResponseMetadata; a map that becomes a value of another one is `opaque`.
abbrev pub merge_response_metadata : Metadata → Metadata → Metadata
merge_response_metadata existing [] = existing
merge_response_metadata existing (e ∷ es) = insert "response" opaque existing

abbrev pub with_terminal_metadata : Metadata → Metadata → Metadata
with_terminal_metadata [] merged = merged
with_terminal_metadata (e ∷ es) merged = insert "terminal_metadata" opaque merged

-- mergeBlockedRuntimeTerminalMetadata
unfoldable pub merge_terminal_metadata :
    Metadata → String → Metadata → BlockedRuntimeStatus → Metadata
merge_terminal_metadata existing reason metadata status =
    let with_status =
      if not (status_text status == "")
      then insert "terminal_status" (text (status_text status)) existing
      else existing in
    let with_reason =
      if not (reason == "")
      then insert "terminal_reason" (text reason) with_status
      else with_status in
    with_terminal_metadata metadata with_reason

abbrev pub is_over : BlockedRuntimeStatus → Bool
is_over resumed = true
is_over aborted = true
is_over _ = false

-- The session that a block, and the end of one, write.
abbrev pub blocked_by : State → String → State
blocked_by st id = record (set_current_blocked_runtime st id) { execution_state = blocked }

abbrev pub unblocked : State → State
unblocked st = record (set_current_blocked_runtime st "") { execution_state = idle }

-- The record that `RespondBlockedRuntime` writes.
abbrev pub answered : ℤ → BlockedRuntimeResponse → BlockedRuntimeRecord → BlockedRuntimeRecord
answered now response rec = record rec {
  status = response.status;
  updated_at = now;
  resolved_at = now;
  metadata = merge_response_metadata rec.metadata response.metadata;
}

-- `status != BlockedRuntimePending`
abbrev pub require_pending : BlockedRuntimeStatus → Result (Unit {0})
require_pending pending = ok tt
require_pending _ = err blocked_runtime_not_pending

-- The record that `resolveBlockedRuntimeState` writes.
abbrev pub resolved :
    ℤ → BlockedRuntimeStatus → String → Metadata → BlockedRuntimeRecord → BlockedRuntimeRecord
resolved now next_status reason metadata rec = record rec {
  status = next_status;
  updated_at = now;
  resolved_at = now;
  metadata = merge_terminal_metadata rec.metadata reason metadata next_status;
}

abbrev pub require_open : BlockedRuntimeStatus → Result (Unit {0})
require_open status = if is_over status then err blocked_runtime_not_active else ok tt
