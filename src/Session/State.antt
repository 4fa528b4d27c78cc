-- ===== src/Session/State.antt =====
-- pkg/harness/session/state.go and recovery.go.
use harness_core.Base.{String, [], Bool, true, false, not, ◌&&◌, ◌||◌, ◌==◌, if◌then◌else◌}
use harness_core.Base.Int.{ℤ, pos, is_zero, ltb_ℤ}
use harness_core.Metadata.{Metadata}

-- A Go string type: a text that is no constant of the package is `unknown`.
pub data Phase : Type 0 where
  received prepare plan execute verify recover complete failed aborted : Phase
  unknown : String → Phase

pub data ExecutionState : Type 0 where
  idle in_flight interrupted awaiting_approval blocked : ExecutionState
  unknown : String → ExecutionState

pub data ClaimMode : Type 0 where
  runnable recoverable : ClaimMode
  unknown : String → ClaimMode

pub record State : Type 0 where
  pub session_id : String
  pub task_id : String
  pub title : String
  pub goal : String
  pub phase : Phase
  pub current_step_id : String
  pub summary : String
  pub retry_count : ℤ
  pub execution_state : ExecutionState
  pub in_flight_step_id : String
  pub pending_approval_id : String
  pub lease_id : String
  pub lease_claimed_at : ℤ
  pub lease_expires_at : ℤ
  pub last_heartbeat_at : ℤ
  pub interrupted_at : ℤ
  pub runtime_started_at : ℤ
  pub metadata : Metadata
  pub version : ℤ
  pub created_at : ℤ
  pub updated_at : ℤ

-- `State{}`
abbrev pub zero_state : State
zero_state = record {
  session_id = "";
  task_id = "";
  title = "";
  goal = "";
  phase = Phase.unknown "";
  current_step_id = "";
  summary = "";
  retry_count = pos 0;
  execution_state = ExecutionState.unknown "";
  in_flight_step_id = "";
  pending_approval_id = "";
  lease_id = "";
  lease_claimed_at = pos 0;
  lease_expires_at = pos 0;
  last_heartbeat_at = pos 0;
  interrupted_at = pos 0;
  runtime_started_at = pos 0;
  metadata = [];
  version = pos 0;
  created_at = pos 0;
  updated_at = pos 0;
}

abbrev pub is_recover : Phase → Bool
is_recover recover = true
is_recover _ = false

recoverable_when : ExecutionState → State → Bool
recoverable_when in_flight st = true
recoverable_when interrupted st = true
recoverable_when idle st =
    if not (is_recover st.phase)
    then false
    else (not (is_zero st.interrupted_at) || not (st.in_flight_step_id == ""))
recoverable_when _ st = false

-- IsRecoverableState
unfoldable pub is_recoverable_state : State → Bool
unfolding recoverable_when
is_recoverable_state st = recoverable_when st.execution_state st

-- leaseActiveAt
unfoldable pub lease_active_at : State → ℤ → Bool
lease_active_at st now = not (st.lease_id == "") && ltb_ℤ now st.lease_expires_at

-- leaseHeldAt
unfoldable pub lease_held_at : State → String → ℤ → Bool
unfolding lease_active_at
lease_held_at st lease_id now =
    not (lease_id == "") && (st.lease_id == lease_id && lease_active_at st now)

-- The phase test of the `ClaimModeRunnable` case; isTerminalPhase of session_driver.go.
abbrev pub is_terminal_phase : Phase → Bool
is_terminal_phase complete = true
is_terminal_phase failed = true
is_terminal_phase aborted = true
is_terminal_phase _ = false

abbrev pub is_parked : ExecutionState → Bool
is_parked awaiting_approval = true
is_parked blocked = true
is_parked _ = false

abbrev pub is_idle : ExecutionState → Bool
is_idle idle = true
is_idle _ = false

claimable_in : ClaimMode → State → Bool
unfolding is_recoverable_state
claimable_in runnable st =
    if not (is_idle st.execution_state) then false else not (is_terminal_phase st.phase)
claimable_in recoverable st = is_recoverable_state st
claimable_in (ClaimMode.unknown mode) st = false

-- claimableState
unfoldable pub claimable_state : State → ClaimMode → ℤ → Bool
unfolding lease_active_at claimable_in
claimable_state st mode now =
    if lease_active_at st now
    then false
    else if is_parked st.execution_state
    then false
    else claimable_in mode st
