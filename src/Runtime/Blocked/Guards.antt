-- ===== src/Runtime/Blocked/Guards.antt =====
-- What the checks of pkg/harness/runtime/blocked_runtime_lifecycle.go say of a session and a record.
use harness_core.Base.{
  String, Bool, ◌≡◌, refl, ap, none, some, true, false, arith, eq_iff, if◌then◌else◌,
}
use harness_core.Base.Int.{ℤ}
use harness_core.Base.Result.{ok}
use harness_core.Session.State.{State}
use harness_core.Session.Store
use harness_core.Execution.Blocked.{BlockedRuntimeRecord, BlockedRuntimeStatus, pending}
use harness_core.Runtime.SessionNotes.{current_blocked_runtime_id, set_current_blocked_runtime}
use harness_core.Runtime.SessionNotes.Recall.{current-set_current_blocked_runtime}
use harness_core.Runtime.Blocked.{
  validate_session_state, blocked_by, BlockedRuntimeResponse, validate_response, require_current,
  require_pending, require_open, unblocked, is_over, is_answer,
}
use harness_core.Runtime.Blocked.Memory.{stepped}
use harness_core.Runtime.Blocked.Calls.{waiting}

pub same_either : (b : Bool) (t : String) → (if b then t else t) ≡ t
same_either true t = refl
same_either false t = refl

pub waiting-blocked_by :
    (time : ℤ) (st : State) (id : String)
    → waiting (some (Store.stamped (stepped (blocked_by st id)) st time)) ≡ some id
unfolding current_blocked_runtime_id set_current_blocked_runtime
waiting-blocked_by time st id = ap some (current-set_current_blocked_runtime st id).0

pub blocked_by-same :
    (st : State) (id : String)
    → ((blocked_by st id).session_id ≡ st.session_id) × ((blocked_by st id).version ≡ st.version)
unfolding set_current_blocked_runtime
blocked_by-same st id = (refl, refl)

pub not-blocked :
    (st : State) {u : Unit {0}} → validate_session_state st ≡ ok u → waiting (some st) ≡ none
unfolding validate_session_state
not-blocked st h = ground arith

pub require_current-ok :
    (st : State) (rec : BlockedRuntimeRecord) {u : Unit {0}}
    → require_current st rec ≡ ok u
    → waiting (some st) ≡ some rec.blocked_runtime_id
unfolding require_current current_blocked_runtime_id
require_current-ok st rec h =
    ground (arith, eq_iff (current_blocked_runtime_id st) rec.blocked_runtime_id)

pub require_pending-ok :
    (s : BlockedRuntimeStatus) {u : Unit {0}} → require_pending s ≡ ok u → s ≡ pending
require_pending-ok BlockedRuntimeStatus.pending h = refl
require_pending-ok BlockedRuntimeStatus.approved h = cc
require_pending-ok BlockedRuntimeStatus.rejected h = cc
require_pending-ok BlockedRuntimeStatus.confirmed h = cc
require_pending-ok BlockedRuntimeStatus.resumed h = cc
require_pending-ok BlockedRuntimeStatus.aborted h = cc
require_pending-ok (BlockedRuntimeStatus.unknown t) h = cc

pub require_open-ok :
    (s : BlockedRuntimeStatus) {u : Unit {0}} → require_open s ≡ ok u → is_over s ≡ false
require_open-ok s h = ground arith

pub validate_response-ok :
    (r : BlockedRuntimeResponse) {u : Unit {0}}
    → validate_response r ≡ ok u
    → is_answer r.status ≡ true
unfolding validate_response
validate_response-ok r h = ground arith

pub unblocked-same :
    (st : State)
    → ((unblocked st).session_id ≡ st.session_id) × ((unblocked st).version ≡ st.version)
unfolding set_current_blocked_runtime
unblocked-same st = (refl, refl)
