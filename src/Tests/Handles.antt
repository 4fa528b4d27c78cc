-- ===== src/Tests/Handles.antt =====
-- Runtime handles on a concrete session, and the listing of execution records.
use harness_core.Base.{String, ◌≡◌, ◌≢◌, ◌↔◌, ◌⊎◌, refl, some, [], ◌∷◌, List}
use harness_core.Base.Int.{pos}
use harness_core.Base.Dict.{lookup, insert}
use harness_core.Base.Result.{ok}
use harness_core.Execution.Handles.{
  RuntimeHandle, RuntimeHandleStatus, MemoryRuntimeHandleStore, stored,
}
use harness_core.Execution.Handles.Laws.{IsValid}
use harness_core.Execution.Attempts
use harness_core.Execution.Attempts.{Attempt}
use harness_core.Execution.Actions
use harness_core.Execution.Actions.{ActionRecord}
use harness_core.Execution.Verifications
use harness_core.Execution.Verifications.{VerificationRecord}
use harness_core.Execution.Blocked
use harness_core.Execution.Blocked.{BlockedRuntimeRecord}
use harness_core.Plan.Spec.{StepStatus}
use harness_core.Runtime.Handles.{
  Readings, completed, require_handle_lease, mutate_runtime_handle, apply_close,
  reconcile_active_runtime_handles,
}
use harness_core.Runtime.Handles.Reconcile.{IsActive, IsOver, reconcile_ends}
use harness_core.Runtime.Handles.Final.{mutate_ok}
use harness_core.Tests.Data.{differ, claimed_session, step_with}

-- A handle of the claimed session.
abbrev shell : RuntimeHandle
shell = record {
  handle_id = "h1";
  session_id = "s1";
  task_id = "";
  attempt_id = "t1";
  cycle_id = "";
  trace_id = "";
  kind = "pty";
  value = "1";
  status = RuntimeHandleStatus.active;
  status_reason = "";
  metadata = [];
  version = pos 1;
  created_at = pos 2;
  updated_at = pos 2;
  closed_at = pos 0;
  invalidated_at = pos 0;
}

abbrev handles : MemoryRuntimeHandleStore
handles = record { items = ("h1", shell) ∷ [] }

handles-IsValid : IsValid handles
unfolding lookup
handles-IsValid = (refl, refl, tt)

abbrev at_6 : Readings
at_6 = record { checked_at = pos 6; changed_at = pos 6; updated_at = pos 6; stored_at = pos 7 }

abbrev close_shell : RuntimeHandle → RuntimeHandle
close_shell = apply_close (record { reason = ""; metadata = [] }) (pos 6)

abbrev closed : RuntimeHandle
closed = completed shell (pos 6) (close_shell shell)

abbrev closed_handles : MemoryRuntimeHandleStore
closed_handles = record { items = ("h1", stored (pos 7) closed) ∷ [] }

mutate_ok_example :
    (mutate_runtime_handle "h1" "lse_1" close_shell at_6 claimed_session handles
      ≡ ok (closed, closed_handles))
    ↔ ((current : RuntimeHandle) × (lookup "h1" handles.items ≡ some current)
        × (require_handle_lease current "lse_1" (pos 6) claimed_session ≡ ok tt)
        × IsActive current
        × (closed ≡ completed current (pos 6) (close_shell current))
        × (closed_handles ≡ record { items = insert "h1" (stored (pos 7) closed) handles.items }))
mutate_ok_example =
    mutate_ok "h1" "lse_1" close_shell at_6 claimed_session handles handles-IsValid closed
      closed_handles

reconcile_ends_example :
    (done : List RuntimeHandle) × (s' : MemoryRuntimeHandleStore)
    × (reconcile_active_runtime_handles "lost" (pos 9) (pos 9) "s1" handles ≡ (ok done, s'))
    × IsValid s'
    × ((k : String) (v : RuntimeHandle)
        → lookup k s'.items ≡ some v
        → v.session_id ≡ "s1"
        → IsOver v)
    × ((k : String) (v : RuntimeHandle)
        → lookup k handles.items ≡ some v
        → (v.session_id ≢ "s1") ⊎ IsOver v
        → lookup k s'.items ≡ some v)
reconcile_ends_example =
    reconcile_ends "lost" (pos 9) (pos 9) "s1" handles handles-IsValid (differ "s1" "" refl)

-- An attempt of the claimed session.
abbrev attempt : Attempt
attempt = record {
  attempt_id = "t1";
  session_id = "s1";
  task_id = "";
  step_id = "build";
  approval_id = "";
  cycle_id = "";
  trace_id = "";
  status = Attempts.completed;
  step = step_with "retry" StepStatus.completed;
  metadata = [];
  started_at = pos 3;
  finished_at = pos 4;
}

abbrev attempts : Attempts.MemoryAttemptStore
attempts = record { items = ("t1", attempt) ∷ [] }
