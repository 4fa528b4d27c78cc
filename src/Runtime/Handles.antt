-- ===== src/Runtime/Handles.antt =====
-- pkg/harness/runtime/runtime_handles.go on the path without a transaction runner, where the events
-- that a call emits change no store.
pub mod Final
pub mod Reconcile
use harness_core.Base.{
  String, Bool, true, false, not, ◌&&◌, ◌==◌, List, [], ◌∷◌, Option, none, some, if◌then◌else◌,
}
use harness_core.Base.Int.{ℤ, is_zero, inc64}
use harness_core.Base.Result.{
  Result, ok, err, ◌>>=◌, ◌>>◌, runtime_handle_not_active, session_lease_not_held,
}
use harness_core.Metadata.{Metadata, merge_maps}
use harness_core.Session.Store
use harness_core.Execution.Handles.{
  RuntimeHandle, RuntimeHandleStatus, unset, active, closed, invalidated, status_or_active,
  MemoryRuntimeHandleStore, get, update, list,
}
use harness_core.Runtime.SessionUpdate.{require_session_lease}

pub record RuntimeHandleUpdate : Type 0 where
  pub kind : Option String
  pub value : Option String
  pub metadata : Metadata

pub record RuntimeHandleCloseRequest : Type 0 where
  pub reason : String
  pub metadata : Metadata

pub record RuntimeHandleInvalidateRequest : Type 0 where
  pub reason : String
  pub metadata : Metadata

-- The readings of the clock that one call makes: for the lease, for the change, for the record, and
-- by the store.
pub record Readings : Type 0 where
  pub checked_at : ℤ
  pub changed_at : ℤ
  pub updated_at : ℤ
  pub stored_at : ℤ

abbrev pub active_status : RuntimeHandleStatus → Bool
active_status unset = true
active_status active = true
active_status _ = false

-- isRuntimeHandleActive
unfoldable pub is_runtime_handle_active : RuntimeHandle → Bool
is_runtime_handle_active handle = active_status handle.status

-- runtimeHandleReasonOrDefault
abbrev pub runtime_handle_reason_or_default : String → String → String
runtime_handle_reason_or_default reason fallback = if not (reason == "") then reason else fallback

-- `if value == "" { value = current }`
abbrev pub or_current : String → String → String
or_current value current = if value == "" then current else value

-- What `mutateRuntimeHandle` makes of the handle that `mutate` returns.
abbrev pub completed : RuntimeHandle → ℤ → RuntimeHandle → RuntimeHandle
completed current updated_at updated = record updated {
  handle_id = current.handle_id;
  session_id = or_current updated.session_id current.session_id;
  task_id = or_current updated.task_id current.task_id;
  attempt_id = or_current updated.attempt_id current.attempt_id;
  cycle_id = or_current updated.cycle_id current.cycle_id;
  trace_id = or_current updated.trace_id current.trace_id;
  status = status_or_active updated.status;
  created_at = if is_zero updated.created_at then current.created_at else updated.created_at;
  version = inc64 current.version;
  updated_at = updated_at;
}

-- The check of the lease on the session that a handle belongs to.
unfoldable pub require_handle_lease :
    RuntimeHandle → String → ℤ → Store.MemoryStore → Result (Unit {0})
require_handle_lease current lease_id now sessions =
    if current.session_id == ""
    then ok tt
    else do st ← Store.get current.session_id sessions; require_session_lease st lease_id now

-- mutateRuntimeHandle
unfoldable pub mutate_runtime_handle :
    String
    → String
    → (RuntimeHandle → RuntimeHandle)
    → Readings
    → Store.MemoryStore
    → MemoryRuntimeHandleStore
    → Result (RuntimeHandle × MemoryRuntimeHandleStore)
unfolding require_handle_lease is_runtime_handle_active
mutate_runtime_handle handle_id lease_id mutate t sessions s = do
  current ← get handle_id s
  _ ← require_handle_lease current lease_id t.checked_at sessions
  if not (is_runtime_handle_active current)
      then err runtime_handle_not_active
      else let updated = completed current t.updated_at (mutate current) in
        update t.stored_at updated s >>= λ s'. ok (updated, s')

abbrev pub set : Option String → String → String
set none current = current
set (some value) current = value

-- `if len(extra) > 0 { handle.Metadata = mergeMaps(handle.Metadata, cloneAnyMap(extra)) }`
abbrev pub merged : Metadata → Metadata → Metadata
merged [] current = current
merged (e ∷ es) current = merge_maps current (e ∷ es)

-- The closures that the service passes to `mutateRuntimeHandle`.
abbrev pub apply_update : RuntimeHandleUpdate → RuntimeHandle → RuntimeHandle
apply_update change handle = record handle {
  kind = set change.kind handle.kind;
  value = set change.value handle.value;
  metadata = merged change.metadata handle.metadata;
  status = status_or_active handle.status;
}

abbrev pub apply_close : RuntimeHandleCloseRequest → ℤ → RuntimeHandle → RuntimeHandle
apply_close request now handle = record handle {
  status = closed;
  status_reason = runtime_handle_reason_or_default request.reason "runtime handle closed";
  closed_at = now;
  metadata = merged request.metadata handle.metadata;
}

abbrev pub apply_invalidate : RuntimeHandleInvalidateRequest → ℤ → RuntimeHandle → RuntimeHandle
apply_invalidate request now handle = record handle {
  status = invalidated;
  status_reason = runtime_handle_reason_or_default request.reason "runtime handle invalidated";
  invalidated_at = now;
  metadata = merged request.metadata handle.metadata;
}

module _ (t : Readings) (sessions : Store.MemoryStore) (s : MemoryRuntimeHandleStore) where
  unfoldable pub update_runtime_handle :
      String → RuntimeHandleUpdate → Result (RuntimeHandle × MemoryRuntimeHandleStore)
  unfolding mutate_runtime_handle
  update_runtime_handle handle_id change =
      mutate_runtime_handle handle_id "" (apply_update change) t sessions s

  unfoldable pub update_claimed_runtime_handle :
      String → String → RuntimeHandleUpdate → Result (RuntimeHandle × MemoryRuntimeHandleStore)
  unfolding mutate_runtime_handle
  update_claimed_runtime_handle handle_id lease_id change =
      if lease_id == ""
      then err session_lease_not_held
      else mutate_runtime_handle handle_id lease_id (apply_update change) t sessions s

  unfoldable pub close_runtime_handle :
      String → RuntimeHandleCloseRequest → Result (RuntimeHandle × MemoryRuntimeHandleStore)
  unfolding mutate_runtime_handle
  close_runtime_handle handle_id request =
      mutate_runtime_handle handle_id "" (apply_close request t.changed_at) t sessions s

  unfoldable pub close_claimed_runtime_handle :
      String
      → String
      → RuntimeHandleCloseRequest
      → Result (RuntimeHandle × MemoryRuntimeHandleStore)
  unfolding mutate_runtime_handle
  close_claimed_runtime_handle handle_id lease_id request =
      if lease_id == ""
      then err session_lease_not_held
      else mutate_runtime_handle handle_id lease_id (apply_close request t.changed_at) t sessions s

  unfoldable pub invalidate_runtime_handle :
      String → RuntimeHandleInvalidateRequest → Result (RuntimeHandle × MemoryRuntimeHandleStore)
  unfolding mutate_runtime_handle
  invalidate_runtime_handle handle_id request =
      mutate_runtime_handle handle_id "" (apply_invalidate request t.changed_at) t sessions s

  unfoldable pub invalidate_claimed_runtime_handle :
      String
      → String
      → RuntimeHandleInvalidateRequest
      → Result (RuntimeHandle × MemoryRuntimeHandleStore)
  unfolding mutate_runtime_handle
  invalidate_claimed_runtime_handle handle_id lease_id request =
      if lease_id == ""
      then err session_lease_not_held
      else mutate_runtime_handle handle_id lease_id (apply_invalidate request t.changed_at) t
          sessions s

-- The handle that the loop of `reconcileActiveRuntimeHandlesInStore` writes.
abbrev pub reconciled : String → ℤ → RuntimeHandle → RuntimeHandle
reconciled reason now handle = record handle {
  status = invalidated;
  status_reason = reason;
  invalidated_at = now;
  updated_at = now;
  version = inc64 handle.version;
}

module _ (reason : String) (now stored_at : ℤ) where
  -- An error leaves what was written before it: the store is returned on every path.
  unfoldable pub reconcile_loop :
      List RuntimeHandle
      → MemoryRuntimeHandleStore
      → Result (List RuntimeHandle) × MemoryRuntimeHandleStore
  unfolding is_runtime_handle_active
  reconcile_loop [] s = (ok [], s)
  reconcile_loop (handle ∷ rest) s = elim (is_runtime_handle_active handle) [
    | false ↦ reconcile_loop rest s
    | true ↦ elim (update stored_at (reconciled reason now handle) s) [
      | err e ↦ (err e, s)
      | ok s' ↦
          let (done, after) = reconcile_loop rest s' in
          (done >>= λ updated. ok (reconciled reason now handle ∷ updated), after)
    ]
  ]

  -- reconcileActiveRuntimeHandlesInStore
  unfoldable pub reconcile_active_runtime_handles :
      String → MemoryRuntimeHandleStore → Result (List RuntimeHandle) × MemoryRuntimeHandleStore
  unfolding reconcile_loop
  reconcile_active_runtime_handles session_id s =
      if session_id == "" then (ok [], s) else reconcile_loop (list session_id s) s
