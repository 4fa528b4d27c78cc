-- ===== src/Runtime/Handles/Final/History.antt =====
-- The calls on runtime handles in sequence: pkg/harness/runtime/runtime_handles.go.
use harness_core.Base.{String, ◌≡◌, List, [], ◌∷◌, some}
use harness_core.Base.Int.{ℤ}
use harness_core.Base.Dict.{lookup}
use harness_core.Base.Result.{Result, ok, err}
use harness_core.Session.Store
use harness_core.Execution.Handles.{RuntimeHandle, MemoryRuntimeHandleStore}
use harness_core.Execution.Handles.Laws.{IsValid}
use harness_core.Runtime.Handles.{
  Readings, RuntimeHandleUpdate, RuntimeHandleCloseRequest, RuntimeHandleInvalidateRequest,
  update_runtime_handle, update_claimed_runtime_handle, close_runtime_handle,
  close_claimed_runtime_handle, invalidate_runtime_handle, invalidate_claimed_runtime_handle,
  reconcile_active_runtime_handles,
}
use harness_core.Runtime.Handles.Reconcile.{IsOver}

-- A call of the service, with what it reads of the clock and the session store that it finds.
pub data Call : Type 0 where
  update : Readings → Store.MemoryStore → String → RuntimeHandleUpdate → Call
  update_claimed : Readings → Store.MemoryStore → String → String → RuntimeHandleUpdate → Call
  close : Readings → Store.MemoryStore → String → RuntimeHandleCloseRequest → Call
  close_claimed : Readings → Store.MemoryStore → String → String → RuntimeHandleCloseRequest → Call
  invalidate : Readings → Store.MemoryStore → String → RuntimeHandleInvalidateRequest → Call
  invalidate_claimed :
      Readings → Store.MemoryStore → String → String → RuntimeHandleInvalidateRequest → Call
  reconcile : String → ℤ → ℤ → String → Call

abbrev Outcome : Type 0
Outcome = Result (RuntimeHandle × MemoryRuntimeHandleStore)

-- A call that returns an error leaves the store as it was.
abbrev pub store_after : MemoryRuntimeHandleStore → Outcome → MemoryRuntimeHandleStore
store_after s (ok (_, s')) = s'
store_after s (err e) = s

unfoldable pub run : Call → MemoryRuntimeHandleStore → MemoryRuntimeHandleStore
unfolding update_runtime_handle update_claimed_runtime_handle close_runtime_handle
    close_claimed_runtime_handle invalidate_runtime_handle invalidate_claimed_runtime_handle
    reconcile_active_runtime_handles
run (update t sessions id change) s = store_after s (update_runtime_handle t sessions s id change)
run (update_claimed t sessions id lease_id change) s =
    store_after s (update_claimed_runtime_handle t sessions s id lease_id change)
run (close t sessions id request) s = store_after s (close_runtime_handle t sessions s id request)
run (close_claimed t sessions id lease_id request) s =
    store_after s (close_claimed_runtime_handle t sessions s id lease_id request)
run (invalidate t sessions id request) s =
    store_after s (invalidate_runtime_handle t sessions s id request)
run (invalidate_claimed t sessions id lease_id request) s =
    store_after s (invalidate_claimed_runtime_handle t sessions s id lease_id request)
run (reconcile reason now stored_at session_id) s =
    (reconcile_active_runtime_handles reason now stored_at session_id s).1

unfoldable pub run_all : List Call → MemoryRuntimeHandleStore → MemoryRuntimeHandleStore
unfolding run
run_all [] s = s
run_all (c ∷ cs) s = run_all cs (run c s)

-- The store stays valid, and what is over stays as it is.
abbrev pub Preserves : MemoryRuntimeHandleStore → MemoryRuntimeHandleStore → Type 0
Preserves s s' =
    IsValid s'
    × ((k : String) (v : RuntimeHandle)
        → lookup k s.items ≡ some v
        → IsOver v
        → lookup k s'.items ≡ some v)
