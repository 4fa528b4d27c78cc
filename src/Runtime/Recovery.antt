-- ===== src/Runtime/Recovery.antt =====
-- The marks that recovery leaves on a session: pkg/harness/runtime/recovery.go, on its path without
-- a transaction runner. Audit events change no store. Each reading of the
-- clock is an argument.
pub mod Marks
use harness_core.Base.{String, Option, none, some, List, filter, if◌then◌else◌, ◌==◌}
use harness_core.Base.Int.{ℤ, is_zero, ltb_ℤ, pos}
use harness_core.Base.Result.{Result, ok, err}
use harness_core.Session.State.{State, Phase, interrupted, in_flight, is_recoverable_state}
use harness_core.Session.Store
use harness_core.Runtime.SessionUpdate.{
  SessionStore, require_session_lease, persist_session_update_at,
}

-- The mutation of `markSessionInterrupted`.
abbrev pub interrupt : ℤ → State → State
interrupt now st = record st {
  execution_state = interrupted;
  interrupted_at = now;
  phase = Phase.recover;
}

module _ {W : Type 0} (store : SessionStore W) (session_id lease_id : String) where
  -- The session that was read, if the caller may work on it.
  abbrev pub leased : ℤ → Result State × W → Result State × W
  leased now (err e, w) = (err e, w)
  leased now (ok st, w) = elim (require_session_lease st lease_id now) [
    | err e ↦ (err e, w)
    | ok _ ↦ (ok st, w)
  ]

  -- ensureSessionLease
  unfoldable pub ensure_session_lease : ℤ → W → Result State × W
  ensure_session_lease now w = leased now (store.get session_id w)

  abbrev pub persist_mutated : (State → State) → ℤ → Result State × W → Result State × W
  persist_mutated mutate now (err e, w) = (err e, w)
  persist_mutated mutate now (ok st, w) =
      persist_session_update_at store (mutate st) lease_id now now w

  -- updateRecoveryState
  unfoldable pub update_recovery_state : (State → State) → ℤ → ℤ → W → Result State × W
  unfolding persist_session_update_at
  update_recovery_state mutate checked now w =
      persist_mutated mutate now (leased checked (store.get session_id w))

  -- markSessionInterrupted
  unfoldable pub mark_session_interrupted : ℤ → ℤ → ℤ → W → Result State × W
  unfolding update_recovery_state
  mark_session_interrupted now checked persisted w =
      update_recovery_state (interrupt now) checked persisted w

-- ListRecoverableSessions, with the in-memory store
unfoldable pub list_recoverable_sessions : Store.MemoryStore → List State
unfolding filter is_recoverable_state Store.list
list_recoverable_sessions s = filter is_recoverable_state (Store.list s)
