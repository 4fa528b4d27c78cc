-- ===== src/Runtime/Rollback.antt =====
-- pkg/harness/runtime/rollback.go: how a call that fails half-way undoes its writes.
use harness_core.Base.{String, Option, none, some, ◌||◌, ◌==◌, if◌then◌else◌}
use harness_core.Base.Int.{ℤ, pos}
use harness_core.Base.Result.{Error, Result, ok, err, joined}
use harness_core.Base.Act.{Act}
use harness_core.Session.State.{State}
use harness_core.Runtime.SessionUpdate.{SessionStore, persist_session_update_at}

-- joinRollbackError; `none` is the nil error.
abbrev pub join_rollback_error : Option Error → Option Error → Option Error
join_rollback_error cause none = cause
join_rollback_error none (some e) = some e
join_rollback_error (some cause) (some e) = some (joined cause e)

-- The error that is returned with a cause.
abbrev pub joined_with : Error → Option Error → Error
joined_with cause none = cause
joined_with cause (some e) = joined cause e

abbrev pub error_of {ℓ} : {A : Type ℓ} → Result A → Option Error
error_of (ok _) = none
error_of (err e) = some e

-- persistSessionUpdate; `clock` is what the system clock reads.
unfoldable pub persist_session_update :
    {W : Type 0} → SessionStore W → State → String → ℤ → Act W State
unfolding persist_session_update_at
persist_session_update store desired lease_id clock =
    persist_session_update_at store desired lease_id (pos 0) clock

-- rollbackSessionState, with a store that is not nil.
unfoldable pub rollback_session_state :
    {W : Type 0} → SessionStore W → State → State → String → ℤ → W → Option Error × W
unfolding persist_session_update
rollback_session_state store before persisted lease_id clock w =
    if before.session_id == "" || persisted.session_id == ""
    then (none, w)
    else let (r, w') =
        persist_session_update store (record before { version = persisted.version }) lease_id clock
          w in
      (error_of r, w')

abbrev pub rolled_back {ℓ} :
    {W : Type 0} {A : Type ℓ} → Result A × W → (W → Option Error × W) → Result A × W
rolled_back (ok a, w) undo = (ok a, w)
rolled_back (err e, w) undo = let (e', w') = undo w in (err (joined_with e e'), w')

-- A call whose failure is undone: `return joinRollbackError(err, rollback)`.
abbrev pub or_rollback {ℓ} : {W : Type 0} {A : Type ℓ} → Act W A → (W → Option Error × W) → Act W A
or_rollback first undo w = rolled_back (first w) undo
