-- ===== src/Task/Ending.antt =====
-- How a task ends: updateTaskForTerminalInStore of pkg/harness/runtime/runner.go.
use harness_core.Base.{none, some}
use harness_core.Base.Int.{ℤ}
use harness_core.Session.State.{State, Phase}
use harness_core.Task.{Record, ended_status}

-- A task's record after its session reached a phase.
abbrev pub ended : ℤ → Phase → Record → Record
ended now phase rec = elim (ended_status phase) [
  | none ↦ rec
  | some status ↦ record rec { status = status; updated_at = now }
]
