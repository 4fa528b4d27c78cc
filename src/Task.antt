-- ===== src/Task.antt =====
-- pkg/harness/task/spec.go and store.go: task records and their in-memory store, and the update of
-- a task when its session ends (pkg/harness/runtime/runner.go). The clock's reading and the new
-- identifier are arguments; the mutex makes each method one step.
pub mod Ending
use harness_core.Base.{String, List, ◌==◌, Option, none, some, if◌then◌else◌}
use harness_core.Base.Int.{ℤ}
use harness_core.Base.Dict.{Dict, lookup, insert, values}
use harness_core.Base.Result.{Result, ok, err, or_error, ◌>>=◌, task_not_found}
use harness_core.Metadata.{Metadata}
use harness_core.Session.State.{State, Phase}

pub data Status : Type 0 where
  received running completed failed aborted : Status
  unknown : String → Status

pub record Spec : Type 0 where
  pub task_id : String
  pub task_type : String
  pub goal : String
  pub constraints : Metadata
  pub metadata : Metadata

pub record Record : Type 0 where
  pub task_id : String
  pub task_type : String
  pub goal : String
  pub status : Status
  pub session_id : String
  pub constraints : Metadata
  pub metadata : Metadata
  pub created_at : ℤ
  pub updated_at : ℤ

pub record MemoryStore : Type 0 where
  pub tasks : Dict Record

unfoldable pub create : String → ℤ → Spec → MemoryStore → Record × MemoryStore
create fresh_id now spec s =
    let rec : Record = record {
      task_id = if spec.task_id == "" then fresh_id else spec.task_id;
      task_type = spec.task_type;
      goal = spec.goal;
      status = received;
      session_id = "";
      constraints = spec.constraints;
      metadata = spec.metadata;
      created_at = now;
      updated_at = now;
    } in
    (rec, record { tasks = insert rec.task_id rec s.tasks })

unfoldable pub get : String → MemoryStore → Result Record
get id s = or_error (lookup id s.tasks) task_not_found

unfoldable pub update : ℤ → Record → MemoryStore → Result MemoryStore
update now next s = do
  _ ← or_error (lookup next.task_id s.tasks) task_not_found
  ok (record { tasks = insert next.task_id (record next { updated_at = now }) s.tasks })

-- `List`, in the order of the map's iteration.
unfoldable pub list : MemoryStore → List Record
list s = values s.tasks

-- The `switch` of `updateTaskForTerminalInStore`.
abbrev pub ended_status : Phase → Option Status
ended_status Phase.complete = some completed
ended_status Phase.failed = some failed
ended_status Phase.aborted = some aborted
ended_status _ = none

-- updateTaskForTerminalInStore: the record that it returns, and the store after it.
unfoldable pub update_task_for_terminal :
    ℤ → State → MemoryStore → Result (Option Record × MemoryStore)
unfolding get update
update_task_for_terminal now state s = if state.task_id == "" then ok (none, s) else do
  rec ← get state.task_id s
  elim (ended_status state.phase) [
    | none ↦ ok (some rec, s)
    | some status ↦
        let ended : Record = record rec { status = status } in
        update now ended s >>= λ s'. ok (some ended, s')
  ]
