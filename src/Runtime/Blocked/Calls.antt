-- ===== src/Runtime/Blocked/Calls.antt =====
-- The calls of pkg/harness/runtime/blocked_runtime_lifecycle.go over the in-memory stores, in
-- sequence, and the part of the stores that they are about.
use harness_core.Base.{String, ◌≡◌, Option, none, some, List, [], ◌∷◌, if◌then◌else◌}
use harness_core.Base.Int.{ℤ}
use harness_core.Base.Dict.{lookup}
use harness_core.Base.Result.{Result}
use harness_core.Session.State.{State}
use harness_core.Execution.Blocked.{BlockedRuntimeRecord, BlockedRuntimeStatus, blocked_id}
use harness_core.Runtime.SessionNotes.{current_blocked_runtime_id}
use harness_core.Runtime.Blocked.{
  BlockedRuntimeRequest, BlockedRuntimeResponse, BlockedRuntimeAbortRequest, is_blocked,
  create_blocked_runtime, respond_blocked_runtime, resume_blocked_runtime, abort_blocked_runtime,
}
use harness_core.Runtime.Blocked.Machine.{Machine}
use harness_core.Runtime.Blocked.Memory.{Stores, sessions_of, runtimes_of}

-- With the new identifier and the readings of the service's clock and of the stores'.
pub data Call : Type 0 where
  create : String → ℤ → ℤ → String → BlockedRuntimeRequest → Call
  respond : ℤ → ℤ → String → BlockedRuntimeResponse → Call
  resume : ℤ → ℤ → String → Call
  abort : ℤ → ℤ → String → BlockedRuntimeAbortRequest → Call

abbrev pub Outcome : Type 0
Outcome = Result (BlockedRuntimeRecord × State) × Stores

unfoldable pub run : Call → Stores → Outcome
unfolding create_blocked_runtime respond_blocked_runtime resume_blocked_runtime
    abort_blocked_runtime
run (create uuid now time session_id request) w =
    create_blocked_runtime (sessions_of time) (runtimes_of uuid time) now time uuid session_id
      request w
run (respond now time id response) w =
    respond_blocked_runtime (sessions_of time) (runtimes_of "" time) now time id response w
run (resume now time id) w =
    resume_blocked_runtime (sessions_of time) (runtimes_of "" time) now time id w
run (abort now time id request) w =
    abort_blocked_runtime (sessions_of time) (runtimes_of "" time) now time id request w

unfoldable pub run_all : List Call → Stores → Stores
unfolding run
run_all [] w = w
run_all (c ∷ cs) w = run_all cs (run c w).1

-- A new identifier is one that no stored record has.
abbrev pub IsFresh : Call → Stores → Type 0
IsFresh (create uuid now time session_id request) w =
    lookup (blocked_id uuid) w.runtimes.items ≡ none
IsFresh _ w = Unit

-- Every identifier in a sequence of calls is new when it is given.
unfoldable pub AllFresh : List Call → Stores → Type 0
unfolding run
AllFresh [] w = Unit
AllFresh (c ∷ cs) w = IsFresh c w × AllFresh cs (run c w).1

-- What a stored session waits on.
abbrev pub waiting : Option State → Option String
waiting none = none
waiting (some st) =
    if is_blocked st.execution_state then some (current_blocked_runtime_id st) else none

abbrev pub owner_of : Option BlockedRuntimeRecord → Option String
owner_of none = none
owner_of (some rec) = some rec.session_id

abbrev pub status_of : Option BlockedRuntimeRecord → Option BlockedRuntimeStatus
status_of none = none
status_of (some rec) = some rec.status

-- The machine that the stores hold.
unfoldable pub view : Stores → Machine
view w = record {
  waits_on = λ k. waiting (lookup k w.sessions.sessions);
  owner = λ k. owner_of (lookup k w.runtimes.items);
  status = λ k. status_of (lookup k w.runtimes.items);
}
