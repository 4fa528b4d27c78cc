-- ===== src/Execution/Actions.antt =====
-- pkg/harness/execution/types.go and stores.go: action records and their in-memory store. The clock's
-- reading and the new identifier are arguments; the mutex makes each method one step.
use harness_core.Base.{String, Bool, List, ◌==◌, if◌then◌else◌, Option}
use harness_core.Base.Int.{ℤ, is_zero}
use harness_core.Base.Dict.{Dict, insert}
use harness_core.Base.Result.{Result, ok, ◌>>=◌}
use harness_core.Metadata.{Metadata}
use harness_core.Execution.Items.{earlier, get_item, list_items, replace_item}

-- A Go string type: a text that is no constant is `unknown`.
pub data ActionStatus : Type 0 where
  completed failed : ActionStatus
  unknown : String → ActionStatus

-- `Error` and `Result` of pkg/harness/action/spec.go.
pub record ActionError : Type 0 where
  pub code : String
  pub message : String

pub record ActionResult : Type 0 where
  pub succeeded : Bool
  pub data_map : Metadata
  pub meta : Metadata
  pub error : Option ActionError

pub record ActionRecord : Type 0 where
  pub action_id : String
  pub attempt_id : String
  pub session_id : String
  pub task_id : String
  pub step_id : String
  pub cycle_id : String
  pub tool_name : String
  pub trace_id : String
  pub causation_id : String
  pub status : ActionStatus
  pub result : ActionResult
  pub metadata : Metadata
  pub started_at : ℤ
  pub finished_at : ℤ

pub record MemoryActionStore : Type 0 where
  pub items : Dict ActionRecord

unfoldable pub create :
    String → ℤ → ActionRecord → MemoryActionStore → ActionRecord × MemoryActionStore
create fresh_id now spec s =
    let item : ActionRecord = record spec {
      action_id = if spec.action_id == "" then fresh_id else spec.action_id;
      started_at = if is_zero spec.started_at then now else spec.started_at;
    } in
    (item, record { items = insert item.action_id item s.items })

unfoldable pub get : String → MemoryActionStore → Result ActionRecord
get id s = get_item id s.items

unfoldable pub update : ActionRecord → MemoryActionStore → Result MemoryActionStore
update next s = do
  items ← replace_item (λ (r : ActionRecord). r.action_id) next s.items
  ok (record { items = items })

-- The comparison of `List`'s sort.
unfoldable pub started_before : ActionRecord → ActionRecord → Bool
unfolding earlier
started_before a b = earlier a.started_at b.started_at a.step_id b.step_id a.action_id b.action_id

unfoldable pub list : String → MemoryActionStore → List ActionRecord
list session_id s =
    list_items (λ (r : ActionRecord). r.session_id) started_before session_id s.items
