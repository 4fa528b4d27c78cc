-- ===== src/Execution/Attempts.antt =====
-- pkg/harness/execution/types.go and stores.go: attempts and their in-memory store. The clock's
-- reading and the new identifier are arguments; the mutex makes each method one step.
use harness_core.Base.{String, Bool, List, ◌==◌, if◌then◌else◌}
use harness_core.Base.Int.{ℤ, is_zero}
use harness_core.Base.Dict.{Dict, insert}
use harness_core.Base.Result.{Result, ok, ◌>>=◌}
use harness_core.Metadata.{Metadata}
use harness_core.Plan.Spec.{StepSpec}
use harness_core.Execution.Items.{earlier, get_item, list_items, replace_item}

-- A Go string type: a text that is no constant is `unknown`.
pub data AttemptStatus : Type 0 where
  blocked completed failed : AttemptStatus
  unknown : String → AttemptStatus

pub record Attempt : Type 0 where
  pub attempt_id : String
  pub session_id : String
  pub task_id : String
  pub step_id : String
  pub approval_id : String
  pub cycle_id : String
  pub trace_id : String
  pub status : AttemptStatus
  pub step : StepSpec
  pub metadata : Metadata
  pub started_at : ℤ
  pub finished_at : ℤ

pub record MemoryAttemptStore : Type 0 where
  pub items : Dict Attempt

unfoldable pub create : String → ℤ → Attempt → MemoryAttemptStore → Attempt × MemoryAttemptStore
create fresh_id now spec s =
    let item : Attempt = record spec {
      attempt_id = if spec.attempt_id == "" then fresh_id else spec.attempt_id;
      started_at = if is_zero spec.started_at then now else spec.started_at;
    } in
    (item, record { items = insert item.attempt_id item s.items })

unfoldable pub get : String → MemoryAttemptStore → Result Attempt
get id s = get_item id s.items

unfoldable pub update : Attempt → MemoryAttemptStore → Result MemoryAttemptStore
update next s = do
  items ← replace_item (λ (r : Attempt). r.attempt_id) next s.items
  ok (record { items = items })

-- The comparison of `List`'s sort.
unfoldable pub started_before : Attempt → Attempt → Bool
unfolding earlier
started_before a b = earlier a.started_at b.started_at a.step_id b.step_id a.attempt_id b.attempt_id

unfoldable pub list : String → MemoryAttemptStore → List Attempt
list session_id s = list_items (λ (r : Attempt). r.session_id) started_before session_id s.items
