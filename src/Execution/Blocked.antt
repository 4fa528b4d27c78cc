-- ===== src/Execution/Blocked.antt =====
-- pkg/harness/execution/blocked_runtime.go and blocked_runtime_store.go: records of blocked runtimes
-- and their in-memory store. The clock's reading and the new identifier are arguments; the mutex
-- makes each method one step.
use harness_core.Base.{String, Bool, not, List, ◌==◌, if◌then◌else◌}
use harness_core.Base.Int.{ℤ, is_zero, eqb_ℤ, ltb_ℤ}
use harness_core.Base.Text.{str_ltb, concat}
use harness_core.Base.Dict.{Dict, insert}
use harness_core.Base.Result.{Result, ok, ◌>>=◌}
use harness_core.Metadata.{Metadata}
use harness_core.Execution.Aggregate.{TargetRef}
use harness_core.Execution.Items.{get_item, list_items}

-- Go string types: a text that is no constant of the package is `unknown`; `""` is `unset` or one
-- of them.
pub data BlockedRuntimeKind : Type 0 where
  approval confirmation external interactive : BlockedRuntimeKind
  unknown : String → BlockedRuntimeKind

pub data BlockedRuntimeStatus : Type 0 where
  pending approved rejected confirmed resumed aborted : BlockedRuntimeStatus
  unknown : String → BlockedRuntimeStatus

pub data BlockedRuntimeConditionKind : Type 0 where
  unset approval confirmation external interactive : BlockedRuntimeConditionKind
  unknown : String → BlockedRuntimeConditionKind

pub record BlockedRuntimeSubject : Type 0 where
  pub step_id : String
  pub action_id : String
  pub attempt_id : String
  pub cycle_id : String
  pub target : TargetRef
  pub metadata : Metadata

pub record BlockedRuntimeCondition : Type 0 where
  pub kind : BlockedRuntimeConditionKind
  pub reference_id : String
  pub waiting_for : String
  pub metadata : Metadata

pub record BlockedRuntimeRecord : Type 0 where
  pub blocked_runtime_id : String
  pub kind : BlockedRuntimeKind
  pub status : BlockedRuntimeStatus
  pub session_id : String
  pub task_id : String
  pub subject : BlockedRuntimeSubject
  pub condition : BlockedRuntimeCondition
  pub metadata : Metadata
  pub requested_at : ℤ
  pub updated_at : ℤ
  pub resolved_at : ℤ

pub record MemoryBlockedRuntimeStore : Type 0 where
  pub items : Dict BlockedRuntimeRecord

-- `"blocked_" + uuid.NewString()`
abbrev pub blocked_id : String → String
blocked_id uuid = concat "blocked_" uuid

unfoldable pub create :
    String
    → ℤ
    → BlockedRuntimeRecord
    → MemoryBlockedRuntimeStore
    → BlockedRuntimeRecord × MemoryBlockedRuntimeStore
create uuid now spec s =
    let requested_at = if is_zero spec.requested_at then now else spec.requested_at in
    let item : BlockedRuntimeRecord = record spec {
      blocked_runtime_id =
          if spec.blocked_runtime_id == "" then blocked_id uuid else spec.blocked_runtime_id;
      requested_at = requested_at;
      updated_at = if is_zero spec.updated_at then requested_at else spec.updated_at;
    } in
    (item, record { items = insert item.blocked_runtime_id item s.items })

unfoldable pub get : String → MemoryBlockedRuntimeStore → Result BlockedRuntimeRecord
get id s = get_item id s.items

-- What `Update` stores.
abbrev pub stamped : ℤ → BlockedRuntimeRecord → BlockedRuntimeRecord
stamped now next = record next {
  updated_at = if is_zero next.updated_at then now else next.updated_at;
}

unfoldable pub update :
    ℤ → BlockedRuntimeRecord → MemoryBlockedRuntimeStore → Result MemoryBlockedRuntimeStore
update now next s = do
  _ ← get_item next.blocked_runtime_id s.items
  ok (record { items = insert next.blocked_runtime_id (stamped now next) s.items })

-- The comparison of `List`'s sort.
unfoldable pub requested_before : BlockedRuntimeRecord → BlockedRuntimeRecord → Bool
requested_before a b =
    if not (eqb_ℤ a.requested_at b.requested_at)
    then ltb_ℤ a.requested_at b.requested_at
    else str_ltb a.blocked_runtime_id b.blocked_runtime_id

unfoldable pub list : String → MemoryBlockedRuntimeStore → List BlockedRuntimeRecord
list session_id s =
    list_items (λ (r : BlockedRuntimeRecord). r.session_id) requested_before session_id s.items
