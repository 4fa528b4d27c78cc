-- ===== src/Execution/Handles.antt =====
-- pkg/harness/execution/types.go and stores.go: runtime handles and their in-memory store. The
-- clock's reading and the new identifier are arguments; the mutex makes each method one step.
pub mod Laws
use harness_core.Base.{String, Bool, true, false, not, List, ◌==◌, if◌then◌else◌}
use harness_core.Base.Int.{ℤ, pos, is_zero, eqb_ℤ, ltb_ℤ, inc64}
use harness_core.Base.Dict.{Dict, insert}
use harness_core.Base.Result.{Result, ok, err, ◌>>=◌, runtime_handle_version_conflict}
use harness_core.Metadata.{Metadata}
use harness_core.Execution.Items.{get_item, list_items}

-- A Go string type: `""` is `unset`, any other text that is no constant is `unknown`.
pub data RuntimeHandleStatus : Type 0 where
  unset active closed invalidated : RuntimeHandleStatus
  unknown : String → RuntimeHandleStatus

pub record RuntimeHandle : Type 0 where
  pub handle_id : String
  pub session_id : String
  pub task_id : String
  pub attempt_id : String
  pub cycle_id : String
  pub trace_id : String
  pub kind : String
  pub value : String
  pub status : RuntimeHandleStatus
  pub status_reason : String
  pub metadata : Metadata
  pub version : ℤ
  pub created_at : ℤ
  pub updated_at : ℤ
  pub closed_at : ℤ
  pub invalidated_at : ℤ

pub record MemoryRuntimeHandleStore : Type 0 where
  pub items : Dict RuntimeHandle

-- `if status == "" { status = RuntimeHandleActive }`
abbrev pub status_or_active : RuntimeHandleStatus → RuntimeHandleStatus
status_or_active unset = active
status_or_active status = status

abbrev pub or_now : ℤ → ℤ → ℤ
or_now now at = if is_zero at then now else at

unfoldable pub create :
    String → ℤ → RuntimeHandle → MemoryRuntimeHandleStore → RuntimeHandle × MemoryRuntimeHandleStore
create fresh_id now spec s =
    let item : RuntimeHandle = record spec {
      handle_id = if spec.handle_id == "" then fresh_id else spec.handle_id;
      status = status_or_active spec.status;
      created_at = or_now now spec.created_at;
      updated_at = or_now now spec.updated_at;
      version = if is_zero spec.version then pos 1 else spec.version;
    } in
    (item, record { items = insert item.handle_id item s.items })

unfoldable pub get : String → MemoryRuntimeHandleStore → Result RuntimeHandle
get id s = get_item id s.items

-- What `Update` stores.
abbrev pub stored : ℤ → RuntimeHandle → RuntimeHandle
stored now next = record next { status = status_or_active next.status; updated_at = now }

unfoldable pub update :
    ℤ → RuntimeHandle → MemoryRuntimeHandleStore → Result MemoryRuntimeHandleStore
update now next s = do
  current ← get_item next.handle_id s.items
  if not (eqb_ℤ next.version (inc64 current.version))
      then err runtime_handle_version_conflict
      else ok (record { items = insert next.handle_id (stored now next) s.items })

-- The comparison of `List`'s sort, which is not stable: handles created together come in any order,
-- here the one in which the map holds them.
abbrev pub created_before : RuntimeHandle → RuntimeHandle → Bool
created_before a b = ltb_ℤ a.created_at b.created_at

unfoldable pub list : String → MemoryRuntimeHandleStore → List RuntimeHandle
list session_id s =
    list_items (λ (h : RuntimeHandle). h.session_id) created_before session_id s.items
