-- ===== src/Execution/Verifications.antt =====
-- pkg/harness/execution/types.go and stores.go: verification records and their in-memory store. The clock's
-- reading and the new identifier are arguments; the mutex makes each method one step.
use harness_core.Base.{String, Bool, List, ◌==◌, if◌then◌else◌}
use harness_core.Base.Int.{ℤ, is_zero}
use harness_core.Base.Dict.{Dict, insert}
use harness_core.Base.Result.{Result, ok, ◌>>=◌}
use harness_core.Metadata.{Metadata}
use harness_core.Plan.Spec.{VerifySpec}
use harness_core.Execution.Items.{earlier, get_item, list_items, replace_item}

-- A Go string type: a text that is no constant is `unknown`.
pub data VerificationStatus : Type 0 where
  completed failed : VerificationStatus
  unknown : String → VerificationStatus

-- `Result` of pkg/harness/verify/result.go.
pub record VerifyResult : Type 0 where
  pub success : Bool
  pub details : Metadata
  pub reason : String

pub record VerificationRecord : Type 0 where
  pub verification_id : String
  pub attempt_id : String
  pub session_id : String
  pub task_id : String
  pub step_id : String
  pub action_id : String
  pub cycle_id : String
  pub trace_id : String
  pub causation_id : String
  pub status : VerificationStatus
  pub spec : VerifySpec
  pub result : VerifyResult
  pub metadata : Metadata
  pub started_at : ℤ
  pub finished_at : ℤ

pub record MemoryVerificationStore : Type 0 where
  pub items : Dict VerificationRecord

unfoldable pub create :
    String
    → ℤ
    → VerificationRecord
    → MemoryVerificationStore
    → VerificationRecord × MemoryVerificationStore
create fresh_id now spec s =
    let item : VerificationRecord = record spec {
      verification_id = if spec.verification_id == "" then fresh_id else spec.verification_id;
      started_at = if is_zero spec.started_at then now else spec.started_at;
    } in
    (item, record { items = insert item.verification_id item s.items })

unfoldable pub get : String → MemoryVerificationStore → Result VerificationRecord
get id s = get_item id s.items

unfoldable pub update :
    VerificationRecord → MemoryVerificationStore → Result MemoryVerificationStore
update next s = do
  items ← replace_item (λ (r : VerificationRecord). r.verification_id) next s.items
  ok (record { items = items })

-- The comparison of `List`'s sort.
unfoldable pub started_before : VerificationRecord → VerificationRecord → Bool
unfolding earlier
started_before a b =
    earlier a.started_at b.started_at a.step_id b.step_id a.verification_id b.verification_id

unfoldable pub list : String → MemoryVerificationStore → List VerificationRecord
list session_id s =
    list_items (λ (r : VerificationRecord). r.session_id) started_before session_id s.items
