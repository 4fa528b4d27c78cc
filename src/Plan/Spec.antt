-- ===== src/Plan/Spec.antt =====
-- pkg/harness/plan/spec.go, with the action and verification records that a step holds
-- (pkg/harness/action/action.go, pkg/harness/verify/spec.go).
use harness_core.Base.{String, List, Bool, true, false}
use harness_core.Base.Int.{ℤ}
use harness_core.Metadata.{Metadata}

-- Go string types: a text that is no constant of the package is `unknown`; `""` is `unset`.
pub data Status : Type 0 where
  draft active superseded completed failed : Status
  unknown : String → Status

pub data StepStatus : Type 0 where
  unset pending running blocked completed failed skipped : StepStatus
  unknown : String → StepStatus

pub record OnFailSpec : Type 0 where
  pub strategy : String
  pub max_retries : ℤ
  pub backoff_ms : ℤ

pub record ActionSpec : Type 0 where
  pub tool_name : String
  pub tool_version : String
  pub args : Metadata

pub record Check : Type 0 where
  pub kind : String
  pub args : Metadata

pub record VerifySpec : Type 0 where
  pub mode : String
  pub checks : List Check

pub record StepSpec : Type 0 where
  pub plan_id : String
  pub plan_revision : ℤ
  pub step_id : String
  pub title : String
  pub action : ActionSpec
  pub verify : VerifySpec
  pub on_fail : OnFailSpec
  pub status : StepStatus
  pub attempt : ℤ
  pub reason : String
  pub metadata : Metadata
  pub started_at : ℤ
  pub finished_at : ℤ

pub record Spec : Type 0 where
  pub plan_id : String
  pub session_id : String
  pub revision : ℤ
  pub status : Status
  pub change_reason : String
  pub steps : List StepSpec
  pub created_at : ℤ
  pub updated_at : ℤ

-- `status == StepFailed`
abbrev pub is_failed : StepStatus → Bool
is_failed StepStatus.failed = true
is_failed _ = false

-- `status == "" || status == StepPending`
abbrev pub is_fresh : StepStatus → Bool
is_fresh StepStatus.unset = true
is_fresh StepStatus.pending = true
is_fresh _ = false
