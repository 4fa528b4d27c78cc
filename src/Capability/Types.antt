-- ===== src/Capability/Types.antt =====
-- The types of pkg/harness/capability: types.go, errors.go and match.go.
use harness_core.Base.{String, Bool, Option, List}
use harness_core.Base.Int.{ℤ}
use harness_core.Metadata.{Metadata}
use harness_core.Plan.Spec.{ActionSpec}
use harness_core.Tool.{Definition, RiskLevel, Handler}

pub data CapabilityError : Type 0 where
  capability_not_found capability_disabled capability_version_not_found : CapabilityError
  capability_view_not_found capability_view_drift snapshot_not_found : CapabilityError
  other : String → CapabilityError

abbrev pub message_of : CapabilityError → String
message_of capability_not_found = "capability not found"
message_of capability_disabled = "capability disabled"
message_of capability_version_not_found = "capability version not found"
message_of capability_view_not_found = "capability view not found"
message_of capability_view_drift = "capability view drift detected"
message_of snapshot_not_found = "capability snapshot not found"
message_of (other message) = message

pub data Outcome {ℓ} (A : Type ℓ) : Type ℓ where
  found : A → Outcome A
  failed : CapabilityError → Outcome A

pub record SupportRequirements : Type 0 where
  pub multi_target_fanout : Bool
  pub preplanned_tool_graph : Bool
  pub interactive_reopen : Bool
  pub artifact_input : Bool

pub record Request : Type 0 where
  pub session_id : String
  pub task_id : String
  pub step_id : String
  pub action : ActionSpec
  pub requirements : Option SupportRequirements

pub data SnapshotScope : Type 0 where
  unset plan action : SnapshotScope
  unknown : String → SnapshotScope

pub record Snapshot : Type 0 where
  pub snapshot_id : String
  pub session_id : String
  pub task_id : String
  pub plan_id : String
  pub step_id : String
  pub view_id : String
  pub scope : SnapshotScope
  pub tool_name : String
  pub version : String
  pub capability_type : String
  pub risk_level : RiskLevel
  pub metadata : Metadata
  pub resolved_at : ℤ

pub record View : Type 0 where
  pub view_id : String
  pub session_id : String
  pub task_id : String
  pub entries : List Snapshot
  pub frozen_at : ℤ

pub record Resolution (W : Type 0) : Type 0 where
  pub snapshot : Snapshot
  pub definition : Definition
  pub handler : Option (Handler W)

pub data UnsupportedReasonCode : Type 0 where
  not_found disabled version_not_found view_not_found view_drift : UnsupportedReasonCode
  fanout_unsupported graph_unsupported reopen_unsupported input_unsupported : UnsupportedReasonCode

pub record UnsupportedReason : Type 0 where
  pub code : UnsupportedReasonCode
  pub message : String
  pub metadata : Metadata

pub record MatchResult (W : Type 0) : Type 0 where
  pub supported : Bool
  pub resolution : Option (Resolution W)
  pub reasons : List UnsupportedReason
