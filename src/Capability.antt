-- ===== src/Capability.antt =====
-- pkg/harness/capability: which capability serves a request (resolver.go), what it must support
-- (match.go), and the views that freeze the capabilities of a registry (freezer.go).
mod Types
pub mod Matching
pub mod Snapshots
pub use Types.*
use harness_core.Base.{
  String, Bool, true, false, not, ◌&&◌, ◌==◌, if◌then◌else◌, Option, none, some, List, [], ◌∷◌,
  ◌++◌, filter, map,
}
use harness_core.Base.Text.{concat}
use harness_core.Base.Int.{ℤ}
use harness_core.Base.Dict.{lookup, insert}
use harness_core.Metadata.{Value, Metadata, text, bool}
use harness_core.Tool.{Definition, Entry, Registry, resolve, list}

-- The reader of a flag, and the metadata of a reason.
abbrev pub flag_of : Option Value → Bool
flag_of (some (bool b)) = b
flag_of _ = false

unfoldable pub support_flag : Metadata → String → Bool
support_flag metadata key = flag_of (lookup key metadata)

abbrev pub noted : String → String → Metadata → Metadata
noted key value metadata = if value == "" then metadata else insert key (text value) metadata

abbrev pub code_of : CapabilityError → Option UnsupportedReasonCode
code_of capability_not_found = some not_found
code_of capability_disabled = some disabled
code_of capability_version_not_found = some version_not_found
code_of capability_view_not_found = some view_not_found
code_of capability_view_drift = some view_drift
code_of _ = none

abbrev pub reason_of : Option UnsupportedReasonCode → String → Metadata → Option UnsupportedReason
reason_of none message metadata = none
reason_of (some c) message metadata =
    some (record { code = c; message = message; metadata = metadata })

-- UnsupportedReasonFromError
unfoldable pub unsupported_reason_from_error : CapabilityError → Request → Option UnsupportedReason
unsupported_reason_from_error e req =
    reason_of (code_of e) (message_of e)
      (noted "tool_version" req.action.tool_version (noted "tool_name" req.action.tool_name []))

-- One test of `UnsupportedReasonsForDefinition`.
abbrev pub lacks :
    Bool → String → UnsupportedReasonCode → String → Definition → List UnsupportedReason
lacks required key c message def =
    if required && not (support_flag def.metadata key)
    then record {
      code = c;
      message = message;
      metadata = ("tool_name", text def.tool_name) ∷ ("tool_version", text def.version) ∷ [];
    }
      ∷ []
    else []

-- UnsupportedReasonsForDefinition
unfoldable pub unsupported_reasons_for_definition :
    Definition → Option SupportRequirements → List UnsupportedReason
unsupported_reasons_for_definition def none = []
unsupported_reasons_for_definition def (some r) =
    lacks r.multi_target_fanout "supports_multi_target_fanout" fanout_unsupported
      "capability does not advertise multi-target fan-out support" def
    ++ lacks r.preplanned_tool_graph "supports_preplanned_tool_graph" graph_unsupported
        "capability does not advertise preplanned tool-graph support" def
    ++ lacks r.interactive_reopen "supports_interactive_reopen" reopen_unsupported
        "capability does not advertise interactive reopen support" def
    ++ lacks r.artifact_input "supports_artifact_input" input_unsupported
        "capability does not advertise artifact input support" def

-- The snapshot of an entry that serves a request; `uuid` and `now` are drawn by the call.
abbrev pub snapshot_of : Request → String → ℤ → Definition → Snapshot
snapshot_of req uuid now def = record {
  snapshot_id = concat "cap_" uuid;
  session_id = req.session_id;
  task_id = req.task_id;
  plan_id = "";
  step_id = req.step_id;
  view_id = "";
  scope = action;
  tool_name = def.tool_name;
  version = def.version;
  capability_type = def.capability_type;
  risk_level = def.risk_level;
  metadata = def.metadata;
  resolved_at = now;
}

-- The snapshot of a definition in a frozen view.
abbrev pub frozen : String → String → String → ℤ → Definition → Snapshot
frozen session_id task_id view_id now def = record {
  snapshot_id = "";
  session_id = session_id;
  task_id = task_id;
  plan_id = "";
  step_id = "";
  view_id = view_id;
  scope = plan;
  tool_name = def.tool_name;
  version = def.version;
  capability_type = def.capability_type;
  risk_level = def.risk_level;
  metadata = def.metadata;
  resolved_at = now;
}

module _ {W : Type 0} where
  abbrev pub resolution_of : Request → String → ℤ → Entry W → Resolution W
  resolution_of req uuid now entry = record {
    snapshot = snapshot_of req uuid now entry.definition;
    definition = entry.definition;
    handler = entry.handler;
  }

  abbrev pub entry_answer : Request → String → ℤ → Option (Entry W) → Outcome (Resolution W)
  entry_answer req uuid now none =
      if not (req.action.tool_version == "")
      then failed capability_version_not_found
      else failed capability_not_found
  entry_answer req uuid now (some entry) =
      if not entry.definition.enabled
      then failed capability_disabled
      else found (resolution_of req uuid now entry)

  -- RegistryResolver.Resolve
  unfoldable pub resolve_request : Registry W → String → ℤ → Request → Outcome (Resolution W)
  resolve_request registry uuid now req =
      entry_answer req uuid now (resolve req.action.tool_name req.action.tool_version registry)

  abbrev pub unsupported : List UnsupportedReason → MatchResult W
  unsupported reasons = record { supported = false; resolution = none; reasons = reasons }

  abbrev pub of_reasons : Resolution W → List UnsupportedReason → MatchResult W
  of_reasons resolution [] = record { supported = true; resolution = some resolution; reasons = [] }
  of_reasons resolution (r ∷ rs) = unsupported (r ∷ rs)

  abbrev pub of_error : CapabilityError → Option UnsupportedReason → Outcome (MatchResult W)
  of_error e none = failed e
  of_error e (some reason) = found (unsupported (reason ∷ []))

  abbrev pub of_outcome : Request → Outcome (Resolution W) → Outcome (MatchResult W)
  of_outcome req (failed e) = of_error e (unsupported_reason_from_error e req)
  of_outcome req (found resolution) = found (
      of_reasons resolution
        (unsupported_reasons_for_definition resolution.definition req.requirements))

  -- RegistryResolver.Match
  unfoldable pub match_request : Registry W → String → ℤ → Request → Outcome (MatchResult W)
  unfolding resolve_request unsupported_reason_from_error unsupported_reasons_for_definition
  match_request registry uuid now req = of_outcome req (resolve_request registry uuid now req)

  -- RegistryFreezer.Freeze
  unfoldable pub freeze : Registry W → String → ℤ → String → String → View
  freeze registry uuid now session_id task_id = record {
    view_id = concat "capv_" uuid;
    session_id = session_id;
    task_id = task_id;
    entries =
        map (frozen session_id task_id (concat "capv_" uuid) now)
          (filter (λ def. def.enabled) (list registry));
    frozen_at = now;
  }
