-- ===== src/Tests/Capabilities.antt =====
-- A request for a capability on a concrete registry.
use harness_core.Base.{some, true, false, []}
use harness_core.Base.Int.{pos}
use harness_core.Tool.{resolve}
use harness_core.Capability.{Request, match_request}
use harness_core.Capability.Matching.{Judged, match_request-Judged}
use harness_core.Tests.Tools.{two_versions}

-- A fan-out over targets, which the tool does not advertise.
abbrev fan_out : Request
fan_out = record {
  session_id = "s1";
  task_id = "";
  step_id = "build";
  action = record { tool_name = "shell.exec"; tool_version = ""; args = [] };
  requirements = some (record {
    multi_target_fanout = true;
    preplanned_tool_graph = false;
    interactive_reopen = false;
    artifact_input = false;
  });
}

match_request-Judged_example :
    Judged fan_out "1"
      (pos 5)
      (resolve "shell.exec" "" two_versions)
      (match_request two_versions "1" (pos 5) fan_out)
match_request-Judged_example = match_request-Judged fan_out "1" (pos 5) two_versions
