-- ===== src/Runtime/SessionNotes.antt =====
-- What the kernel notes in a session's metadata: the plan revision that it works on
-- (pkg/harness/runtime/plan_identity.go) and its blocked runtime (blocked_runtime_state.go).
pub mod Recall
use harness_core.Base.{String, Bool, true, false, not, ◌==◌, Option, none, some, if◌then◌else◌}
use harness_core.Base.Int.{ℤ, pos, ltb_ℤ}
use harness_core.Base.Dict.{lookup, insert, delete}
use harness_core.Metadata.{Metadata, Value, text, int, int32, int64, float64, text_of}
use harness_core.Plan.Spec.{StepSpec}
use harness_core.Session.State.{State}
use harness_core.Runtime.PlanIdentity.{annotate_step_identity}

abbrev pub current_plan_id_key : String
current_plan_id_key = "_kernel_current_plan_id"

abbrev pub current_plan_revision_key : String
current_plan_revision_key = "_kernel_current_plan_revision"

abbrev pub blocked_runtime_id_key : String
blocked_runtime_id_key = "_kernel_blocked_runtime_id"

-- intValue
abbrev pub int_value : Option Value → ℤ
int_value (some (int n)) = n
int_value (some (int32 n)) = n
int_value (some (int64 n)) = n
int_value (some (float64 n)) = n
int_value _ = pos 0

-- planRefFromSession
unfoldable pub plan_ref_from_session : State → Option (String × ℤ)
plan_ref_from_session st =
    let plan_id = text_of (lookup current_plan_id_key st.metadata) in
    if plan_id == ""
    then none
    else some (plan_id, int_value (lookup current_plan_revision_key st.metadata))

-- The metadata after `setSessionPlanRef`.
abbrev pub with_plan_ref : StepSpec → Metadata → Metadata
with_plan_ref step metadata =
    let named = insert current_plan_id_key (text step.plan_id) metadata in
    if ltb_ℤ (pos 0) step.plan_revision
    then insert current_plan_revision_key (int step.plan_revision) named
    else named

-- setSessionPlanRef
unfoldable pub set_session_plan_ref : State → StepSpec → State
set_session_plan_ref st step =
    if step.plan_id == "" then st else record st { metadata = with_plan_ref step st.metadata }

-- annotateStepFromSession
unfoldable pub annotate_step_from_session : State → StepSpec → StepSpec
unfolding plan_ref_from_session annotate_step_identity
annotate_step_from_session st step =
    if not (step.plan_id == "") then step else elim (plan_ref_from_session st) [
      | none ↦ step
      | some (plan_id, plan_revision) ↦ annotate_step_identity step plan_id plan_revision
    ]

-- currentBlockedRuntimeID
unfoldable pub current_blocked_runtime_id : State → String
current_blocked_runtime_id st = text_of (lookup blocked_runtime_id_key st.metadata)

-- hasCurrentBlockedRuntime
unfoldable pub has_current_blocked_runtime : State → Bool
unfolding current_blocked_runtime_id
has_current_blocked_runtime st = not (current_blocked_runtime_id st == "")

-- setCurrentBlockedRuntime
unfoldable pub set_current_blocked_runtime : State → String → State
set_current_blocked_runtime st blocked_runtime_id = record st {
  metadata =
      if blocked_runtime_id == ""
      then delete blocked_runtime_id_key st.metadata
      else insert blocked_runtime_id_key (text blocked_runtime_id) st.metadata;
}
