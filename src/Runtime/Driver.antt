-- ===== src/Runtime/Driver.antt =====
-- The choice of the next step: pkg/harness/runtime/session_driver.go.
pub mod Choice
use harness_core.Base.{
  String, List, [], ◌∷◌, ◌==◌, Bool, true, false, not, ◌&&◌, Option, none, some, if◌then◌else◌,
  find,
}
use harness_core.Base.Int.{leb_ℤ, ltb_ℤ}
use harness_core.Plan.Spec.{Spec, StepSpec, StepStatus, is_failed, is_fresh}
use harness_core.Session.State.{State}
use harness_core.Runtime.Budgets.{
  LoopBudgets, Strategy, continue, abort, replan, allowed_attempts, normalized_on_fail_strategy,
}

-- sessionStepSelection: a step to run, a new plan to make, or nothing.
pub data Selection : Type 0 where
  nothing needs_planning : Selection
  run : StepSpec → Selection

-- findPlanStepByID
unfoldable pub find_plan_step_by_id : Spec → String → Option StepSpec
unfolding find
find_plan_step_by_id latest step_id = find (λ step. step.step_id == step_id) latest.steps

-- The `case plan.StepFailed` of `executableStepByID`.
abbrev pub rerunnable : Strategy → Bool → Bool
rerunnable replan more = false
rerunnable abort more = false
rerunnable continue more = more
rerunnable _ more = true

abbrev pub executable_in : StepStatus → Bool → Bool
executable_in StepStatus.unset again = true
executable_in StepStatus.pending again = true
executable_in StepStatus.running again = true
executable_in StepStatus.failed again = again
executable_in _ again = false

-- The two `switch`es of `executableStepByID`.
unfoldable pub is_executable : LoopBudgets → StepSpec → Bool
is_executable budgets step = executable_in step.status (
    rerunnable (normalized_on_fail_strategy step)
      (ltb_ℤ step.attempt (allowed_attempts step budgets)))

-- executableStepByID
unfoldable pub executable_step_by_id : Spec → String → LoopBudgets → Option StepSpec
unfolding find_plan_step_by_id is_executable
executable_step_by_id latest step_id budgets =
    if step_id == "" then none else elim (find_plan_step_by_id latest step_id) [
      | none ↦ none
      | some step ↦ if is_executable budgets step then some step else none
    ]

-- pinnedStepForSession
unfoldable pub pinned_step_for_session : State → Spec → LoopBudgets → Option StepSpec
unfolding executable_step_by_id
pinned_step_for_session state latest budgets =
    elim (executable_step_by_id latest state.in_flight_step_id budgets) [
      | some step ↦ some step
      | none ↦ executable_step_by_id latest state.current_step_id budgets
    ]

-- firstPendingPlanStep
unfoldable pub first_pending_plan_step : Spec → Option StepSpec
unfolding find
first_pending_plan_step latest = find (λ step. is_fresh step.status) latest.steps

abbrev pub is_continue : Strategy → Bool
is_continue continue = true
is_continue _ = false

-- The test of the loop in `firstFailedPlanStep`.
abbrev pub is_open_failure : LoopBudgets → StepSpec → Bool
is_open_failure budgets step =
    is_failed step.status
    && not (
        is_continue (normalized_on_fail_strategy step)
        && leb_ℤ (allowed_attempts step budgets) step.attempt)

-- firstFailedPlanStep
unfoldable pub first_failed_plan_step : Spec → LoopBudgets → Option StepSpec
unfolding find
first_failed_plan_step latest budgets = find (is_open_failure budgets) latest.steps

abbrev pub after_failure : Strategy → StepSpec → Selection
after_failure replan step = needs_planning
after_failure abort step = nothing
after_failure _ step = run step

-- selectNextStepForSession
unfoldable pub select_next_step_for_session : State → Spec → Spec → LoopBudgets → Selection
unfolding pinned_step_for_session first_pending_plan_step first_failed_plan_step
select_next_step_for_session state pinned latest budgets =
    elim (pinned_step_for_session state pinned budgets) [
      | some step ↦ run step
      | none ↦ elim (first_pending_plan_step latest) [
        | some step ↦ run step
        | none ↦ elim (first_failed_plan_step latest budgets) [
          | some step ↦ after_failure (normalized_on_fail_strategy step) step
          | none ↦ nothing
        ]
      ]
    ]
