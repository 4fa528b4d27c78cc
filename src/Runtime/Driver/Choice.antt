-- ===== src/Runtime/Driver/Choice.antt =====
-- How the choice of the next step fits the plan's outcome: pkg/harness/runtime/session_driver.go and
-- plan_outcome.go.
use harness_core.Base.{
  String, ◌≡◌, ◌≢◌, ◌⊎◌, refl, true, false, none, Option-cases, inl, inr, arith, ◌==◌, All, All-imp,
  All-find, find-none_of_All,
}
use harness_core.Plan.Spec.{Spec, Status, StepSpec, StepStatus, is_fresh}
use harness_core.Session.State.{State}
use harness_core.Runtime.Budgets.{LoopBudgets, abort, replan, normalized_on_fail_strategy}
use harness_core.Runtime.PlanOutcome.{plan_status_for_spec}
use harness_core.Runtime.PlanOutcome.Completion.{IsFinished, completed-IsFinished}
use harness_core.Runtime.Driver.{
  nothing, is_executable, executable_step_by_id, find_plan_step_by_id, pinned_step_for_session,
  first_pending_plan_step, is_open_failure, first_failed_plan_step, select_next_step_for_session,
}

finished-not-executable :
    (budgets : LoopBudgets) (step : StepSpec)
    → IsFinished budgets step
    → is_executable budgets step ≡ false
unfolding is_executable
finished-not-executable budgets step f = ground arith

finished-not-fresh :
    (budgets : LoopBudgets) (step : StepSpec)
    → IsFinished budgets step
    → is_fresh step.status ≡ false
finished-not-fresh budgets step f = ground arith

finished-not-open :
    (budgets : LoopBudgets) (step : StepSpec)
    → IsFinished budgets step
    → is_open_failure budgets step ≡ false
finished-not-open budgets step f = ground arith

finished-not-found :
    (budgets : LoopBudgets) (spec : Spec) (step_id : String)
    → All (IsFinished budgets) spec.steps
    → executable_step_by_id spec step_id budgets ≡ none
unfolding executable_step_by_id find_plan_step_by_id
finished-not-found budgets spec step_id all =
    elim (Option-cases (find_plan_step_by_id spec step_id)) [
      | inl e ↦ ground arith
      | inr (step, e) ↦ ground (
        arith,
        finished-not-executable budgets step
            (All-find (IsFinished budgets) (λ s. s.step_id == step_id) spec.steps e all),
      )
    ]

-- Once a plan counts as completed, the driver finds nothing to do in it, whatever step the session
-- has in flight or as its current one.
pub select-completed :
    (state : State) (spec : Spec) (budgets : LoopBudgets)
    → plan_status_for_spec spec budgets ≡ Status.completed
    → select_next_step_for_session state spec spec budgets ≡ nothing
unfolding select_next_step_for_session
select-completed state spec budgets h =
    let all = completed-IsFinished spec budgets h in
    let pinned = finished-not-found budgets spec state.in_flight_step_id all in
    let current = finished-not-found budgets spec state.current_step_id all in
    let fresh =
      find-none_of_All (λ step. is_fresh step.status) spec.steps
        (All-imp (finished-not-fresh budgets) spec.steps all) in
    let opened =
      find-none_of_All (is_open_failure budgets) spec.steps
        (All-imp (finished-not-open budgets) spec.steps all) in
    rw
      (
        select_next_step_for_session, pinned_step_for_session, pinned, current,
        first_pending_plan_step, fresh, first_failed_plan_step, opened,
      )
      refl

-- The step may run.
abbrev pub IsRunnable : StepSpec → Type 0
IsRunnable step =
    (is_fresh step.status ≡ true)
    ⊎ ((step.status ≡ StepStatus.running)
        ⊎ ((step.status ≡ StepStatus.failed)
            × (normalized_on_fail_strategy step ≢ abort)
            × (normalized_on_fail_strategy step ≢ replan)))
