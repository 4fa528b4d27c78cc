-- ===== src/Runtime/PlanOutcome.antt =====
-- pkg/harness/runtime/plan_outcome.go: what a plan's steps say about the plan.
pub mod Completion
use harness_core.Base.{
  String, List, [], ◌∷◌, ◌==◌, Bool, true, false, not, ◌||◌, Option, none, some, if◌then◌else◌,
  Option-cases,
}
use harness_core.Base.Int.{ltb_ℤ, leb_ℤ}
use harness_core.Base.Result.{Result, ok, err}
use harness_core.Execution.Aggregate.{
  AggregateResult, AggregateStatus, aggregate_ref_from_metadata, aggregate_results_from_plan,
}
use harness_core.Plan.Spec.{Spec, Status, StepSpec, StepStatus}
use harness_core.Session.State.{State}
use harness_core.Runtime.Budgets.{
  LoopBudgets, Strategy, retry, continue, abort, replan, reinspect, allowed_attempts,
  normalized_on_fail_strategy,
}
use harness_core.Runtime.Transition.{Transition, TransitionDecision}

pub record PlanExecutionOutcome : Type 0 where
  pub aggregates : List AggregateResult
  pub continue : Bool
  pub fail : Bool
  pub reason : String

-- What one step of the loop in `aggregateExhaustedAsFailed` does: `false` ends the loop.
abbrev pub exhausted_step : StepStatus → Bool → Bool
exhausted_step StepStatus.unset more = false
exhausted_step StepStatus.pending more = false
exhausted_step StepStatus.running more = false
exhausted_step StepStatus.blocked more = false
exhausted_step StepStatus.completed more = false
exhausted_step StepStatus.failed more = not more
exhausted_step _ more = true

abbrev pub in_aggregate : String → StepSpec → Bool
in_aggregate aggregate_id step = elim (aggregate_ref_from_metadata step.metadata) [
  | none ↦ false
  | some (id, _) ↦ id == aggregate_id
]

unfoldable pub exhausted_from : List StepSpec → String → LoopBudgets → Bool → Bool
exhausted_from [] aggregate_id budgets found = found
exhausted_from (step ∷ steps) aggregate_id budgets found =
    let skipped = exhausted_from steps aggregate_id budgets found in
    let taken = exhausted_from steps aggregate_id budgets true in
    if not (in_aggregate aggregate_id step)
    then skipped
    else if exhausted_step step.status (ltb_ℤ step.attempt (allowed_attempts step budgets))
    then taken
    else false

-- aggregateExhaustedAsFailed
abbrev pub aggregate_exhausted_as_failed : Spec → String → LoopBudgets → Bool
aggregate_exhausted_as_failed spec aggregate_id budgets =
    exhausted_from spec.steps aggregate_id budgets false

-- `aggregateByID[id].Status`; a missing entry has the zero status.
unfoldable pub aggregate_status : String → List AggregateResult → Option AggregateStatus
aggregate_status id [] = none
aggregate_status id (r ∷ rs) =
    if r.aggregate_id == id then some r.status else aggregate_status id rs

-- What one step means for its plan.
pub data Judgement : Type 0 where
  remaining recoverable settled : Judgement
  fatal : String → Judgement

-- A failed step under `on_fail=continue` that has used up its attempts.
abbrev pub judge_aggregate : Option AggregateStatus → Bool → Judgement
judge_aggregate (some AggregateStatus.failed) exhausted =
    if not exhausted then recoverable else fatal "fan-out aggregate failed"
judge_aggregate (some AggregateStatus.pending) exhausted = remaining
judge_aggregate _ exhausted = settled

abbrev pub judge_given_up : Spec → List AggregateResult → LoopBudgets → StepSpec → Judgement
judge_given_up spec aggregates budgets step = elim (aggregate_ref_from_metadata step.metadata) [
  | none ↦ settled
  | some (id, _) ↦
      judge_aggregate (aggregate_status id aggregates)
        (aggregate_exhausted_as_failed spec id budgets)
]

-- The `case plan.StepFailed`.
abbrev pub judge_failed : Strategy → Bool → Judgement → Judgement
judge_failed abort more given_up = fatal "plan contains aborting failed step"
judge_failed replan more given_up = recoverable
judge_failed retry more given_up = recoverable
judge_failed reinspect more given_up = recoverable
judge_failed continue more given_up = if more then recoverable else given_up

abbrev pub judge_status : StepStatus → Judgement → Judgement
judge_status StepStatus.unset failed = remaining
judge_status StepStatus.pending failed = remaining
judge_status StepStatus.running failed = remaining
judge_status StepStatus.blocked failed = remaining
judge_status StepStatus.failed failed = failed
judge_status _ failed = settled

unfoldable pub judge : Spec → List AggregateResult → LoopBudgets → StepSpec → Judgement
judge spec aggregates budgets step = judge_status step.status (
    judge_failed (normalized_on_fail_strategy step)
      (ltb_ℤ step.attempt (allowed_attempts step budgets))
      (judge_given_up spec aggregates budgets step))

-- How the loop over the steps ends: at a fatal step, or with the two flags.
pub data Scan : Type 0 where
  stop : String → Scan
  flags : Bool → Bool → Scan

unfoldable pub scan : (StepSpec → Judgement) → List StepSpec → Bool → Bool → Scan
scan of [] has_pending has_recoverable = flags has_pending has_recoverable
scan of (step ∷ steps) has_pending has_recoverable = elim (of step) [
  | remaining ↦ scan of steps true has_recoverable
  | recoverable ↦ scan of steps has_pending true
  | settled ↦ scan of steps has_pending has_recoverable
  | fatal reason ↦ stop reason
]

abbrev pub is_failed_aggregate : AggregateStatus → Bool
is_failed_aggregate AggregateStatus.failed = true
is_failed_aggregate _ = false

-- The last loop, over the aggregates.
unfoldable pub any_exhausted : Spec → LoopBudgets → List AggregateResult → Bool
any_exhausted spec budgets [] = false
any_exhausted spec budgets (r ∷ rs) =
    let rest = any_exhausted spec budgets rs in
    if is_failed_aggregate r.status
    then (if aggregate_exhausted_as_failed spec r.aggregate_id budgets then true else rest)
    else rest

abbrev pub outcome_of : Spec → LoopBudgets → List AggregateResult → Scan → PlanExecutionOutcome
outcome_of spec budgets aggregates (stop reason) = record {
  aggregates = aggregates;
  continue = false;
  fail = true;
  reason = reason;
}
outcome_of spec budgets aggregates (flags true has_recoverable) = record {
  aggregates = aggregates;
  continue = true;
  fail = false;
  reason = "plan has remaining steps";
}
outcome_of spec budgets aggregates (flags false true) = record {
  aggregates = aggregates;
  continue = true;
  fail = false;
  reason = "plan contains recoverable failed steps";
}
outcome_of spec budgets aggregates (flags false false) =
    if any_exhausted spec budgets aggregates
    then record {
      aggregates = aggregates;
      continue = false;
      fail = true;
      reason = "fan-out aggregate failed";
    }
    else record { aggregates = aggregates; continue = false; fail = false; reason = "" }

-- planExecutionOutcomeForSpec
unfoldable pub plan_execution_outcome_for_spec : Spec → LoopBudgets → PlanExecutionOutcome
plan_execution_outcome_for_spec spec budgets =
    let aggregates = aggregate_results_from_plan spec in
    outcome_of spec budgets aggregates (scan (judge spec aggregates budgets) spec.steps false false)

-- planStatusForSpec
unfoldable pub plan_status_for_spec : Spec → LoopBudgets → Status
unfolding plan_execution_outcome_for_spec
plan_status_for_spec spec budgets =
    let outcome = plan_execution_outcome_for_spec spec budgets in
    if outcome.fail
    then Status.failed
    else if outcome.continue
    then Status.active
    else Status.completed

-- The loop of `replacePlanStep`.
unfoldable pub replace_first : StepSpec → List StepSpec → List StepSpec
replace_first step [] = []
replace_first step (s ∷ steps) =
    let rest = replace_first step steps in
    if s.step_id == step.step_id then step ∷ steps else s ∷ rest

abbrev pub replace_plan_step : Spec → StepSpec → Spec
replace_plan_step spec step = record spec { steps = replace_first step spec.steps }

-- transitionForPlanOutcome
unfoldable pub transition_for_plan_outcome :
    State → StepSpec → PlanExecutionOutcome → TransitionDecision
transition_for_plan_outcome state step outcome = record {
  from = state.phase;
  to =
      if outcome.fail
      then Transition.failed
      else if outcome.continue
      then Transition.plan
      else Transition.complete;
  reason = if outcome.fail || outcome.continue then outcome.reason else "plan completed";
  step_id = step.step_id;
}
