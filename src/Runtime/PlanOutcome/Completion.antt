-- ===== src/Runtime/PlanOutcome/Completion.antt =====
-- When a plan counts as completed or failed: pkg/harness/runtime/plan_outcome.go.
use mathlib.Core.List.{Memᴰ}
use harness_core.Base.{
  String, ◌≡◌, refl, List, [], ◌∷◌, Bool, true, false, arith, All, All-imp, if◌then◌else◌,
}
use harness_core.Base.Int.{◌≤ℤ◌}
use harness_core.Execution.Aggregate.{AggregateResult, aggregate_results_from_plan}
use harness_core.Plan.Spec.{Spec, Status, StepSpec, StepStatus, is_failed}
use harness_core.Runtime.Budgets.{
  LoopBudgets, continue, abort, allowed_attempts, normalized_on_fail_strategy,
}
use harness_core.Runtime.PlanOutcome.{
  Judgement, remaining, recoverable, settled, fatal, judge, Scan, stop, flags, scan, outcome_of,
  plan_execution_outcome_for_spec, plan_status_for_spec,
}

-- The statuses of a step that still has to run or to finish.
abbrev pub is_waiting : StepStatus → Bool
is_waiting StepStatus.unset = true
is_waiting StepStatus.pending = true
is_waiting StepStatus.running = true
is_waiting StepStatus.blocked = true
is_waiting _ = false

-- Nothing is left to do for the step: it does not wait, and if it failed it was told to continue
-- and has used up its attempts.
abbrev pub IsFinished : LoopBudgets → StepSpec → Type 0
IsFinished budgets step =
    (is_waiting step.status ≡ false)
    × (is_failed step.status ≡ true
        → (normalized_on_fail_strategy step ≡ continue)
          × (allowed_attempts step budgets ≤ℤ step.attempt))

scan-quiet :
    (of : StepSpec → Judgement) (steps : List StepSpec) (p r : Bool)
    → scan of steps p r ≡ flags false false
    → (p ≡ false) × (r ≡ false) × All (λ s. of s ≡ settled) steps
unfolding scan
scan-quiet of [] p r h = (cc, cc, tt)
scan-quiet of (step ∷ steps) p r h =
    ground (arith, scan-quiet of steps true r, scan-quiet of steps p true, scan-quiet of steps p r)

-- A scan that stops after a step, whatever the flags, stops before it too.
scan-stops :
    (of : StepSpec → Judgement) (step : StepSpec) (steps : List StepSpec) (p r : Bool)
    → ((p' r' : Bool) → (why : String) × (scan of steps p' r' ≡ stop why))
    → (j : Judgement) → of step ≡ j
    → (why : String) × (scan of (step ∷ steps) p r ≡ stop why)
unfolding scan
scan-stops of step steps p r rest remaining e = ((rest true r).0, rw (e, scan) (rest true r).1)
scan-stops of step steps p r rest recoverable e = ((rest p true).0, rw (e, scan) (rest p true).1)
scan-stops of step steps p r rest settled e = ((rest p r).0, rw (e, scan) (rest p r).1)
scan-stops of step steps p r rest (fatal why) e = (why, rw (e, scan) refl)

scan-fatal :
    (of : StepSpec → Judgement) {step : StepSpec} (steps : List StepSpec) {reason : String}
    → Memᴰ step steps
    → of step ≡ fatal reason
    → (p r : Bool) → (why : String) × (scan of steps p r ≡ stop why)
unfolding scan
scan-fatal of [] m h p r = elim m [ ]
scan-fatal of (s ∷ steps) {reason} (Memᴰ.head e) h p r =
    (reason, rw (← e, scan) (rw (h, scan) refl))
scan-fatal of (s ∷ steps) (Memᴰ.tail m) h p r =
    scan-stops of s steps p r (scan-fatal of steps m h) (of s) refl

judge-settled :
    (spec : Spec) (aggregates : List AggregateResult) (budgets : LoopBudgets) (step : StepSpec)
    → judge spec aggregates budgets step ≡ settled
    → IsFinished budgets step
unfolding judge
judge-settled spec aggregates budgets step h = ground arith

judge-abort :
    (spec : Spec) (aggregates : List AggregateResult) (budgets : LoopBudgets) (step : StepSpec)
    → step.status ≡ StepStatus.failed
    → normalized_on_fail_strategy step ≡ abort
    → judge spec aggregates budgets step ≡ fatal "plan contains aborting failed step"
unfolding judge
judge-abort spec aggregates budgets step e s = ground arith

quiet_of_completed :
    (spec : Spec) (budgets : LoopBudgets) (aggregates : List AggregateResult) (found : Scan)
    → let outcome = outcome_of spec budgets aggregates found in
      (if outcome.fail
          then Status.failed
          else if outcome.continue
          then Status.active
          else Status.completed)
        ≡ Status.completed
      → found ≡ flags false false
quiet_of_completed spec budgets aggregates (stop why) h = cc
quiet_of_completed spec budgets aggregates (flags true r) h = cc
quiet_of_completed spec budgets aggregates (flags false true) h = cc
quiet_of_completed spec budgets aggregates (flags false false) h = refl

-- If a plan counts as completed, then nothing is left to do for any of its steps: no step waits, and
-- each step that failed was told to continue and has used up its attempts.
pub completed-IsFinished :
    (spec : Spec) (budgets : LoopBudgets)
    → plan_status_for_spec spec budgets ≡ Status.completed
    → All (IsFinished budgets) spec.steps
unfolding plan_status_for_spec
completed-IsFinished spec budgets h =
    let aggregates = aggregate_results_from_plan spec in
    let of = judge spec aggregates budgets in
    let quiet = quiet_of_completed spec budgets aggregates (scan of spec.steps false false) h in
    let (_, _, all) = scan-quiet of spec.steps false false quiet in
    All-imp (judge-settled spec aggregates budgets) spec.steps all

-- A plan with a failed step that was told to abort counts as failed, whatever its other steps are.
pub abort-failed :
    (spec : Spec) (budgets : LoopBudgets) {step : StepSpec}
    → Memᴰ step spec.steps
    → step.status ≡ StepStatus.failed
    → normalized_on_fail_strategy step ≡ abort
    → plan_status_for_spec spec budgets ≡ Status.failed
unfolding plan_status_for_spec
abort-failed spec budgets {step} m e s =
    let aggregates = aggregate_results_from_plan spec in
    let of = judge spec aggregates budgets in
    let (why, stops) =
      scan-fatal of spec.steps m (judge-abort spec aggregates budgets step e s) false false in
    rw (plan_status_for_spec, plan_execution_outcome_for_spec, stops) refl
