-- ===== src/Runtime/PlanIdentity/Written.antt =====
-- What the write of a step leaves in the plan store: pkg/harness/runtime/runner.go.
use harness_core.Base.{
  String, ◌≡◌, refl, sym, true, false, List, [], ◌∷◌, some, arith, eq_iff, ◌==◌, if◌then◌else◌,
  find, ap,
}
use harness_core.Base.Int.{ℤ}
use harness_core.Base.Dict.{lookup, insert, lookup-insert_self}
use harness_core.Base.Result.{ok}
use harness_core.Plan.Spec.{Spec, StepSpec, Status}
use harness_core.Execution.Aggregate.{AggregateResult, aggregate_results_from_plan}
use harness_core.Plan.Store.{MemoryStore, update}
use harness_core.Runtime.Budgets.{LoopBudgets}
use harness_core.Runtime.PlanOutcome.{
  plan_status_for_spec, replace_first, any_exhausted, aggregate_exhausted_as_failed,
  is_failed_aggregate, outcome_of, Scan, stop, flags, judge, PlanExecutionOutcome, scan,
}
use harness_core.Runtime.Driver.{find_plan_step_by_id}
use harness_core.Runtime.PlanIdentity.{
  annotate_step_identity, annotate_plan_identity, plan_for_step, has_step, judged, write_step,
  update_latest_plan_step,
}

find-replace_first :
    (step : StepSpec) (steps : List StepSpec) (k : String)
    → has_step step.step_id steps ≡ true
    → find (λ s. s.step_id == k) (replace_first step steps)
      ≡ (if step.step_id == k then some step else find (λ s. s.step_id == k) steps)
unfolding find replace_first
find-replace_first step [] k h = cc
find-replace_first step (s ∷ steps) k h = ground (
  arith,
  eq_iff s.step_id step.step_id,
  eq_iff s.step_id k,
  eq_iff step.step_id k,
  find-replace_first step steps k,
)

-- The status of a plan is a matter of its steps.
module _ (spec : Spec) (budgets : LoopBudgets) (status : Status) (now : ℤ) where
  abbrev restamped : Spec
  restamped = record spec { status = status; updated_at = now }

  any_exhausted-record :
      (rs : List AggregateResult)
      → any_exhausted restamped budgets rs ≡ any_exhausted spec budgets rs
  unfolding any_exhausted
  any_exhausted-record [] = refl
  any_exhausted-record (r ∷ rs) =
      ap
        (λ rest.
          if is_failed_aggregate r.status
          then (if aggregate_exhausted_as_failed spec r.aggregate_id budgets then true else rest)
          else rest)
        (any_exhausted-record rs)

  outcome_of-record :
      (rs : List AggregateResult) (found : Scan)
      → outcome_of restamped budgets rs found ≡ outcome_of spec budgets rs found
  outcome_of-record rs (stop why) = refl
  outcome_of-record rs (flags true r) = refl
  outcome_of-record rs (flags false true) = refl
  outcome_of-record rs (flags false false) = rw (any_exhausted-record rs) refl

  plan_status-record : plan_status_for_spec restamped budgets ≡ plan_status_for_spec spec budgets
  unfolding plan_status_for_spec judge
  plan_status-record =
      ap
        (λ (o : PlanExecutionOutcome).
          if o.fail then Status.failed else if o.continue then Status.active else Status.completed)
        (outcome_of-record (aggregate_results_from_plan spec)
          (scan (judge spec (aggregate_results_from_plan spec) budgets) spec.steps false false))

-- A step that its plan has is written into the stored plan: the write succeeds, and the plan that
-- is then stored finds the step, with its plan's identity, under its identifier and every other
-- step as before, and carries the status that its steps now have. The plan is one that the store holds.
pub step_written :
    (now : ℤ) (s : MemoryStore) (session_id : String) (step : StepSpec) (budgets : LoopBudgets)
    {target there : Spec}
    → plan_for_step s session_id step ≡ some target
    → lookup target.plan_id s.plans ≡ some there
    → has_step step.step_id target.steps ≡ true
    → (stored : Spec) × (s' : MemoryStore) × (update_latest_plan_step now s session_id step budgets
        ≡ ok (
          some (
              annotate_plan_identity (
                judged
                  (annotate_step_identity step target.plan_id target.revision)
                  target
                  budgets)),
          s',
        ))
      × (lookup target.plan_id s'.plans ≡ some stored)
      × (stored.status ≡ plan_status_for_spec stored budgets)
      × ((k : String)
          → find_plan_step_by_id stored k ≡ (
              if step.step_id == k
              then some (annotate_step_identity step target.plan_id target.revision)
              else find_plan_step_by_id target k))
unfolding update_latest_plan_step annotate_step_identity update find_plan_step_by_id
step_written now s session_id step budgets {target} {there} h found has =
    let step' = annotate_step_identity step target.plan_id target.revision in
    let stored : Spec = record (judged step' target budgets) { updated_at = now } in
    (
      stored,
      record { plans = insert target.plan_id stored s.plans },
      rw (h, update_latest_plan_step, has, write_step, update, found) refl,
      lookup-insert_self target.plan_id stored s.plans,
      sym (
          plan_status-record (record target { steps = replace_first step' target.steps }) budgets
            stored.status now),
      λ k.
          find-replace_first (annotate_step_identity step target.plan_id target.revision)
            target.steps k has,
    )
