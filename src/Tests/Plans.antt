-- ===== src/Tests/Plans.antt =====
-- Plans, their outcomes and their stores on concrete records.
use harness_core.Base.{
  String, ℕ, ◌≤◌, ◌≡◌, ◌≢◌, ◌↔◌, ◌⊎◌, refl, true, false, some, none, arith, [], ◌∷◌, ◌==◌,
  if◌then◌else◌, Option, All, find, inl, inr, length,
}
use harness_core.Base.Int.{ℤ, pos, ◌<ℤ◌, ◌≤ℤ◌, max64}
use harness_core.Base.Dict.{lookup, values}
use harness_core.Base.Result.{ok}
use harness_core.Plan.Spec.{Spec, Status, StepSpec, StepStatus}
use harness_core.Plan.Store.{MemoryStore}
use harness_core.Execution.Aggregate.{aggregate_results_from_steps}
use harness_core.Execution.Tally.{IsSummary, aggregate-IsSummary}
use harness_core.Runtime.PlanOutcome.{plan_status_for_spec}
use harness_core.Runtime.PlanOutcome.Completion.{IsFinished, completed-IsFinished}
use harness_core.Runtime.Driver.{nothing, find_plan_step_by_id, select_next_step_for_session}
use harness_core.Runtime.Driver.Choice.{select-completed}
use harness_core.Runtime.PlanIdentity.{
  annotate_step_identity, annotate_plan_identity, judged, plan_for_step, update_latest_plan_step,
}
use harness_core.Runtime.PlanIdentity.Written.{step_written}
use harness_core.Runtime.Planning.{create_plan, WithinBudget, create_plan-WithinBudget}
use harness_core.Tests.Data.{created, step_with, plan_with, budgets}

abbrev done : Spec
done = plan_with (step_with "retry" StepStatus.completed)

done-completed : plan_status_for_spec done budgets ≡ Status.completed
unfolding plan_status_for_spec harness_core.Runtime.PlanOutcome.scan
    harness_core.Runtime.PlanOutcome.judge harness_core.Runtime.PlanOutcome.any_exhausted
    aggregate_results_from_steps harness_core.Execution.Aggregate.aggregate_ref_from_metadata
    harness_core.Metadata.string_from_metadata lookup
done-completed = refl

completed-IsFinished_example :
    All (IsFinished budgets) (step_with "retry" StepStatus.completed ∷ [])
completed-IsFinished_example = completed-IsFinished done budgets done-completed

select-completed_example : select_next_step_for_session created done done budgets ≡ nothing
select-completed_example = select-completed created done budgets done-completed

abbrev pending : StepSpec
pending = step_with "retry" StepStatus.pending

abbrev one_plan : MemoryStore
one_plan = record { plans = ("p1", plan_with pending) ∷ [] }

abbrev written : StepSpec
written = record pending { plan_id = ""; status = StepStatus.completed }

step_written_example :
    (stored : Spec) × (s' : MemoryStore) × (update_latest_plan_step
        (pos 9)
        one_plan
        "s1"
        written
        budgets
      ≡ ok (
        some (
            annotate_plan_identity
              (judged (annotate_step_identity written "p1" (pos 1)) (plan_with pending) budgets)),
        s',
      ))
    × (lookup "p1" s'.plans ≡ some stored)
    × (stored.status ≡ plan_status_for_spec stored budgets)
    × ((k : String)
        → find_plan_step_by_id stored k ≡ (
            if "build" == k
            then some (annotate_step_identity written "p1" (pos 1))
            else find_plan_step_by_id (plan_with pending) k))
unfolding plan_for_step harness_core.Base.filter lookup
step_written_example =
    step_written (pos 9) one_plan "s1" written budgets {target = plan_with pending}
      {there = plan_with pending} refl refl refl

abbrev second_plan : Spec
second_plan = record (plan_with pending) {
  plan_id = "p2";
  revision = pos 2;
  steps = [];
  created_at = pos 9;
  updated_at = pos 9;
}

abbrev two_plans : MemoryStore
two_plans = record { plans = ("p1", plan_with pending) ∷ ("p2", second_plan) ∷ [] }

create_plan-WithinBudget_example : WithinBudget budgets two_plans
unfolding create_plan harness_core.Base.filter harness_core.Base.Int.add64
    harness_core.Base.Dict.insert
create_plan-WithinBudget_example =
    create_plan-WithinBudget "p2" (pos 9) "s1" "" [] budgets one_plan {plan = second_plan}
      {s' = two_plans} (omega arith) (omega arith) (omega arith) refl

aggregate-IsSummary_example : All IsSummary (aggregate_results_from_steps (pending ∷ []))
aggregate-IsSummary_example = aggregate-IsSummary (pending ∷ []) (omega arith)
