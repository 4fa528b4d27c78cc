-- ===== src/Runtime/PlanIdentity.antt =====
-- Which plan revision a step belongs to, and the write of a step into its plan:
-- pkg/harness/runtime/plan_identity.go, updateLatestPlanStepInStoreWithBudgets of runner.go. The
-- plan store is the in-memory one.
pub mod Written
use harness_core.Base.{
  String, List, [], ◌∷◌, map, Bool, true, false, ◌==◌, Option, none, some, if◌then◌else◌,
}
use harness_core.Base.Int.{ℤ, pos, is_zero, ltb_ℤ}
use harness_core.Base.Dict.{lookup, insert}
use harness_core.Base.Result.{Result, ok, err, Error, plan_not_found, ◌>>=◌}
use harness_core.Metadata.{Metadata, Value, text, string_from_metadata, int_from_metadata}
use harness_core.Plan.Spec.{Spec, StepSpec}
use harness_core.Plan.Store.{MemoryStore, get, latest_by_session, update}
use harness_core.Session.State.{State}
use harness_core.Runtime.Budgets.{LoopBudgets}
use harness_core.Runtime.PlanOutcome.{plan_status_for_spec, replace_first}

-- annotateStepIdentity
unfoldable pub annotate_step_identity : StepSpec → String → ℤ → StepSpec
annotate_step_identity step plan_id plan_revision = record step {
  plan_id = if step.plan_id == "" then plan_id else step.plan_id;
  plan_revision = if is_zero step.plan_revision then plan_revision else step.plan_revision;
}

-- annotatePlanIdentity
unfoldable pub annotate_plan_identity : Spec → Spec
unfolding annotate_step_identity
annotate_plan_identity spec = record spec {
  steps =
      map (λ (step : StepSpec). annotate_step_identity step spec.plan_id spec.revision) spec.steps;
}

-- What `planForStepInStore` does when the step names no plan that is stored.
abbrev pub latest_annotated : String → MemoryStore → Option Spec
latest_annotated session_id s = elim (latest_by_session session_id s) [
  | none ↦ none
  | some latest ↦ some (annotate_plan_identity latest)
]

-- planForStepInStore: the in-memory store's `Get` has no error but the missing plan.
unfoldable pub plan_for_step : MemoryStore → String → StepSpec → Option Spec
unfolding get latest_by_session annotate_plan_identity
plan_for_step s session_id step =
    if step.plan_id == "" then latest_annotated session_id s else elim (get step.plan_id s) [
      | ok item ↦ some (annotate_plan_identity item)
      | err e ↦ latest_annotated session_id s
    ]

abbrev pub has_step : String → List StepSpec → Bool
has_step step_id [] = false
has_step step_id (step ∷ steps) = if step.step_id == step_id then true else has_step step_id steps

-- What `updateLatestPlanStepInStoreWithBudgets` stores if the plan has the step.
abbrev pub judged : StepSpec → Spec → LoopBudgets → Spec
judged step target budgets =
    let replaced : Spec = record target { steps = replace_first step target.steps } in
    record replaced { status = plan_status_for_spec replaced budgets }

abbrev pub write_step :
    ℤ → MemoryStore → StepSpec → Spec → LoopBudgets → Result (Option Spec × MemoryStore)
write_step now s step target budgets = do
  s' ← update now (judged step target budgets) s
  ok (some (annotate_plan_identity (judged step target budgets)), s')

-- updateLatestPlanStepInStoreWithBudgets: the plan that it returns, and the store after it.
unfoldable pub update_latest_plan_step :
    ℤ → MemoryStore → String → StepSpec → LoopBudgets → Result (Option Spec × MemoryStore)
unfolding plan_for_step annotate_step_identity annotate_plan_identity update
update_latest_plan_step now s session_id step budgets = elim (plan_for_step s session_id step) [
  | none ↦ ok (none, s)
  | some target ↦
      let step' = annotate_step_identity step target.plan_id target.revision in
      if has_step step'.step_id target.steps
      then write_step now s step' target budgets
      else ok (some (annotate_plan_identity target), s)
]
