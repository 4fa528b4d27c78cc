-- ===== src/Execution/Counts.antt =====
-- What the aggregate results say of the steps: pkg/harness/execution/aggregate.go.
use harness_core.Base.{
  String, ◌≡◌, refl, List, [], ◌∷◌, ◌++◌, map, ◌==◌, Bool, false, none, some, if◌then◌else◌, filter,
  arith, eq_iff, Bool-cases, Option-cases, inl, inr, ap, sym, ◌∙◌,
}
use harness_core.Base.Sort.{sort}
use harness_core.Plan.Spec.{StepSpec}
use harness_core.Execution.Aggregate.{
  AggregateResult, AggregateTargetResult, aggregate_ref_from_metadata, new_result, target_result,
  add_step, into_bucket, collect_one, collect, target_before, finish, aggregate_results_from_steps,
}
use mathlib.Core.List.{append_assoc, append-nil}

-- The step names this aggregate.
abbrev pub names : String → StepSpec → Bool
names a step = elim (aggregate_ref_from_metadata step.metadata) [
  | none ↦ false
  | some (b, _) ↦ b == a
]

-- The targets of an aggregate among results; none if there is no such aggregate.
unfoldable pub targets_of : String → List AggregateResult → List AggregateTargetResult
targets_of a [] = []
targets_of a (r ∷ rs) = if r.aggregate_id == a then r.targets else targets_of a rs

abbrev own : String → StepSpec → List AggregateTargetResult
own a step = if names a step then target_result step ∷ [] else []

targets-add :
    (step : StepSpec) (r : AggregateResult)
    → ((add_step step r).targets ≡ r.targets ++ target_result step ∷ [])
      × ((add_step step r).aggregate_id ≡ r.aggregate_id)
unfolding add_step
targets-add step r = ground arith

empty-new :
    (b scope : String) (step : StepSpec)
    → ((new_result b scope step).targets ≡ []) × ((new_result b scope step).aggregate_id ≡ b)
unfolding new_result
empty-new b scope step = (refl, refl)

targets_of-into :
    (a b scope : String) (step : StepSpec) (rs : List AggregateResult)
    → targets_of a (into_bucket b scope step rs)
      ≡ targets_of a rs ++ (if b == a then target_result step ∷ [] else [])
unfolding targets_of into_bucket
targets_of-into a b scope step [] =
    ground (arith, targets-add step (new_result b scope step), empty-new b scope step)
targets_of-into a b scope step (r ∷ rs) = elim (Bool-cases (r.aggregate_id == b)) [
  | inl e ↦ rw e (
      ground (
        arith,
        targets-add step r,
        eq_iff r.aggregate_id b,
        eq_iff r.aggregate_id a,
        eq_iff b a,
        append-nil r.targets,
        append-nil (targets_of a rs),
      ))
  | inr e ↦ rw e (
      ground (
        arith,
        targets_of-into a b scope step rs,
        eq_iff r.aggregate_id b,
        eq_iff r.aggregate_id a,
        eq_iff b a,
        append-nil r.targets,
      ))
]

targets_of-collect_one :
    (a : String) (step : StepSpec) (rs : List AggregateResult)
    → targets_of a (collect_one step rs) ≡ targets_of a rs ++ own a step
targets_of-collect_one a step rs = elim (Option-cases (aggregate_ref_from_metadata step.metadata)) [
  | inl e ↦ rw (e, collect_one, own, names) (sym (append-nil (targets_of a rs)))
  | inr ((b, scope), e) ↦ rw (e, collect_one, own, names) (targets_of-into a b scope step rs)
]

own-filter :
    (a : String) (step : StepSpec) (steps : List StepSpec)
    → own a step ++ map target_result (filter (names a) steps)
      ≡ map target_result (filter (names a) (step ∷ steps))
unfolding filter
own-filter a step steps = elim (Bool-cases (names a step)) [ inl e ↦ rw e refl | inr e ↦ rw e refl ]

targets_of-collect :
    (a : String) (steps : List StepSpec) (rs : List AggregateResult)
    → targets_of a (collect steps rs)
      ≡ targets_of a rs ++ map target_result (filter (names a) steps)
unfolding collect filter
targets_of-collect a [] rs = sym (append-nil (targets_of a rs))
targets_of-collect a (step ∷ steps) rs =
    targets_of-collect a steps (collect_one step rs)
    ∙ ap (λ l. l ++ map target_result (filter (names a) steps)) (targets_of-collect_one a step rs)
    ∙ append_assoc (targets_of a rs) (own a step) (map target_result (filter (names a) steps))
    ∙ ap (λ l. targets_of a rs ++ l) (own-filter a step steps)

targets_of-finish :
    (a : String) (rs : List AggregateResult)
    → targets_of a (map finish rs) ≡ sort target_before (targets_of a rs)
unfolding targets_of finish sort
targets_of-finish a [] = refl
targets_of-finish a (r ∷ rs) = elim (Bool-cases (r.aggregate_id == a)) [
  | inl e ↦ rw e refl
  | inr e ↦ rw e (targets_of-finish a rs)
]

-- The targets that an aggregate reports are the results of exactly those steps of the plan that
-- name it in their metadata, as often as they stand there, sorted by target and step. An aggregate
-- that no step names is not reported with any target.
pub aggregate_targets :
    (a : String) (steps : List StepSpec)
    → targets_of a (aggregate_results_from_steps steps)
      ≡ sort target_before (map target_result (filter (names a) steps))
unfolding aggregate_results_from_steps targets_of
aggregate_targets a steps =
    targets_of-finish a (collect steps []) ∙ ap (sort target_before) (targets_of-collect a steps [])
