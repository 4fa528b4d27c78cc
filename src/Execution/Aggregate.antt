-- ===== src/Execution/Aggregate.antt =====
-- pkg/harness/execution/aggregate.go, with the target reference of target_fact.go and target.go.
use harness_core.Base.{
  String, List, [], ◌∷◌, ◌++◌, map, ◌==◌, Bool, true, false, Option, none, some, if◌then◌else◌,
  length,
}
use harness_core.Base.Int.{ℤ, pos, inc64, ltb_ℤ, leb_ℤ, is_zero}
use harness_core.Base.Text.{str_ltb}
use harness_core.Base.Sort.{sort}
use harness_core.Metadata.{Metadata, string_from_metadata, int_from_metadata}
use harness_core.Plan.Spec.{Spec, StepSpec, StepStatus}

pub record TargetRef : Type 0 where
  pub target_id : String
  pub kind : String

pub data AggregateStatus : Type 0 where
  pending completed partial_failed failed : AggregateStatus

pub record AggregateTargetResult : Type 0 where
  pub target : TargetRef
  pub step_id : String
  pub status : StepStatus
  pub attempt : ℤ
  pub reason : String

pub record AggregateResult : Type 0 where
  pub aggregate_id : String
  pub scope : String
  pub strategy : String
  pub program_id : String
  pub node_id : String
  pub title : String
  pub max_concurrency : ℤ
  pub status : AggregateStatus
  pub expected : ℤ
  pub completed : ℤ
  pub failed : ℤ
  pub pending : ℤ
  pub targets : List AggregateTargetResult

-- TargetRefFromMetadata, and TargetFromStep; the second result is left out where the code drops it.
unfoldable pub target_ref_from_metadata : Metadata → TargetRef
target_ref_from_metadata metadata =
    let target_id = string_from_metadata metadata "target_id" in
    if target_id == ""
    then record { target_id = ""; kind = "" }
    else record { target_id = target_id; kind = string_from_metadata metadata "target_kind" }

-- AggregateRefFromMetadata: the identifier and the scope, if the identifier is a non-empty text.
unfoldable pub aggregate_ref_from_metadata : Metadata → Option (String × String)
aggregate_ref_from_metadata metadata =
    let aggregate_id = string_from_metadata metadata "aggregate_id" in
    if aggregate_id == ""
    then none
    else some (aggregate_id, string_from_metadata metadata "aggregate_scope")

-- The result that a bucket starts with.
unfoldable pub new_result : String → String → StepSpec → AggregateResult
new_result aggregate_id scope step = record {
  aggregate_id = aggregate_id;
  scope = scope;
  strategy = string_from_metadata step.metadata "aggregate_strategy";
  program_id = string_from_metadata step.metadata "program_id";
  node_id = string_from_metadata step.metadata "program_node_id";
  title = string_from_metadata step.metadata "aggregate_title";
  max_concurrency = int_from_metadata step.metadata "aggregate_max_concurrency";
  status = AggregateStatus.pending;
  expected = int_from_metadata step.metadata "aggregate_expected";
  completed = pos 0;
  failed = pos 0;
  pending = pos 0;
  targets = [];
}

unfoldable pub target_result : StepSpec → AggregateTargetResult
target_result step = record {
  target = target_ref_from_metadata step.metadata;
  step_id = step.step_id;
  status = step.status;
  attempt = step.attempt;
  reason = step.reason;
}

-- The `switch` over the step's status.
abbrev pub count_status : StepStatus → AggregateResult → AggregateResult
count_status StepStatus.completed r = record r { completed = inc64 r.completed }
count_status StepStatus.failed r = record r { failed = inc64 r.failed }
count_status _ r = record r { pending = inc64 r.pending }

-- What the loop does with a step's bucket.
unfoldable pub add_step : StepSpec → AggregateResult → AggregateResult
add_step step r =
    count_status step.status (record r { targets = r.targets ++ target_result step ∷ [] })

-- The buckets in the order of their first steps: the map and the `order` slice in one list, which
-- the stable sort by first index leaves as it is.
unfoldable pub into_bucket :
    String → String → StepSpec → List AggregateResult → List AggregateResult
unfolding add_step new_result
into_bucket aggregate_id scope step [] = add_step step (new_result aggregate_id scope step) ∷ []
into_bucket aggregate_id scope step (r ∷ rs) =
    if r.aggregate_id == aggregate_id
    then add_step step r ∷ rs
    else r ∷ into_bucket aggregate_id scope step rs

abbrev pub collect_one : StepSpec → List AggregateResult → List AggregateResult
collect_one step buckets = elim (aggregate_ref_from_metadata step.metadata) [
  | none ↦ buckets
  | some (aggregate_id, scope) ↦ into_bucket aggregate_id scope step buckets
]

-- The first loop of `AggregateResultsFromSteps`.
unfoldable pub collect : List StepSpec → List AggregateResult → List AggregateResult
unfolding into_bucket
collect [] buckets = buckets
collect (step ∷ steps) buckets = collect steps (collect_one step buckets)

-- The comparison of the sort of a bucket's targets.
unfoldable pub target_before : AggregateTargetResult → AggregateTargetResult → Bool
target_before left right =
    if left.target.target_id == right.target.target_id
    then str_ltb left.step_id right.step_id
    else if left.target.target_id == ""
    then false
    else if right.target.target_id == ""
    then true
    else str_ltb left.target.target_id right.target.target_id

unfoldable pub status_of : AggregateResult → AggregateStatus
status_of r =
    if ltb_ℤ (pos 0) r.pending
    then AggregateStatus.pending
    else if is_zero r.failed
    then AggregateStatus.completed
    else if ltb_ℤ (pos 0) r.completed
    then AggregateStatus.partial_failed
    else AggregateStatus.failed

-- The second loop's body.
unfoldable pub finish : AggregateResult → AggregateResult
unfolding target_before status_of
finish r = record r {
  expected = if leb_ℤ r.expected (pos 0) then pos (length r.targets) else r.expected;
  targets = sort target_before r.targets;
  status = status_of r;
}

-- AggregateResultsFromSteps
unfoldable pub aggregate_results_from_steps : List StepSpec → List AggregateResult
unfolding collect finish
aggregate_results_from_steps steps = map finish (collect steps [])

-- AggregateResultsFromPlan
abbrev pub aggregate_results_from_plan : Spec → List AggregateResult
aggregate_results_from_plan spec = aggregate_results_from_steps spec.steps
