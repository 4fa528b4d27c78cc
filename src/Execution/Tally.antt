-- ===== src/Execution/Tally.antt =====
-- The counters and the verdict of an aggregate result: pkg/harness/execution/aggregate.go.
use harness_core.Base.{
  String, ℕ, suc, ◌+◌, ◌≤◌, ◌<◌, ◌≡◌, ◌↔◌, refl, List, [], ◌∷◌, ◌++◌, ◌==◌, Bool, true, false, not,
  ◌||◌, if◌then◌else◌, length, length-append, All, All-imp, All-map, arith, Bool-cases,
  Option-cases, inl, inr, ap, sym, ◌∙◌,
}
use harness_core.Base.Int.{pos, inc64-pos}
use harness_core.Base.Sort.{sort, place}
use harness_core.Plan.Spec.{StepSpec, StepStatus, is_failed}
use harness_core.Execution.Aggregate.{
  AggregateResult, AggregateTargetResult, AggregateStatus, aggregate_ref_from_metadata, new_result,
  target_result, add_step, into_bucket, collect_one, collect, target_before, status_of, finish,
  aggregate_results_from_steps,
}

abbrev pub is_completed : StepStatus → Bool
is_completed StepStatus.completed = true
is_completed _ = false

abbrev pub is_open : StepStatus → Bool
is_open status = not (is_completed status || is_failed status)

-- How many targets have such a status.
abbrev pub tally : (StepStatus → Bool) → List AggregateTargetResult → ℕ
tally p [] = 0
tally p (t ∷ ts) = (if p t.status then 1 else 0) + tally p ts

tally-append :
    (p : StepStatus → Bool) (ts : List AggregateTargetResult) (t : AggregateTargetResult)
    → tally p (ts ++ t ∷ []) ≡ tally p ts + (if p t.status then 1 else 0)
tally-append p [] t = omega arith
tally-append p (u ∷ ts) t = omega (arith, tally-append p ts t)

tally-le-length : (p : StepStatus → Bool) (ts : List AggregateTargetResult) → tally p ts ≤ length ts
tally-le-length p [] = omega arith
tally-le-length p (t ∷ ts) = ground (arith, tally-le-length p ts)

tally-place :
    (p : StepStatus → Bool) (t : AggregateTargetResult) (ts : List AggregateTargetResult)
    → tally p (place target_before t ts) ≡ (if p t.status then 1 else 0) + tally p ts
unfolding place
tally-place p t [] = refl
tally-place p t (u ∷ ts) = elim (Bool-cases (target_before u t)) [
  | inl e ↦ rw (e, place) (omega (arith, tally-place p t ts))
  | inr e ↦ rw (e, place) refl
]

tally-sort :
    (p : StepStatus → Bool) (ts : List AggregateTargetResult)
    → tally p (sort target_before ts) ≡ tally p ts
unfolding sort
tally-sort p [] = refl
tally-sort p (t ∷ ts) = omega (arith, tally-place p t (sort target_before ts), tally-sort p ts)

-- The counters are the tallies, and no bucket is larger than the number of steps seen.
pub record IsTallied (seen : ℕ) (r : AggregateResult) : Type 0 where
  pub completed : r.completed ≡ pos (tally is_completed r.targets)
  pub failed : r.failed ≡ pos (tally is_failed r.targets)
  pub pending : r.pending ≡ pos (tally is_open r.targets)
  pub bounded : length r.targets ≤ seen

new-IsTallied :
    (seen : ℕ) (b scope : String) (step : StepSpec) → IsTallied seen (new_result b scope step)
unfolding new_result
new-IsTallied seen b scope step = ground arith

add-IsTallied :
    (seen : ℕ) (step : StepSpec) (r : AggregateResult)
    → seen < 9223372036854775807
    → IsTallied seen r
    → IsTallied (suc seen) (add_step step r)
unfolding add_step target_result
add-IsTallied seen step r h t = ground (
  arith,
  tally-append is_completed r.targets (target_result step),
  tally-append is_failed r.targets (target_result step),
  tally-append is_open r.targets (target_result step),
  tally-le-length is_completed r.targets,
  tally-le-length is_failed r.targets,
  tally-le-length is_open r.targets,
  inc64-pos (tally is_completed r.targets),
  inc64-pos (tally is_failed r.targets),
  inc64-pos (tally is_open r.targets),
  length-append r.targets (target_result step ∷ []),
)

IsTallied-le :
    (seen seen' : ℕ) → seen ≤ seen' → (r : AggregateResult) → IsTallied seen r → IsTallied seen' r
IsTallied-le seen seen' h r t = record {
  completed = t.completed;
  failed = t.failed;
  pending = t.pending;
  bounded = omega (arith, t.bounded);
}

into-IsTallied :
    (seen : ℕ) (b scope : String) (step : StepSpec) (rs : List AggregateResult)
    → seen < 9223372036854775807
    → All (IsTallied seen) rs
    → All (IsTallied (suc seen)) (into_bucket b scope step rs)
unfolding into_bucket
into-IsTallied seen b scope step [] h t =
    (add-IsTallied seen step (new_result b scope step) h (new-IsTallied seen b scope step), tt)
into-IsTallied seen b scope step (r ∷ rs) h t = elim (Bool-cases (r.aggregate_id == b)) [
  | inl e ↦
      rw e (
        add-IsTallied seen step r h t.0,
        All-imp (IsTallied-le seen (suc seen) (omega arith)) rs t.1,
      )
  | inr e ↦
      rw e (
        IsTallied-le seen (suc seen) (omega arith) r t.0,
        into-IsTallied seen b scope step rs h t.1,
      )
]

collect_one-IsTallied :
    (seen : ℕ) (step : StepSpec) (rs : List AggregateResult)
    → seen < 9223372036854775807
    → All (IsTallied seen) rs
    → All (IsTallied (suc seen)) (collect_one step rs)
collect_one-IsTallied seen step rs h t =
    elim (Option-cases (aggregate_ref_from_metadata step.metadata)) [
      | inl e ↦ rw (e, collect_one) (All-imp (IsTallied-le seen (suc seen) (omega arith)) rs t)
      | inr ((b, scope), e) ↦ rw (e, collect_one) (into-IsTallied seen b scope step rs h t)
    ]

collect-IsTallied :
    (seen : ℕ) (steps : List StepSpec) (rs : List AggregateResult)
    → seen + length steps ≤ 9223372036854775807
    → All (IsTallied seen) rs
    → All (IsTallied (seen + length steps)) (collect steps rs)
unfolding collect
collect-IsTallied seen [] rs h t =
    All-imp (IsTallied-le seen (seen + length {A = StepSpec} []) (omega arith)) rs t
collect-IsTallied seen (step ∷ steps) rs h t =
    All-imp (IsTallied-le (suc seen + length steps) (seen + length (step ∷ steps)) (omega arith))
      (collect steps (collect_one step rs))
      (collect-IsTallied (suc seen) steps (collect_one step rs) (omega arith)
        (collect_one-IsTallied seen step rs (omega arith) t))

-- What a finished result says: its counters are the tallies of its targets, and its verdict is read
-- off them.
pub record IsSummary (r : AggregateResult) : Type 0 where
  pub completed : r.completed ≡ pos (tally is_completed r.targets)
  pub failed : r.failed ≡ pos (tally is_failed r.targets)
  pub pending : r.pending ≡ pos (tally is_open r.targets)
  pub total :
      tally is_completed r.targets + tally is_failed r.targets + tally is_open r.targets
      ≡ length r.targets
  pub when_pending : (r.status ≡ AggregateStatus.pending) ↔ (0 < tally is_open r.targets)
  pub when_completed :
      (r.status ≡ AggregateStatus.completed) ↔ (tally is_completed r.targets ≡ length r.targets)
  pub when_failed :
      (r.status ≡ AggregateStatus.failed)
      ↔ ((0 < length r.targets) × (tally is_failed r.targets ≡ length r.targets))

verdict :
    (r : AggregateResult) (c f o : ℕ)
    → r.completed ≡ pos c
    → r.failed ≡ pos f
    → r.pending ≡ pos o
    → ((status_of r ≡ AggregateStatus.pending) ↔ (0 < o))
      × ((status_of r ≡ AggregateStatus.completed) ↔ (c ≡ c + f + o))
      × ((status_of r ≡ AggregateStatus.failed) ↔ ((0 < c + f + o) × (f ≡ c + f + o)))
unfolding status_of
verdict r c f o p q s = ground arith

tally-total :
    (ts : List AggregateTargetResult)
    → tally is_completed ts + tally is_failed ts + tally is_open ts ≡ length ts
tally-total [] = omega arith
tally-total (t ∷ ts) = ground (arith, tally-total ts)

finish-IsSummary : (seen : ℕ) (r : AggregateResult) → IsTallied seen r → IsSummary (finish r)
unfolding finish
finish-IsSummary seen r t =
    let ts = sort target_before r.targets in
    let c = tally-sort is_completed r.targets in
    let f = tally-sort is_failed r.targets in
    let o = tally-sort is_open r.targets in
    let (p, q, s) =
      verdict r (tally is_completed ts) (tally is_failed ts) (tally is_open ts)
        (t.completed ∙ ap pos (sym c)) (t.failed ∙ ap pos (sym f)) (t.pending ∙ ap pos (sym o)) in
    let total = tally-total ts in
    record {
      completed = t.completed ∙ ap pos (sym c);
      failed = t.failed ∙ ap pos (sym f);
      pending = t.pending ∙ ap pos (sym o);
      total = total;
      when_pending = p;
      when_completed = rw total at q;
      when_failed = rw total at s;
    }

-- Every aggregate result counts its targets exactly: completed, failed and open targets add up to
-- all targets; it is pending while a target is open, completed when all are, and failed when it has
-- targets and all failed. The plan has fewer than 2^63 steps.
pub aggregate-IsSummary :
    (steps : List StepSpec)
    → length steps ≤ 9223372036854775807
    → All IsSummary (aggregate_results_from_steps steps)
unfolding aggregate_results_from_steps
aggregate-IsSummary steps h = All-map IsSummary finish (collect steps []) (
    All-imp (finish-IsSummary (0 + length steps)) (collect steps [])
      (collect-IsTallied 0 steps [] (omega arith) tt))
