-- ===== src/Runtime/Retry.antt =====
-- What the limits of pkg/harness/runtime/budgets.go guarantee.
use harness_core.Base.{ℕ, ◌≤◌, ◌≡◌, false, ◌&&◌, arith, eq_iff}
use harness_core.Base.Int.{ℤ, pos, negsuc, ltb_ℤ, ◌≤ℤ◌, max64, add64, sub64}
use harness_core.Base.Dict.{insert, lookup-insert_self, lookup-delete}
use harness_core.Base.Result.{err, runtime_budget_exceeded, step_retry_budget_exceeded}
use harness_core.Metadata.{int64}
use harness_core.Plan.Spec.{StepSpec}
use harness_core.Session.State.{State}
use harness_core.Runtime.Transition.{TransitionDecision}
use harness_core.Runtime.Budgets.{
  LoopBudgets, ensure_runtime_budget, allowed_attempts, ensure_step_retry_budget,
  retry_not_before_key, backoff_active, is_retry, apply_step_retry_backoff,
  clear_step_retry_backoff,
}

-- With the largest `int` as the retry budget and no limit of the step's own, the sum overflows and
-- every step is refused before its first attempt.
pub unlimited_budget_refuses :
    (step : StepSpec) (budgets : LoopBudgets)
    → budgets.max_retries_per_step ≡ max64
    → step.on_fail.max_retries ≤ℤ pos 0
    → negsuc 9223372036854775807 ≤ℤ step.attempt
    → ensure_step_retry_budget step budgets ≡ err step_retry_budget_exceeded
unfolding ensure_step_retry_budget allowed_attempts add64
unlimited_budget_refuses step budgets e h k = rw e (ground arith)

cleared : (step : StepSpec) (t : ℤ) → backoff_active (clear_step_retry_backoff step) t ≡ false
unfolding backoff_active clear_step_retry_backoff
cleared step t = ground (
  arith,
  lookup-delete retry_not_before_key retry_not_before_key step.metadata,
  eq_iff retry_not_before_key retry_not_before_key,
)

set_until :
    (step : StepSpec) (until t : ℤ)
    → backoff_active
        (record step { metadata = insert retry_not_before_key (int64 until) step.metadata })
        t
      ≡ ltb_ℤ t until
unfolding backoff_active
set_until step until t =
    ground (arith, lookup-insert_self retry_not_before_key (int64 until) step.metadata)

-- A step that is scheduled again with a positive backoff is held back exactly until that time has
-- passed; any other outcome leaves no backoff, whatever the step's metadata held before.
pub backoff_window :
    (step : StepSpec) (next : TransitionDecision) (now t : ℤ)
    → backoff_active (apply_step_retry_backoff step next now) t ≡ (
        is_retry next.to
        && ltb_ℤ (pos 0) step.on_fail.backoff_ms
        && ltb_ℤ t (add64 now step.on_fail.backoff_ms))
unfolding apply_step_retry_backoff
backoff_window step next now t =
    ground (arith, cleared step t, set_until step (add64 now step.on_fail.backoff_ms) t)

-- Once the run-time budget refuses a session, it refuses it at every later time. The session's
-- start and both times are non-negative and fit in an `int64`.
pub runtime_budget_stays :
    (state : State) (budgets : LoopBudgets) (started now later : ℕ)
    → state.runtime_started_at ≡ pos started
    → pos started ≤ℤ max64
    → now ≤ later
    → pos later ≤ℤ max64
    → ensure_runtime_budget state budgets (pos now) ≡ err runtime_budget_exceeded
    → ensure_runtime_budget state budgets (pos later) ≡ err runtime_budget_exceeded
unfolding ensure_runtime_budget sub64
runtime_budget_stays state budgets started now later e v h k r = ground arith
