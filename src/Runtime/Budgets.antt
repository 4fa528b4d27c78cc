-- ===== src/Runtime/Budgets.antt =====
-- pkg/harness/runtime/budgets.go: retry, run-time and backoff limits, and the transition that
-- follows a verification. `LoopBudgets` is from pkg/harness/runtime/context_types.go.
use harness_core.Base.{
  String, ◌==◌, Bool, true, false, ◌&&◌, ◌||◌, Option, none, some, if◌then◌else◌,
}
use harness_core.Base.Int.{ℤ, pos, ltb_ℤ, leb_ℤ, is_zero, inc64, add64, sub64}
use harness_core.Base.Dict.{lookup, insert, delete}
use harness_core.Base.Result.{Result, ok, err, runtime_budget_exceeded, step_retry_budget_exceeded}
use harness_core.Metadata.{Value, int, int64, float64}
use harness_core.Permission.{Decision}
use harness_core.Plan.Spec.{StepSpec}
use harness_core.Session.State.{State}
use harness_core.Runtime.Transition.{
  Transition, recover, prepare, plan, failed, TransitionDecision, decide_next_transition,
}

pub record LoopBudgets : Type 0 where
  pub max_steps : ℤ
  pub max_retries_per_step : ℤ
  pub max_plan_revisions : ℤ
  pub max_total_runtime_ms : ℤ
  pub max_tool_output_chars : ℤ

-- ensureRuntimeBudget
unfoldable pub ensure_runtime_budget : State → LoopBudgets → ℤ → Result (Unit {0})
ensure_runtime_budget state budgets now =
    if leb_ℤ budgets.max_total_runtime_ms (pos 0) || is_zero state.runtime_started_at
    then ok tt
    else if ltb_ℤ budgets.max_total_runtime_ms (sub64 now state.runtime_started_at)
    then err runtime_budget_exceeded
    else ok tt

-- The two assignments to `retries` in `allowedAttempts`.
abbrev pub base_retries : LoopBudgets → ℤ
base_retries budgets =
    if ltb_ℤ budgets.max_retries_per_step (pos 0) then pos 0 else budgets.max_retries_per_step

abbrev pub step_retries : StepSpec → ℤ → ℤ
step_retries step retries =
    if ltb_ℤ (pos 0) step.on_fail.max_retries
      && (is_zero retries || ltb_ℤ step.on_fail.max_retries retries)
    then step.on_fail.max_retries
    else retries

-- allowedAttempts
unfoldable pub allowed_attempts : StepSpec → LoopBudgets → ℤ
allowed_attempts step budgets = inc64 (step_retries step (base_retries budgets))

-- ensureStepRetryBudget
unfoldable pub ensure_step_retry_budget : StepSpec → LoopBudgets → Result (Unit {0})
ensure_step_retry_budget step budgets =
    if leb_ℤ (allowed_attempts step budgets) step.attempt
    then err step_retry_budget_exceeded
    else ok tt

pub data Strategy : Type 0 where
  retry continue abort replan reinspect : Strategy

-- The `switch` of `normalizedOnFailStrategy`; its `default` is the same as its first case.
unfoldable pub normalized : String → Strategy
normalized name =
    if name == "" || name == "retry"
    then retry
    else if name == "continue"
    then continue
    else if name == "abort"
    then abort
    else if name == "replan"
    then replan
    else if name == "reinspect"
    then reinspect
    else retry

-- normalizedOnFailStrategy
abbrev pub normalized_on_fail_strategy : StepSpec → Strategy
normalized_on_fail_strategy step = normalized step.on_fail.strategy

-- The `switch` over the strategy; the Boolean is `step.Attempt < allowedAttempts(step, budgets)`.
abbrev pub failure_of : Strategy → Bool → Transition × String
failure_of abort more = (failed, "verification failed and on_fail=abort")
failure_of replan more = (plan, "verification failed and on_fail=replan")
failure_of reinspect more =
    if more
    then (prepare, "verification failed, reinspect allowed")
    else (failed, "verification failed and retry budget exhausted")
failure_of continue more =
    if more
    then (recover, "verification failed, continue retry allowed")
    else (plan, "verification failed, continuing after retry exhaustion")
failure_of retry more =
    if more
    then (recover, "verification failed, retry allowed")
    else (failed, "verification failed and retry budget exhausted")

-- nextTransitionAfterVerification
unfoldable pub next_transition_after_verification :
    State → StepSpec → Decision → Bool → LoopBudgets → TransitionDecision
next_transition_after_verification state step decision verified budgets =
    if verified
    then decide_next_transition state step.step_id decision true
    else let (to, reason) =
        failure_of (normalized_on_fail_strategy step)
          (ltb_ℤ step.attempt (allowed_attempts step budgets)) in
      record { from = state.phase; to = to; reason = reason; step_id = step.step_id }

abbrev pub retry_not_before_key : String
retry_not_before_key = "retry_not_before"

abbrev pub instant_of : Option Value → Option ℤ
instant_of (some (int64 t)) = some t
instant_of (some (int t)) = some t
instant_of (some (float64 t)) = some t
instant_of _ = none

-- stepRetryNotBefore
unfoldable pub step_retry_not_before : StepSpec → Option ℤ
step_retry_not_before step = instant_of (lookup retry_not_before_key step.metadata)

-- backoffActive
unfoldable pub backoff_active : StepSpec → ℤ → Bool
unfolding step_retry_not_before
backoff_active step now = elim (step_retry_not_before step) [ none ↦ false | some t ↦ ltb_ℤ now t ]

-- clearStepRetryBackoff
unfoldable pub clear_step_retry_backoff : StepSpec → StepSpec
clear_step_retry_backoff step = record step { metadata = delete retry_not_before_key step.metadata }

abbrev pub is_retry : Transition → Bool
is_retry recover = true
is_retry prepare = true
is_retry _ = false

-- applyStepRetryBackoff
unfoldable pub apply_step_retry_backoff : StepSpec → TransitionDecision → ℤ → StepSpec
unfolding clear_step_retry_backoff
apply_step_retry_backoff step next now =
    if is_retry next.to
    then if leb_ℤ step.on_fail.backoff_ms (pos 0)
      then clear_step_retry_backoff step
      else record step {
        metadata =
            insert retry_not_before_key (int64 (add64 now step.on_fail.backoff_ms)) step.metadata;
      }
    else clear_step_retry_backoff step
