-- ===== src/Tests/Steps.antt =====
-- Transitions, retries and budgets on concrete steps.
use harness_core.Base.{◌≡◌, ◌≤◌, refl, true, ◌&&◌, some, arith, List, [], ◌∷◌, length, map, filter}
use harness_core.Base.Int.{pos, add64, ltb_ℤ, max64}
use harness_core.Base.Sort.{sort}
use harness_core.Base.Result.{err, step_retry_budget_exceeded}
use harness_core.Plan.Spec.{StepSpec, StepStatus}
use harness_core.Session.State.{State, Phase}
use harness_core.Execution.Aggregate.{aggregate_results_from_steps, target_before, target_result}
use harness_core.Execution.Counts.{aggregate_targets, targets_of, names}
use harness_core.Runtime.Transition.{TransitionDecision, recover}
use harness_core.Runtime.Advance.{advance, Chain, advance_ends}
use harness_core.Runtime.Budgets.{
  ensure_step_retry_budget, backoff_active, apply_step_retry_backoff,
}
use harness_core.Runtime.Retry.{backoff_window, unlimited_budget_refuses}
use harness_core.Tests.Data.{created, step_with, budgets}

abbrev failing : StepSpec
failing = step_with "retry" StepStatus.failed

advance_ends_example :
    (final : State) × (taken : List TransitionDecision) × (advance 4 created "build"
      ≡ some (final, taken))
    × (final.phase ≡ Phase.execute)
    × (length taken ≤ 3)
    × Chain Phase.received taken final.phase
    × (final ≡ record created { phase = final.phase; current_step_id = final.current_step_id })
advance_ends_example = advance_ends created "build"

aggregate_targets_example :
    targets_of "a1" (aggregate_results_from_steps (failing ∷ []))
    ≡ sort target_before (map target_result (filter (names "a1") (failing ∷ [])))
aggregate_targets_example = aggregate_targets "a1" (failing ∷ [])

abbrev recovery : TransitionDecision
recovery = record { from = Phase.verify; to = recover; step_id = "build"; reason = "" }

backoff_window_example :
    backoff_active (apply_step_retry_backoff failing recovery (pos 100)) (pos 120)
    ≡ (true && ltb_ℤ (pos 0) (pos 50) && ltb_ℤ (pos 120) (add64 (pos 100) (pos 50)))
backoff_window_example = backoff_window failing recovery (pos 100) (pos 120)

abbrev unlimited : StepSpec
unlimited = record failing {
  on_fail = record { strategy = "retry"; max_retries = pos 0; backoff_ms = pos 0 };
  attempt = pos 0;
}

unlimited_budget_refuses_example :
    ensure_step_retry_budget unlimited (record budgets { max_retries_per_step = max64 })
    ≡ err step_retry_budget_exceeded
unlimited_budget_refuses_example =
    unlimited_budget_refuses unlimited (record budgets { max_retries_per_step = max64 }) refl
      (omega arith) (omega arith)
