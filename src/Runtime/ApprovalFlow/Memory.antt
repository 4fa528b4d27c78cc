-- ===== src/Runtime/ApprovalFlow/Memory.antt =====
-- The answer to an approval over the in-memory stores, with nobody else at work.
use harness_core.Base.Int.{ℤ}
use harness_core.Base.Result.{Result, ok, err}
use harness_core.Session.Store
use harness_core.Approval
use harness_core.Task
use harness_core.Plan.Store as PlanStore
use harness_core.Execution.Attempts
use harness_core.Runtime.Budgets.{LoopBudgets}
use harness_core.Runtime.PlanIdentity.{update_latest_plan_step}
use harness_core.Runtime.SessionUpdate.{SessionStore}
use harness_core.Runtime.ApprovalFlow.{ApprovalStores}

pub record Kernel : Type 0 where
  pub approvals : Approval.MemoryStore
  pub sessions : Store.MemoryStore
  pub attempts : Attempts.MemoryAttemptStore
  pub plans : PlanStore.MemoryStore
  pub tasks : Task.MemoryStore

-- The answer of a write, and the world with the written store in its place.
abbrev pub stored {ℓ} : {S : Type ℓ} → Kernel → (S → Kernel) → Result S → Result (Unit {0}) × Kernel
stored w put (ok s) = (ok tt, put s)
stored w put (err e) = (err e, w)

abbrev pub answered {ℓ κ} :
    {A : Type κ} {S : Type ℓ} → Kernel → (S → Kernel) → Result (A × S) → Result A × Kernel
answered w put (ok (a, s)) = (ok a, put s)
answered w put (err e) = (err e, w)

abbrev pub memory_sessions : ℤ → SessionStore Kernel
memory_sessions time = record {
  get = λ id w. (Store.get id w.sessions, w);
  update = λ next w. stored w (λ s. record w { sessions = s }) (Store.update time next w.sessions);
}

-- `time` is what the stores read of the clock.
abbrev pub memory_stores : ℤ → LoopBudgets → ApprovalStores Kernel
memory_stores time budgets = record {
  sessions = memory_sessions time;
  get_approval = λ id w. (Approval.get id w.approvals, w);
  update_approval =
      λ next w. stored w (λ s. record w { approvals = s }) (Approval.update time next w.approvals);
  list_attempts = λ session_id w. (ok (Attempts.list session_id w.attempts), w);
  update_attempt =
      λ next w. stored w (λ s. record w { attempts = s }) (Attempts.update next w.attempts);
  get_task = λ id w. (Task.get id w.tasks, w);
  update_task = λ next w. stored w (λ s. record w { tasks = s }) (Task.update time next w.tasks);
  write_plan_step = λ session_id step w.
      answered w (λ s. record w { plans = s })
        (update_latest_plan_step time w.plans session_id step budgets);
  end_task = λ state w.
      answered w (λ s. record w { tasks = s }) (Task.update_task_for_terminal time state w.tasks);
}
