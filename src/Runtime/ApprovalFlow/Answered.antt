-- ===== src/Runtime/ApprovalFlow/Answered.antt =====
-- What an answer to an approval leaves: pkg/harness/runtime/approval_flow.go over the in-memory
-- stores.
use harness_core.Base.{
  String, ◌≡◌, refl, sym, ap, ◌∙◌, Bool, true, false, Option, none, some, ◌==◌, if◌then◌else◌,
}
use harness_core.Base.Int.{ℤ}
use harness_core.Base.Result.{Result, ok, err}
use harness_core.Base.Act.{Act, ◌>>=◌, then-ok, give-ok, give, done}
use harness_core.Plan.Spec.{Spec, StepSpec}
use harness_core.Session.State.{State}
use harness_core.Approval
use harness_core.Task
use harness_core.Approval.{Reply}
use harness_core.Execution.Attempts.{Attempt}
use harness_core.Runtime.Budgets.{LoopBudgets}
use harness_core.Runtime.PlanIdentity.{update_latest_plan_step}
use harness_core.Runtime.Rollback.{or_rollback, rolled_back}
use harness_core.Runtime.ApprovalFlow.{
  Undo, finalized, latest_blocked, rejected_step, finalize_blocked_attempt,
  find_latest_blocked_attempt, reject_writes, write_rejected_step, end_rejected_task, original_task,
}
use harness_core.Runtime.ApprovalFlow.Memory.{Kernel, stored, answered, memory_stores}

-- A call that succeeds leaves the approvals as they were.
abbrev pub Keeps {ℓ} : {A : Type ℓ} → Act Kernel A → Type ℓ
Keeps {A = A} act =
    (w : Kernel) (a : A) (w' : Kernel) → act w ≡ (ok a, w') → w'.approvals ≡ w.approvals

module _ {ℓ κ} {A : Type ℓ} {B : Type κ} where
  Keeps-bind :
      (first : Act Kernel A) (next : A → Act Kernel B)
      → Keeps first
      → ((a : A) → Keeps (next a))
      → Keeps (first >>= next)
  Keeps-bind first next k ks w b w' h =
      let (a, v, went, rest) = then-ok (first w) next h in ks a v b w' rest ∙ k w a v went

module _ {ℓ} {A : Type ℓ} where
  pub rolled_back-ok :
      (r : Result A × Kernel) (undo : Undo Kernel) {a : A} {w' : Kernel}
      → rolled_back r undo ≡ (ok a, w')
      → r ≡ (ok a, w')
  rolled_back-ok (ok b, v) undo h = h
  rolled_back-ok (err e, v) undo h = cc

  Keeps-rollback :
      (first : Act Kernel A) (undo : Undo Kernel) → Keeps first → Keeps (or_rollback first undo)
  Keeps-rollback first undo k w a w' h = k w a w' (rolled_back-ok (first w) undo h)

  pub Keeps-if :
      (b : Bool) (first second : Act Kernel A)
      → Keeps first
      → Keeps second
      → Keeps (if b then first else second)
  Keeps-if true first second k l = k
  Keeps-if false first second k l = l

  Keeps-done : (a : A) → Keeps (done a)
  Keeps-done a w b w' h = cc

  Keeps-give : (r : Result A) → Keeps (give r)
  Keeps-give r w a w' h = ap (λ v. v.approvals) (sym (give-ok r h).1)

module _ {ℓ} {S : Type ℓ} (w : Kernel) (put : S → Kernel) where
  -- A write that succeeds was accepted by the store.
  pub stored-ok :
      (r : Result S) {u : Unit {0}} {w' : Kernel}
      → stored w put r ≡ (ok u, w')
      → (s : S) × (r ≡ ok s) × (w' ≡ put s)
  stored-ok (ok s) h = (s, refl, cc)
  stored-ok (err e) h = absurd (cc)

module _ {ℓ} {S : Type ℓ} (w : Kernel) (put : S → Kernel)
    (same : (s : S) → (put s).approvals ≡ w.approvals) where
  stored-keeps :
      (r : Result S) {u : Unit {0}} {w' : Kernel}
      → stored w put r ≡ (ok u, w')
      → w'.approvals ≡ w.approvals
  stored-keeps (ok s) {w' = w'} h =
      let e : put s ≡ w' = cc in ap (λ v. v.approvals) (sym e) ∙ same s
  stored-keeps (err e) h = absurd (cc)

  answered-keeps {κ} :
      {A : Type κ} (r : Result (A × S)) {a : A} {w' : Kernel}
      → answered w put r ≡ (ok a, w')
      → w'.approvals ≡ w.approvals
  answered-keeps (ok (a, s)) {w' = w'} h =
      let e : put s ≡ w' = cc in ap (λ v. v.approvals) (sym e) ∙ same s
  answered-keeps (err e) h = absurd (cc)

module _ (time : ℤ) (budgets : LoopBudgets) where
  pub find-Keeps :
      (session_id approval_id : String)
      → Keeps (find_latest_blocked_attempt (memory_stores time budgets) session_id approval_id)
  unfolding find_latest_blocked_attempt
  find-Keeps session_id approval_id = Keeps-if (approval_id == "") (done none) _ (Keeps-done none) (
      Keeps-bind ((memory_stores time budgets).list_attempts session_id) _
        (λ w a w' h. ap (λ v. v.approvals) (sym (give-ok (ok _) h).1))
        (λ a. Keeps-done (latest_blocked approval_id a)))

  update_attempt-Keeps : (next : Attempt) → Keeps ((memory_stores time budgets).update_attempt next)
  update_attempt-Keeps next w a w' h =
      stored-keeps w (λ s. record w { attempts = s }) (λ s. refl) _ h

  finalize_found-Keeps :
      (found : Option Attempt) (step : StepSpec) (reply : Reply) (now : ℤ)
      → Keeps {0} (elim found [
        | none ↦ done tt
        | some attempt ↦
            (memory_stores time budgets).update_attempt (finalized attempt step reply now)
      ])
  finalize_found-Keeps none step reply now = Keeps-done tt
  finalize_found-Keeps (some attempt) step reply now =
      update_attempt-Keeps (finalized attempt step reply now)

  finalize-Keeps :
      (session_id approval_id : String) (step : StepSpec) (reply : Reply) (now : ℤ)
      → Keeps (
          finalize_blocked_attempt
            (memory_stores time budgets)
            session_id
            approval_id
            step
            reply
            now)
  unfolding finalize_blocked_attempt
  finalize-Keeps session_id approval_id step reply now w a w' h =
      let (found, v, went, rest) = then-ok _ _ h in
      finalize_found-Keeps found step reply now v a w' rest
      ∙ find-Keeps session_id approval_id w found v went

  end_rejected_task-Keeps :
      (rec : Approval.Record) (after : State) (attempt : Option Attempt)
      → Keeps (end_rejected_task (memory_stores time budgets) rec after attempt)
  unfolding end_rejected_task
  end_rejected_task-Keeps rec after attempt w a w' h =
      let (out, v, went, rest) = then-ok {A = Option Task.Record} _ (λ _. done tt) h in
      Keeps-done tt v a w' rest
      ∙ answered-keeps w (λ s. record w { tasks = s }) (λ s. refl)
          (Task.update_task_for_terminal time after w.tasks)
          (rolled_back-ok ((memory_stores time budgets).end_task after w) _ went)

  write_rejected_step-Keeps :
      (rec : Approval.Record) (after : State) (attempt : Option Attempt) (now : ℤ)
      → Keeps (write_rejected_step (memory_stores time budgets) rec after attempt now)
  unfolding write_rejected_step
  write_rejected_step-Keeps rec after attempt now w a w' h =
      let next = end_rejected_task (memory_stores time budgets) rec after attempt in
      let (out, v, went, rest) = then-ok {A = Option Spec} _ (λ _. next) h in
      end_rejected_task-Keeps rec after attempt v a w' rest
      ∙ answered-keeps w (λ s. record w { plans = s }) (λ s. refl)
          (update_latest_plan_step time w.plans rec.session_id (rejected_step rec now) budgets)
          (rolled_back-ok
            ((memory_stores time budgets).write_plan_step rec.session_id (rejected_step rec now) w)
            _ went)

  pub reject_writes-Keeps :
      (rec : Approval.Record) (after : State) (attempt : Option Attempt) (reply : Reply) (now : ℤ)
      → Keeps (reject_writes (memory_stores time budgets) rec after attempt reply now)
  unfolding reject_writes
  reject_writes-Keeps rec after attempt reply now w a w' h =
      let (u, v, went, rest) = then-ok _ _ h in
      write_rejected_step-Keeps rec after attempt now v a w' rest
      ∙ finalize-Keeps rec.session_id rec.approval_id (rejected_step rec now) reply now w u v
          (rolled_back-ok _ _ went)

  pub original_task-Keeps : (st : State) → Keeps (original_task (memory_stores time budgets) st)
  original_task-Keeps st = Keeps-if (st.task_id == "") (done none) _ (Keeps-done none) (
      Keeps-bind ((memory_stores time budgets).get_task st.task_id) _
        (λ w a w' h. ap (λ v. v.approvals) (sym (give-ok (Task.get st.task_id w.tasks) h).1))
        (λ a. Keeps-done (some a)))
