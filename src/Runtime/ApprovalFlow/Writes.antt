-- ===== src/Runtime/ApprovalFlow/Writes.antt =====
-- Which writes an answer that goes through has made: pkg/harness/runtime/approval_flow.go over the
-- in-memory stores.
use harness_core.Base.{◌≡◌, sym, ap, ◌∙◌, Bool, true, false, if◌then◌else◌}
use harness_core.Base.Int.{ℤ}
use harness_core.Base.Result.{ok}
use harness_core.Base.Act.{◌>>=◌, then-ok, give-ok, done}
use harness_core.Session.State.{State}
use harness_core.Session.Store
use harness_core.Approval
use harness_core.Approval.{Reply, valid_reply}
use harness_core.Runtime.Budgets.{LoopBudgets}
use harness_core.Runtime.Rollback.{or_rollback}
use harness_core.Runtime.ApprovalFlow.{
  Undo, write_rejection, write_approval, find_latest_blocked_attempt, original_task, reject_writes,
}
use harness_core.Runtime.ApprovalFlow.Memory.{Kernel, memory_stores, memory_sessions}
use harness_core.Runtime.ApprovalFlow.Answered.{
  rolled_back-ok, stored-ok, find-Keeps, original_task-Keeps, reject_writes-Keeps,
}

module _ (time : ℤ) (budgets : LoopBudgets) where
  -- The approval was written, and after it the session.
  abbrev pub Wrote : Approval.Record → State → Kernel → Kernel → Type 0
  Wrote answer after w w' =
      (approvals : Approval.MemoryStore) × (Approval.update time answer w.approvals ≡ ok approvals)
      × (w'.approvals ≡ approvals)
      × (before : Store.MemoryStore) × (Store.update time after before ≡ ok w'.sessions)

  session-wrote :
      (after : State) (v : Kernel) {u : Unit {0}} {w' : Kernel}
      → (memory_sessions time).update after v ≡ (ok u, w')
      → (w'.approvals ≡ v.approvals) × (Store.update time after v.sessions ≡ ok w'.sessions)
  session-wrote after v h =
      let (s, went, put) = stored-ok v (λ s. record v { sessions = s }) _ h in
      (ap (λ k. k.approvals) put, went ∙ ap (λ k. ok k.sessions) (sym put))

  -- The end of either answer: the session's write, and the result.
  ends :
      (after : State) (undo : Undo Kernel) (result : Approval.Record × State) (v : Kernel)
      {out : Approval.Record × State} {w' : Kernel}
      → (or_rollback ((memory_sessions time).update after) undo >>= λ _. done result) v
        ≡ (ok out, w')
      → (result ≡ out)
        × (w'.approvals ≡ v.approvals)
        × (Store.update time after v.sessions ≡ ok w'.sessions)
  ends after undo result v {out = out} {w' = w'} h =
      let (u, v', went, rest) = then-ok _ _ h in
      let (kept, wrote) = session-wrote after v (rolled_back-ok _ _ went) in
      let (given, same) = give-ok (ok result) rest in
      let same_out : result ≡ out = cc in
      (same_out, ap (λ k. k.approvals) (sym same) ∙ kept, wrote ∙ ap (λ k. ok k.sessions) same)

  write_approval-Wrote :
      (rec answer : Approval.Record) (after : State) (w : Kernel) {out : Approval.Record × State}
      {w' : Kernel}
      → write_approval (memory_stores time budgets) rec answer after w ≡ (ok out, w')
      → ((answer, after) ≡ out) × Wrote answer after w w'
  unfolding write_approval
  write_approval-Wrote rec answer after w {w' = w'} h =
      let (u, v, went, rest) =
        then-ok ((memory_stores time budgets).update_approval answer w) _ h in
      let (s, updated, put) = stored-ok w (λ s. record w { approvals = s }) _ went in
      let (result, kept, wrote) = ends after _ (answer, after) v rest in
      (result, (s, updated, kept ∙ ap (λ k. k.approvals) put, v.sessions, wrote))

  write_rejection-Wrote :
      (rec : Approval.Record) (st : State) (answer : Approval.Record) (after : State)
      (reply : Reply) (now : ℤ) (w : Kernel) {out : Approval.Record × State} {w' : Kernel}
      → write_rejection (memory_stores time budgets) rec st answer after reply now w ≡ (ok out, w')
      → ((answer, after) ≡ out) × Wrote answer after w w'
  unfolding write_rejection
  write_rejection-Wrote rec st answer after reply now w {w' = w'} h =
      let stores = memory_stores time budgets in
      let (attempt, v1, s1, r1) =
        then-ok (find_latest_blocked_attempt stores rec.session_id rec.approval_id w) _ h in
      let (task, v2, s2, r2) = then-ok (original_task stores st v1) _ r1 in
      let (u3, v3, s3, r3) = then-ok (stores.update_approval answer v2) _ r2 in
      let (u4, v4, s4, r4) = then-ok (reject_writes stores rec after attempt reply now v3) _ r3 in
      let (s, updated, put) = stored-ok v2 (λ s. record v2 { approvals = s }) _ s3 in
      let (result, kept, wrote) = ends after _ (answer, after) v4 r4 in
      let before : v2.approvals ≡ w.approvals =
        original_task-Keeps time budgets st v1 task v2 s2
        ∙ find-Keeps time budgets rec.session_id rec.approval_id w attempt v1 s1 in
      (
        result,
        (
          s,
          ap (Approval.update time answer) (sym before) ∙ updated,
          kept
              ∙ reject_writes-Keeps time budgets rec after attempt reply now v3 u4 v4 s4
              ∙ ap (λ k. k.approvals) put,
          v4.sessions,
          wrote,
        ),
      )

  pub answer-Wrote :
      (rejecting : Bool) (rec : Approval.Record) (st : State) (answer : Approval.Record)
      (after : State) (reply : Reply) (now : ℤ) (w : Kernel) {out : Approval.Record × State}
      {w' : Kernel}
      → (if rejecting
            then write_rejection (memory_stores time budgets) rec st answer after reply now
            else write_approval (memory_stores time budgets) rec answer after)
          w
        ≡ (ok out, w')
      → ((answer, after) ≡ out) × Wrote answer after w w'
  answer-Wrote true rec st answer after reply now w h =
      write_rejection-Wrote rec st answer after reply now w h
  answer-Wrote false rec st answer after reply now w h = write_approval-Wrote rec answer after w h
