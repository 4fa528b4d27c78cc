-- ===== src/Runtime/ApprovalFlow/Restored.antt =====
-- What an answer that fails at its last write undoes: pkg/harness/runtime/approval_flow.go and
-- rollback.go.
use harness_core.Base.{
  String, ◌≡◌, ◌≢◌, refl, ap, ◌∙◌, Bool, true, false, some, arith, eq_iff, if◌then◌else◌, ◌==◌,
}
use harness_core.Base.Int.{ℤ, inc64, is_zero, eqb_ℤ}
use harness_core.Base.Dict.{lookup, insert, lookup-insert_self, lookup-IsKeyed}
use harness_core.Base.Result.{Error, ok, err}
use harness_core.Base.Act.{Act}
use harness_core.Session.State.{State}
use harness_core.Session.Store
use harness_core.Approval
use harness_core.Runtime.Budgets.{LoopBudgets}
use harness_core.Runtime.ApprovalFlow.{
  ApprovalStores, Response, admits, write_approval, write_rejection, respond_approval, responded,
  session_after, is_reject, restore_approval_record,
}
use harness_core.Runtime.ApprovalFlow.Memory.{Kernel, memory_stores}
use harness_core.Runtime.ApprovalFlow.Once.{IsValid}

keep_either : (b : Bool) (z : ℤ) → (if b then (if b then z else z) else z) ≡ z
keep_either true z = refl
keep_either false z = refl

update_accepts :
    (time : ℤ) (next current : Approval.Record) (s : Approval.MemoryStore)
    → lookup next.approval_id s.approvals ≡ some current
    → next.version ≡ inc64 current.version
    → Approval.update time next s
      ≡ ok (record {
        approvals = insert next.approval_id (Approval.stamped next current time) s.approvals;
      })
unfolding Approval.update
update_accepts time next current s found stepped =
    let t : eqb_ℤ next.version (inc64 current.version) ≡ true = rw stepped (ground arith) in
    rw (found, Approval.update, t) refl

otherwise :
    {A : Type 0} (b : Bool) (first second : Act Kernel A) (w : Kernel)
    → b ≡ false
    → (if b then first else second) w ≡ second w
otherwise true first second w h = absurd (cc)
otherwise false first second w h = refl

-- The in-memory stores, but for sessions whose every write is refused.
abbrev pub refusing : ℤ → LoopBudgets → Error → ApprovalStores Kernel
refusing time budgets e = record (memory_stores time budgets) {
  sessions = record { get = λ id w. (Store.get id w.sessions, w); update = λ next w. (err e, w) };
}

module _ (time : ℤ) (budgets : LoopBudgets) (e : Error) (approval_id : String) (response : Response)
    (now : ℤ) (w : Kernel) (rec : Approval.Record) (st : State) (valid : IsValid w)
    (found : lookup approval_id w.approvals.approvals ≡ some rec)
    (session : lookup rec.session_id w.sessions.sessions ≡ some st) (named : approval_id ≢ "") where
  -- The approvals with the answer, and after its undoing.
  abbrev new : Approval.Record
  new = Approval.stamped (responded rec response now) rec time

  abbrev answered_approvals : Approval.MemoryStore
  answered_approvals = record { approvals = insert rec.approval_id new w.approvals.approvals }

  abbrev back : Approval.Record
  back = record rec { version = inc64 new.version }

  abbrev restored_approvals : Approval.MemoryStore
  restored_approvals = record {
    approvals =
        insert rec.approval_id (Approval.stamped back new time) answered_approvals.approvals;
  }

  own : rec.approval_id ≡ approval_id
  own = lookup-IsKeyed (λ r. r.approval_id) approval_id w.approvals.approvals valid.0 found

  write_approval-undone :
      (after : State)
      → write_approval (refusing time budgets e) rec (responded rec response now) after w
        ≡ (err e, record w { approvals = restored_approvals })
  unfolding write_approval restore_approval_record Approval.get responded
  write_approval-undone after =
      let here : lookup rec.approval_id w.approvals.approvals ≡ some rec =
        ap (λ k. lookup k w.approvals.approvals) own ∙ found in
      let here1 : lookup rec.approval_id answered_approvals.approvals ≡ some new =
        lookup-insert_self rec.approval_id new w.approvals.approvals in
      let named' : (rec.approval_id == "") ≡ false =
        ground (arith, eq_iff rec.approval_id "", own) in
      rw
        (
          write_approval,
          update_accepts time (responded rec response now) rec w.approvals here refl,
          restore_approval_record,
          named',
          Approval.get,
          here1,
          update_accepts time back new answered_approvals here1 refl,
        )
        refl

  -- An answer that grants an approval, but whose session cannot be written, is undone: the session
  -- store's error is returned, no session is changed, and the approval is again what it was, but for
  -- its version, stepped twice, and its time of update; so it can still be answered. The approval is
  -- pending and its session's own, it has a name, and each record is stored under its identifier.
  pub refused_answer_undone :
      admits rec st approval_id response.reply ≡ ok tt
      → is_reject response.reply ≡ false
      → (w' : Kernel) × (respond_approval (refusing time budgets e) approval_id response now w
          ≡ (err e, w'))
        × (w'.sessions ≡ w.sessions)
        × (lookup approval_id w'.approvals.approvals
            ≡ some (record rec { version = inc64 (inc64 rec.version); updated_at = time }))
  unfolding respond_approval Approval.get Store.get
  refused_answer_undone admitted granting =
      let after = session_after st rec response.reply in
      let stores = refusing time budgets e in
      let answer = responded rec response now in
      (
        record w { approvals = restored_approvals },
        rw (respond_approval, Approval.get, found, Store.get, session, admitted)
            (otherwise (is_reject response.reply)
                (write_rejection stores rec st answer after response.reply now)
                (write_approval stores rec answer after) w granting
              ∙ write_approval-undone after),
        refl,
        ap
              (λ k.
                lookup approval_id
                  (insert k (Approval.stamped back new time) answered_approvals.approvals))
              own
            ∙ lookup-insert_self approval_id (Approval.stamped back new time)
                answered_approvals.approvals
            ∙ (λ i. some (record rec {
              version = inc64 (inc64 rec.version);
              updated_at = time;
              created_at = keep_either (is_zero rec.created_at) rec.created_at i;
            })),
      )
