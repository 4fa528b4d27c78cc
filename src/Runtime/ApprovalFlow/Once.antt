-- ===== src/Runtime/ApprovalFlow/Once.antt =====
-- An approval is answered once: pkg/harness/runtime/approval_flow.go over the in-memory stores.
use harness_core.Base.{
  String, ◌≡◌, refl, sym, ap, ◌∙◌, true, false, Bool-cases, some, Option-cases, inl, inr, arith,
  eq_iff,
}
use harness_core.Base.Int.{ℤ}
use harness_core.Base.Dict.{lookup, insert, lookup-insert_self, lookup-IsKeyed, IsKeyed}
use harness_core.Base.Result.{Error, Result, Result-cases, ok, err, approval_not_pending}
use harness_core.Session.State.{State}
use harness_core.Session.Store
use harness_core.Session.Update.{update_ok}
use harness_core.Approval
use harness_core.Approval.{Reply, valid_reply}
use harness_core.Approval.Laws.{update-written}
use harness_core.Runtime.Budgets.{LoopBudgets}
use harness_core.Runtime.Transition.{apply_transition}
use harness_core.Runtime.ApprovalFlow.{
  Response, is_pending, admits, respond_approval, responded, session_after, is_reject,
}
use harness_core.Runtime.ApprovalFlow.Memory.{Kernel, memory_stores}
use harness_core.Runtime.ApprovalFlow.Writes.{Wrote, answer-Wrote}

-- The kernel keeps approvals and sessions under their identifiers.
abbrev pub IsValid : Kernel → Type 0
IsValid w =
    IsKeyed (λ (r : Approval.Record). r.approval_id) w.approvals.approvals
    × IsKeyed (λ (st : State). st.session_id) w.sessions.sessions

not-ok :
    {A : Type 0} {e : Error} {w w' : Kernel} {a : A}
    → ◌≡◌ {A = Result A × Kernel} (err e, w) (ok a, w')
    → ⊥
not-ok h = cc

admits-ok :
    (rec : Approval.Record) (st : State) (approval_id : String) (reply : Reply) {u : Unit {0}}
    → admits rec st approval_id reply ≡ ok u
    → (rec.status ≡ Approval.pending)
      × (st.pending_approval_id ≡ approval_id)
      × (valid_reply reply ≡ true)
unfolding admits
admits-ok rec st approval_id reply h = ground (arith, eq_iff st.pending_approval_id approval_id)

session_after-id :
    (st : State) (rec : Approval.Record) (reply : Reply)
    → (session_after st rec reply).session_id ≡ st.session_id
unfolding session_after apply_transition
session_after-id st rec reply = elim (Bool-cases (is_reject reply)) [
  | inl e ↦ rw e refl
  | inr e ↦ rw e refl
]

responded-not-pending :
    (rec : Approval.Record) (response : Response) (now : ℤ)
    → is_pending (responded rec response now).status ≡ false
unfolding responded
responded-not-pending rec response now = elim (Bool-cases (is_reject response.reply)) [
  | inl e ↦ rw e refl
  | inr e ↦ rw e refl
]

module _ (time : ℤ) (budgets : LoopBudgets) (approval_id : String) (response : Response) (now : ℤ)
    (w : Kernel) where
  -- What an answer that goes through found, returned and stored.
  abbrev pub Answered : Approval.Record × State → Kernel → Type 0
  Answered out w' =
      (rec : Approval.Record) × (st : State) × (lookup approval_id w.approvals.approvals ≡ some rec)
      × (lookup rec.session_id w.sessions.sessions ≡ some st)
      × (rec.status ≡ Approval.pending)
      × (st.pending_approval_id ≡ approval_id)
      × (valid_reply response.reply ≡ true)
      × (out ≡ (responded rec response now, session_after st rec response.reply))
      × (current : Approval.Record) × (lookup approval_id w'.approvals.approvals
          ≡ some (Approval.stamped (responded rec response now) current time))
      × (held : State) × (lookup rec.session_id w'.sessions.sessions
          ≡ some (Store.stamped (session_after st rec response.reply) held time))

  -- What was written is found again, for the approval and for its session.
  module _ (rec : Approval.Record) (st : State) (w' : Kernel) (valid : IsValid w)
      (found : lookup approval_id w.approvals.approvals ≡ some rec)
      (session : lookup rec.session_id w.sessions.sessions ≡ some st)
      (wrote : Wrote time budgets
        (responded rec response now)
        (session_after st rec response.reply)
        w
        w') where
    approval-found :
        (current : Approval.Record) × (lookup approval_id w'.approvals.approvals
          ≡ some (Approval.stamped (responded rec response now) current time))
    unfolding responded
    approval-found =
        let (s, updated, kept, before, _) = wrote in
        let (current, written) =
          update-written time (responded rec response now) w.approvals updated in
        let new = Approval.stamped (responded rec response now) current time in
        let own : rec.approval_id ≡ approval_id =
          lookup-IsKeyed (λ r. r.approval_id) approval_id w.approvals.approvals valid.0 found in
        (
          current,
          ap (λ m. lookup approval_id m.approvals) kept
              ∙ ap (lookup approval_id) written
              ∙ ap (λ k. lookup approval_id (insert k new w.approvals.approvals)) own
              ∙ lookup-insert_self approval_id new w.approvals.approvals,
        )

    session-found :
        (held : State) × (lookup rec.session_id w'.sessions.sessions
          ≡ some (Store.stamped (session_after st rec response.reply) held time))
    session-found =
        let after = session_after st rec response.reply in
        let (s, updated, kept, before, stored) = wrote in
        let (held, there, version, changed) = update_ok time after before stored in
        let same : after.session_id ≡ rec.session_id =
          session_after-id st rec response.reply
          ∙ lookup-IsKeyed (λ v. v.session_id) rec.session_id w.sessions.sessions valid.1 session in
        (held, ground (arith, changed rec.session_id, eq_iff after.session_id rec.session_id, same))

  -- An answer to an approval goes through only if the approval is pending, is the one that its
  -- session waits for, and the reply is a known one. The stored approval then carries the answer, and
  -- the stored session is the one that the answer leads to. Each record is stored under its identifier.
  pub respond_ok :
      (out : Approval.Record × State) (w' : Kernel)
      → IsValid w
      → respond_approval (memory_stores time budgets) approval_id response now w ≡ (ok out, w')
      → Answered out w'
  unfolding respond_approval Approval.get Store.get
  respond_ok out w' valid h = elim (Option-cases (lookup approval_id w.approvals.approvals)) [
    | inl missing ↦ absurd (not-ok (rw (respond_approval, Approval.get, missing) at h))
    | inr (rec, found) ↦ elim (Option-cases (lookup rec.session_id w.sessions.sessions)) [
      | inl missing ↦
          absurd (not-ok (rw (respond_approval, Approval.get, found, Store.get, missing) at h))
      | inr (st, session) ↦ elim (Result-cases (admits rec st approval_id response.reply)) [
        | inr (e, refused) ↦
            absurd (
              not-ok (rw (respond_approval, Approval.get, found, Store.get, session, refused) at h))
        | inl (_, admitted) ↦
            let (pending, waits, known) = admits-ok rec st approval_id response.reply admitted in
            let (result, wrote) =
              answer-Wrote time budgets (is_reject response.reply) rec st
                (responded rec response now) (session_after st rec response.reply) response.reply
                now w
                (rw (respond_approval, Approval.get, found, Store.get, session, admitted) at h) in
            let (current, there) = approval-found rec st w' valid found session wrote in
            let (held, kept) = session-found rec st w' valid found session wrote in
            (rec, st, found, session, pending, waits, known, sym result, current, there, held, kept)
      ]
    ]
  ]

  -- An approval is answered once: after an answer that went through, every further answer to the same
  -- approval is refused, whatever it replies, and changes nothing. Each record is stored under its
  -- identifier.
  pub answered_is_final :
      (out : Approval.Record × State) (w' : Kernel) (response' : Response) (now' : ℤ)
      → IsValid w
      → respond_approval (memory_stores time budgets) approval_id response now w ≡ (ok out, w')
      → respond_approval (memory_stores time budgets) approval_id response' now' w'
        ≡ (err approval_not_pending, w')
  unfolding respond_approval Approval.get Store.get admits
  answered_is_final out w' response' now' valid h =
      let (rec, st, found, session, was, waits, known, result, current, there, held, kept) =
        respond_ok out w' valid h in
      let stored = Approval.stamped (responded rec response now) current time in
      let same : stored.session_id ≡ rec.session_id = refl in
      let kept' : lookup stored.session_id w'.sessions.sessions
          ≡ some (Store.stamped (session_after st rec response.reply) held time) =
        ap (λ k. lookup k w'.sessions.sessions) same ∙ kept in
      rw
        (
          respond_approval,
          Approval.get,
          there,
          Store.get,
          kept',
          admits,
          responded-not-pending rec response now,
        )
        refl
