-- ===== src/Approval/Laws.antt =====
-- The approval store and the resume policy: pkg/harness/approval/store.go.
use harness_core.Base.{
  String, ◌≡◌, ◌↔◌, ◌≢◌, ◌⊎◌, sym, ap, ◌∙◌, true, false, [], some, Option-cases, Bool-cases, inl,
  inr, arith, eq_iff, All, filter, filter-All,
}
use harness_core.Base.Int.{ℤ, eqb_ℤ, eqb_ℤ-eq, inc64, inc64-ne}
use harness_core.Base.Text.{str_ltb_trans, str_ltb_asymm}
use harness_core.Base.Dict.{Dict, lookup, insert, values, lookup-insert}
use harness_core.Base.Sort.{IsOrder, IsSorted, sort-IsSorted, All-sort, All-of_sort}
use harness_core.Base.Result.{Result, ok, err, approval_version_conflict}
use harness_core.Permission.{Decision, allow, deny}
use harness_core.Plan.Spec.{StepSpec}
use harness_core.Approval.{
  Record, MemoryStore, approved, reject, valid_reply, resolve, stamped, update, requested_before,
  is_listed, list,
}

-- A record resumes a step only if the record is approved, names that very step and tool, and has a
-- valid reply; the decision is then to allow the step or, exactly if the reply was to reject, to deny it.
pub resolve_sound :
    (rec : Record) (step : StepSpec) {d : Decision}
    → resolve rec step ≡ some d
    → (rec.status ≡ approved)
      × (rec.step_id ≡ step.step_id)
      × (rec.tool_name ≡ step.action.tool_name)
      × (valid_reply rec.reply ≡ true)
      × (((rec.reply ≡ reject) × (d.action ≡ deny)) ⊎ ((rec.reply ≢ reject) × (d.action ≡ allow)))
unfolding resolve valid_reply
resolve_sound rec step {d} h =
    ground (arith, eq_iff rec.step_id step.step_id, eq_iff rec.tool_name step.action.tool_name)

requested_asymm : (a b : Record) → requested_before a b ≡ true → requested_before b a ≡ false
unfolding requested_before
requested_asymm a b h = ground (arith, str_ltb_asymm a.approval_id b.approval_id)

requested_trans :
    (a b c : Record)
    → requested_before b a ≡ false
    → requested_before c b ≡ false
    → requested_before c a ≡ false
unfolding requested_before
requested_trans a b c h k = ground (arith, str_ltb_trans a.approval_id b.approval_id c.approval_id)

-- The approvals of a session are listed in the order of their requests, ties broken by identifier,
-- and the listed records are exactly the stored ones that match the session: a predicate holds of
-- all that are listed if and only if it holds of all that are stored and match.
pub list-IsSorted :
    (session_id : String) (s : MemoryStore) (P : Record → Type 0)
    → IsSorted requested_before (list session_id s)
      × (All P (list session_id s)
          ↔ All (λ rec. is_listed session_id rec ≡ true → P rec) (values s.approvals))
unfolding list
list-IsSorted session_id s P =
    let order : IsOrder requested_before = record {
      asymm = requested_asymm;
      trans = requested_trans;
    } in
    let matching = filter (is_listed session_id) (values s.approvals) in
    let (into, back) = filter-All P (is_listed session_id) (values s.approvals) in
    (
      sort-IsSorted requested_before order matching,
      (
        (λ h. into (All-of_sort requested_before P matching h)),
        (λ h. All-sort requested_before P matching (back h)),
      ),
    )

abbrev approvals_of : Result MemoryStore → Dict Record
approvals_of (ok s) = s.approvals
approvals_of (err e) = []

refused-not-ok : {s : MemoryStore} → err approval_version_conflict ≡ ok s → ⊥
refused-not-ok h = cc

pub update-written :
    (now : ℤ) (next : Record) (s : MemoryStore) {s' : MemoryStore}
    → update now next s ≡ ok s'
    → (current : Record) × (s'.approvals
        ≡ insert next.approval_id (stamped next current now) s.approvals)
unfolding update
update-written now next s h = elim (Option-cases (lookup next.approval_id s.approvals)) [
  | inl e ↦ absurd (ground arith)
  | inr (current, e) ↦ elim (Bool-cases (eqb_ℤ next.version (inc64 current.version))) [
    | inl t ↦ (current, sym (ap approvals_of (rw (e, update, t) at h)))
    | inr t ↦ absurd (refused-not-ok (rw (e, update, t) at h))
  ]
]

-- Of two updates of an approval that were made from the same version, the second is refused as a
-- conflict if the first succeeded: a pending request is answered once, and a granted one consumed once.
pub answered_once :
    (now now' : ℤ) (a b : Record) (s : MemoryStore) {s' : MemoryStore}
    → update now a s ≡ ok s'
    → b.approval_id ≡ a.approval_id
    → b.version ≡ a.version
    → update now' b s' ≡ err approval_version_conflict
unfolding update
answered_once now now' a b s {s'} h ids versions =
    let (current, written) = update-written now a s h in
    let here : lookup b.approval_id s'.approvals ≡ some (stamped a current now) =
      ap (lookup b.approval_id) written
      ∙ lookup-insert a.approval_id b.approval_id (stamped a current now) s.approvals
      ∙ ground (arith, eq_iff a.approval_id b.approval_id) in
    elim (Bool-cases (eqb_ℤ b.version (inc64 a.version))) [
      | inl t ↦
          absurd (inc64-ne a.version (sym (sym versions ∙ eqb_ℤ-eq b.version (inc64 a.version) t)))
      | inr t ↦ rw (here, update, t)
    ]
