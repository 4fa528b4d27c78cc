-- ===== src/Runtime/Planning.antt =====
-- The plan revision budget: ensurePlanRevisionBudgetInStore of pkg/harness/runtime/budgets.go, and
-- the creation of a plan under it, createPlanWithAudit of lifecycle.go on its path without a
-- transaction runner. The steps are the normalised ones; audit events change no store.
use harness_core.Base.{
  String, ◌≡◌, List, [], ◌∷◌, none, some, arith, if◌then◌else◌, ◌==◌, filter, All, Option-cases,
  Bool-cases, inl, inr, ap, subst, Bool,
}
use harness_core.Base.Int.{ℤ, pos, leb_ℤ, ◌≤ℤ◌, ◌<ℤ◌, max64, inc64-within}
use harness_core.Base.Dict.{values, All-insert}
use harness_core.Base.Result.{Result, ok, err, ◌>>◌, plan_revision_budget_exceeded, Result-cases}
use harness_core.Plan.Spec.{Spec, StepSpec}
use harness_core.Plan.Store.{MemoryStore, list_by_session, latest_by_session, next_revision, create}
use harness_core.Plan.Revisions.{latest_of-All}
use harness_core.Runtime.Budgets.{LoopBudgets}
use harness_core.Runtime.PlanIdentity.{annotate_plan_identity}

-- ensurePlanRevisionBudgetInStore, with a store
unfoldable pub ensure_plan_revision_budget : MemoryStore → String → LoopBudgets → Result (Unit {0})
unfolding latest_by_session
ensure_plan_revision_budget s session_id budgets =
    if leb_ℤ budgets.max_plan_revisions (pos 0)
    then ok tt
    else elim (latest_by_session session_id s) [
      | none ↦ ok tt
      | some latest ↦
          if leb_ℤ budgets.max_plan_revisions latest.revision
          then err plan_revision_budget_exceeded
          else ok tt
    ]

-- createPlanWithAudit
unfoldable pub create_plan :
    String
    → ℤ
    → String
    → String
    → List StepSpec
    → LoopBudgets
    → MemoryStore
    → Result (Spec × MemoryStore)
unfolding ensure_plan_revision_budget create annotate_plan_identity
create_plan id now session_id change_reason steps budgets s = do
  ensure_plan_revision_budget s session_id budgets
  let (created, s') = create id now session_id change_reason steps s
  ok (annotate_plan_identity created, s')

-- Every stored revision is within the budget.
abbrev pub WithinBudget : LoopBudgets → MemoryStore → Type 0
WithinBudget budgets s =
    All (λ p. (pos 0 ≤ℤ p.revision) × (p.revision ≤ℤ budgets.max_plan_revisions)) (values s.plans)

All-filter {κ} :
    (P : Spec → Type κ) (p : Spec → Bool) (ps : List Spec) → All P ps → All P (filter p ps)
unfolding filter
All-filter P p [] h = tt
All-filter P p (q ∷ qs) h = elim (Bool-cases (p q)) [
  | inl e ↦ rw e (h.0, All-filter P p qs h.1)
  | inr e ↦ rw e (All-filter P p qs h.1)
]

next-within :
    (s : MemoryStore) (session_id : String) (budgets : LoopBudgets) {u : Unit {0}}
    → pos 0 <ℤ budgets.max_plan_revisions
    → budgets.max_plan_revisions ≤ℤ max64
    → WithinBudget budgets s
    → ensure_plan_revision_budget s session_id budgets ≡ ok u
    → let next = next_revision (latest_by_session session_id s) in
      (pos 0 ≤ℤ next) × (next ≤ℤ budgets.max_plan_revisions)
unfolding ensure_plan_revision_budget latest_by_session list_by_session
next-within s session_id budgets positive bounded within allowed =
    elim (Option-cases (latest_by_session session_id s)) [
      | inl e ↦ rw e (omega arith)
      | inr (latest, e) ↦
          let fits =
            latest_of-All (λ p. (pos 0 ≤ℤ p.revision) × (p.revision ≤ℤ budgets.max_plan_revisions))
              (list_by_session session_id s) e
              (All-filter (λ p. (pos 0 ≤ℤ p.revision) × (p.revision ≤ℤ budgets.max_plan_revisions))
                (λ p. p.session_id == session_id) (values s.plans) within) in
          let below : latest.revision <ℤ budgets.max_plan_revisions = ground (arith, e) in
          rw e (inc64-within latest.revision budgets.max_plan_revisions fits.0 below bounded)
    ]

abbrev store_of : Result (Spec × MemoryStore) → MemoryStore
store_of (ok (plan, s)) = s
store_of (err e) = record { plans = [] }

-- A plan that is created under a positive revision budget keeps every stored revision, its own
-- included, between 0 and the budget, whatever its identifier and session are.
pub create_plan-WithinBudget :
    (id : String) (now : ℤ) (session_id change_reason : String) (steps : List StepSpec)
    (budgets : LoopBudgets) (s : MemoryStore) {plan : Spec} {s' : MemoryStore}
    → pos 0 <ℤ budgets.max_plan_revisions
    → budgets.max_plan_revisions ≤ℤ max64
    → WithinBudget budgets s
    → create_plan id now session_id change_reason steps budgets s ≡ ok (plan, s')
    → WithinBudget budgets s'
unfolding create_plan create ensure_plan_revision_budget
create_plan-WithinBudget id now session_id change_reason steps budgets s {plan} {s'} positive
      bounded within h =
    elim (Result-cases (ensure_plan_revision_budget s session_id budgets)) [
      | inr (e, refused) ↦ absurd (cc (rw (refused, create_plan) at h))
      | inl (u, allowed) ↦
          let made = create id now session_id change_reason steps s in
          let same : made.1 ≡ s' = ap store_of (rw (allowed, create_plan) at h) in
          subst (WithinBudget budgets) same (
            All-insert (λ p. (pos 0 ≤ℤ p.revision) × (p.revision ≤ℤ budgets.max_plan_revisions)) id
              made.0 s.plans (next-within s session_id budgets positive bounded within allowed)
              within)
    ]
