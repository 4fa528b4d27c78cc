-- ===== src/Plan/Revisions.antt =====
-- The revisions of a session's plan: pkg/harness/plan/store.go, and the revision budget of
-- pkg/harness/runtime/budgets.go.
use harness_core.Base.{
  String, ◌≡◌, refl, List, [], ◌∷◌, ◌++◌, none, some, arith, eq_iff, ◌==◌, if◌then◌else◌, filter,
  All, All-imp, subst, Bool-cases, inl, inr, ap, ◌∙◌,
}
use harness_core.Base.Int.{ℤ, pos, ltb_ℤ, ◌≤ℤ◌, ◌<ℤ◌, max64, inc64-above}
use harness_core.Base.Dict.{lookup, insert, values, values-insert_new}
use harness_core.Plan.Spec.{Spec, StepSpec}
use harness_core.Plan.Store.{
  MemoryStore, list_by_session, latest_from, latest_of, latest_by_session, next_revision, create,
}

latest_from-max :
    (p : Spec) (ps : List Spec)
    → (p.revision ≤ℤ (latest_from p ps).revision)
      × All (λ q. q.revision ≤ℤ (latest_from p ps).revision) ps
unfolding latest_from
latest_from-max p [] = (omega arith, tt)
latest_from-max p (q ∷ qs) =
    let (first, rest) = latest_from-max (if ltb_ℤ p.revision q.revision then q else p) qs in
    (ground (arith, first), (ground (arith, first), rest))

latest_from-All {κ} :
    (P : Spec → Type κ) (p : Spec) (ps : List Spec) → All P (p ∷ ps) → P (latest_from p ps)
unfolding latest_from
latest_from-All P p [] h = h.0
latest_from-All P p (q ∷ qs) h = elim (Bool-cases (ltb_ℤ p.revision q.revision)) [
  | inl e ↦ rw e (latest_from-All P q qs h.1)
  | inr e ↦ rw e (latest_from-All P p qs (h.0, h.1.1))
]

latest_from-append :
    (p : Spec) (ps : List Spec) (q : Spec)
    → latest_from p (ps ++ q ∷ [])
      ≡ (if ltb_ℤ (latest_from p ps).revision q.revision then q else latest_from p ps)
unfolding latest_from
latest_from-append p [] q = refl
latest_from-append p (x ∷ ps) q =
    latest_from-append (if ltb_ℤ p.revision x.revision then x else p) ps q

filter-append :
    (session_id : String) (ps : List Spec) (q : Spec)
    → q.session_id ≡ session_id
    → filter (λ p. p.session_id == session_id) (ps ++ q ∷ [])
      ≡ filter (λ p. p.session_id == session_id) ps ++ q ∷ []
unfolding filter
filter-append session_id [] q h = ground (arith, eq_iff q.session_id session_id)
filter-append session_id (p ∷ ps) q h = elim (Bool-cases (p.session_id == session_id)) [
  | inl e ↦ rw e (ap (◌∷◌ p) (filter-append session_id ps q h))
  | inr e ↦ rw e (filter-append session_id ps q h)
]

latest_of-max :
    (ps : List Spec) (latest : Spec)
    → latest_of ps ≡ some latest
    → All (λ q. q.revision ≤ℤ latest.revision) ps
latest_of-max [] latest h = tt
latest_of-max (p ∷ ps) latest h =
    let same : latest_from p ps ≡ latest = cc in
    subst (λ l. All (λ q. q.revision ≤ℤ l.revision) (p ∷ ps)) same (latest_from-max p ps)

-- The latest plan is one of those listed.
pub latest_of-All {κ} :
    (P : Spec → Type κ) (ps : List Spec) {latest : Spec}
    → latest_of ps ≡ some latest
    → All P ps
    → P latest
latest_of-All P [] h all = cc
latest_of-All P (p ∷ ps) h all = subst P (cc) (latest_from-All P p ps all)

abbrev IsSmall : Spec → Type 0
IsSmall q = (pos 0 ≤ℤ q.revision) × (q.revision <ℤ max64)

-- A plan with the next revision, put last, is the latest.
latest_of-append :
    (ps : List Spec) (plan : Spec)
    → All IsSmall ps
    → plan.revision ≡ next_revision (latest_of ps)
    → (latest_of (ps ++ plan ∷ []) ≡ some plan) × All (λ q. q.revision <ℤ plan.revision) ps
unfolding latest_from
latest_of-append [] plan small e = (refl, tt)
latest_of-append (p ∷ ps) plan small e =
    let (low, high) = latest_from-All IsSmall p ps small in
    let above : (latest_from p ps).revision <ℤ plan.revision =
      rw e (inc64-above (latest_from p ps).revision low high) in
    (
      ap some (latest_from-append p ps plan ∙ ground arith),
      All-imp (λ q h. omega arith) (p ∷ ps) (latest_from-max p ps),
    )

-- The latest plan of a session is one of highest revision among the session's plans.
pub latest-max :
    (session_id : String) (s : MemoryStore) {latest : Spec}
    → latest_by_session session_id s ≡ some latest
    → All (λ q. q.revision ≤ℤ latest.revision) (list_by_session session_id s)
unfolding latest_by_session
latest-max session_id s {latest} h = latest_of-max (list_by_session session_id s) latest h

-- A plan that is created under an identifier not in use becomes the latest of its session, with the
-- revision next after the latest before it (1 for the first plan), which is higher than that of
-- every plan that the session had. The revisions so far are non-negative and below the largest `int`.
pub create-latest :
    (id : String) (now : ℤ) (session_id change_reason : String) (steps : List StepSpec)
    (s : MemoryStore)
    → lookup id s.plans ≡ none
    → All (λ q. (pos 0 ≤ℤ q.revision) × (q.revision <ℤ max64)) (list_by_session session_id s)
    → let (plan, s') = create id now session_id change_reason steps s in
      (latest_by_session session_id s' ≡ some plan)
      × (plan.revision ≡ next_revision (latest_by_session session_id s))
      × All (λ q. q.revision <ℤ plan.revision) (list_by_session session_id s)
unfolding create list_by_session
create-latest id now session_id change_reason steps s fresh small =
    let plan = (create id now session_id change_reason steps s).0 in
    let listed : list_by_session session_id (record { plans = insert id plan s.plans })
        ≡ list_by_session session_id s ++ plan ∷ [] =
      ap (filter (λ p. p.session_id == session_id)) (values-insert_new id plan s.plans fresh)
      ∙ filter-append session_id (values s.plans) plan refl in
    let (latest, below) = latest_of-append (list_by_session session_id s) plan small refl in
    (ap latest_of listed ∙ latest, refl, below)
