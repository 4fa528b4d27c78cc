-- ===== src/Plan/Store.antt =====
-- pkg/harness/plan/store.go: the in-memory store of plan revisions. The clock's reading and the
-- new identifier are arguments; the mutex makes each method one step, but for `Create`,
-- which reads the latest plan before it locks.
use harness_core.Base.{String, List, [], ◌∷◌, map, ◌==◌, Option, none, some, if◌then◌else◌, filter}
use harness_core.Base.Int.{ℤ, pos, inc64, ltb_ℤ}
use harness_core.Base.Dict.{Dict, lookup, insert, values}
use harness_core.Base.Result.{Result, ok, or_error, ◌>>=◌, plan_not_found}
use harness_core.Plan.Spec.{Spec, Status, StepSpec, StepStatus}

pub record MemoryStore : Type 0 where
  pub plans : Dict Spec

unfoldable pub get : String → MemoryStore → Result Spec
get id s = or_error (lookup id s.plans) plan_not_found

unfoldable pub list_by_session : String → MemoryStore → List Spec
list_by_session session_id s = filter (λ p. p.session_id == session_id) (values s.plans)

-- The loop of `LatestBySession`, from the first plan on.
unfoldable pub latest_from : Spec → List Spec → Spec
latest_from latest [] = latest
latest_from latest (p ∷ ps) =
    latest_from (if ltb_ℤ latest.revision p.revision then p else latest) ps

abbrev pub latest_of : List Spec → Option Spec
latest_of [] = none
latest_of (p ∷ ps) = some (latest_from p ps)

unfoldable pub latest_by_session : String → MemoryStore → Option Spec
unfolding list_by_session latest_from
latest_by_session session_id s = latest_of (list_by_session session_id s)

abbrev pub next_revision : Option Spec → ℤ
next_revision none = pos 1
next_revision (some latest) = inc64 latest.revision

abbrev pub status_or_pending : StepStatus → StepStatus
status_or_pending StepStatus.unset = StepStatus.pending
status_or_pending status = status

-- The loop of `Create` over the cloned steps.
abbrev pub cloned : List StepSpec → List StepSpec
cloned = map (λ (st : StepSpec). record st { status = status_or_pending st.status })

-- The plan that `Create` builds, from the latest one that it has read.
abbrev pub new_plan : String → ℤ → String → String → List StepSpec → Option Spec → Spec
new_plan id now session_id change_reason steps latest = record {
  plan_id = id;
  session_id = session_id;
  revision = next_revision latest;
  status = Status.active;
  change_reason = change_reason;
  steps = cloned steps;
  created_at = now;
  updated_at = now;
}

-- `s.plans[plan.PlanID] = plan`, under the lock
abbrev pub put : Spec → MemoryStore → MemoryStore
put plan s = record { plans = insert plan.plan_id plan s.plans }

-- The read and the write, with no other creation between them.
unfoldable pub create :
    String → ℤ → String → String → List StepSpec → MemoryStore → Spec × MemoryStore
unfolding latest_by_session
create id now session_id change_reason steps s =
    let plan = new_plan id now session_id change_reason steps (latest_by_session session_id s) in
    (plan, put plan s)

unfoldable pub update : ℤ → Spec → MemoryStore → Result MemoryStore
update now next s = do
  _ ← or_error (lookup next.plan_id s.plans) plan_not_found
  ok (record { plans = insert next.plan_id (record next { updated_at = now }) s.plans })
