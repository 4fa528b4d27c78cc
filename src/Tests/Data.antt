-- ===== src/Tests/Data.antt =====
-- Sessions, steps and budgets that the tests share.
use harness_core.Base.{String, [], ◌∷◌, ◌≡◌, ◌≢◌, refl, false, ◌==◌, arith, eq_iff}
use harness_core.Base.Int.{pos}
use harness_core.Base.Dict.{lookup}
use harness_core.Metadata.{text}
use harness_core.Plan.Spec.{Spec, Status, StepSpec, StepStatus}
use harness_core.Session.State.{State}
use harness_core.Session.Store.{MemoryStore, new_session, grant}
use harness_core.Session.Claim.{IsValid}
use harness_core.Runtime.Budgets.{LoopBudgets}

-- Two texts that the comparison tells apart.
pub differ : (a b : String) → (a == b) ≡ false → a ≢ b
differ a b h = ground (arith, eq_iff a b)

-- A session that was created at time 1, alone in its store.
abbrev pub created : State
created = new_session "s1" (pos 1) "title" "goal"

abbrev pub one_session : MemoryStore
one_session = record { sessions = ("s1", created) ∷ [] }

pub one_session-IsValid : IsValid one_session
unfolding lookup
one_session-IsValid = (refl, refl, tt)

-- The same session, claimed at time 5 until time 9.
abbrev pub claimed : State
claimed = grant "lse_1" (pos 5) (pos 9) created

abbrev pub claimed_session : MemoryStore
claimed_session = record { sessions = ("s1", claimed) ∷ [] }

pub claimed_session-IsValid : IsValid claimed_session
unfolding lookup
claimed_session-IsValid = (refl, refl, tt)

-- A step of the plan `p1` that tries three times, with a backoff of 50 ms.
abbrev pub step_with : String → StepStatus → StepSpec
step_with strategy status = record {
  plan_id = "p1";
  plan_revision = pos 1;
  step_id = "build";
  title = "";
  action = record { tool_name = "shell.exec"; tool_version = ""; args = [] };
  verify = record { mode = "all"; checks = [] };
  on_fail = record { strategy = strategy; max_retries = pos 2; backoff_ms = pos 50 };
  status = status;
  attempt = pos 3;
  reason = "";
  metadata = ("aggregate_id", text "a1") ∷ [];
  started_at = pos 0;
  finished_at = pos 0;
}

abbrev pub plan_with : StepSpec → Spec
plan_with step = record {
  plan_id = "p1";
  session_id = "s1";
  revision = pos 1;
  status = Status.active;
  change_reason = "";
  steps = step ∷ [];
  created_at = pos 1;
  updated_at = pos 1;
}

abbrev pub budgets : LoopBudgets
budgets = record {
  max_steps = pos 8;
  max_retries_per_step = pos 3;
  max_plan_revisions = pos 8;
  max_total_runtime_ms = pos 1000;
  max_tool_output_chars = pos 100;
}
