-- ===== src/Approval.antt =====
-- pkg/harness/approval/store.go: approval records, the default resume policy and the in-memory
-- store. The clock's reading and the new identifier are arguments; the mutex makes each method one
-- step.
pub mod Laws
use harness_core.Base.{
  String, List, Bool, true, false, not, ◌||◌, ◌==◌, Option, none, some, if◌then◌else◌, filter,
}
use harness_core.Base.Int.{ℤ, pos, is_zero, eqb_ℤ, ltb_ℤ, inc64}
use harness_core.Base.Text.{str_ltb}
use harness_core.Base.Dict.{Dict, lookup, insert, values}
use harness_core.Base.Sort.{sort}
use harness_core.Base.Result.{
  Result, ok, err, or_error, ◌>>=◌, approval_not_found, approval_version_conflict,
}
use harness_core.Metadata.{Metadata}
use harness_core.Permission.{Decision, allow, deny}
use harness_core.Plan.Spec.{StepSpec}

-- Go string types: a text that is no constant of the package is `unknown`; `""` is one of them.
pub data Reply : Type 0 where
  once always reject : Reply
  unknown : String → Reply

pub data Status : Type 0 where
  pending approved rejected consumed : Status
  unknown : String → Status

pub record Request : Type 0 where
  pub session_id : String
  pub task_id : String
  pub step_id : String
  pub tool_name : String
  pub reason : String
  pub matched_rule : String
  pub step : StepSpec
  pub metadata : Metadata

pub record Record : Type 0 where
  pub approval_id : String
  pub session_id : String
  pub task_id : String
  pub step_id : String
  pub tool_name : String
  pub reason : String
  pub matched_rule : String
  pub status : Status
  pub reply : Reply
  pub step : StepSpec
  pub metadata : Metadata
  pub requested_at : ℤ
  pub responded_at : ℤ
  pub consumed_at : ℤ
  pub version : ℤ
  pub created_at : ℤ
  pub updated_at : ℤ

unfoldable pub valid_reply : Reply → Bool
valid_reply (unknown _) = false
valid_reply _ = true

abbrev pub is_approved : Status → Bool
is_approved approved = true
is_approved _ = false

-- The `switch` of `Resolve`.
abbrev pub decision_of : Reply → Option Decision
decision_of once =
    some (record { action = allow; reason = "approval granted"; matched_rule = "approval/once" })
decision_of always = some (record {
  action = allow;
  reason = "approval previously granted";
  matched_rule = "approval/always";
})
decision_of reject =
    some (record { action = deny; reason = "approval rejected"; matched_rule = "approval/reject" })
decision_of (unknown _) = none

-- DefaultResumePolicy.Resolve
unfoldable pub resolve : Record → StepSpec → Option Decision
resolve rec step =
    if not (is_approved rec.status)
    then none
    else if not (rec.step_id == step.step_id) || not (rec.tool_name == step.action.tool_name)
    then none
    else decision_of rec.reply

pub record MemoryStore : Type 0 where
  pub approvals : Dict Record

-- The record that `CreatePending` builds; its reply is the empty text.
abbrev pub pending_record : String → ℤ → Request → Record
pending_record id now req = record {
  approval_id = id;
  session_id = req.session_id;
  task_id = req.task_id;
  step_id = req.step_id;
  tool_name = req.tool_name;
  reason = req.reason;
  matched_rule = req.matched_rule;
  status = pending;
  reply = unknown "";
  step = req.step;
  metadata = req.metadata;
  requested_at = now;
  responded_at = pos 0;
  consumed_at = pos 0;
  version = pos 1;
  created_at = now;
  updated_at = now;
}

unfoldable pub create_pending : String → ℤ → Request → MemoryStore → Record × MemoryStore
create_pending id now req s =
    let rec = pending_record id now req in (rec, record { approvals = insert id rec s.approvals })

unfoldable pub get : String → MemoryStore → Result Record
get id s = or_error (lookup id s.approvals) approval_not_found

abbrev pub stamped : Record → Record → ℤ → Record
stamped next current now = record next {
  created_at = if is_zero next.created_at then current.created_at else next.created_at;
  updated_at = now;
}

unfoldable pub update : ℤ → Record → MemoryStore → Result MemoryStore
update now next s = do
  current ← or_error (lookup next.approval_id s.approvals) approval_not_found
  if not (eqb_ℤ next.version (inc64 current.version))
      then err approval_version_conflict
      else ok
          (record { approvals = insert next.approval_id (stamped next current now) s.approvals })

-- The comparison of `List`'s sort.
unfoldable pub requested_before : Record → Record → Bool
requested_before a b =
    if eqb_ℤ a.requested_at b.requested_at
    then str_ltb a.approval_id b.approval_id
    else ltb_ℤ a.requested_at b.requested_at

abbrev pub is_listed : String → Record → Bool
is_listed session_id rec = session_id == "" || rec.session_id == session_id

unfoldable pub list : String → MemoryStore → List Record
list session_id s = sort requested_before (filter (is_listed session_id) (values s.approvals))
