-- ===== src/Runtime/ErrorTaxonomy.antt =====
-- pkg/harness/runtime/error_taxonomy.go: what kind of error it is, and whether to try again.
pub mod Refusals
use harness_core.Base.{ℕ, Bool, true, false, Option, none, some, leb, if◌then◌else◌}
use harness_core.Base.Result.{
  Error, session_not_found, session_version_conflict, session_lease_not_held, approval_not_found,
  approval_version_conflict, invalid_reply, record_not_found, runtime_handle_version_conflict,
  runtime_handle_not_active, context_summary_not_found, step_backoff_active,
  plan_revision_budget_exceeded, runtime_budget_exceeded, step_retry_budget_exceeded,
  invalid_lease_ttl, invalid_blocked_runtime_request, invalid_blocked_runtime_response,
  direct_action_invoke_unsupported, session_terminal, session_awaiting_approval, session_blocked,
  blocked_runtime_already_active, blocked_runtime_not_active, blocked_runtime_not_pending,
  no_pending_approval, approval_not_resolved, joined,
}

pub data ErrorKind : Type 0 where
  unknown conflict not_found budget lease runtime_handle invalid state : ErrorKind

pub record ErrorInfo : Type 0 where
  pub kind : ErrorKind
  pub retryable : Bool

abbrev pub info : ErrorKind → Bool → ErrorInfo
info kind retryable = record { kind = kind; retryable = retryable }

-- The place in the `switch` of the case that gives this answer.
abbrev pub rank : ErrorKind → Bool → ℕ
rank conflict _ = 0
rank not_found _ = 1
rank budget true = 2
rank budget false = 3
rank lease _ = 4
rank runtime_handle _ = 5
rank invalid _ = 6
rank state _ = 7
rank unknown _ = 8

-- `errors.Is` finds both parts of a joined error: the earlier case of the `switch` answers.
abbrev pub earlier : ErrorInfo → ErrorInfo → ErrorInfo
earlier a b = if leb (rank a.kind a.retryable) (rank b.kind b.retryable) then a else b

-- The `switch` of ClassifyError.
unfoldable pub classify : Error → ErrorInfo
classify session_version_conflict = info conflict true
classify approval_version_conflict = info conflict true
classify runtime_handle_version_conflict = info conflict true
classify session_not_found = info not_found false
classify approval_not_found = info not_found false
classify record_not_found = info not_found false
classify context_summary_not_found = info not_found false
classify step_backoff_active = info budget true
classify plan_revision_budget_exceeded = info budget false
classify runtime_budget_exceeded = info budget false
classify step_retry_budget_exceeded = info budget false
classify session_lease_not_held = info lease true
classify runtime_handle_not_active = info runtime_handle false
classify invalid_reply = info invalid false
classify invalid_lease_ttl = info invalid false
classify invalid_blocked_runtime_request = info invalid false
classify invalid_blocked_runtime_response = info invalid false
classify direct_action_invoke_unsupported = info invalid false
classify session_terminal = info state false
classify session_awaiting_approval = info state false
classify session_blocked = info state false
classify blocked_runtime_already_active = info state false
classify blocked_runtime_not_active = info state false
classify blocked_runtime_not_pending = info state false
classify no_pending_approval = info state false
classify approval_not_resolved = info state false
classify (joined a b) = earlier (classify a) (classify b)
classify _ = info unknown false

-- ClassifyError; `none` is the nil error.
unfoldable pub classify_error : Option Error → ErrorInfo
unfolding classify
classify_error none = info unknown false
classify_error (some e) = classify e

-- IsRetryable
unfoldable pub is_retryable : Option Error → Bool
unfolding classify_error
is_retryable e = (classify_error e).retryable
