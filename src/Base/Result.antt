-- ===== src/Base/Result.antt =====
-- A Go result `(T, error)`: the value, or the sentinel error that
-- `errors.Is` finds; `other` is any other error, by its text, and `joined` is `errors.Join`.
use harness_core.Base.{String, ◌≡◌, ◌⊎◌, inl, inr, refl, Option, none, some}

pub data Error : Type 0 where
  session_not_found session_version_conflict session_lease_not_held : Error
  task_not_found plan_not_found : Error
  approval_not_found approval_version_conflict invalid_reply : Error
  record_not_found runtime_handle_version_conflict runtime_handle_not_active : Error
  context_summary_not_found : Error
  step_backoff_active plan_revision_budget_exceeded : Error
  runtime_budget_exceeded step_retry_budget_exceeded : Error
  invalid_lease_ttl invalid_blocked_runtime_request : Error
  invalid_blocked_runtime_response direct_action_invoke_unsupported : Error
  session_terminal session_awaiting_approval session_blocked : Error
  blocked_runtime_already_active blocked_runtime_not_active blocked_runtime_not_pending : Error
  no_pending_approval approval_not_resolved : Error
  approval_not_pending blocked_runtime_not_found : Error
  other : String → Error
  joined : Error → Error → Error

pub data Result {ℓ} (A : Type ℓ) : Type ℓ where
  ok : A → Result A
  err : Error → Result A

infixl 5 ◌>>=◌ ◌>>◌
-- `if err != nil { return err }`
abbrev pub ◌>>=◌ {ℓ κ} : {A : Type ℓ} {B : Type κ} → Result A → (A → Result B) → Result B
err failure >>= next = err failure
ok value >>= next = next value

abbrev pub ◌>>◌ {κ} : {B : Type κ} → Result (Unit {0}) → Result B → Result B
first >> rest = first >>= λ _. rest

-- `v, ok := m[k]; if !ok { return err }`
abbrev pub or_error {ℓ} : {A : Type ℓ} → Option A → Error → Result A
or_error (some a) e = ok a
or_error none e = err e

pub Result-cases {ℓ} :
    {A : Type ℓ} (r : Result A) → ((a : A) × (r ≡ ok a)) ⊎ ((e : Error) × (r ≡ err e))
Result-cases (ok a) = inl (a, refl)
Result-cases (err e) = inr (e, refl)
