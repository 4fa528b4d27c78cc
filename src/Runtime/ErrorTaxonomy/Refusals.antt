-- ===== src/Runtime/ErrorTaxonomy/Refusals.antt =====
-- Which refusals of the session store are worth another try: pkg/harness/session/store.go with
-- pkg/harness/runtime/error_taxonomy.go.
use harness_core.Base.{String, ◌≡◌, ◌↔◌, ◌⊎◌, true, some, Option-cases, inl, inr, arith}
use harness_core.Base.Int.{ℤ}
use harness_core.Base.Dict.{lookup}
use harness_core.Base.Result.{Error, err}
use harness_core.Session.State.{State}
use harness_core.Session.Store.{MemoryStore, update, renew_lease, release_lease}
use harness_core.Runtime.ErrorTaxonomy.{is_retryable}

-- An update, a renewal or a release that the session store refuses is retryable exactly if the
-- session is stored: a conflict or a lost lease may pass, a missing session stays missing.
pub refusal-retryable :
    (now expires_at : ℤ) (next : State) (lease_id : String) (s : MemoryStore) (e : Error)
    → (update now next s ≡ err e)
      ⊎ ((renew_lease next.session_id lease_id now expires_at s ≡ err e)
          ⊎ (release_lease next.session_id lease_id now s ≡ err e))
    → (is_retryable (some e) ≡ true)
      ↔ ((st : State) × (lookup next.session_id s.sessions ≡ some st))
unfolding is_retryable update renew_lease release_lease
refusal-retryable now expires_at next lease_id s e h =
    elim (Option-cases (lookup next.session_id s.sessions)) [
      | inl missing ↦ ((λ t. absurd (ground arith)), (λ there. absurd (cc (missing, there.1))))
      | inr (st, there) ↦ ((λ _. (st, there)), (λ _. ground arith))
    ]
