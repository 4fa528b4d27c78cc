-- ===== src/Execution/Listing.antt =====
-- The order in which the execution stores list their records, and what is found in it:
-- pkg/harness/execution/stores.go and blocked_runtime_store.go.
use harness_core.Base.{String, ◌≡◌, ◌↔◌, Bool, true, All, List}
use harness_core.Base.Dict.{Dict, values}
use harness_core.Base.Sort.{IsSorted}
use harness_core.Execution.Items.{is_of}
use harness_core.Execution.Attempts
use harness_core.Execution.Actions
use harness_core.Execution.Verifications
use harness_core.Execution.Blocked

-- The records of a map that match a session, in an order: sorted, and exactly these.
abbrev pub Lists :
    {V : Type 0} → (V → String) → (V → V → Bool) → String → Dict V → List V → (V → Type 0) → Type 0
Lists session less session_id items listed P =
    IsSorted less listed
    × (All P listed ↔ All (λ v. is_of session session_id v ≡ true → P v) (values items))
