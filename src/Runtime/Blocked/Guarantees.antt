-- ===== src/Runtime/Blocked/Guarantees.antt =====
-- What the life cycle of blocked runtimes guarantees of the stores:
-- pkg/harness/runtime/blocked_runtime_lifecycle.go.
use harness_core.Base.{
  String, ◌≡◌, refl, sym, ap, ◌∙◌, none, some, true, List, Bool-cases, inl, inr, arith,
}
use harness_core.Base.Int.{ℤ}
use harness_core.Base.Dict.{lookup}
use harness_core.Session.State.{State, ClaimMode, claimable_state}
use harness_core.Session.Store
use harness_core.Session.Claim.{claim_next-some}
use harness_core.Execution.Blocked.{BlockedRuntimeRecord}
use harness_core.Runtime.Blocked.{is_over, is_blocked}
use harness_core.Runtime.Blocked.Machine.{IsSound, Moves-IsSound, Moves-final}
use harness_core.Runtime.Blocked.Memory.{Stores, IsValid}
use harness_core.Runtime.Blocked.Calls.{Call, run_all, AllFresh, waiting, view}
use harness_core.Runtime.Blocked.Writes.{view-waits, view-status}
use harness_core.Runtime.Blocked.Refinement.{run_all-Refines}

pub run_all-IsSound :
    (cs : List Call) (w : Stores)
    → IsValid w
    → AllFresh cs w
    → IsSound (view w)
    → IsSound (view (run_all cs w))
run_all-IsSound cs w valid fresh sound = Moves-IsSound sound (run_all-Refines cs w valid fresh).0

-- A blocked runtime that was resumed or aborted keeps that status, whatever calls follow. The stores
-- keep each record under its identifier, and new identifiers are new.
pub ended_stays :
    (cs : List Call) (w : Stores) (id : String) (rec : BlockedRuntimeRecord)
    → IsValid w
    → AllFresh cs w
    → lookup id w.runtimes.items ≡ some rec
    → is_over rec.status ≡ true
    → (view (run_all cs w)).status id ≡ some rec.status
ended_stays cs w id rec valid fresh found over =
    Moves-final id rec.status (view-status w id found) over (run_all-Refines cs w valid fresh).0

claimable-not-waiting :
    (st : State) (mode : ClaimMode) (now : ℤ)
    → claimable_state st mode now ≡ true
    → waiting (some st) ≡ none
unfolding claimable_state
claimable-not-waiting st mode now h = elim (Bool-cases (is_blocked st.execution_state)) [
  | inl e ↦ absurd (ground arith)
  | inr e ↦ rw e refl
]

-- No worker is ever given a session that waits on a blocked runtime. Each session is stored once,
-- under its identifier.
pub claimed-not-waiting :
    (mode : ClaimMode) (lease_id : String) (now expires_at : ℤ) (w : Stores) (got : State)
    (s' : Store.MemoryStore)
    → IsValid w
    → Store.claim_next mode lease_id now expires_at w.sessions ≡ (some got, s')
    → (view w).waits_on got.session_id ≡ none
claimed-not-waiting mode lease_id now expires_at w got s' valid claimed =
    let (st, found, free, granted, written, least) =
      claim_next-some mode lease_id now expires_at w.sessions valid.0 claimed in
    let same : st.session_id ≡ got.session_id = ap (λ v. v.session_id) (sym granted) in
    ap (view w).waits_on (sym same)
    ∙ view-waits w st.session_id found
    ∙ claimable-not-waiting st mode now free
