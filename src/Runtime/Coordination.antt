-- ===== src/Runtime/Coordination.antt =====
-- How workers take, keep and give back sessions: pkg/harness/runtime/coordination.go, on its path
-- without a transaction runner. Audit events and observability change no store. The clock's
-- reading and the new identifier are arguments.
pub mod Held
use Prim.Native.String.{◌++◌}
use harness_core.Base.{String, Option, none, some, if◌then◌else◌}
use harness_core.Base.Int.{ℤ, pos, leb_ℤ, add64, milliseconds}
use harness_core.Base.Result.{Result, ok, err, invalid_lease_ttl}
use harness_core.Session.State.{State, ClaimMode}
use harness_core.Session.Store.{MemoryStore, claim_next, renew_lease, release_lease}

-- claimSession; the result's `none` is its `ok == false`.
unfoldable pub claim_session :
    ClaimMode → ℤ → String → ℤ → MemoryStore → Result (Option State × MemoryStore)
unfolding claim_next
claim_session mode lease_ttl uuid now s =
    if leb_ℤ lease_ttl (pos 0)
    then err invalid_lease_ttl
    else ok (claim_next mode ("lse_" ++ uuid) now (add64 now (milliseconds lease_ttl)) s)

-- RenewSessionLease
unfoldable pub renew_session_lease :
    String → String → ℤ → ℤ → MemoryStore → Result (State × MemoryStore)
unfolding renew_lease
renew_session_lease session_id lease_id lease_ttl now s =
    if leb_ℤ lease_ttl (pos 0)
    then err invalid_lease_ttl
    else renew_lease session_id lease_id now (add64 now (milliseconds lease_ttl)) s

-- ReleaseSessionLease
unfoldable pub release_session_lease :
    String → String → ℤ → MemoryStore → Result (State × MemoryStore)
unfolding release_lease
release_session_lease session_id lease_id now s = release_lease session_id lease_id now s
