-- ===== src/Runtime/Coordination/Held.antt =====
-- How long a claimed session stays with its worker: pkg/harness/runtime/coordination.go.
use text.Mathlib.TextLemmas.{append-eq-nil_iff}
use Prim.Native.String.{◌++◌}
use harness_core.Base.{String, ◌≡◌, ◌≢◌, refl, ◌∙◌, true, false, some, arith, eq_iff, ◌/◌}
use harness_core.Base.Int.{ℤ, pos, negsuc, ◌<ℤ◌, ◌≤ℤ◌, add64, milliseconds, leb_ℤ, max64}
use harness_core.Base.Dict.{lookup, insert}
use harness_core.Base.Result.{ok}
use harness_core.Session.State.{State, ClaimMode, lease_held_at, lease_active_at}
use harness_core.Session.Store.{
  MemoryStore, grant, renewed, released, claim_next, renew_lease, release_lease,
}
use harness_core.Session.Claim.{IsValid, claim_next-some}
use harness_core.Session.Handover.{grant-held}
use harness_core.Runtime.Coordination.{claim_session, renew_session_lease, release_session_lease}

lse-ne : (uuid : String) → "lse_" ++ uuid ≢ ""
lse-ne uuid h = cc (((append-eq-nil_iff {p = "lse_"} {q = uuid}).0 h).0)

-- What a claim hands out.
claim_session_inv :
    (mode : ClaimMode) (lease_ttl : ℤ) (uuid : String) (now : ℤ) (s : MemoryStore) {got : State}
    {s' : MemoryStore}
    → IsValid s
    → claim_session mode lease_ttl uuid now s ≡ ok (some got, s')
    → (st : State) × (got ≡ grant ("lse_" ++ uuid) now (add64 now (milliseconds lease_ttl)) st)
      × (lookup got.session_id s'.sessions ≡ some got)
unfolding claim_session
claim_session_inv mode lease_ttl uuid now s {got} {s'} valid h =
    let claimed : claim_next mode ("lse_" ++ uuid) now (add64 now (milliseconds lease_ttl)) s
        ≡ (some got, s') =
      ground arith in
    let (st, found, free, granted, written, least) =
      claim_next-some mode ("lse_" ++ uuid) now (add64 now (milliseconds lease_ttl)) s valid
        claimed in
    (
      st,
      granted,
      written got.session_id ∙ rw granted (ground (arith, eq_iff st.session_id st.session_id)),
    )

-- A worker that has claimed a session holds it at every instant before the lease expires, which is
-- the claim's time plus the whole milliseconds of the time to live: it can renew the lease then, for
-- any positive time to live, and it can release it. The store is valid.
pub claim_session-held :
    (mode : ClaimMode) (lease_ttl : ℤ) (uuid : String) (now : ℤ) (s : MemoryStore)
    (later lease_ttl' : ℤ) {got : State} {s' : MemoryStore}
    → IsValid s
    → claim_session mode lease_ttl uuid now s ≡ ok (some got, s')
    → later <ℤ add64 now (milliseconds lease_ttl)
    → pos 0 <ℤ lease_ttl'
    → ((after : MemoryStore) × (renew_session_lease got.session_id got.lease_id lease_ttl' later s'
          ≡ ok (renewed later (add64 later (milliseconds lease_ttl')) got, after)))
      × ((after : MemoryStore) × (release_session_lease got.session_id got.lease_id later s'
            ≡ ok (released later got, after)))
unfolding renew_session_lease release_session_lease renew_lease release_lease
claim_session-held mode lease_ttl uuid now s later lease_ttl' {got} {s'} valid h early positive =
    let (st, granted, here) = claim_session_inv mode lease_ttl uuid now s valid h in
    let held : lease_held_at got got.lease_id later ≡ true = rw granted (
      grant-held ("lse_" ++ uuid) now (add64 now (milliseconds lease_ttl)) later st (lse-ne uuid)
        early) in
    let open_ttl : leb_ℤ lease_ttl' (pos 0) ≡ false = ground arith in
    (
      (
        record {
          sessions =
              insert got.session_id (renewed later (add64 later (milliseconds lease_ttl')) got)
                s'.sessions;
        },
        rw (open_ttl, renew_session_lease, renew_lease, here, held) refl,
      ),
      (
        record { sessions = insert got.session_id (released later got) s'.sessions },
        rw (release_session_lease, release_lease, here, held) refl,
      ),
    )

no-time :
    (lease_ttl now : ℤ)
    → pos 0 <ℤ lease_ttl
    → lease_ttl <ℤ pos 1000000
    → pos 0 ≤ℤ now
    → now ≤ℤ max64
    → add64 now (milliseconds lease_ttl) ≡ now
unfolding add64
no-time (pos k) (pos n) positive small low high =
    let none_left : k / 1000000 ≡ 0 = omega arith in rw none_left (ground arith)
no-time (pos k) (negsuc n) positive small low high = absurd (omega arith)
no-time (negsuc k) now positive small low high = absurd (omega arith)

-- A positive time to live below a millisecond passes the check that it be positive, but the lease
-- that it gives has expired when it is granted: the worker does not hold the session that the claim
-- hands it. The clock reads a time that is not negative.
pub sub_millisecond_lease :
    (mode : ClaimMode) (lease_ttl : ℤ) (uuid : String) (now : ℤ) (s : MemoryStore) {got : State}
    {s' : MemoryStore}
    → IsValid s
    → pos 0 <ℤ lease_ttl
    → lease_ttl <ℤ pos 1000000
    → pos 0 ≤ℤ now
    → now ≤ℤ max64
    → claim_session mode lease_ttl uuid now s ≡ ok (some got, s')
    → lease_held_at got got.lease_id now ≡ false
unfolding lease_held_at lease_active_at
sub_millisecond_lease mode lease_ttl uuid now s {got} valid positive small low high h =
    let (st, granted, here) = claim_session_inv mode lease_ttl uuid now s valid h in
    let expired : add64 now (milliseconds lease_ttl) ≡ now =
      no-time lease_ttl now positive small low high in
    rw (granted, expired) (ground arith)
