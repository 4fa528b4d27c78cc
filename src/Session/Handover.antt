-- ===== src/Session/Handover.antt =====
-- A claim and the release that ends it: pkg/harness/session/store.go.
use harness_core.Base.{String, ◌≡◌, ◌≢◌, true, some, arith, eq_iff}
use harness_core.Base.Int.{ℤ, ◌<ℤ◌}
use harness_core.Base.Dict.{lookup, insert, lookup-insert_self}
use harness_core.Base.Result.{ok}
use harness_core.Session.State.{State, ClaimMode, claimable_state, lease_held_at}
use harness_core.Session.Store.{
  MemoryStore, grant, renewed, released, claim_next, renew_lease, release_lease,
}
use harness_core.Session.Claim.{IsValid, claim_next-some}

claimable-released-grant :
    (mode : ClaimMode) (lease_id : String) (now expires_at t later : ℤ) (st : State)
    → claimable_state st mode now ≡ true
    → claimable_state (released t (grant lease_id now expires_at st)) mode later ≡ true
unfolding claimable_state
claimable-released-grant ClaimMode.runnable lease_id now expires_at t later st free =
    ground (arith, eq_iff "" "")
claimable-released-grant ClaimMode.recoverable lease_id now expires_at t later st free =
    ground (arith, eq_iff "" "")
claimable-released-grant (ClaimMode.unknown m) lease_id now expires_at t later st free =
    ground (arith, eq_iff "" "")

pub grant-held :
    (lease_id : String) (now expires_at t : ℤ) (st : State)
    → lease_id ≢ ""
    → t <ℤ expires_at
    → lease_held_at (grant lease_id now expires_at st) lease_id t ≡ true
unfolding lease_held_at
grant-held lease_id now expires_at t st named early =
    ground (arith, eq_iff lease_id "", eq_iff lease_id lease_id)

renewed-grant-held :
    (lease_id : String) (now expires_at t until later : ℤ) (st : State)
    → lease_id ≢ ""
    → later <ℤ until
    → lease_held_at (renewed t until (grant lease_id now expires_at st)) lease_id later ≡ true
unfolding lease_held_at
renewed-grant-held lease_id now expires_at t until later st named early =
    ground (arith, eq_iff lease_id "", eq_iff lease_id lease_id)

module _ (mode : ClaimMode) (lease_id : String) (now expires_at t : ℤ) (s : MemoryStore) {a : State}
    {s' : MemoryStore} (valid : IsValid s) (named : lease_id ≢ "") (early : t <ℤ expires_at)
    (claimed : claim_next mode lease_id now expires_at s ≡ (some a, s')) where
  lookup-claimed :
      (st : State) × (lookup a.session_id s'.sessions ≡ some a)
      × (lease_held_at a lease_id t ≡ true)
      × (claimable_state st mode now ≡ true)
      × (a ≡ grant lease_id now expires_at st)
  lookup-claimed =
      let (st, found, free, granted, written, least) =
        claim_next-some mode lease_id now expires_at s valid claimed in
      (
        st,
        ground (arith, written a.session_id, eq_iff st.session_id a.session_id),
        rw granted (grant-held lease_id now expires_at t st named early),
        free,
        granted,
      )

  -- A worker that claimed a session under a named lease can, until the lease expires, release it,
  -- and the released session is claimable again in the same mode, at any time. The store is valid.
  pub release-claim :
      (later : ℤ)
      → (b : State) × (s'' : MemoryStore) × (release_lease a.session_id lease_id t s' ≡ ok (b, s''))
        × (lookup a.session_id s''.sessions ≡ some b)
        × (claimable_state b mode later ≡ true)
  unfolding release_lease
  release-claim later =
      let (st, here, held, free, granted) = lookup-claimed in
      (
        released t a,
        record { sessions = insert a.session_id (released t a) s'.sessions },
        rw (here, release_lease, held),
        lookup-insert_self a.session_id (released t a) s'.sessions,
        rw granted (claimable-released-grant mode lease_id now expires_at t later st free),
      )

  -- Until the lease expires the same worker can extend it, and holds it up to the new expiry.
  pub renew-claim :
      (until later : ℤ)
      → later <ℤ until
      → (b : State) × (s'' : MemoryStore) × (renew_lease a.session_id lease_id t until s'
          ≡ ok (b, s''))
        × (lookup a.session_id s''.sessions ≡ some b)
        × (lease_held_at b lease_id later ≡ true)
  unfolding renew_lease
  renew-claim until later h =
      let (st, here, held, free, granted) = lookup-claimed in
      (
        renewed t until a,
        record { sessions = insert a.session_id (renewed t until a) s'.sessions },
        rw (here, renew_lease, held),
        lookup-insert_self a.session_id (renewed t until a) s'.sessions,
        rw granted (renewed-grant-held lease_id now expires_at t until later st named h),
      )
