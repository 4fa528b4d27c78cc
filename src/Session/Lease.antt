-- ===== src/Session/Lease.antt =====
-- What holding a lease guarantees: pkg/harness/session/store.go, over sequences of store calls.
use harness_core.Base.{
  String, ◌≡◌, ◌≢◌, ◌⊎◌, refl, true, false, some, List, [], ◌∷◌, arith, eq_iff, Option-cases,
  Bool-cases, inl, inr, All, ap, ◌∙◌,
}
use harness_core.Base.Int.{ℤ, ◌<ℤ◌}
use harness_core.Base.Dict.{
  lookup, insert, insert-IsKeyed_of_eq, lookup-IsKeyed, lookup-insert_ne, lookup_unique,
}
use harness_core.Base.Result.{Result, ok, err}
use harness_core.Session.State.{State, ClaimMode, claimable_state, lease_held_at}
use harness_core.Session.Store.{
  MemoryStore, grant, renewed, released, next_claimable, claim_next, renew_lease, release_lease,
}
use harness_core.Session.Claim.{IsValid, next-some, claim_next-IsValid}

-- The lease calls of the store.
pub data Call : Type 0 where
  claim : ClaimMode → String → ℤ → ℤ → Call
  renew : String → String → ℤ → ℤ → Call
  release : String → String → ℤ → Call

-- A call that returns an error leaves the store as it was.
abbrev pub store_after : MemoryStore → Result (State × MemoryStore) → MemoryStore
store_after s (ok (_, s')) = s'
store_after s (err e) = s

unfoldable pub run : Call → MemoryStore → MemoryStore
run (claim mode lease_id now expires_at) s = (claim_next mode lease_id now expires_at s).1
run (renew id lease_id now expires_at) s = store_after s (renew_lease id lease_id now expires_at s)
run (release id lease_id now) s = store_after s (release_lease id lease_id now s)

unfoldable pub run_all : List Call → MemoryStore → MemoryStore
unfolding run
run_all [] s = s
run_all (c ∷ cs) s = run_all cs (run c s)

held-lease :
    (st : State) (lease_id : String) (now : ℤ)
    → lease_held_at st lease_id now ≡ true
    → lease_id ≡ st.lease_id
unfolding lease_held_at
held-lease st lease_id now h = ground (arith, eq_iff st.lease_id lease_id)

active-not-claimable :
    (st : State) (mode : ClaimMode) (now : ℤ)
    → st.lease_id ≢ ""
    → now <ℤ st.lease_expires_at
    → claimable_state st mode now ≡ false
unfolding claimable_state
active-not-claimable st mode now named early = ground (arith, eq_iff st.lease_id "")

-- A renewal or release either leaves the store, or writes one record that the lease holds.
module _ (id lease_id : String) (now : ℤ) (s : MemoryStore) where
  abbrev pub Writes : (State → State) → Result (State × MemoryStore) → Type 0
  Writes change r =
      (store_after s r ≡ s)
      ⊎ ((st : State) × (lookup id s.sessions ≡ some st)
          × (lease_held_at st lease_id now ≡ true)
          × (r ≡ ok (change st, record { sessions = insert id (change st) s.sessions })))

  pub renew_lease-Writes :
      (expires_at : ℤ) → Writes (renewed now expires_at) (renew_lease id lease_id now expires_at s)
  unfolding renew_lease
  renew_lease-Writes expires_at = elim (Option-cases (lookup id s.sessions)) [
    | inl e ↦ inl (rw (e, renew_lease))
    | inr (st, e) ↦ elim (Bool-cases (lease_held_at st lease_id now)) [
      | inl held ↦ inr (st, e, held, rw (e, renew_lease, held))
      | inr lost ↦ inl (rw (e, renew_lease, lost))
    ]
  ]

  pub release_lease-Writes : Writes (released now) (release_lease id lease_id now s)
  unfolding release_lease
  release_lease-Writes = elim (Option-cases (lookup id s.sessions)) [
    | inl e ↦ inl (rw (e, release_lease))
    | inr (st, e) ↦ elim (Bool-cases (lease_held_at st lease_id now)) [
      | inl held ↦ inr (st, e, held, rw (e, release_lease, held))
      | inr lost ↦ inl (rw (e, release_lease, lost))
    ]
  ]

  module _ (change : State → State) (same : (st : State) → (change st).session_id ≡ st.session_id)
      (r : Result (State × MemoryStore)) (w : Writes change r) where
    Writes-IsValid : IsValid s → IsValid (store_after s r)
    Writes-IsValid valid = elim w [
      | inl e ↦ rw e valid
      | inr (st, found, _, e) ↦ rw e (
          insert-IsKeyed_of_eq (λ v. v.session_id) id (change st) s.sessions
            (same st ∙ lookup-IsKeyed (λ v. v.session_id) id s.sessions valid found) valid)
    ]

    Writes-keeps :
        (k : String) {st : State}
        → lookup k s.sessions ≡ some st
        → lease_id ≢ st.lease_id
        → lookup k (store_after s r).sessions ≡ some st
    Writes-keeps k {st} found foreign = elim w [
      | inl e ↦ rw e found
      | inr (st', found', held, e) ↦ rw e (
          lookup-insert_ne id k (change st') s.sessions (λ same. foreign (
            held-lease st' lease_id now held
            ∙ ap (λ v. v.lease_id) (lookup_unique id k s.sessions found' found same)))
          ∙ found)
    ]

-- Every lease call keeps the store valid.
pub run-IsValid : (c : Call) (s : MemoryStore) → IsValid s → IsValid (run c s)
unfolding run
run-IsValid (claim mode lease_id now expires_at) s valid =
    claim_next-IsValid mode lease_id now expires_at s valid
run-IsValid (renew id lease_id now expires_at) s valid =
    Writes-IsValid id lease_id now s (renewed now expires_at) (λ _. refl)
      (renew_lease id lease_id now expires_at s) (renew_lease-Writes id lease_id now s expires_at)
      valid
run-IsValid (release id lease_id now) s valid =
    Writes-IsValid id lease_id now s (released now) (λ _. refl) (release_lease id lease_id now s)
      (release_lease-Writes id lease_id now s) valid

claim_next-keeps :
    (mode : ClaimMode) (lease_id : String) (now expires_at : ℤ) (k : String) (s : MemoryStore)
    {st : State}
    → IsValid s
    → lookup k s.sessions ≡ some st
    → claimable_state st mode now ≡ false
    → lookup k (claim_next mode lease_id now expires_at s).1.sessions ≡ some st
unfolding claim_next
claim_next-keeps mode lease_id now expires_at k s {st} valid found busy =
    elim (Option-cases (next_claimable mode now s.sessions)) [
      | inl e ↦ rw (e, claim_next) found
      | inr (st', e) ↦
          let (found', free, _) = next-some mode now s.sessions {st = st'} valid e in
          rw (e, claim_next)
            (lookup-insert_ne st'.session_id k (grant lease_id now expires_at st') s.sessions
                (λ same.
                  let here : st' ≡ st =
                    lookup_unique st'.session_id k s.sessions found' found same in
                  absurd (cc (free, busy, here)))
              ∙ found)
    ]

-- Another worker's call, made before the holder's lease expires.
abbrev pub IsForeign : State → Call → Type 0
IsForeign st (claim _ _ now _) = now <ℤ st.lease_expires_at
IsForeign st (renew _ lease_id _ _) = lease_id ≢ st.lease_id
IsForeign st (release _ lease_id _) = lease_id ≢ st.lease_id

foreign-keeps :
    (c : Call) (k : String) (s : MemoryStore) {st : State}
    → IsValid s
    → lookup k s.sessions ≡ some st
    → st.lease_id ≢ ""
    → IsForeign st c
    → lookup k (run c s).sessions ≡ some st
unfolding run
foreign-keeps (claim mode lease_id now expires_at) k s {st} valid found named f =
    claim_next-keeps mode lease_id now expires_at k s valid found
      (active-not-claimable st mode now named f)
foreign-keeps (renew id lease_id now expires_at) k s {st} valid found named f =
    Writes-keeps id lease_id now s (renewed now expires_at) (λ _. refl)
      (renew_lease id lease_id now expires_at s) (renew_lease-Writes id lease_id now s expires_at) k
      found f
foreign-keeps (release id lease_id now) k s {st} valid found named f =
    Writes-keeps id lease_id now s (released now) (λ _. refl) (release_lease id lease_id now s)
      (release_lease-Writes id lease_id now s) k found f

-- Calls in sequence, each judged against the record that the holder left.
abbrev pub AllForeign : State → List Call → Type 0
AllForeign st cs = All (IsForeign st) cs

-- A held lease protects its session: whatever claims (before the lease expires), and whatever
-- renewals and releases under other lease identifiers run, in any order and number, the session's
-- record is afterwards exactly what it was. The store is valid and the lease is named.
pub run_all-foreign :
    (cs : List Call) (k : String) (s : MemoryStore) {st : State}
    → IsValid s
    → lookup k s.sessions ≡ some st
    → st.lease_id ≢ ""
    → AllForeign st cs
    → lookup k (run_all cs s).sessions ≡ some st
unfolding run_all
run_all-foreign [] k s valid found named f = found
run_all-foreign (c ∷ cs) k s valid found named f =
    run_all-foreign cs k (run c s) (run-IsValid c s valid)
      (foreign-keeps c k s valid found named f.0) named f.1
