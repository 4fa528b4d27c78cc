-- ===== src/Session/Claim.antt =====
-- What `ClaimNext` hands out.
use harness_core.Base.{
  String, ◌≡◌, ◌≢◌, ◌↔◌, true, false, none, some, arith, eq_iff, ◌==◌, if◌then◌else◌, All-imp,
  All-find, All-of_find-none, map_of_All, Option-cases, find, find-passes, inl, inr, Bool, ap,
  subst, sym, ◌∙◌,
}
use harness_core.Base.Int.{ℤ, ◌<ℤ◌}
use harness_core.Base.Dict.{
  Dict, lookup, insert, values, IsKeyed, All-lookup, All-lookup_self, lookup-insert, insert-IsKeyed,
}
use harness_core.Base.Sort.{sort, All-sort, All-of_sort, least-find-sort}
use harness_core.Session.State.{State, ClaimMode, claimable_state}
use harness_core.Session.Store.{MemoryStore, before, fetch, grant, next_claimable, claim_next}
use harness_core.Session.Order.{before-IsOrder}

-- Every session is stored once, under its own identifier.
abbrev pub IsValid : MemoryStore → Type 0
IsValid s = IsKeyed (λ st. st.session_id) s.sessions

module _ (mode : ClaimMode) (now : ℤ) (m : Dict State) where
  abbrev pub passes : State → Bool
  passes st = claimable_state st mode now

  -- In a valid store, to fetch the listed sessions again changes nothing.
  next-eq-find :
      IsKeyed (λ st. st.session_id) m
      → next_claimable mode now m ≡ find passes (sort before (values m))
  unfolding next_claimable
  next-eq-find i = rw (
      map_of_All (λ o. fetch m o.session_id) (sort before (values m))
        (All-sort before (λ o. fetch m o.session_id ≡ o) (values m)
          (All-imp (λ v (e : lookup v.session_id m ≡ some v). rw (e, fetch)) (values m)
            (All-lookup_self (λ st. st.session_id) m i))))

  pub next-some :
      {st : State}
      → IsKeyed (λ st. st.session_id) m
      → next_claimable mode now m ≡ some st
      → (lookup st.session_id m ≡ some st)
        × (claimable_state st mode now ≡ true)
        × ((k : String) (other : State)
            → lookup k m ≡ some other
            → claimable_state other mode now ≡ true
            → before other st ≡ false)
  next-some {st} i h =
      let e : find passes (sort before (values m)) ≡ some st = rw (next-eq-find i) at h in
      (
        All-find (λ v. lookup v.session_id m ≡ some v) passes (sort before (values m)) e
            (All-sort before (λ v. lookup v.session_id m ≡ some v) (values m)
              (All-lookup_self (λ st. st.session_id) m i)),
        find-passes passes (sort before (values m)) e,
        λ k other found.
            All-lookup (λ y. passes y ≡ true → before y st ≡ false) k m found
              (least-find-sort before before-IsOrder passes (values m) e),
      )

  next-none :
      IsKeyed (λ st. st.session_id) m
      → next_claimable mode now m ≡ none
      → (k : String) (other : State) → lookup k m ≡ some other
      → claimable_state other mode now ≡ false
  next-none i h k other found =
      All-lookup (λ y. passes y ≡ false) k m found
        (All-of_sort before (λ y. passes y ≡ false) (values m)
          (All-of_find-none passes (sort before (values m)) (rw (next-eq-find i) at h)))

module _ (mode : ClaimMode) (lease_id : String) (now expires_at : ℤ) (s : MemoryStore)
    (valid : IsValid s) where
  -- A claim that succeeds hands out a stored session that is claimable, with the new lease written
  -- into it, its version stepped once and every other field kept; the map changes at that session's
  -- identifier and nowhere else; and no claimable session of the store comes before it in the order
  -- of creation time and identifier. The store is valid (each session once, under its identifier).
  pub claim_next-some :
      {got : State} {s' : MemoryStore}
      → claim_next mode lease_id now expires_at s ≡ (some got, s')
      → (st : State) × (lookup st.session_id s.sessions ≡ some st)
        × (claimable_state st mode now ≡ true)
        × (got ≡ grant lease_id now expires_at st)
        × ((k : String)
            → lookup k s'.sessions ≡ (if st.session_id == k then some got else lookup k s.sessions))
        × ((k : String) (other : State)
            → lookup k s.sessions ≡ some other
            → claimable_state other mode now ≡ true
            → before other st ≡ false)
  unfolding claim_next
  claim_next-some {got} {s'} h = elim (Option-cases (next_claimable mode now s.sessions)) [
    | inl e ↦ absurd (ground arith)
    | inr (st, e) ↦
        let (found, free, least) = next-some mode now s.sessions {st = st} valid e in
        let written : s'.sessions
            ≡ insert st.session_id (grant lease_id now expires_at st) s.sessions =
          ground arith in
        (
          st,
          found,
          free,
          ground arith,
          λ k. ground (
            arith,
            lookup-insert st.session_id k (grant lease_id now expires_at st) s.sessions,
            ap (lookup k) written,
          ),
          least,
        )
  ]

  -- A claim finds nothing exactly when no stored session is claimable, and then the store is as it
  -- was. The store is valid.
  pub claim_next-none : (claim_next mode lease_id now expires_at s ≡ (none, s)) ↔ (
      (k : String) (other : State)
      → lookup k s.sessions ≡ some other
      → claimable_state other mode now ≡ false)
  unfolding claim_next
  claim_next-none = elim (Option-cases (next_claimable mode now s.sessions)) [
    | inl e ↦ ((λ _. next-none mode now s.sessions valid e), (λ _. rw (e, claim_next)))
    | inr (st, e) ↦
        let (found, free, least) = next-some mode now s.sessions {st = st} valid e in
        ((λ h. absurd (ground arith)), (λ h. absurd (ground (arith, h st.session_id st found))))
  ]

-- A claim keeps the store valid.
pub claim_next-IsValid :
    (mode : ClaimMode) (lease_id : String) (now expires_at : ℤ) (s : MemoryStore)
    → IsValid s
    → IsValid (claim_next mode lease_id now expires_at s).1
unfolding claim_next
claim_next-IsValid mode lease_id now expires_at s valid =
    elim (Option-cases (next_claimable mode now s.sessions)) [
      | inl e ↦ rw (e, claim_next) valid
      | inr (st, e) ↦
          rw (e, claim_next)
            (insert-IsKeyed (λ st. st.session_id) (grant lease_id now expires_at st) s.sessions
              valid)
    ]

granted-not-claimable :
    (mode : ClaimMode) (lease_id : String) (now expires_at now' : ℤ) (st : State)
    → lease_id ≢ ""
    → now' <ℤ expires_at
    → claimable_state (grant lease_id now expires_at st) mode now' ≡ false
unfolding claimable_state
granted-not-claimable mode lease_id now expires_at now' st named early =
    ground (arith, eq_iff lease_id "")

-- After a claim with a lease identifier, no claim in any mode before the lease expires is given
-- the same session. The store is valid, and the first claim found a session.
pub claim_next_exclusive :
    (mode mode' : ClaimMode) (lease_id lease_id' : String) (now expires_at now' expires_at' : ℤ)
    (s : MemoryStore) {a b : State} {s' s'' : MemoryStore}
    → IsValid s
    → lease_id ≢ ""
    → now' <ℤ expires_at
    → claim_next mode lease_id now expires_at s ≡ (some a, s')
    → claim_next mode' lease_id' now' expires_at' s' ≡ (some b, s'')
    → a.session_id ≢ b.session_id
claim_next_exclusive mode mode' lease_id lease_id' now expires_at now' expires_at' s {a} {b} {s'}
      {s''} valid named early first second same =
    let valid' : IsValid s' =
      subst (λ r. IsValid r.1) first (claim_next-IsValid mode lease_id now expires_at s valid) in
    let (st, found, free, granted, written, least) =
      claim_next-some mode lease_id now expires_at s valid first in
    let (st', found', free', granted', written', least') =
      claim_next-some mode' lease_id' now' expires_at' s' valid' second in
    let ids : st.session_id ≡ st'.session_id = cc in
    let here : some a ≡ some st' =
      sym (rw ((eq_iff st.session_id st'.session_id).1 ids) at (written st'.session_id)) ∙ found' in
    let busy : claimable_state a mode' now' ≡ false =
      rw granted (granted-not-claimable mode' lease_id now expires_at now' st named early) in
    absurd (cc (here, busy, free'))
