-- ===== src/Session/History.antt =====
-- The in-memory session store over whole histories of calls: pkg/harness/session/store.go.
use harness_core.Base.{
  String, ◌≡◌, ◌≢◌, ◌⊎◌, refl, List, [], ◌∷◌, some, Option-cases, Bool-cases, ap, ◌∙◌, inl, inr,
  arith, eq_iff, ◌==◌,
}
use harness_core.Base.Int.{ℤ, inc64}
use harness_core.Base.Dict.{
  lookup, insert, insert-IsKeyed, lookup-insert, lookup-insert_self, lookup_unique,
}
use harness_core.Base.Result.{Result, ok, err, Result-cases}
use harness_core.Session.State.{State}
use harness_core.Session.Store.{
  MemoryStore, new_session, create, stamped, update, grant, renewed, released, next_claimable,
  claim_next, renew_lease, release_lease,
}
use harness_core.Session.Claim.{IsValid, next-some}
use harness_core.Session.Lease.{
  Call, claim, renew, release, run, run-IsValid, store_after, Writes, renew_lease-Writes,
  release_lease-Writes,
}
use harness_core.Session.Update.{update_inv}

-- Every call that changes the store. The identifier that `Create` draws is an argument.
pub data Op : Type 0 where
  create_session : String → ℤ → String → String → Op
  update_session : ℤ → State → Op
  lease : Call → Op

abbrev pub updated : MemoryStore → Result MemoryStore → MemoryStore
updated s (ok s') = s'
updated s (err e) = s

unfoldable pub step : Op → MemoryStore → MemoryStore
unfolding create
step (create_session id now title goal) s = (create id now title goal s).1
step (update_session now next) s = updated s (update now next s)
step (lease c) s = run c s

unfoldable pub history : List Op → MemoryStore → MemoryStore
unfolding step
history [] s = s
history (o ∷ os) s = history os (step o s)

abbrev pub empty_store : MemoryStore
empty_store = record { sessions = [] }

-- The store is unchanged, or one stored record is written with its version stepped once.
abbrev Changes : MemoryStore → MemoryStore → Type 0
Changes s s' =
    (s' ≡ s)
    ⊎ ((id : String) × (st : State) × (st' : State) × (lookup id s.sessions ≡ some st)
        × (st'.version ≡ inc64 st.version)
        × (s'.sessions ≡ insert id st' s.sessions))

update-Changes :
    (now : ℤ) (next : State) (s : MemoryStore) → Changes s (updated s (update now next s))
update-Changes now next s = elim (Result-cases (update now next s)) [
  | inl (s', e) ↦
      let (current, found, stepped, written) = update_inv now next s e in
      inr (next.session_id, current, stamped next current now, found, stepped, rw e written)
  | inr (x, e) ↦ inl (rw e refl)
]

Writes-Changes :
    (id lease_id : String) (now : ℤ) (s : MemoryStore) (change : State → State)
    → ((st : State) → (change st).version ≡ inc64 st.version)
    → (r : Result (State × MemoryStore)) → Writes id lease_id now s change r
    → Changes s (store_after s r)
Writes-Changes id lease_id now s change bumps r w = elim w [
  | inl e ↦ inl e
  | inr (st, found, _, e) ↦ inr (id, st, change st, found, bumps st, rw e refl)
]

run-Changes : (c : Call) (s : MemoryStore) → IsValid s → Changes s (run c s)
unfolding run claim_next
run-Changes (claim mode lease_id now expires_at) s valid =
    elim (Option-cases (next_claimable mode now s.sessions)) [
      | inl e ↦ inl (rw (e, run, claim_next))
      | inr (st, e) ↦ inr (
        st.session_id,
        st,
        grant lease_id now expires_at st,
        (next-some mode now s.sessions {st = st} valid e).0,
        refl,
        rw (e, run, claim_next),
      )
    ]
run-Changes (renew id lease_id now expires_at) s valid =
    Writes-Changes id lease_id now s (renewed now expires_at) (λ _. refl)
      (renew_lease id lease_id now expires_at s) (renew_lease-Writes id lease_id now s expires_at)
run-Changes (release id lease_id now) s valid =
    Writes-Changes id lease_id now s (released now) (λ _. refl) (release_lease id lease_id now s)
      (release_lease-Writes id lease_id now s)

Changes-version :
    (k : String) (s s' : MemoryStore) {st : State}
    → Changes s s'
    → lookup k s.sessions ≡ some st
    → (st' : State) × (lookup k s'.sessions ≡ some st')
      × ((st' ≡ st) ⊎ (st'.version ≡ inc64 st.version))
Changes-version k s s' {st} c found = elim c [
  | inl e ↦ (st, rw e found, inl refl)
  | inr (id, old, new, was, stepped, written) ↦ elim (Bool-cases (id == k)) [
    | inl same ↦
        let same' : id ≡ k = (eq_iff id k).0 same in
        (
          new,
          rw written (rw same' (lookup-insert_self k new s.sessions)),
          inr (stepped ∙ ap (λ v. inc64 v.version) (lookup_unique id k s.sessions was found same')),
        )
    | inr other ↦ (st, rw (written, lookup-insert id k new s.sessions, other) found, inl refl)
  ]
]

step-IsValid : (o : Op) (s : MemoryStore) → IsValid s → IsValid (step o s)
unfolding step
step-IsValid (create_session id now title goal) s valid =
    insert-IsKeyed (λ st. st.session_id) (new_session id now title goal) s.sessions valid
step-IsValid (update_session now next) s valid = elim (Result-cases (update now next s)) [
  | inl (s', e) ↦
      let (current, found, stepped, written) = update_inv now next s e in
      rw e (
        rw written
          (insert-IsKeyed (λ st. st.session_id) (stamped next current now) s.sessions valid))
  | inr (x, e) ↦ rw e valid
]
step-IsValid (lease c) s valid = run-IsValid c s valid

history-IsValid : (os : List Op) (s : MemoryStore) → IsValid s → IsValid (history os s)
unfolding history
history-IsValid [] s valid = valid
history-IsValid (o ∷ os) s valid = history-IsValid os (step o s) (step-IsValid o s valid)

-- From the empty store every history of calls leads to a valid store: each session stands once,
-- under its own identifier.
pub history-IsValid_empty : (os : List Op) → IsValid (history os empty_store)
history-IsValid_empty os = history-IsValid os empty_store tt

-- A call that draws no identifier in use.
abbrev pub IsFresh : String → Op → Type 0
IsFresh k (create_session id _ _ _) = id ≢ k
IsFresh k _ = Unit

-- No call writes a session silently: a stored session is still stored after any call, and it is
-- either exactly the same record or its version has been stepped once. The store is valid, and
-- the call does not create a session under the identifier in question.
pub step-version :
    (o : Op) (k : String) (s : MemoryStore) {st : State}
    → IsValid s
    → IsFresh k o
    → lookup k s.sessions ≡ some st
    → (st' : State) × (lookup k (step o s).sessions ≡ some st')
      × ((st' ≡ st) ⊎ (st'.version ≡ inc64 st.version))
unfolding step
step-version (create_session id now title goal) k s {st} valid fresh found = (
  st,
  ground (arith, lookup-insert id k (new_session id now title goal) s.sessions, eq_iff id k),
  inl refl,
)
step-version (update_session now next) k s valid fresh found =
    Changes-version k s (updated s (update now next s)) (update-Changes now next s) found
step-version (lease c) k s valid fresh found =
    Changes-version k s (run c s) (run-Changes c s valid) found
