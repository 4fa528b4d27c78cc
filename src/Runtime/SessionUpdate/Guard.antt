-- ===== src/Runtime/SessionUpdate/Guard.antt =====
-- What the runtime's session writes guarantee, whoever else writes: session_update.go.
use harness_core.Base.{
  String, ℕ, zero, suc, ◌≡◌, ◌≢◌, refl, ◌==◌, inl, inr, Bool-cases, if◌then◌else◌, arith, eq_iff,
  ◌∙◌,
}
use harness_core.Base.Int.{ℤ, ◌≤ℤ◌, is_zero, inc64}
use harness_core.Base.Result.{Error, Result, Result-cases, ok, err, session_version_conflict}
use harness_core.Session.State.{State}
use harness_core.Runtime.SessionUpdate.{
  SessionStore, require_session_lease, merge_session_update, settle, attempt, retry_loop,
  max_session_update_attempts, persist_session_update_at,
}

-- Under a named lease that the session holds, the merged record keeps the lease as it is stored:
-- its identifier, claim time and expiry, and a heartbeat that is no older; it keeps the creation
-- time, and its version is the stored one stepped once. All that is taken from the caller's copy is
-- the rest.
pub merge_keeps_lease :
    (current desired : State) (lease_id : String) (now : ℤ)
    → lease_id ≢ ""
    → require_session_lease current lease_id now ≡ ok tt
    → let merged = merge_session_update current desired lease_id in
      (merged.lease_id ≡ lease_id)
      × (merged.lease_claimed_at ≡ current.lease_claimed_at)
      × (merged.lease_expires_at ≡ current.lease_expires_at)
      × (current.last_heartbeat_at ≤ℤ merged.last_heartbeat_at)
      × (merged.created_at ≡ current.created_at)
      × (merged.version ≡ inc64 current.version)
unfolding require_session_lease merge_session_update
merge_keeps_lease current desired lease_id now named held =
    ground (arith, eq_iff lease_id "", eq_iff current.lease_id "", eq_iff current.lease_id lease_id)

not-ok :
    {W : Type 0} {e : Error} {w w' : W} {st : State}
    → ◌≡◌ {A = Result State × W} (err e, w) (ok st, w')
    → ⊥
not-ok h = cc

module _ {W : Type 0} (store : SessionStore W) (desired : State) (lease_id : String) (now : ℤ) where
  -- A successful write was made from a record that was read with the lease still held: what was
  -- written is the merge of that record, the store accepted it directly after that read, and it is
  -- what the caller is given.
  abbrev pub WroteUnderLease : State → W → Type 0
  WroteUnderLease candidate after =
      (current : State) × (w : W) × (w' : W) × (store.get desired.session_id w ≡ (ok current, w'))
      × (require_session_lease current lease_id now ≡ ok tt)
      × (candidate ≡ merge_session_update current desired lease_id)
      × (store.update candidate w' ≡ (ok tt, after))

  -- The rest of the loop, `again`, is known to write under the lease.
  module _ (again : W → Result State × W)
      (ih : (v : W) (c : State) (after : W) → again v ≡ (ok c, after) → WroteUnderLease c after)
      (w : W) (c : State) (after : W) where
    settle-ok :
        (current : State) (w' : W)
        → store.get desired.session_id w ≡ (ok current, w')
        → require_session_lease current lease_id now ≡ ok tt
        → (answer : Result (Unit {0}) × W)
        → store.update (merge_session_update current desired lease_id) w' ≡ answer
        → settle store desired lease_id now
            (merge_session_update current desired lease_id)
            answer.0
            again
            answer.1
          ≡ (ok c, after)
        → WroteUnderLease c after
    settle-ok current w' read held (ok u, v) wrote h =
        let e : c ≡ merge_session_update current desired lease_id = cc in
        let end : ◌≡◌ {A = Result (Unit {0}) × W} (ok u, v) (ok tt, after) = cc in
        (current, w, w', read, held, e, rw e (wrote ∙ end))
    settle-ok current w' read held (err session_version_conflict, v) wrote h = ih v c after h
    settle-ok current w' read held (err e, v) wrote h = cc

    attempt-ok :
        (r : Result State × W)
        → store.get desired.session_id w ≡ r
        → attempt store desired lease_id now again r ≡ (ok c, after)
        → WroteUnderLease c after
    attempt-ok (err e, v) read h = cc
    attempt-ok (ok current, v) read h =
        elim (Result-cases (require_session_lease current lease_id now)) [
          | inl (u, held) ↦
              settle-ok current v read held
                (store.update (merge_session_update current desired lease_id) v) refl
                (rw (held, attempt) at h)
          | inr (e, lost) ↦ absurd (not-ok (rw (lost, attempt) at h))
        ]

  retry_loop-ok :
      (rounds : ℕ) (w : W) (candidate : State) (after : W)
      → retry_loop store desired lease_id now rounds w ≡ (ok candidate, after)
      → WroteUnderLease candidate after
  unfolding retry_loop
  retry_loop-ok zero w candidate after h = cc
  retry_loop-ok (suc rounds) w candidate after h =
      attempt-ok (retry_loop store desired lease_id now rounds) (retry_loop-ok rounds) w candidate
        after (store.get desired.session_id w) refl h

-- Whoever else writes, a runtime write under a named lease goes through only from a record that was
-- read with the lease still held: what is written is the merge of that record with the caller's,
-- the store accepted it, and it is what the caller is given. The store and the world are arbitrary.
pub persist_under_lease :
    {W : Type 0} (store : SessionStore W) (desired : State) (lease_id : String) (now clock : ℤ)
    (w : W) (candidate : State) (after : W)
    → lease_id ≢ ""
    → persist_session_update_at store desired lease_id now clock w ≡ (ok candidate, after)
    → WroteUnderLease store desired lease_id (if is_zero now then clock else now) candidate after
unfolding persist_session_update_at
persist_under_lease store desired lease_id now clock w candidate after named h =
    elim (Bool-cases (lease_id == "")) [
      | inl e ↦ absurd (named ((eq_iff lease_id "").0 e))
      | inr e ↦
          retry_loop-ok store desired lease_id (if is_zero now then clock else now)
            max_session_update_attempts w candidate after (rw (e, persist_session_update_at) at h)
    ]
