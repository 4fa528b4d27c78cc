-- ===== src/Runtime/Recovery/Marks.antt =====
-- What an interruption leaves behind: markSessionInterrupted of pkg/harness/runtime/recovery.go.
use harness_core.Base.{String, ◌≡◌, refl, true, Bool-cases, inl, inr, arith, eq_iff, ◌==◌, not}
use harness_core.Base.Int.{ℤ, inc64}
use harness_core.Base.Result.{Result, ok, err}
use harness_core.Session.State.{
  State, ClaimMode, is_recoverable_state, claimable_state, lease_active_at, interrupted, Phase,
}
use harness_core.Runtime.SessionUpdate.{
  SessionStore, merge_session_update, persist_session_update_at, written,
}
use harness_core.Runtime.SessionUpdate.Guard.{persist_under_lease}
use harness_core.Runtime.Recovery.{
  leased, persist_mutated, interrupt, update_recovery_state, mark_session_interrupted,
}

-- What a write keeps of the caller's record.
abbrev pub Agrees : State → State → Type 0
Agrees a b =
    (a.execution_state ≡ b.execution_state)
    × (a.phase ≡ b.phase)
    × (a.interrupted_at ≡ b.interrupted_at)

merge-Agrees :
    (current desired : State) (lease_id : String)
    → Agrees (merge_session_update current desired lease_id) desired
unfolding merge_session_update
merge-Agrees current desired lease_id = ground arith

written-same :
    {W : Type 0} (desired : State) (r : Result (Unit {0}) × W) {c : State} {after : W}
    → written desired r ≡ (ok c, after)
    → c ≡ desired
written-same desired (ok u, w) h = cc
written-same desired (err e, w) h = cc

persist-Agrees :
    {W : Type 0} (store : SessionStore W) (desired : State) (lease_id : String) (now clock : ℤ)
    (w : W) (c : State) (after : W)
    → persist_session_update_at store desired lease_id now clock w ≡ (ok c, after)
    → Agrees c desired
unfolding persist_session_update_at
persist-Agrees store desired lease_id now clock w c after h = elim (Bool-cases (lease_id == "")) [
  | inl e ↦
      let next : State = record desired { version = inc64 desired.version } in
      let same = written-same next (store.update next w) (rw (e, persist_session_update_at) at h) in
      rw same (refl, refl, refl)
  | inr e ↦
      let (current, v, v', read, held, merged, wrote) =
        persist_under_lease store desired lease_id now clock w c after
          (λ n. absurd (ground (arith, eq_iff lease_id ""))) h in
      rw merged (merge-Agrees current desired lease_id)
]

persist_mutated-Agrees :
    {W : Type 0} (store : SessionStore W) (session_id lease_id : String) (at now : ℤ)
    (r : Result State × W) (c : State) (after : W)
    → persist_mutated store session_id lease_id (interrupt at) now r ≡ (ok c, after)
    → (c.execution_state ≡ interrupted) × (c.phase ≡ Phase.recover) × (c.interrupted_at ≡ at)
persist_mutated-Agrees store session_id lease_id at now (err e, w) c after h = cc
persist_mutated-Agrees store session_id lease_id at now (ok st, w) c after h =
    persist-Agrees store (interrupt at st) lease_id now now w c after h

-- A session that was marked as interrupted is in the recovery phase with the time of the mark, and
-- is surfaced for recovery; a recovering worker may claim it as soon as its lease is gone or over.
-- The store, the lease under which the mark was made and the clock are arbitrary.
pub interrupted-recoverable :
    {W : Type 0} (store : SessionStore W) (session_id lease_id : String) (now checked persisted : ℤ)
    (w : W) {got : State} {after : W}
    → mark_session_interrupted store session_id lease_id now checked persisted w ≡ (ok got, after)
    → (got.phase ≡ Phase.recover)
      × (got.interrupted_at ≡ now)
      × (is_recoverable_state got ≡ true)
      × ((later : ℤ)
          → claimable_state got ClaimMode.recoverable later ≡ not (lease_active_at got later))
unfolding mark_session_interrupted update_recovery_state is_recoverable_state claimable_state
interrupted-recoverable store session_id lease_id now checked persisted w {got} {after} h =
    let (e, p, i) =
      persist_mutated-Agrees store session_id lease_id now persisted
        (leased store session_id lease_id checked (store.get session_id w)) got after h in
    (p, i, rw e refl, λ later. ground (arith, e))
