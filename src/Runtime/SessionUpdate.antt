-- ===== src/Runtime/SessionUpdate.antt =====
-- pkg/harness/runtime/session_update.go and requireSessionLease of recovery.go: how the runtime
-- writes a session while other workers may write it too.
pub mod Guard
pub mod Progress
use harness_core.Base.{
  String, ℕ, zero, suc, ◌==◌, Bool, true, false, not, ◌&&◌, ◌||◌, Option, none, some, if◌then◌else◌,
}
use harness_core.Base.Int.{ℤ, leb_ℤ, ltb_ℤ, is_zero, inc64}
use harness_core.Base.Result.{
  Error, Result, ok, err, session_not_found, session_version_conflict, session_lease_not_held,
}
use harness_core.Session.State.{State}
use harness_core.Session.Store
use harness_core.Session.Store.{MemoryStore}

-- `session.Store`, as far as the update uses it. `W` is the world in which the store and the other
-- workers live: a call may find it changed by anybody.
pub record SessionStore (W : Type 0) : Type 0 where
  pub get : String → W → Result State × W
  pub update : State → W → Result (Unit {0}) × W

-- requireSessionLease
unfoldable pub require_session_lease : State → String → ℤ → Result (Unit {0})
require_session_lease st lease_id now =
    if lease_id == ""
    then if not (st.lease_id == "") && ltb_ℤ now st.lease_expires_at
      then err session_lease_not_held
      else ok tt
    else if not (st.lease_id == lease_id) || leb_ℤ st.lease_expires_at now
    then err session_lease_not_held
    else ok tt

-- `candidate` before the lease is carried over.
abbrev pub rebased : State → State → State
rebased current desired = record desired {
  version = inc64 current.version;
  created_at = current.created_at;
  runtime_started_at =
      if is_zero desired.runtime_started_at
      then current.runtime_started_at
      else desired.runtime_started_at;
}

abbrev pub carries_lease : State → String → Bool
carries_lease current lease_id =
    not (current.lease_id == "") && (lease_id == "" || current.lease_id == lease_id)

abbrev pub with_lease : State → State → State
with_lease current candidate = record candidate {
  lease_id = current.lease_id;
  lease_claimed_at = current.lease_claimed_at;
  lease_expires_at = current.lease_expires_at;
  last_heartbeat_at =
      if ltb_ℤ candidate.last_heartbeat_at current.last_heartbeat_at
      then current.last_heartbeat_at
      else candidate.last_heartbeat_at;
}

abbrev pub with_heartbeat : State → State → State
with_heartbeat current candidate = record candidate {
  last_heartbeat_at =
      if is_zero candidate.last_heartbeat_at
      then current.last_heartbeat_at
      else candidate.last_heartbeat_at;
}

-- mergeSessionUpdate
unfoldable pub merge_session_update : State → State → String → State
merge_session_update current desired lease_id =
    let candidate = rebased current desired in
    with_heartbeat current
      (if carries_lease current lease_id then with_lease current candidate else candidate)

abbrev pub max_session_update_attempts : ℕ
max_session_update_attempts = 4

module _ {W : Type 0} (store : SessionStore W) (desired : State) (lease_id : String) (now : ℤ) where
  -- What one round does with the answer to its `Update`; `again` is the rest of the loop.
  abbrev pub settle : State → Result (Unit {0}) → (W → Result State × W) → W → Result State × W
  settle candidate (ok _) again w = (ok candidate, w)
  settle candidate (err session_version_conflict) again w = again w
  settle candidate (err e) again w = (err e, w)

  abbrev pub attempt : (W → Result State × W) → Result State × W → Result State × W
  attempt again (err e, w) = (err e, w)
  attempt again (ok current, w) = elim (require_session_lease current lease_id now) [
    | err e ↦ (err e, w)
    | ok _ ↦
        let candidate = merge_session_update current desired lease_id in
        let (answer, w') = store.update candidate w in settle candidate answer again w'
  ]

  -- The loop of `updateSessionWithRetry`, with the rounds that are left.
  unfoldable pub retry_loop : ℕ → W → Result State × W
  retry_loop zero w = (err session_version_conflict, w)
  retry_loop (suc rounds) w = attempt (retry_loop rounds) (store.get desired.session_id w)

-- updateSessionWithRetry; `clock` is what the system clock reads, used if `now` is zero.
unfoldable pub update_session_with_retry :
    {W : Type 0} → Option (SessionStore W) → State → String → ℤ → ℤ → W → Result State × W
unfolding retry_loop
update_session_with_retry none desired lease_id now clock w = (err session_not_found, w)
update_session_with_retry (some store) desired lease_id now clock w =
    retry_loop store desired lease_id (if is_zero now then clock else now)
      max_session_update_attempts w

abbrev pub written : {W : Type 0} → State → Result (Unit {0}) × W → Result State × W
written desired (ok _, w) = (ok desired, w)
written desired (err e, w) = (err e, w)

-- persistSessionUpdateAt, with a store that is not nil.
unfoldable pub persist_session_update_at :
    {W : Type 0} → SessionStore W → State → String → ℤ → ℤ → W → Result State × W
unfolding update_session_with_retry
persist_session_update_at store desired lease_id now clock w =
    if lease_id == ""
    then (let next = record desired { version = inc64 desired.version } in
        written next (store.update next w))
    else update_session_with_retry (some store) desired lease_id now clock w

-- The in-memory store with nobody else at work; its clock reads `time`.
abbrev pub updated : MemoryStore → Result MemoryStore → Result (Unit {0}) × MemoryStore
updated s (ok s') = (ok tt, s')
updated s (err e) = (err e, s)

abbrev pub memory : ℤ → SessionStore MemoryStore
memory time = record {
  get = λ id s. (Store.get id s, s);
  update = λ next s. updated s (Store.update time next s);
}
