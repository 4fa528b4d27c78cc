-- ===== src/Runtime/Blocked/Memory.antt =====
-- The life cycle of blocked runtimes over the in-memory stores, with nobody else at work:
-- pkg/harness/session/store.go and pkg/harness/execution/blocked_runtime_store.go.
use harness_core.Base.{String, ◌≡◌, ap, ◌∙◌, some, true, arith}
use harness_core.Base.Int.{ℤ, eqb_ℤ, inc64}
use harness_core.Base.Dict.{lookup, insert, IsKeyed, lookup-IsKeyed, insert-IsKeyed_of_eq}
use harness_core.Base.Result.{Result, ok, err}
use harness_core.Session.State.{State}
use harness_core.Session.Store
use harness_core.Execution.Blocked.{BlockedRuntimeRecord, MemoryBlockedRuntimeStore}
use harness_core.Execution.Blocked
use harness_core.Runtime.SessionUpdate.{SessionStore, persist_session_update_at}
use harness_core.Runtime.Rollback.{persist_session_update}
use harness_core.Runtime.Blocked.{BlockedRuntimeStore}

pub record Stores : Type 0 where
  pub sessions : Store.MemoryStore
  pub runtimes : MemoryBlockedRuntimeStore

abbrev pub sessions_written : Stores → Result Store.MemoryStore → Result (Unit {0}) × Stores
sessions_written w (ok s) = (ok tt, record w { sessions = s })
sessions_written w (err e) = (err e, w)

abbrev pub runtimes_written : Stores → Result MemoryBlockedRuntimeStore → Result (Unit {0}) × Stores
runtimes_written w (ok s) = (ok tt, record w { runtimes = s })
runtimes_written w (err e) = (err e, w)

-- `time` is what the stores read of the clock.
abbrev pub sessions_of : ℤ → SessionStore Stores
sessions_of time = record {
  get = λ id w. (Store.get id w.sessions, w);
  update = λ next w. sessions_written w (Store.update time next w.sessions);
}

abbrev pub runtimes_of : String → ℤ → BlockedRuntimeStore Stores
runtimes_of uuid time = record {
  create = λ spec w.
      let (item, s) = Blocked.create uuid time spec w.runtimes in
      (ok item, record w { runtimes = s });
  get = λ id w. (Blocked.get id w.runtimes, w);
  update = λ next w. runtimes_written w (Blocked.update time next w.runtimes);
}

-- Every record is stored once, under its identifier.
abbrev pub IsValid : Stores → Type 0
IsValid w =
    IsKeyed (λ (st : State). st.session_id) w.sessions.sessions
    × IsKeyed (λ (r : BlockedRuntimeRecord). r.blocked_runtime_id) w.runtimes.items

-- The session that the runtime returns, and the one that the store holds.
abbrev pub stepped : State → State
stepped next = record next { version = inc64 next.version }

module _ (time clock : ℤ) (w : Stores) (session_id : String) (st next : State) (valid : IsValid w)
    (found : lookup session_id w.sessions.sessions ≡ some st)
    (same_id : next.session_id ≡ st.session_id) (same_version : next.version ≡ st.version) where
  abbrev pub stored_session : State
  stored_session = Store.stamped (stepped next) st time

  abbrev pub after_write : Stores
  after_write = record w {
    sessions = record { sessions = insert session_id stored_session w.sessions.sessions };
  }

  stored_id : next.session_id ≡ session_id
  stored_id =
      same_id ∙ lookup-IsKeyed (λ v. v.session_id) session_id w.sessions.sessions valid.0 found

  -- A session that was just read can be written.
  pub persist-written :
      persist_session_update (sessions_of time) next "" clock w ≡ (ok (stepped next), after_write)
  unfolding persist_session_update persist_session_update_at Store.update
  persist-written =
      let here : lookup next.session_id w.sessions.sessions ≡ some st =
        ap (λ k. lookup k w.sessions.sessions) stored_id ∙ found in
      let t : eqb_ℤ (inc64 next.version) (inc64 st.version) ≡ true =
        rw same_version (ground arith) in
      rw (here, t)
        (ap
          (λ k. (
            ok (stepped next),
            record w {
              sessions = record { sessions = insert k stored_session w.sessions.sessions };
            },
          ))
          stored_id)

  pub after_write-IsValid : IsValid after_write
  after_write-IsValid = (
    insert-IsKeyed_of_eq (λ v. v.session_id) session_id stored_session w.sessions.sessions stored_id
        valid.0,
    valid.1,
  )

module _ (time : ℤ) (w : Stores) (id : String) (rec next : BlockedRuntimeRecord) (valid : IsValid w)
    (found : lookup id w.runtimes.items ≡ some rec)
    (same_id : next.blocked_runtime_id ≡ rec.blocked_runtime_id) where
  record_id : next.blocked_runtime_id ≡ id
  record_id = same_id ∙ lookup-IsKeyed (λ v. v.blocked_runtime_id) id w.runtimes.items valid.1 found

  abbrev pub after_update : MemoryBlockedRuntimeStore
  after_update = record { items = insert id (Blocked.stamped time next) w.runtimes.items }

  -- A record that was just read can be written.
  pub update-written : Blocked.update time next w.runtimes ≡ ok after_update
  unfolding Blocked.update
  update-written =
      let here : lookup next.blocked_runtime_id w.runtimes.items ≡ some rec =
        ap (λ k. lookup k w.runtimes.items) record_id ∙ found in
      rw here (
        ap (λ k. ok (record { items = insert k (Blocked.stamped time next) w.runtimes.items }))
          record_id)

  pub after_update-IsKeyed :
      IsKeyed (λ (r : BlockedRuntimeRecord). r.blocked_runtime_id) after_update.items
  after_update-IsKeyed =
      insert-IsKeyed_of_eq (λ v. v.blocked_runtime_id) id (Blocked.stamped time next)
        w.runtimes.items record_id valid.1
