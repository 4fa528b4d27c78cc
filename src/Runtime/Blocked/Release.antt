-- ===== src/Runtime/Blocked/Release.antt =====
-- How a session leaves a blocked runtime, and what a failed block undoes:
-- pkg/harness/runtime/blocked_runtime_lifecycle.go and rollback.go.
use harness_core.Base.{
  String, Bool, ◌≡◌, ◌≢◌, refl, sym, ap, ◌∙◌, Option, none, some, true, false, Option-cases,
  Bool-cases, inl, inr, arith, eq_iff, ◌==◌, ◌||◌, [], if◌then◌else◌,
}
use harness_core.Base.Int.{ℤ, inc64, is_zero}
use harness_core.Base.Dict.{lookup, lookup-IsKeyed, insert, lookup-insert_self, lookup-insert_ne}
use harness_core.Base.Result.{Error, ok, err}
use harness_core.Session.State.{State, idle}
use harness_core.Session.Store
use harness_core.Execution.Blocked
use harness_core.Execution.Blocked.{BlockedRuntimeRecord, BlockedRuntimeStatus, blocked_id}
use harness_core.Runtime.SessionNotes.{current_blocked_runtime_id}
use harness_core.Runtime.Rollback.{rollback_session_state}
use harness_core.Runtime.Blocked.{
  BlockedRuntimeStore, BlockedRuntimeRequest, validate_request, validate_session_state,
  require_current, require_open, is_blocked, blocked_by, unblocked, resolved,
  create_blocked_runtime, resolve_blocked_runtime_state, resume_blocked_runtime,
}
use harness_core.Runtime.Blocked.Machine.{IsSound}
use harness_core.Runtime.Blocked.Memory.{
  Stores, IsValid, stepped, persist-written, after_write, after_write-IsValid, update-written,
  after_update, sessions_of,
}
use harness_core.Runtime.Blocked.Calls.{resume, run, waiting, owner_of, status_of, view}
use harness_core.Runtime.Blocked.Writes.{view-waits, view-status}
use harness_core.Runtime.Blocked.Guards.{unblocked-same, blocked_by-same}

waiting-current :
    (o : Option State) (id : String)
    → waiting o ≡ some id
    → (st : State) × (o ≡ some st)
      × (current_blocked_runtime_id st ≡ id)
      × (is_blocked st.execution_state ≡ true)
unfolding current_blocked_runtime_id
waiting-current none id h = cc
waiting-current (some st) id h = elim (Bool-cases (is_blocked st.execution_state)) [
  | inl e ↦ (st, refl, cc (rw e at h), e)
  | inr e ↦ absurd (harness_core.Base.some-ne-none (sym (rw e at h)))
]

owned :
    (o : Option BlockedRuntimeRecord) (session_id : String)
    → owner_of o ≡ some session_id
    → (rec : BlockedRuntimeRecord) × (o ≡ some rec) × (rec.session_id ≡ session_id)
owned none session_id h = cc
owned (some rec) session_id h = (rec, refl, cc)

module _ (w : Stores) (valid : IsValid w) (session_id id : String) (sound : IsSound (view w))
    (waits : (view w).waits_on session_id ≡ some id) where
  -- The session and the record that it waits on.
  waits-found :
      (st : State) × (rec : BlockedRuntimeRecord) × (lookup rec.session_id w.sessions.sessions
        ≡ some st)
      × (lookup id w.runtimes.items ≡ some rec)
      × (rec.session_id ≡ session_id)
      × (require_current st rec ≡ ok tt)
      × (require_open rec.status ≡ ok tt)
  unfolding view require_current
  waits-found =
      let (st, session, current, parked) =
        waiting-current (lookup session_id w.sessions.sessions) id waits in
      let (own, s, status, going) = sound.0 session_id id waits in
      let (rec, found, mine) = owned (lookup id w.runtimes.items) session_id own in
      let named : rec.blocked_runtime_id ≡ id =
        lookup-IsKeyed (λ r. r.blocked_runtime_id) id w.runtimes.items valid.1 found in
      let open_status : rec.status ≡ s = cc (sym (ap status_of found) ∙ status) in
      (
        st,
        rec,
        ap (λ k. lookup k w.sessions.sessions) mine ∙ session,
        found,
        mine,
        ground
            (arith, eq_iff (current_blocked_runtime_id st) rec.blocked_runtime_id, current, named),
        rw (open_status, going) refl,
      )

  -- A session that waits on a blocked runtime can always be released: to resume that blocked runtime
  -- succeeds, whatever was answered or not, the session is then idle and waits on nothing, and the
  -- record is marked as resumed. Sessions wait on what is open, and the stores keep each record under
  -- its identifier.
  pub resume-releases :
      (now time : ℤ)
      → (rec : BlockedRuntimeRecord) × (st : State) × (w' : Stores) × (run (resume now time id) w
          ≡ (ok (rec, st), w'))
        × (rec.status ≡ BlockedRuntimeStatus.resumed)
        × (st.session_id ≡ session_id)
        × (st.execution_state ≡ idle)
        × ((view w').waits_on session_id ≡ none)
        × ((view w').status id ≡ some BlockedRuntimeStatus.resumed)
  unfolding run resume_blocked_runtime resolve_blocked_runtime_state Store.get Blocked.get
  resume-releases now time =
      let (st, rec, session, found, mine, current, open_status) = waits-found in
      let next = unblocked st in
      let (same_id, same_version) = unblocked-same st in
      let rec' = resolved now BlockedRuntimeStatus.resumed "" [] rec in
      let w1 = after_write time time w rec.session_id st next valid session same_id same_version in
      let stored = Store.stamped (stepped next) st time in
      let valid1 =
        after_write-IsValid time time w rec.session_id st next valid session same_id same_version in
      let w2 : Stores = record w1 {
        runtimes = after_update time w1 id rec rec' valid1 found refl;
      } in
      (
        rec',
        stepped next,
        w2,
        rw
            (
              resolve_blocked_runtime_state,
              Blocked.get,
              found,
              Store.get,
              session,
              current,
              open_status,
              persist-written time time w rec.session_id st next valid session same_id same_version,
              update-written time w1 id rec rec' valid1 found refl,
            )
            refl,
        refl,
        same_id
            ∙ lookup-IsKeyed (λ v. v.session_id) rec.session_id w.sessions.sessions valid.0 session
            ∙ mine,
        refl,
        view-waits w2 session_id (
            ap (λ k. lookup session_id (insert k stored w.sessions.sessions)) mine
            ∙ lookup-insert_self session_id stored w.sessions.sessions),
        view-status w2 id (lookup-insert_self id (Blocked.stamped time rec') w.runtimes.items),
      )

keep_either : (b : Bool) (z : ℤ) → (if b then (if b then z else z) else z) ≡ z
keep_either true z = refl
keep_either false z = refl

-- A record store that refuses each new record.
module _ (w : Stores) (valid : IsValid w) (session_id : String) (st : State)
    (found : lookup session_id w.sessions.sessions ≡ some st) (named : session_id ≢ "")
    (runtimes : BlockedRuntimeStore Stores) (e : Error)
    (refuses : (spec : BlockedRuntimeRecord) (v : Stores) → runtimes.create spec v ≡ (err e, v))
    (time now : ℤ) (uuid : String) (request : BlockedRuntimeRequest) where
  -- If the record of a blocked runtime cannot be stored, the session that was blocked for it is
  -- restored: the error is the store's own, no blocked runtime is changed, every other session is as
  -- it was, and this one differs from what it was only in its version, stepped twice, and its time of
  -- update. The request is valid, the session may be blocked and has a name, and each record is
  -- stored under its identifier.
  pub create-rolled_back :
      validate_request request ≡ ok tt
      → validate_session_state st ≡ ok tt
      → (w' : Stores) × (create_blocked_runtime
            (sessions_of time)
            runtimes
            now
            time
            uuid
            session_id
            request
            w
          ≡ (err e, w'))
        × (w'.runtimes ≡ w.runtimes)
        × (lookup session_id w'.sessions.sessions
            ≡ some (record st { version = inc64 (inc64 st.version); updated_at = time }))
        × ((k : String)
            → k ≢ session_id
            → lookup k w'.sessions.sessions ≡ lookup k w.sessions.sessions)
  unfolding create_blocked_runtime Store.get rollback_session_state
  create-rolled_back sane free =
      let next = blocked_by st (blocked_id uuid) in
      let (same_id, same_version) = blocked_by-same st (blocked_id uuid) in
      let w1 = after_write time time w session_id st next valid found same_id same_version in
      let valid1 =
        after_write-IsValid time time w session_id st next valid found same_id same_version in
      let back : State = record st { version = inc64 next.version } in
      let stored = Store.stamped (stepped next) st time in
      let found1 : lookup session_id w1.sessions.sessions ≡ some stored =
        lookup-insert_self session_id stored w.sessions.sessions in
      let w2 = after_write time time w1 session_id stored back valid1 found1 (sym same_id) refl in
      let own : st.session_id ≡ session_id =
        lookup-IsKeyed (λ v. v.session_id) session_id w.sessions.sessions valid.0 found in
      let named' : (st.session_id == "") ≡ false = ground (arith, eq_iff st.session_id "", own) in
      (
        w2,
        rw
            (
              create_blocked_runtime,
              sane,
              Store.get,
              found,
              free,
              persist-written time time w session_id st next valid found same_id same_version,
              refuses,
              rollback_session_state,
              same_id,
              named',
              persist-written time time w1 session_id stored back valid1 found1 (sym same_id) refl,
            )
            refl,
        refl,
        lookup-insert_self session_id (Store.stamped (stepped back) stored time)
              w1.sessions.sessions
            ∙ (λ i. some (record st {
              version = inc64 (inc64 st.version);
              updated_at = time;
              created_at = keep_either (is_zero st.created_at) st.created_at i;
              runtime_started_at =
                  keep_either (is_zero st.runtime_started_at) st.runtime_started_at i;
            })),
        (λ k other.
            lookup-insert_ne session_id k (Store.stamped (stepped back) stored time)
              w1.sessions.sessions (λ same. other (sym same))
            ∙ lookup-insert_ne session_id k stored w.sessions.sessions (λ same. other (sym same))),
      )
