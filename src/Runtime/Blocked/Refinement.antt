-- ===== src/Runtime/Blocked/Refinement.antt =====
-- The life cycle of blocked runtimes moves as its machine does:
-- pkg/harness/runtime/blocked_runtime_lifecycle.go.
use harness_core.Base.{
  String, ◌≡◌, refl, ap, ◌∙◌, none, some, true, inl, inr, ◌==◌, List, [], ◌∷◌, Option-cases,
}
use harness_core.Base.Int.{ℤ}
use harness_core.Base.Dict.{lookup, insert-IsKeyed, lookup-IsKeyed}
use harness_core.Base.Result.{Result-cases, ok}
use harness_core.Metadata.{Metadata}
use harness_core.Session.State.{State}
use harness_core.Session.Store
use harness_core.Execution.Blocked
use harness_core.Execution.Blocked.{BlockedRuntimeRecord, BlockedRuntimeStatus, pending, blocked_id}
use harness_core.Runtime.Blocked.{
  BlockedRuntimeRequest, validate_request, validate_session_state, create_blocked_runtime,
  blocked_by, prepared_record, BlockedRuntimeResponse, respond_blocked_runtime,
  resume_blocked_runtime, abort_blocked_runtime, resolve_blocked_runtime_state, validate_response,
  require_current, require_pending, require_open, answered, resolved, unblocked, is_over,
}
use harness_core.Runtime.Blocked.Machine.{Moves, append, stay}
use harness_core.Runtime.Blocked.Memory.{
  Stores, IsValid, stepped, persist-written, after_write, after_write-IsValid, update-written,
  after_update-IsKeyed, sessions_of, runtimes_of,
}
use harness_core.Runtime.Blocked.Calls.{
  Call, create, respond, resume, abort, run, run_all, AllFresh, IsFresh, view,
}
use harness_core.Runtime.Blocked.Writes.{view-waits, view-status, blocks, answers, finishes}
use harness_core.Runtime.Blocked.Guards.{
  same_either, waiting-blocked_by, blocked_by-same, not-blocked, require_current-ok,
  require_pending-ok, require_open-ok, validate_response-ok, unblocked-same,
}

-- The stores move as the machine does, and stay valid.
abbrev pub Refines : Stores → Stores → Type 0
Refines w w' = Moves (view w) (view w') × IsValid w'

module _ (w : Stores) (valid : IsValid w) where
  unchanged : Refines w w
  unchanged = (stay, valid)

  create-Refines :
      (uuid : String) (now time : ℤ) (session_id : String) (request : BlockedRuntimeRequest)
      → lookup (blocked_id uuid) w.runtimes.items ≡ none
      → Refines w (run (create uuid now time session_id request) w).1
  unfolding run create_blocked_runtime Store.get Blocked.create prepared_record
  create-Refines uuid now time session_id request fresh =
      elim (Result-cases (validate_request request)) [
        | inr (e, refused) ↦ rw (refused, run, create_blocked_runtime) unchanged
        | inl (_, sane) ↦ elim (Option-cases (lookup session_id w.sessions.sessions)) [
          | inl missing ↦ rw (sane, run, create_blocked_runtime, Store.get, missing) unchanged
          | inr (st, found) ↦ elim (Result-cases (validate_session_state st)) [
            | inr (e, refused) ↦
                rw (sane, run, create_blocked_runtime, Store.get, found, refused) unchanged
            | inl (_, free) ↦
                let id = blocked_id uuid in
                let next = blocked_by st id in
                rw
                  (
                    sane,
                    run,
                    create_blocked_runtime,
                    Store.get,
                    found,
                    free,
                    persist-written time time w session_id st next valid found
                        (blocked_by-same st id).0 (blocked_by-same st id).1,
                    same_either (id == "") id,
                  )
                  (
                    blocks w _ session_id id _ refl (Store.stamped (stepped next) st time) refl
                        (waiting-blocked_by time st id) refl refl
                        (view-waits w session_id found ∙ not-blocked st free)
                        (view-status w id fresh),
                    (
                      (after_write-IsValid time time w session_id st next valid found
                          (blocked_by-same st id).0 (blocked_by-same st id).1).0,
                      insert-IsKeyed (λ r. r.blocked_runtime_id) _ w.runtimes.items valid.1,
                    ),
                  )
          ]
        ]
      ]

  -- The session of a record, and that it waits on that record.
  module _ (id : String) (rec : BlockedRuntimeRecord) (st : State) {u : Unit {0}}
      (found : lookup id w.runtimes.items ≡ some rec)
      (session : lookup rec.session_id w.sessions.sessions ≡ some st)
      (current : require_current st rec ≡ ok u) where
    waits-current : (view w).waits_on rec.session_id ≡ some id
    waits-current =
        view-waits w rec.session_id session
        ∙ require_current-ok st rec current
        ∙ ap some (lookup-IsKeyed (λ r. r.blocked_runtime_id) id w.runtimes.items valid.1 found)

  respond-Refines :
      (now time : ℤ) (id : String) (response : BlockedRuntimeResponse)
      → Refines w (run (respond now time id response) w).1
  unfolding run respond_blocked_runtime Store.get Blocked.get
  respond-Refines now time id response = elim (Result-cases (validate_response response)) [
    | inr (e, refused) ↦ rw (refused, run, respond_blocked_runtime) unchanged
    | inl (_, sane) ↦ elim (Option-cases (lookup id w.runtimes.items)) [
      | inl missing ↦ rw (sane, run, respond_blocked_runtime, Blocked.get, missing) unchanged
      | inr (rec, found) ↦ elim (Option-cases (lookup rec.session_id w.sessions.sessions)) [
        | inl missing ↦
            rw (sane, run, respond_blocked_runtime, Blocked.get, found, Store.get, missing)
              unchanged
        | inr (st, session) ↦ elim (Result-cases (require_current st rec)) [
          | inr (e, refused) ↦
              rw
                (
                  sane, run, respond_blocked_runtime, Blocked.get, found, Store.get, session,
                  refused,
                )
                unchanged
          | inl (_, current) ↦ elim (Result-cases (require_pending rec.status)) [
            | inr (e, refused) ↦
                rw
                  (
                    sane, run, respond_blocked_runtime, Blocked.get, found, Store.get, session,
                    current, refused,
                  )
                  unchanged
            | inl (_, was) ↦
                let next = answered now response rec in
                rw
                  (
                    sane,
                    run,
                    respond_blocked_runtime,
                    Blocked.get,
                    found,
                    Store.get,
                    session,
                    current,
                    was,
                    update-written time w id rec next valid found refl,
                  )
                  (
                    answers w _ rec.session_id id (Blocked.stamped time next) refl rec refl found
                        refl refl (waits-current id rec st found session current)
                        (require_pending-ok rec.status was) (validate_response-ok response sane),
                    (valid.0, after_update-IsKeyed time w id rec next valid found refl),
                  )
          ]
        ]
      ]
    ]
  ]

  resolve-Refines :
      (now time : ℤ) (id : String) (status : BlockedRuntimeStatus) (reason : String)
      (metadata : Metadata)
      → is_over status ≡ true
      → Refines w
          (resolve_blocked_runtime_state
            (sessions_of time)
            (runtimes_of "" time)
            now
            time
            id
            status
            reason
            metadata
            w).1
  unfolding resolve_blocked_runtime_state Store.get Blocked.get
  resolve-Refines now time id status reason metadata ends =
      elim (Option-cases (lookup id w.runtimes.items)) [
        | inl missing ↦ rw (resolve_blocked_runtime_state, Blocked.get, missing) unchanged
        | inr (rec, found) ↦ elim (Option-cases (lookup rec.session_id w.sessions.sessions)) [
          | inl missing ↦
              rw (resolve_blocked_runtime_state, Blocked.get, found, Store.get, missing) unchanged
          | inr (st, session) ↦ elim (Result-cases (require_current st rec)) [
            | inr (e, refused) ↦
                rw (resolve_blocked_runtime_state, Blocked.get, found, Store.get, session, refused)
                  unchanged
            | inl (_, current) ↦ elim (Result-cases (require_open rec.status)) [
              | inr (e, refused) ↦
                  rw
                    (
                      resolve_blocked_runtime_state, Blocked.get, found, Store.get, session,
                      current, refused,
                    )
                    unchanged
              | inl (_, going) ↦
                  let next = unblocked st in
                  let (same_id, same_version) = unblocked-same st in
                  let rec' = resolved now status reason metadata rec in
                  let w1 =
                    after_write time time w rec.session_id st next valid session same_id
                      same_version in
                  let valid1 =
                    after_write-IsValid time time w rec.session_id st next valid session same_id
                      same_version in
                  rw
                    (
                      resolve_blocked_runtime_state,
                      Blocked.get,
                      found,
                      Store.get,
                      session,
                      current,
                      going,
                      persist-written time time w rec.session_id st next valid session same_id
                          same_version,
                      update-written time w1 id rec rec' valid1 found refl,
                    )
                    (
                      finishes w _ rec.session_id id (Blocked.stamped time rec') refl
                          (Store.stamped (stepped next) st time) refl rec found refl refl refl
                          (waits-current id rec st found session current)
                          (require_open-ok rec.status going) ends,
                      (valid1.0, after_update-IsKeyed time w1 id rec rec' valid1 found refl),
                    )
            ]
          ]
        ]
      ]

  run-Refines : (c : Call) → IsFresh c w → Refines w (run c w).1
  unfolding run resume_blocked_runtime abort_blocked_runtime
  run-Refines (create uuid now time session_id request) fresh =
      create-Refines uuid now time session_id request fresh
  run-Refines (respond now time id response) fresh = respond-Refines now time id response
  run-Refines (resume now time id) fresh =
      resolve-Refines now time id BlockedRuntimeStatus.resumed "" [] refl
  run-Refines (abort now time id request) fresh =
      resolve-Refines now time id BlockedRuntimeStatus.aborted request.reason request.metadata refl

pub run_all-Refines :
    (cs : List Call) (w : Stores) → IsValid w → AllFresh cs w → Refines w (run_all cs w)
unfolding run_all AllFresh
run_all-Refines [] w valid fresh = (stay, valid)
run_all-Refines (c ∷ cs) w valid fresh =
    let (moves, valid1) = run-Refines w valid c fresh.0 in
    let (more, valid2) = run_all-Refines cs (run c w).1 valid1 fresh.1 in
    (append moves more, valid2)
