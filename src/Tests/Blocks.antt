-- ===== src/Tests/Blocks.antt =====
-- Blocked runtimes on a concrete session.
use harness_core.Base.{
  String, ◌≡◌, ◌≢◌, refl, some, none, [], ◌∷◌, ◌==◌, Bool-cases, inl, inr, find,
}
use harness_core.Base.Int.{pos, inc64, add64}
use harness_core.Base.Dict.{lookup, insert}
use harness_core.Base.Sort.{sort}
use harness_core.Base.Result.{ok, err, record_not_found}
use harness_core.Session.State.{State, ClaimMode, idle, claimable_state}
use harness_core.Session.Store.{claim_next, next_claimable}
use harness_core.Execution.Blocked.{
  BlockedRuntimeKind, BlockedRuntimeStatus, BlockedRuntimeConditionKind, BlockedRuntimeRecord,
}
use harness_core.Runtime.Blocked.{
  BlockedRuntimeRequest, BlockedRuntimeStore, create_blocked_runtime, validate_request,
  validate_session_state,
}
use harness_core.Runtime.Blocked.Machine.{IsSound}
use harness_core.Runtime.Blocked.Memory.{Stores, IsValid, sessions_of}
use harness_core.Runtime.Blocked.Calls.{Call, create, resume, run, run_all, AllFresh, view}
use harness_core.Runtime.Blocked.Refinement.{run_all-Refines}
use harness_core.Runtime.Blocked.Guarantees.{run_all-IsSound, claimed-not-waiting}
use harness_core.Runtime.Blocked.Release.{resume-releases, create-rolled_back}
use harness_core.Tests.Data.{
  differ, created, claimed, one_session, one_session-IsValid, claimed_session,
}

abbrev request : BlockedRuntimeRequest
request = record {
  kind = BlockedRuntimeKind.confirmation;
  subject = record {
    step_id = "build";
    action_id = "";
    attempt_id = "";
    cycle_id = "";
    target = record { target_id = ""; kind = "" };
    metadata = [];
  };
  condition = record {
    kind = BlockedRuntimeConditionKind.confirmation;
    reference_id = "";
    waiting_for = "";
    metadata = [];
  };
  metadata = [];
}

abbrev stores : Stores
stores = record { sessions = one_session; runtimes = record { items = [] } }

stores-IsValid : IsValid stores
unfolding lookup
stores-IsValid = (one_session-IsValid, tt)

abbrev block_s1 : Call
block_s1 = create "1" (pos 5) (pos 6) "s1" request

stores-IsSound : IsSound (view stores)
unfolding view lookup
stores-IsSound =
    ((λ session_id id h. absurd (nothing session_id id h)), (λ session_id id s own is going. cc))
  where
    nothing : (session_id id : String) → (view stores).waits_on session_id ≡ some id → ⊥
    nothing session_id id h = elim (Bool-cases ("s1" == session_id)) [
      | inl e ↦ cc (rw e at h)
      | inr e ↦ cc (rw e at h)
    ]

resume-releases_example :
    let w = run_all (block_s1 ∷ []) stores in
    (rec : BlockedRuntimeRecord) × (st : State) × (w' : Stores) × (run
        (resume (pos 7) (pos 8) "blocked_1")
        w
      ≡ (ok (rec, st), w'))
    × (rec.status ≡ BlockedRuntimeStatus.resumed)
    × (st.session_id ≡ "s1")
    × (st.execution_state ≡ idle)
    × ((view w').waits_on "s1" ≡ none)
    × ((view w').status "blocked_1" ≡ some BlockedRuntimeStatus.resumed)
unfolding AllFresh lookup run_all run view harness_core.Session.Store.get
    harness_core.Session.Store.update add64 insert
resume-releases_example =
    resume-releases (run_all (block_s1 ∷ []) stores)
      (run_all-Refines (block_s1 ∷ []) stores stores-IsValid (refl, tt)).1 "s1" "blocked_1"
      (run_all-IsSound (block_s1 ∷ []) stores stores-IsValid (refl, tt) stores-IsSound) refl (pos 7)
      (pos 8)

-- A record store that is out of order.
abbrev broken : BlockedRuntimeStore Stores
broken = record {
  create = λ spec w. (err record_not_found, w);
  get = λ id w. (err record_not_found, w);
  update = λ next w. (err record_not_found, w);
}

create-rolled_back_example :
    (w' : Stores) × (create_blocked_runtime
        (sessions_of (pos 6))
        broken
        (pos 5)
        (pos 6)
        "1"
        "s1"
        request
        stores
      ≡ (err record_not_found, w'))
    × (w'.runtimes ≡ stores.runtimes)
    × (lookup "s1" w'.sessions.sessions
        ≡ some (record created { version = inc64 (inc64 created.version); updated_at = pos 6 }))
    × ((k : String) → k ≢ "s1" → lookup k w'.sessions.sessions ≡ lookup k stores.sessions.sessions)
unfolding lookup validate_request validate_session_state
create-rolled_back_example =
    create-rolled_back stores stores-IsValid "s1" created refl (differ "s1" "" refl) broken
      record_not_found (λ spec v. refl) (pos 6) (pos 5) "1" request refl refl

claimed-not-waiting_example : (view stores).waits_on "s1" ≡ none
unfolding claim_next next_claimable find sort claimable_state lookup insert add64
claimed-not-waiting_example =
    claimed-not-waiting ClaimMode.runnable "lse_1" (pos 5) (pos 9) stores claimed claimed_session
      stores-IsValid refl
