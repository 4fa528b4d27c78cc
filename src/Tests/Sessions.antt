-- ===== src/Tests/Sessions.antt =====
-- The session store on concrete sessions.
use harness_core.Base.{
  String, ◌≡◌, ◌⊎◌, refl, true, false, some, arith, [], ◌∷◌, ◌==◌, if◌then◌else◌,
}
use harness_core.Base.Int.{pos, inc64, add64}
use harness_core.Base.Dict.{lookup, insert}
use harness_core.Base.Sort.{sort}
use harness_core.Base.{find}
use harness_core.Base.Result.{ok, err, session_version_conflict}
use harness_core.Session.State.{State, ClaimMode, claimable_state}
use harness_core.Session.Store.{MemoryStore, grant, before, next_claimable, claim_next, update}
use harness_core.Session.Claim.{claim_next-some}
use harness_core.Session.Lease.{claim, renew, release, run_all, run_all-foreign}
use harness_core.Session.Update.{update_once}
use harness_core.Session.History.{step, update_session, step-version}
use harness_core.Tests.Data.{
  differ, created, claimed, one_session, one_session-IsValid, claimed_session,
  claimed_session-IsValid,
}

-- The stored session is claimed.
claim_first :
    claim_next ClaimMode.runnable "lse_1" (pos 5) (pos 9) one_session
    ≡ (some claimed, claimed_session)
unfolding claim_next next_claimable find sort claimable_state lookup insert add64
claim_first = refl

claim_next-some_example :
    (st : State) × (lookup st.session_id one_session.sessions ≡ some st)
    × (claimable_state st ClaimMode.runnable (pos 5) ≡ true)
    × (claimed ≡ grant "lse_1" (pos 5) (pos 9) st)
    × ((k : String)
        → lookup k claimed_session.sessions
          ≡ (if st.session_id == k then some claimed else lookup k one_session.sessions))
    × ((k : String) (other : State)
        → lookup k one_session.sessions ≡ some other
        → claimable_state other ClaimMode.runnable (pos 5) ≡ true
        → before other st ≡ false)
claim_next-some_example =
    claim_next-some ClaimMode.runnable "lse_1" (pos 5) (pos 9) one_session one_session-IsValid
      claim_first

run_all-foreign_example :
    lookup "s1"
      (run_all
        (claim ClaimMode.recoverable "lse_2" (pos 8) (pos 20)
          ∷ renew "s1" "lse_2" (pos 8) (pos 20)
          ∷ release "s1" "lse_2" (pos 8)
          ∷ [])
        claimed_session).sessions
    ≡ some claimed
unfolding lookup
run_all-foreign_example =
    run_all-foreign
      (claim ClaimMode.recoverable "lse_2" (pos 8) (pos 20)
        ∷ renew "s1" "lse_2" (pos 8) (pos 20)
        ∷ release "s1" "lse_2" (pos 8)
        ∷ [])
      "s1" claimed_session {st = claimed} claimed_session-IsValid refl (differ "lse_1" "" refl)
      (omega arith, (differ "lse_2" "lse_1" refl, (differ "lse_2" "lse_1" refl, tt)))

-- The next version of the created session, renamed by two workers at once.
abbrev renamed : String → State
renamed title = record created { title = title; version = pos 2 }

abbrev renamed_session : String → MemoryStore
renamed_session title = record {
  sessions = ("s1", record (renamed title) { updated_at = pos 6 }) ∷ [];
}

rename_first : update (pos 6) (renamed "a") one_session ≡ ok (renamed_session "a")
unfolding update lookup add64 insert
rename_first = refl

update_once_example :
    update (pos 7) (renamed "b") (renamed_session "a") ≡ err session_version_conflict
update_once_example =
    update_once (pos 6) (pos 7) (renamed "a") (renamed "b") one_session rename_first refl refl

step-version_example :
    (st' : State) × (lookup "s1" (step (update_session (pos 6) (renamed "a")) one_session).sessions
      ≡ some st')
    × ((st' ≡ created) ⊎ (st'.version ≡ inc64 created.version))
unfolding lookup
step-version_example =
    step-version (update_session (pos 6) (renamed "a")) "s1" one_session {st = created}
      one_session-IsValid tt refl
