-- ===== src/Tests/Workers.antt =====
-- The runtime's writes, leases, marks and approvals on concrete records.
use harness_core.Base.{◌≡◌, refl, true, false, some, arith, [], ◌∷◌, if◌then◌else◌, not, find}
use harness_core.Base.Int.{ℤ, pos, add64, is_zero, milliseconds}
use harness_core.Base.Dict.{lookup, insert}
use harness_core.Base.Sort.{sort}
use harness_core.Base.Result.{ok}
use harness_core.Session.State.{
  State, Phase, ClaimMode, interrupted, claimable_state, lease_active_at, lease_held_at,
  is_recoverable_state,
}
use harness_core.Session.Store
use harness_core.Session.Store.{
  MemoryStore, renewed, released, next_claimable, claim_next, stamped, grant,
}
use harness_core.Runtime.SessionUpdate.{
  require_session_lease, merge_session_update, persist_session_update_at, memory,
}
use harness_core.Runtime.SessionUpdate.Guard.{persist_under_lease, WroteUnderLease}
use harness_core.Runtime.SessionUpdate.Progress.{persist_succeeds}
use harness_core.Runtime.Coordination.{claim_session, renew_session_lease, release_session_lease}
use harness_core.Runtime.Coordination.Held.{claim_session-held, sub_millisecond_lease}
use harness_core.Runtime.Recovery.{mark_session_interrupted}
use harness_core.Runtime.Recovery.Marks.{interrupted-recoverable}
use harness_core.Tests.Data.{
  differ, created, claimed, one_session, one_session-IsValid, claimed_session,
}

-- The worker's copy of the claimed session, moved to the planning phase.
abbrev moved : State
moved = record claimed { phase = Phase.plan }

abbrev moved_session : MemoryStore
moved_session = record {
  sessions = ("s1", record moved { version = pos 3; updated_at = pos 7 }) ∷ [];
}

claimed-held : require_session_lease claimed "lse_1" (pos 6) ≡ ok tt
unfolding require_session_lease
claimed-held = refl

moved-written :
    persist_session_update_at (memory (pos 7)) moved "lse_1" (pos 6) (pos 6) claimed_session
    ≡ (ok (record moved { version = pos 3 }), moved_session)
unfolding persist_session_update_at Store.get lookup require_session_lease Store.update
    merge_session_update add64 insert
moved-written = refl

persist_under_lease_example :
    WroteUnderLease
      (memory (pos 7))
      moved
      "lse_1"
      (if is_zero (pos 6) then pos 6 else pos 6)
      (record moved { version = pos 3 })
      moved_session
persist_under_lease_example =
    persist_under_lease (memory (pos 7)) moved "lse_1" (pos 6) (pos 6) claimed_session
      (record moved { version = pos 3 }) moved_session (differ "lse_1" "" refl) moved-written

persist_succeeds_example :
    (s' : MemoryStore) × (persist_session_update_at
        (memory (pos 7))
        moved
        "lse_1"
        (pos 6)
        (pos 6)
        claimed_session
      ≡ (ok (merge_session_update claimed moved "lse_1"), s'))
    × (lookup "s1" s'.sessions
        ≡ some (stamped (merge_session_update claimed moved "lse_1") claimed (pos 7)))
unfolding lookup
persist_succeeds_example =
    persist_succeeds (pos 7) moved claimed "lse_1" (pos 6) (pos 6) claimed_session
      (differ "lse_1" "" refl) refl claimed-held

claimed_for_4_ms :
    claim_session ClaimMode.runnable (pos 4000000) "1" (pos 5) one_session
    ≡ ok (some claimed, claimed_session)
unfolding claim_session next_claimable find sort claimable_state lookup add64 insert
claimed_for_4_ms = refl

claim_session-held_example :
    ((after : MemoryStore) × (renew_session_lease "s1" "lse_1" (pos 1000000) (pos 8) claimed_session
        ≡ ok (renewed (pos 8) (add64 (pos 8) (milliseconds (pos 1000000))) claimed, after)))
    × ((after : MemoryStore) × (release_session_lease "s1" "lse_1" (pos 8) claimed_session
          ≡ ok (released (pos 8) claimed, after)))
unfolding add64
claim_session-held_example =
    claim_session-held ClaimMode.runnable (pos 4000000) "1" (pos 5) one_session (pos 8)
      (pos 1000000) {got = claimed} {s' = claimed_session} one_session-IsValid claimed_for_4_ms
      (omega arith) (omega arith)

abbrev briefly : State
briefly = grant "lse_1" (pos 5) (pos 5) created

claimed_for_half_ms :
    claim_session ClaimMode.runnable (pos 500000) "1" (pos 5) one_session
    ≡ ok (some briefly, record { sessions = ("s1", briefly) ∷ [] })
unfolding claim_session next_claimable find sort claimable_state lookup add64 insert
claimed_for_half_ms = refl

sub_millisecond_lease_example : lease_held_at briefly "lse_1" (pos 5) ≡ false
sub_millisecond_lease_example =
    sub_millisecond_lease ClaimMode.runnable (pos 500000) "1" (pos 5) one_session {got = briefly}
      one_session-IsValid (omega arith) (omega arith) (omega arith) (omega arith)
      claimed_for_half_ms

abbrev interrupted_at_6 : State
interrupted_at_6 = record claimed {
  execution_state = interrupted;
  interrupted_at = pos 6;
  phase = Phase.recover;
  version = pos 3;
}

marked :
    mark_session_interrupted (memory (pos 7)) "s1" "lse_1" (pos 6) (pos 6) (pos 6) claimed_session
    ≡ (
      ok interrupted_at_6,
      record { sessions = ("s1", record interrupted_at_6 { updated_at = pos 7 }) ∷ [] },
    )
unfolding mark_session_interrupted Store.get lookup require_session_lease Store.update
    merge_session_update add64 insert
marked = refl

interrupted-recoverable_example :
    (interrupted_at_6.phase ≡ Phase.recover)
    × (interrupted_at_6.interrupted_at ≡ pos 6)
    × (is_recoverable_state interrupted_at_6 ≡ true)
    × ((later : ℤ)
        → claimable_state interrupted_at_6 ClaimMode.recoverable later
          ≡ not (lease_active_at interrupted_at_6 later))
interrupted-recoverable_example =
    interrupted-recoverable (memory (pos 7)) "s1" "lse_1" (pos 6) (pos 6) (pos 6) claimed_session
      {got = interrupted_at_6} marked
