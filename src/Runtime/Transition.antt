-- ===== src/Runtime/Transition.antt =====
-- pkg/harness/runtime/decision.go and loop.go: the phase machine.
use harness_core.Base.{String, ◌==◌, Bool, true, false, if◌then◌else◌}
use harness_core.Session.State.{State, Phase}
use harness_core.Permission.{Action, Decision}

pub data Transition : Type 0 where
  stay prepare plan execute verify recover complete failed aborted : Transition
  unknown : String → Transition

pub record TransitionDecision : Type 0 where
  pub from : Phase
  pub to : Transition
  pub reason : String
  pub step_id : String

abbrev pub is_deny : Action → Bool
is_deny Action.deny = true
is_deny _ = false

-- The `switch` over the phase: the target and the reason.
unfoldable pub next_of : Phase → Bool → Transition × String
next_of Phase.received verified = (prepare, "task accepted")
next_of Phase.prepare verified = (plan, "preparation complete")
next_of Phase.plan verified = (execute, "step selected")
next_of Phase.execute verified = (verify, "action finished")
next_of Phase.verify verified =
    if verified then (complete, "verification succeeded") else (recover, "verification failed")
next_of Phase.recover verified = (plan, "recovery requires replanning")
next_of Phase.complete verified = (stay, "already complete")
next_of Phase.failed verified = (stay, "already failed")
next_of Phase.aborted verified = (stay, "already aborted")
next_of (Phase.unknown name) verified = (failed, "unknown phase")

-- DecideNextTransition
unfoldable pub decide_next_transition : State → String → Decision → Bool → TransitionDecision
unfolding next_of
decide_next_transition state step_id policy verified =
    if is_deny policy.action
    then record {
      from = state.phase;
      to = failed;
      reason = "policy denied action";
      step_id = step_id;
    }
    else record {
      from = state.phase;
      to = (next_of state.phase verified).0;
      reason = (next_of state.phase verified).1;
      step_id = step_id;
    }

-- The `switch` of `ApplyTransition`.
abbrev pub phase_after : Transition → Phase → Phase
phase_after prepare phase = Phase.prepare
phase_after plan phase = Phase.plan
phase_after execute phase = Phase.execute
phase_after verify phase = Phase.verify
phase_after recover phase = Phase.recover
phase_after complete phase = Phase.complete
phase_after failed phase = Phase.failed
phase_after aborted phase = Phase.aborted
phase_after stay phase = phase
phase_after (unknown name) phase = phase

-- ApplyTransition
unfoldable pub apply_transition : State → TransitionDecision → State
apply_transition state next = record state {
  phase = phase_after next.to state.phase;
  current_step_id = if next.step_id == "" then state.current_step_id else next.step_id;
}
