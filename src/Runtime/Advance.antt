-- ===== src/Runtime/Advance.antt =====
-- The loop of pkg/harness/runtime/runner.go that moves a session forward to the execute phase.
use harness_core.Base.{
  String, ℕ, zero, suc, ◌≤◌, ◌≡◌, refl, Bool, true, false, ◌||◌, Option, none, some, List, [], ◌∷◌,
  arith, if◌then◌else◌, length,
}
use harness_core.Session.State.{State, zero_state, Phase, is_terminal_phase}
use harness_core.Permission.{Action, Decision}
use harness_core.Runtime.Transition.{
  TransitionDecision, phase_after, decide_next_transition, apply_transition,
}

abbrev is_execute : Phase → Bool
is_execute Phase.execute = true
is_execute _ = false

abbrev state_advancement : Decision
state_advancement = record {
  action = Action.allow;
  reason = "state advancement";
  matched_rule = "";
}

-- The state and the transitions taken, in order; `none` means that the fuel ran out.
unfoldable pub advance : ℕ → State → String → Option (State × List TransitionDecision)
unfolding decide_next_transition apply_transition
advance zero state step_id = none
advance (suc fuel) state step_id =
    let next = decide_next_transition state step_id state_advancement false in
    let rest = advance fuel (apply_transition state next) step_id in
    if is_execute state.phase || is_terminal_phase state.phase
    then some (state, [])
    else elim rest [ none ↦ none | some (final, taken) ↦ some (final, next ∷ taken) ]

-- Where the loop ends, by the phase that it starts in.
abbrev pub arrival : Phase → Phase
arrival Phase.complete = Phase.complete
arrival Phase.failed = Phase.failed
arrival Phase.aborted = Phase.aborted
arrival (Phase.unknown name) = Phase.failed
arrival _ = Phase.execute

-- Each transition leaves the phase that the one before it entered, and the last enters `end`.
abbrev pub Chain : Phase → List TransitionDecision → Phase → Type 0
Chain start [] end = start ≡ end
Chain start (t ∷ ts) end = (t.from ≡ start) × Chain (phase_after t.to start) ts end

abbrev outcome : Option (State × List TransitionDecision) → State × List TransitionDecision
outcome (some r) = r
outcome none = (zero_state, [])

from_phase :
    (phase : Phase) (state : State) (step_id : String)
    → let start : State = record state { phase = phase } in
      let (final, taken) = outcome (advance 4 start step_id) in
      (advance 4 start step_id ≡ some (final, taken))
      × (final.phase ≡ arrival phase)
      × (length taken ≤ 3)
      × Chain phase taken final.phase
      × (final ≡ record start { phase = final.phase; current_step_id = final.current_step_id })
unfolding advance
from_phase Phase.received state step_id = (refl, refl, omega arith, ground arith, refl)
from_phase Phase.complete state step_id = (refl, refl, omega arith, refl, refl)
from_phase _ state step_id = (refl, refl, omega arith, ground arith, refl)

-- The loop always ends, within three transitions: four units of fuel are enough from any state. It
-- stops in the execute phase, except that a finished session stays where it is and a session in an
-- unknown phase fails; the transitions form a chain from the first phase to the last; and of the
-- session only the phase and the current step change.
pub advance_ends :
    (state : State) (step_id : String)
    → (final : State) × (taken : List TransitionDecision) × (advance 4 state step_id
        ≡ some (final, taken))
      × (final.phase ≡ arrival state.phase)
      × (length taken ≤ 3)
      × Chain state.phase taken final.phase
      × (final ≡ record state { phase = final.phase; current_step_id = final.current_step_id })
advance_ends state step_id =
    let out = outcome (advance 4 state step_id) in
    let (ends, arrives, short, chain, kept) = from_phase state.phase state step_id in
    (out.0, out.1, ends, arrives, short, chain, kept)
