-- ===== src/Runtime/SessionNotes/Recall.antt =====
-- What is noted in a session's metadata is what is read back from it:
-- pkg/harness/runtime/plan_identity.go and blocked_runtime_state.go.
use harness_core.Base.{
  String, ◌≡◌, ◌≢◌, ◌↔◌, refl, true, false, Bool-cases, inl, inr, some, arith, eq_iff, ◌==◌,
}
use harness_core.Base.Int.{pos, ◌<ℤ◌, ltb_ℤ}
use harness_core.Base.Dict.{lookup, insert, lookup-insert, lookup-delete}
use harness_core.Metadata.{text, int}
use harness_core.Plan.Spec.{StepSpec}
use harness_core.Session.State.{State}
use harness_core.Runtime.PlanIdentity.{annotate_step_identity}
use harness_core.Runtime.SessionNotes.{
  current_plan_id_key, current_plan_revision_key, blocked_runtime_id_key, plan_ref_from_session,
  with_plan_ref, set_session_plan_ref, annotate_step_from_session, current_blocked_runtime_id,
  has_current_blocked_runtime, set_current_blocked_runtime,
}

-- A session in which the plan of a step was noted gives that plan and revision back, and a step
-- that has lost its plan's identity is given the identity that it had. The step names a plan and a
-- positive revision.
pub annotate-set_session_plan_ref :
    (st : State) (step : StepSpec)
    → step.plan_id ≢ ""
    → pos 0 <ℤ step.plan_revision
    → (plan_ref_from_session (set_session_plan_ref st step)
        ≡ some (step.plan_id, step.plan_revision))
      × (annotate_step_from_session
            (set_session_plan_ref st step)
            (record step { plan_id = ""; plan_revision = pos 0 })
          ≡ step)
unfolding plan_ref_from_session set_session_plan_ref annotate_step_from_session
    annotate_step_identity
annotate-set_session_plan_ref st step named positive =
    let named' : (step.plan_id == "") ≡ false = ground (arith, eq_iff step.plan_id "") in
    let revised : ltb_ℤ (pos 0) step.plan_revision ≡ true = ground arith in
    let id : lookup current_plan_id_key (with_plan_ref step st.metadata)
        ≡ some (text step.plan_id) =
      ground (
        arith,
        lookup-insert current_plan_revision_key current_plan_id_key (int step.plan_revision)
            (insert current_plan_id_key (text step.plan_id) st.metadata),
        lookup-insert current_plan_id_key current_plan_id_key (text step.plan_id) st.metadata,
      ) in
    let revision : lookup current_plan_revision_key (with_plan_ref step st.metadata)
        ≡ some (int step.plan_revision) =
      ground (
        arith,
        lookup-insert current_plan_revision_key current_plan_revision_key (int step.plan_revision)
            (insert current_plan_id_key (text step.plan_id) st.metadata),
      ) in
    let noted : plan_ref_from_session (set_session_plan_ref st step)
        ≡ some (step.plan_id, step.plan_revision) =
      rw (named', set_session_plan_ref, plan_ref_from_session, id, named', revision) refl in
    (noted, rw (noted, annotate_step_from_session) refl)

-- A session's blocked runtime is the one noted last, none after the empty identifier, and noting it
-- leaves the plan that the session works on as it was.
pub current-set_current_blocked_runtime :
    (st : State) (blocked_runtime_id : String)
    → let noted = set_current_blocked_runtime st blocked_runtime_id in
      (current_blocked_runtime_id noted ≡ blocked_runtime_id)
      × ((has_current_blocked_runtime noted ≡ true) ↔ (blocked_runtime_id ≢ ""))
      × (plan_ref_from_session noted ≡ plan_ref_from_session st)
unfolding current_blocked_runtime_id has_current_blocked_runtime set_current_blocked_runtime
    plan_ref_from_session
current-set_current_blocked_runtime st blocked_runtime_id =
    elim (Bool-cases (blocked_runtime_id == "")) [
      | inl e ↦ ground (
        arith,
        eq_iff blocked_runtime_id "",
        lookup-delete blocked_runtime_id_key blocked_runtime_id_key st.metadata,
        lookup-delete blocked_runtime_id_key current_plan_id_key st.metadata,
        lookup-delete blocked_runtime_id_key current_plan_revision_key st.metadata,
      )
      | inr e ↦ ground (
        arith,
        eq_iff blocked_runtime_id "",
        lookup-insert blocked_runtime_id_key blocked_runtime_id_key (text blocked_runtime_id)
            st.metadata,
        lookup-insert blocked_runtime_id_key current_plan_id_key (text blocked_runtime_id)
            st.metadata,
        lookup-insert blocked_runtime_id_key current_plan_revision_key (text blocked_runtime_id)
            st.metadata,
      )
    ]
