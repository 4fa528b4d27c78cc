-- ===== src/Session/Update.antt =====
-- The optimistic update of pkg/harness/session/store.go.
use harness_core.Base.{
  String, ◌≡◌, true, Option-cases, Bool-cases, inl, inr, some, arith, eq_iff, ap, sym, ◌∙◌, [],
  ◌==◌, if◌then◌else◌,
}
use harness_core.Base.Int.{ℤ, eqb_ℤ, eqb_ℤ-eq, eqb_ℤ_refl, inc64, inc64-ne}
use harness_core.Base.Dict.{Dict, lookup, insert, lookup-insert}
use harness_core.Base.Result.{Result, ok, err, session_version_conflict}
use harness_core.Session.State.{State}
use harness_core.Session.Store.{MemoryStore, stamped, update}

abbrev sessions_of : Result MemoryStore → Dict State
sessions_of (ok s) = s.sessions
sessions_of (err e) = []

not-ok : {s : MemoryStore} → err session_version_conflict ≡ ok s → ⊥
not-ok h = cc

module _ (now : ℤ) (next : State) (s : MemoryStore) {s' : MemoryStore}
    (h : update now next s ≡ ok s') where
  pub update_inv :
      (current : State) × (lookup next.session_id s.sessions ≡ some current)
      × (next.version ≡ inc64 current.version)
      × (s'.sessions ≡ insert next.session_id (stamped next current now) s.sessions)
  unfolding update
  update_inv = elim (Option-cases (lookup next.session_id s.sessions)) [
    | inl e ↦ absurd (ground arith)
    | inr (current, e) ↦ elim (Bool-cases (eqb_ℤ next.version (inc64 current.version))) [
      | inl t ↦ (
        current,
        e,
        eqb_ℤ-eq next.version (inc64 current.version) t,
        sym (ap sessions_of (rw (e, update, t) at h)),
      )
      | inr t ↦ absurd (not-ok (rw (e, update, t) at h))
    ]
  ]

  -- An update that succeeds found the session stored with the version just before the new one; the
  -- map then changes at that session's identifier and nowhere else, and the creation and start
  -- times that the update left at zero keep their stored values.
  pub update_ok :
      (current : State) × (lookup next.session_id s.sessions ≡ some current)
      × (next.version ≡ inc64 current.version)
      × ((k : String)
          → lookup k s'.sessions ≡ (
              if next.session_id == k
              then some (stamped next current now)
              else lookup k s.sessions))
  update_ok =
      let (current, found, stepped, written) = update_inv in
      (
        current,
        found,
        stepped,
        λ k.
            ap (lookup k) written
            ∙ lookup-insert next.session_id k (stamped next current now) s.sessions,
      )

-- The next version of a stored session is accepted.
pub update_accepts :
    (now : ℤ) (next current : State) (s : MemoryStore)
    → lookup next.session_id s.sessions ≡ some current
    → next.version ≡ inc64 current.version
    → update now next s
      ≡ ok (record { sessions = insert next.session_id (stamped next current now) s.sessions })
unfolding update
update_accepts now next current s found stepped =
    let t : eqb_ℤ next.version (inc64 current.version) ≡ true =
      rw stepped (eqb_ℤ_refl (inc64 current.version)) in
    rw (found, update, t)

-- Of two updates that were made from the same version of a session, the second is refused as a
-- conflict if the first succeeded, whatever they write.
pub update_once :
    (now now' : ℤ) (a b : State) (s : MemoryStore) {s' : MemoryStore}
    → update now a s ≡ ok s'
    → b.session_id ≡ a.session_id
    → b.version ≡ a.version
    → update now' b s' ≡ err session_version_conflict
unfolding update
update_once now now' a b s {s'} h ids versions =
    let (current, found, stepped, written) = update_ok now a s h in
    let here : lookup b.session_id s'.sessions ≡ some (stamped a current now) =
      ground (arith, written b.session_id, eq_iff a.session_id b.session_id) in
    elim (Bool-cases (eqb_ℤ b.version (inc64 a.version))) [
      | inl t ↦
          absurd (inc64-ne a.version (sym (sym versions ∙ eqb_ℤ-eq b.version (inc64 a.version) t)))
      | inr t ↦ rw (here, update, t)
    ]
