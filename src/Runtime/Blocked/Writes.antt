-- ===== src/Runtime/Blocked/Writes.antt =====
-- What one write of a session or of a blocked runtime changes in the machine that the stores hold:
-- pkg/harness/session/store.go and pkg/harness/execution/blocked_runtime_store.go.
use harness_core.Base.{
  String, ◌≡◌, refl, sym, ap, ◌∙◌, subst, Option, none, some, true, false, Bool-cases, inl, inr,
  eq_iff, ◌==◌, if◌then◌else◌,
}
use harness_core.Base.Dict.{lookup, insert, lookup-insert}
use harness_core.Session.State.{State}
use harness_core.Execution.Blocked.{BlockedRuntimeRecord, pending}
use harness_core.Runtime.Blocked.Machine.{
  Machine, Moves, stay, move, block, answer, finish, at, without,
}
use harness_core.Runtime.Blocked.{is_over, is_answer}
use harness_core.Runtime.Blocked.Memory.{Stores}
use harness_core.Runtime.Blocked.Calls.{waiting, owner_of, status_of, view}

pub Machine-eq :
    (m n : Machine)
    → ((k : String) → m.waits_on k ≡ n.waits_on k)
    → ((k : String) → m.owner k ≡ n.owner k)
    → ((k : String) → m.status k ≡ n.status k)
    → m ≡ n
Machine-eq m n f g h =
    λ i. record { waits_on = λ k. f k i; owner = λ k. g k i; status = λ k. h k i }

module _ (w : Stores) where
  pub view-waits :
      (k : String) {o : Option State}
      → lookup k w.sessions.sessions ≡ o
      → (view w).waits_on k ≡ waiting o
  unfolding view
  view-waits k e = ap waiting e

  pub view-status :
      (k : String) {o : Option BlockedRuntimeRecord}
      → lookup k w.runtimes.items ≡ o
      → (view w).status k ≡ status_of o
  unfolding view
  view-status k e = ap status_of e

-- What one write of a session, or of a record, changes in the machine.
module _ (w w' : Stores) where
  module _ (session_id : String) (st : State)
      (sessions : w'.sessions.sessions ≡ insert session_id st w.sessions.sessions) where
    found-session :
        (k : String)
        → lookup k w'.sessions.sessions
          ≡ (if session_id == k then some st else lookup k w.sessions.sessions)
    found-session k = ap (lookup k) sessions ∙ lookup-insert session_id k st w.sessions.sessions

    pub waits-at :
        (id : String)
        → waiting (some st) ≡ some id
        → (k : String) → at session_id id (view w).waits_on k ≡ (view w').waits_on k
    unfolding view
    waits-at id now k = elim (Bool-cases (session_id == k)) [
      | inl e ↦ rw (found-session k, e) (sym now)
      | inr e ↦ rw (found-session k, e) refl
    ]

    pub waits-without :
        waiting (some st) ≡ none
        → (k : String) → without session_id (view w).waits_on k ≡ (view w').waits_on k
    unfolding view
    waits-without now k = elim (Bool-cases (session_id == k)) [
      | inl e ↦ rw (found-session k, e) (sym now)
      | inr e ↦ rw (found-session k, e) refl
    ]

  module _ (id : String) (rec : BlockedRuntimeRecord)
      (runtimes : w'.runtimes.items ≡ insert id rec w.runtimes.items) where
    found-record :
        (k : String)
        → lookup k w'.runtimes.items ≡ (if id == k then some rec else lookup k w.runtimes.items)
    found-record k = ap (lookup k) runtimes ∙ lookup-insert id k rec w.runtimes.items

    pub owner-at : (k : String) → at id rec.session_id (view w).owner k ≡ (view w').owner k
    unfolding view
    owner-at k = elim (Bool-cases (id == k)) [
      | inl e ↦ rw (found-record k, e) refl
      | inr e ↦ rw (found-record k, e) refl
    ]

    pub status-at : (k : String) → at id rec.status (view w).status k ≡ (view w').status k
    unfolding view
    status-at k = elim (Bool-cases (id == k)) [
      | inl e ↦ rw (found-record k, e) refl
      | inr e ↦ rw (found-record k, e) refl
    ]

    -- A record that keeps its session keeps its owner.
    pub owner-same :
        (before : BlockedRuntimeRecord)
        → lookup id w.runtimes.items ≡ some before
        → rec.session_id ≡ before.session_id
        → (k : String) → (view w).owner k ≡ (view w').owner k
    unfolding view
    owner-same before there same k = elim (Bool-cases (id == k)) [
      | inl e ↦
          rw (found-record k, e)
            (ap owner_of (ap (λ j. lookup j w.runtimes.items) (sym ((eq_iff id k).0 e)) ∙ there)
              ∙ ap some (sym same))
      | inr e ↦ rw (found-record k, e) refl
    ]

-- A write of a session, of a record, or of both, as a move of the machine.
module _ (w w' : Stores) (session_id id : String) (rec : BlockedRuntimeRecord)
    (runtimes : w'.runtimes.items ≡ insert id rec w.runtimes.items) where
  module _ (st : State)
      (sessions : w'.sessions.sessions ≡ insert session_id st w.sessions.sessions) where
    pub blocks :
        waiting (some st) ≡ some id
        → rec.session_id ≡ session_id
        → rec.status ≡ pending
        → (view w).waits_on session_id ≡ none
        → (view w).status id ≡ none
        → Moves (view w) (view w')
    blocks now owned status free fresh =
        let target : Machine = record {
          waits_on = at session_id id (view w).waits_on;
          owner = at id session_id (view w).owner;
          status = at id pending (view w).status;
        } in
        subst (Moves (view w))
          (Machine-eq target (view w') (waits-at w w' session_id st sessions id now)
            (subst (λ o. (k : String) → at id o (view w).owner k ≡ (view w').owner k) owned
              (owner-at w w' id rec runtimes))
            (subst (λ o. (k : String) → at id o (view w).status k ≡ (view w').status k) status
              (status-at w w' id rec runtimes)))
          (move (block session_id id free fresh) stay)

    pub finishes :
        (before : BlockedRuntimeRecord)
        → lookup id w.runtimes.items ≡ some before
        → rec.session_id ≡ before.session_id
        → before.session_id ≡ session_id
        → waiting (some st) ≡ none
        → (view w).waits_on session_id ≡ some id
        → is_over before.status ≡ false
        → is_over rec.status ≡ true
        → Moves (view w) (view w')
    unfolding view
    finishes before there same owned now waits going ends =
        let target : Machine = record (view w) {
          waits_on = without session_id (view w).waits_on;
          status = at id rec.status (view w).status;
        } in
        subst (Moves (view w))
          (Machine-eq target (view w') (waits-without w w' session_id st sessions now)
            (owner-same w w' id rec runtimes before there same) (status-at w w' id rec runtimes))
          (move
            (finish session_id id before.status rec.status waits (ap owner_of there ∙ ap some owned)
              (ap status_of there) going ends)
            stay)

  pub answers :
      (before : BlockedRuntimeRecord)
      → w'.sessions ≡ w.sessions
      → lookup id w.runtimes.items ≡ some before
      → rec.session_id ≡ before.session_id
      → before.session_id ≡ session_id
      → (view w).waits_on session_id ≡ some id
      → before.status ≡ pending
      → is_answer rec.status ≡ true
      → Moves (view w) (view w')
  unfolding view
  answers before sessions there same owned waits was given =
      let target : Machine = record (view w) { status = at id rec.status (view w).status } in
      subst (Moves (view w))
        (Machine-eq target (view w') (λ k. ap (λ s. waiting (lookup k s.sessions)) (sym sessions))
          (owner-same w w' id rec runtimes before there same) (status-at w w' id rec runtimes))
        (move
          (answer session_id id rec.status waits (ap owner_of there ∙ ap some owned)
            (ap status_of there ∙ ap some was) given)
          stay)
