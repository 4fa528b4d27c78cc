-- ===== src/Runtime/SessionUpdate/Progress.antt =====
-- That the runtime's session writes come to an end: session_update.go.
use harness_core.Base.{
  String, ℕ, zero, suc, ◌+◌, ◌≤◌, ◌≡◌, ◌≢◌, refl, ◌==◌, some, inl, inr, Bool-cases, if◌then◌else◌,
  arith, eq_iff, ap, sym, ◌∙◌,
}
use harness_core.Base.Int.{ℤ, is_zero, inc64}
use harness_core.Base.Dict.{insert, lookup, lookup-insert_self}
use harness_core.Base.Result.{Result, Result-cases, ok, err, session_version_conflict}
use harness_core.Session.State.{State}
use harness_core.Session.Store
use harness_core.Session.Store.{MemoryStore, stamped}
use harness_core.Runtime.SessionUpdate.{
  SessionStore, require_session_lease, merge_session_update, written, settle, attempt, retry_loop,
  persist_session_update_at, memory, updated,
}
use harness_core.Session.Update.{update_accepts}

-- A store that counts the updates it is asked for.
abbrev pub counting : {W : Type 0} → SessionStore W → SessionStore (W × ℕ)
counting store = record {
  get = λ id w. ((store.get id w.0).0, ((store.get id w.0).1, w.1));
  update = λ next w. ((store.update next w.0).0, ((store.update next w.0).1, suc w.1));
}

module _ {W : Type 0} (store : SessionStore W) (desired : State) (lease_id : String) (now : ℤ) where
  module _ (again : W × ℕ → Result State × (W × ℕ)) (n : ℕ)
      (ih : (v : W × ℕ) → (again v).1.1 ≤ v.1 + n) where
    settle-count :
        (candidate : State) (answer : Result (Unit {0})) (v : W × ℕ)
        → (settle (counting store) desired lease_id now candidate answer again v).1.1 ≤ v.1 + n
    settle-count candidate (ok u) v = omega arith
    settle-count candidate (err session_version_conflict) v = ih v
    settle-count candidate (err e) v = omega arith

    attempt-count :
        (r : Result State × (W × ℕ))
        → (attempt (counting store) desired lease_id now again r).1.1 ≤ r.1.1 + suc n
    attempt-count (err e, v) = omega arith
    attempt-count (ok current, v) =
        elim (Result-cases (require_session_lease current lease_id now)) [
          | inl (u, held) ↦
              let candidate = merge_session_update current desired lease_id in
              let (answer, v') = (counting store).update candidate v in
              rw (held, attempt) (omega (arith, settle-count candidate answer v'))
          | inr (e, lost) ↦ rw (lost, attempt) (omega arith)
        ]

  retry_loop-count :
      (rounds : ℕ) (w : W × ℕ)
      → (retry_loop (counting store) desired lease_id now rounds w).1.1 ≤ w.1 + rounds
  unfolding retry_loop
  retry_loop-count zero w = omega arith
  retry_loop-count (suc rounds) w =
      attempt-count (retry_loop (counting store) desired lease_id now rounds) rounds
        (retry_loop-count rounds) ((counting store).get desired.session_id w)

world-written :
    {W : Type 0} (store : SessionStore (W × ℕ)) (desired : State) (answer : Result (Unit {0}))
    (w : W × ℕ)
    → (written desired (answer, w)).1 ≡ w
world-written store desired (ok u) w = refl
world-written store desired (err e) w = refl

-- However often the store answers with a version conflict, one write asks it for at most four
-- updates. The store and the world are arbitrary.
pub persist_attempts :
    {W : Type 0} (store : SessionStore W) (desired : State) (lease_id : String) (now clock : ℤ)
    (w : W) (n : ℕ)
    → (persist_session_update_at (counting store) desired lease_id now clock (w, n)).1.1 ≤ n + 4
unfolding persist_session_update_at
persist_attempts store desired lease_id now clock w n = elim (Bool-cases (lease_id == "")) [
  | inl e ↦
      rw (e, persist_session_update_at)
        (rw
          (world-written (counting store) (record desired { version = inc64 desired.version })
            (store.update (record desired { version = inc64 desired.version }) w).0
            ((store.update (record desired { version = inc64 desired.version }) w).1, suc n))
          (omega arith))
  | inr e ↦
      rw (e, persist_session_update_at)
        (retry_loop-count store desired lease_id (if is_zero now then clock else now) 4 (w, n))
]

module _ (time : ℤ) (desired current : State) (lease_id : String) (s : MemoryStore) where
  abbrev merged : State
  merged = merge_session_update current desired lease_id

  session_id-merge : merged.session_id ≡ desired.session_id
  unfolding merge_session_update
  session_id-merge = ground arith

  version-merge : merged.version ≡ inc64 current.version
  unfolding merge_session_update
  version-merge = ground arith

  abbrev stored_merge : MemoryStore
  stored_merge = record {
    sessions = insert merged.session_id (stamped merged current time) s.sessions;
  }

  module _ (found : lookup desired.session_id s.sessions ≡ some current) where
    update-merge : (memory time).update merged s ≡ (ok tt, stored_merge)
    update-merge =
        ap (updated s)
          (update_accepts time merged current s (rw session_id-merge found) version-merge)

    get-found : (memory time).get desired.session_id s ≡ (ok current, s)
    unfolding Store.get
    get-found = rw (found, Store.get)

    attempt-merge :
        (now : ℤ) (again : MemoryStore → Result State × MemoryStore)
        → require_session_lease current lease_id now ≡ ok tt
        → attempt (memory time) desired lease_id now again ((memory time).get desired.session_id s)
          ≡ (ok merged, stored_merge)
    attempt-merge now again held = rw get-found (rw (held, attempt) (rw update-merge refl))

-- With nobody else at work, a write under a named lease that the stored session still grants goes
-- through: the merge of the stored record with the caller's is stored (with the store's own time
-- stamp), and is what the caller is given.
pub persist_succeeds :
    (time : ℤ) (desired current : State) (lease_id : String) (now clock : ℤ) (s : MemoryStore)
    → lease_id ≢ ""
    → lookup desired.session_id s.sessions ≡ some current
    → require_session_lease current lease_id (if is_zero now then clock else now) ≡ ok tt
    → let merged = merge_session_update current desired lease_id in
      (s' : MemoryStore) × (persist_session_update_at (memory time) desired lease_id now clock s
        ≡ (ok merged, s'))
      × (lookup desired.session_id s'.sessions ≡ some (stamped merged current time))
unfolding persist_session_update_at
persist_succeeds time desired current lease_id now clock s named found held =
    elim (Bool-cases (lease_id == "")) [
      | inl e ↦ absurd (named ((eq_iff lease_id "").0 e))
      | inr e ↦
          let t = if is_zero now then clock else now in
          (
            stored_merge time desired current lease_id s,
            rw (e, persist_session_update_at)
                (attempt-merge time desired current lease_id s found t
                  (retry_loop (memory time) desired lease_id t 3) held),
            ap (λ k. lookup k (stored_merge time desired current lease_id s).sessions)
                  (sym (session_id-merge time desired current lease_id s))
                ∙ lookup-insert_self (merge_session_update current desired lease_id).session_id
                    (stamped (merge_session_update current desired lease_id) current time)
                    s.sessions,
          )
    ]
