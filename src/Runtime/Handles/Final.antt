-- ===== src/Runtime/Handles/Final.antt =====
-- What the calls on a runtime handle guarantee: pkg/harness/runtime/runtime_handles.go.
pub mod History
use harness_core.Base.{
  String, ◌≡◌, ◌≢◌, ◌↔◌, refl, sym, ap, ◌∙◌, inl, inr, true, false, Bool-cases, some, arith, eq_iff,
  ◌==◌, Option-cases, subst,
}
use harness_core.Base.Int.{ℤ, ◌<ℤ◌, inc64}
use harness_core.Base.Dict.{
  lookup, insert, lookup-IsKeyed, insert-IsKeyed_of_eq, lookup-insert_ne, lookup_unique,
}
use harness_core.Base.Result.{Error, Result, Result-cases, ok, err, session_lease_not_held}
use harness_core.Session.State.{State}
use harness_core.Session.Store
use harness_core.Execution.Handles.{RuntimeHandle, MemoryRuntimeHandleStore, get, update, stored}
use harness_core.Execution.Handles.Laws.{
  IsValid, update-written, update-succeeds, update-IsValid, update-keeps,
}
use harness_core.Runtime.SessionUpdate.{require_session_lease}
use harness_core.Runtime.Handles.{
  Readings, is_runtime_handle_active, completed, require_handle_lease, mutate_runtime_handle,
}
use harness_core.Runtime.Handles.Reconcile.{IsActive, IsOver}

not-ok :
    {e : Error} {h : RuntimeHandle} {s : MemoryRuntimeHandleStore}
    → ◌≡◌ {A = Result (RuntimeHandle × MemoryRuntimeHandleStore)} (err e) (ok (h, s))
    → ⊥
not-ok h = cc

module _ (handle_id lease_id : String) (mutate : RuntimeHandle → RuntimeHandle) (t : Readings)
    (sessions : Store.MemoryStore) (s : MemoryRuntimeHandleStore) (valid : IsValid s) where
  abbrev next_of : RuntimeHandle → RuntimeHandle
  next_of current = completed current t.updated_at (mutate current)

  mutate-succeeds :
      (current : RuntimeHandle)
      → lookup handle_id s.items ≡ some current
      → require_handle_lease current lease_id t.checked_at sessions ≡ ok tt
      → IsActive current
      → mutate_runtime_handle handle_id lease_id mutate t sessions s
        ≡ ok (
          next_of current,
          record { items = insert handle_id (stored t.stored_at (next_of current)) s.items },
        )
  unfolding mutate_runtime_handle get
  mutate-succeeds current found held alive =
      let own : current.handle_id ≡ handle_id =
        lookup-IsKeyed (λ h. h.handle_id) handle_id s.items valid found in
      let here : lookup current.handle_id s.items ≡ some current =
        ap (λ i. lookup i s.items) own ∙ found in
      rw
        (
          found,
          mutate_runtime_handle,
          get,
          held,
          alive,
          update-succeeds t.stored_at (next_of current) s current here refl,
        )
        (ap
          (λ i. ok (
            next_of current,
            record { items = insert i (stored t.stored_at (next_of current)) s.items },
          ))
          own)

  -- A call that goes through found the handle, under a lease that admits the caller, and active.
  mutate-found :
      (h : RuntimeHandle) (s' : MemoryRuntimeHandleStore)
      → mutate_runtime_handle handle_id lease_id mutate t sessions s ≡ ok (h, s')
      → (current : RuntimeHandle) × (lookup handle_id s.items ≡ some current)
        × (require_handle_lease current lease_id t.checked_at sessions ≡ ok tt)
        × IsActive current
  unfolding mutate_runtime_handle get
  mutate-found h s' ran = elim (Option-cases (lookup handle_id s.items)) [
    | inl e ↦ absurd (not-ok (rw (e, mutate_runtime_handle, get) at ran))
    | inr (current, e) ↦
        elim (Result-cases (require_handle_lease current lease_id t.checked_at sessions)) [
          | inr (f, refused) ↦ absurd (not-ok (rw (e, mutate_runtime_handle, get, refused) at ran))
          | inl (_, held) ↦ elim (Bool-cases (is_runtime_handle_active current)) [
            | inl alive ↦ (current, e, held, alive)
            | inr over ↦ absurd (not-ok (rw (e, mutate_runtime_handle, get, held, over) at ran))
          ]
        ]
  ]

  -- A change of a handle goes through exactly if the handle is stored and still active and its
  -- session's lease admits the caller. It then returns the changed handle with the identity of the
  -- stored one and the next version, and writes that handle and nothing else. The store keeps each
  -- handle under its identifier.
  pub mutate_ok :
      (h : RuntimeHandle) (s' : MemoryRuntimeHandleStore)
      → (mutate_runtime_handle handle_id lease_id mutate t sessions s ≡ ok (h, s')) ↔ (
          (current : RuntimeHandle) × (lookup handle_id s.items ≡ some current)
          × (require_handle_lease current lease_id t.checked_at sessions ≡ ok tt)
          × IsActive current
          × (h ≡ completed current t.updated_at (mutate current))
          × (s' ≡ record { items = insert handle_id (stored t.stored_at h) s.items }))
  mutate_ok h s' = (
    (λ ran.
        let (current, found, held, alive) = mutate-found h s' ran in
        let same = sym ran ∙ mutate-succeeds current found held alive in
        let h_eq : h ≡ next_of current = cc in
        let s_eq : s'
            ≡ record { items = insert handle_id (stored t.stored_at (next_of current)) s.items } =
          cc in
        (
          current,
          found,
          held,
          alive,
          h_eq,
          s_eq
              ∙ ap (λ v. record { items = insert handle_id (stored t.stored_at v) s.items })
                  (sym h_eq),
        )),
    (λ e.
        let (current, found, held, alive, h_eq, s_eq) = e in
        mutate-succeeds current found held alive
        ∙ ap (λ v. ok (v, record { items = insert handle_id (stored t.stored_at v) s.items }))
            (sym h_eq)
        ∙ ap (λ v. ok (h, v)) (sym s_eq)),
  )

  -- While a worker holds the lease of a handle's session, a call under any other lease identifier,
  -- none included, is refused.
  pub mutate-foreign :
      (current : RuntimeHandle) (st : State)
      → lookup handle_id s.items ≡ some current
      → current.session_id ≢ ""
      → lookup current.session_id sessions.sessions ≡ some st
      → st.lease_id ≢ ""
      → t.checked_at <ℤ st.lease_expires_at
      → lease_id ≢ st.lease_id
      → mutate_runtime_handle handle_id lease_id mutate t sessions s ≡ err session_lease_not_held
  unfolding mutate_runtime_handle require_handle_lease require_session_lease get Store.get
  mutate-foreign current st found owned session named early foreign =
      let refused : require_session_lease st lease_id t.checked_at ≡ err session_lease_not_held =
        ground (arith, eq_iff st.lease_id lease_id, eq_iff st.lease_id "", eq_iff lease_id "") in
      let owned' : (current.session_id == "") ≡ false =
        ground (arith, eq_iff current.session_id "") in
      rw
        (
          found, mutate_runtime_handle, get, owned', require_handle_lease, session, Store.get,
          refused,
        )
        refl

  -- A call leaves the store valid, and every handle that is over as it is.
  pub mutate-keeps :
      (h : RuntimeHandle) (s' : MemoryRuntimeHandleStore)
      → mutate_runtime_handle handle_id lease_id mutate t sessions s ≡ ok (h, s')
      → IsValid s'
        × ((k : String) (v : RuntimeHandle)
            → lookup k s.items ≡ some v
            → IsOver v
            → lookup k s'.items ≡ some v)
  mutate-keeps h s' ran =
      let (current, found, held, alive, h_eq, s_eq) = (mutate_ok h s').0 ran in
      let id : h.handle_id ≡ handle_id =
        ap (λ v. v.handle_id) h_eq
        ∙ lookup-IsKeyed (λ h. h.handle_id) handle_id s.items valid found in
      let items : s'.items ≡ insert handle_id (stored t.stored_at h) s.items =
        ap (λ v. v.items) s_eq in
      (
        rw items (
            insert-IsKeyed_of_eq (λ v. v.handle_id) handle_id (stored t.stored_at h) s.items id
              valid),
        (λ k v there over.
            ap (lookup k) items
            ∙ lookup-insert_ne handle_id k (stored t.stored_at h) s.items (λ same.
              let one : current ≡ v = lookup_unique handle_id k s.items found there same in
              absurd (cc (ap is_runtime_handle_active one, alive, over)))
            ∙ there),
      )
