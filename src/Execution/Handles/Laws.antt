-- ===== src/Execution/Handles/Laws.antt =====
-- What a write of the handle store leaves: pkg/harness/execution/stores.go.
use harness_core.Base.{
  String, ◌≡◌, ◌≢◌, refl, sym, ap, ◌∙◌, true, false, Option-cases, Bool-cases, inl, inr, some,
  arith, [], eq_iff,
}
use harness_core.Base.Int.{ℤ, eqb_ℤ, inc64}
use harness_core.Base.Dict.{
  Dict, lookup, insert, IsKeyed, insert-IsKeyed, lookup-insert_self, lookup-insert_ne,
}
use harness_core.Base.Result.{Result, ok, err}
use harness_core.Execution.Handles.{RuntimeHandle, MemoryRuntimeHandleStore, stored, update}

-- Each handle is stored once, under its identifier.
abbrev pub IsValid : MemoryRuntimeHandleStore → Type 0
IsValid s = IsKeyed (λ h. h.handle_id) s.items

abbrev items_of : Result MemoryRuntimeHandleStore → Dict RuntimeHandle
items_of (ok s) = s.items
items_of (err e) = []

not-ok : {e : harness_core.Base.Result.Error} {s : MemoryRuntimeHandleStore} → err e ≡ ok s → ⊥
not-ok h = cc

module _ (now : ℤ) (next : RuntimeHandle) (s : MemoryRuntimeHandleStore) where
  pub update-written :
      {s' : MemoryRuntimeHandleStore}
      → update now next s ≡ ok s'
      → s'.items ≡ insert next.handle_id (stored now next) s.items
  unfolding update
  update-written h = elim (Option-cases (lookup next.handle_id s.items)) [
    | inl e ↦ absurd (not-ok (rw (e, update) at h))
    | inr (current, e) ↦ elim (Bool-cases (eqb_ℤ next.version (inc64 current.version))) [
      | inl t ↦ sym (ap items_of (rw (e, update, t) at h))
      | inr t ↦ absurd (not-ok (rw (e, update, t) at h))
    ]
  ]

  -- The next version of a stored handle is accepted.
  pub update-succeeds :
      (current : RuntimeHandle)
      → lookup next.handle_id s.items ≡ some current
      → next.version ≡ inc64 current.version
      → update now next s ≡ ok (record { items = insert next.handle_id (stored now next) s.items })
  unfolding update
  update-succeeds current found version =
      let t : eqb_ℤ next.version (inc64 current.version) ≡ true = rw version (ground arith) in
      rw (found, update, t)

  module _ {s' : MemoryRuntimeHandleStore} (h : update now next s ≡ ok s') where
    pub update-IsValid : IsValid s → IsValid s'
    update-IsValid valid =
        rw (update-written h) (insert-IsKeyed (λ v. v.handle_id) (stored now next) s.items valid)

    pub update_self : lookup next.handle_id s'.items ≡ some (stored now next)
    update_self =
        rw (update-written h) (lookup-insert_self next.handle_id (stored now next) s.items)

    pub update-keeps : (k : String) → next.handle_id ≢ k → lookup k s'.items ≡ lookup k s.items
    update-keeps k ne =
        rw (update-written h) (lookup-insert_ne next.handle_id k (stored now next) s.items ne)
