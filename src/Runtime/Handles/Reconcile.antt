-- ===== src/Runtime/Handles/Reconcile.antt =====
-- What reconciliation leaves: reconcileActiveRuntimeHandlesInStore of
-- pkg/harness/runtime/runtime_handles.go.
use harness_core.Base.{
  String, List, [], ◌∷◌, ◌≡◌, ◌≢◌, refl, sym, ap, ◌∙◌, subst, ◌⊎◌, inl, inr, Bool, true, false, not,
  Bool-cases, some, All, All-both, All-imp, arith, eq_iff, ◌==◌, Option-cases, some-ne-none,
}
use harness_core.Base.Int.{ℤ}
use harness_core.Base.Dict.{
  lookup, values, lookup-IsKeyed, All-lookup, All-lookup_self, lookup_unique,
}
use harness_core.Base.Result.{ok}
use harness_core.Execution.Items.{IsDistinct, is_of, list_items-IsDistinct, list_items-All}
use harness_core.Execution.Handles.{
  RuntimeHandle, MemoryRuntimeHandleStore, update, list, stored, created_before,
}
use harness_core.Execution.Handles.Laws.{
  IsValid, update-succeeds, update-IsValid, update_self, update-keeps,
}
use harness_core.Runtime.Handles.{
  is_runtime_handle_active, reconciled, reconcile_loop, reconcile_active_runtime_handles,
}

abbrev pub IsActive : RuntimeHandle → Type 0
IsActive h = is_runtime_handle_active h ≡ true

abbrev pub IsOver : RuntimeHandle → Type 0
IsOver h = is_runtime_handle_active h ≡ false

module _ (reason : String) (now stored_at : ℤ) where
  stored-reconciled-IsOver :
      (h : RuntimeHandle) → IsOver (stored stored_at (reconciled reason now h))
  unfolding is_runtime_handle_active
  stored-reconciled-IsOver h = refl

  -- The loop succeeds; a handle either was not in its way, or is over afterwards.
  abbrev Leaves : List RuntimeHandle → MemoryRuntimeHandleStore → MemoryRuntimeHandleStore → Type 0
  Leaves xs s s' =
      (k : String) (v : RuntimeHandle)
      → lookup k s'.items ≡ some v
      → IsOver v ⊎ ((lookup k s.items ≡ some v) × All (λ h. (h.handle_id ≢ k) ⊎ IsOver h) xs)

  abbrev Keeps : MemoryRuntimeHandleStore → MemoryRuntimeHandleStore → List RuntimeHandle → Type 0
  Keeps s s' xs =
      (k : String)
      → All (λ h. (h.handle_id ≢ k) ⊎ IsOver h) xs
      → lookup k s'.items ≡ lookup k s.items

  -- The handle that the loop wrote last is over, every other one is as it was before that write.
  one-leaves :
      (x : RuntimeHandle) (s s1 : MemoryRuntimeHandleStore) (k : String) (v : RuntimeHandle)
      → update stored_at (reconciled reason now x) s ≡ ok s1
      → lookup k s1.items ≡ some v
      → IsOver v ⊎ ((lookup k s.items ≡ some v) × (x.handle_id ≢ k))
  one-leaves x s s1 k v wrote found =
      let next = reconciled reason now x in
      elim (Bool-cases (x.handle_id == k)) [
        | inl e ↦
            let same : lookup x.handle_id s1.items ≡ some v =
              ap (λ i. lookup i s1.items) ((eq_iff x.handle_id k).0 e) ∙ found in
            let written : stored stored_at next ≡ v =
              cc (update_self stored_at next s wrote, same) in
            inl (subst IsOver written (stored-reconciled-IsOver x))
        | inr e ↦
            let ne : x.handle_id ≢ k = ground (arith, eq_iff x.handle_id k) in
            inr (sym (update-keeps stored_at next s wrote k ne) ∙ found, ne)
      ]

  loop-Leaves :
      (xs : List RuntimeHandle) (s : MemoryRuntimeHandleStore)
      → IsValid s
      → IsDistinct (λ h. h.handle_id) xs
      → All (λ h. lookup h.handle_id s.items ≡ some h) xs
      → (done : List RuntimeHandle) × (s' : MemoryRuntimeHandleStore) × (reconcile_loop reason now
            stored_at xs s
          ≡ (ok done, s'))
        × IsValid s'
        × Leaves xs s s'
        × Keeps s s' xs
  unfolding reconcile_loop
  loop-Leaves [] s valid d a = ([], s, refl, valid, (λ k v h. inr (h, tt)), (λ k h. refl))
  loop-Leaves (x ∷ xs) s valid d a = elim (Bool-cases (is_runtime_handle_active x)) [
    | inr over ↦
        let (done, s', ran, valid', leaves, keeps) = loop-Leaves xs s valid d.1 a.1 in
        (
          done,
          s',
          rw (over, reconcile_loop) ran,
          valid',
          (λ k v h. elim (leaves k v h) [
            | inl o ↦ inl o
            | inr (same, off) ↦ inr (same, (inr over, off))
          ]),
          (λ k h. keeps k h.1),
        )
    | inl alive ↦
        let next = reconciled reason now x in
        let s1 : MemoryRuntimeHandleStore = record {
          items = harness_core.Base.Dict.insert x.handle_id (stored stored_at next) s.items;
        } in
        let wrote : update stored_at next s ≡ ok s1 = update-succeeds stored_at next s x a.0 refl in
        let apart : All (λ h. lookup h.handle_id s1.items ≡ some h) xs =
          All-both
            (λ h apart found.
              update-keeps stored_at next s wrote h.handle_id (λ e. apart (sym e)) ∙ found)
            xs d.0 a.1 in
        let (done, s', ran, valid', leaves, keeps) =
          loop-Leaves xs s1 (update-IsValid stored_at next s wrote valid) d.1 apart in
        (
          next ∷ done,
          s',
          rw (alive, reconcile_loop, wrote, ran) refl,
          valid',
          (λ k v h. elim (leaves k v h) [
            | inl o ↦ inl o
            | inr (found, off) ↦ elim (one-leaves x s s1 k v wrote found) [
              | inl o ↦ inl o
              | inr (before, ne) ↦ inr (before, (inl ne, off))
            ]
          ]),
          (λ k h.
              keeps k h.1
              ∙ update-keeps stored_at next s wrote k
                  (elim h.0 [ inl ne ↦ ne | inr over ↦ absurd (cc (alive, over)) ])),
        )
  ]

module _ (session_id : String) (s : MemoryRuntimeHandleStore) (valid : IsValid s)
    (named : session_id ≢ "") (k : String) (v : RuntimeHandle)
    (found : lookup k s.items ≡ some v) where
  -- A listed handle that is not in the way of any key, if it is of the session, is over.
  listed-IsOver :
      v.session_id ≡ session_id
      → All (λ h. (h.handle_id ≢ k) ⊎ IsOver h) (list session_id s)
      → IsOver v
  unfolding list
  listed-IsOver mine off =
      let P : RuntimeHandle → Type 0 = λ h. (h.handle_id ≢ k) ⊎ IsOver h in
      let all = (list_items-All (λ h. h.session_id) created_before session_id s.items P).0 off in
      let mine' : is_of (λ (h : RuntimeHandle). h.session_id) session_id v ≡ true =
        ground (arith, eq_iff v.session_id session_id) in
      elim (All-lookup (λ h. is_of (λ (h : RuntimeHandle). h.session_id) session_id h ≡ true → P h)
        k s.items found all mine') [
          | inl ne ↦ absurd (ne (lookup-IsKeyed (λ h. h.handle_id) k s.items valid found))
          | inr o ↦ o
        ]

  -- The handles of the session do not touch one that is over or of another session.
  others-off :
      (v.session_id ≢ session_id) ⊎ IsOver v
      → All (λ h. (h.handle_id ≢ k) ⊎ IsOver h) (list session_id s)
  unfolding list
  others-off other =
      (list_items-All (λ h. h.session_id) created_before session_id s.items
          (λ h. (h.handle_id ≢ k) ⊎ IsOver h)).1
        (All-imp
          (λ h own of. elim (Bool-cases (h.handle_id == k)) [
            | inr e ↦ inl (ground (arith, eq_iff h.handle_id k))
            | inl e ↦
                let same : h ≡ v =
                  lookup_unique h.handle_id k s.items own found ((eq_iff h.handle_id k).0 e) in
                let mine : h.session_id ≡ session_id =
                  ground (arith, eq_iff h.session_id session_id, eq_iff session_id "") in
                elim other [
                  | inl foreign ↦ absurd (foreign (cc (same, mine)))
                  | inr o ↦ inr (subst IsOver (sym same) o)
                ]
          ])
          (values s.items) (All-lookup_self (λ h. h.handle_id) s.items valid))

-- Reconciliation of a session's handles always succeeds on a store that keeps each handle under its
-- identifier. Afterwards every stored handle of the session is over, and every handle that was over,
-- or belongs to another session, is exactly as it was. The session is named.
pub reconcile_ends :
    (reason : String) (now stored_at : ℤ) (session_id : String) (s : MemoryRuntimeHandleStore)
    → IsValid s
    → session_id ≢ ""
    → (done : List RuntimeHandle) × (s' : MemoryRuntimeHandleStore)
      × (reconcile_active_runtime_handles reason now stored_at session_id s ≡ (ok done, s'))
      × IsValid s'
      × ((k : String) (v : RuntimeHandle)
          → lookup k s'.items ≡ some v
          → v.session_id ≡ session_id
          → IsOver v)
      × ((k : String) (v : RuntimeHandle)
          → lookup k s.items ≡ some v
          → (v.session_id ≢ session_id) ⊎ IsOver v
          → lookup k s'.items ≡ some v)
unfolding reconcile_active_runtime_handles list
reconcile_ends reason now stored_at session_id s valid named =
    let unnamed : (session_id == "") ≡ false = ground (arith, eq_iff session_id "") in
    let (distinct, found) =
      list_items-IsDistinct (λ h. h.handle_id) created_before (λ h. h.session_id) session_id s.items
        valid in
    let (done, s', ran, valid', leaves, keeps) =
      loop-Leaves reason now stored_at (list session_id s) s valid distinct found in
    (
      done,
      s',
      rw (unnamed, reconcile_active_runtime_handles) ran,
      valid',
      (λ k v h mine. elim (leaves k v h) [
        | inl o ↦ o
        | inr (before, off) ↦ listed-IsOver session_id s valid named k v before mine off
      ]),
      (λ k v h other. keeps k (others-off session_id s valid named k v h other) ∙ h),
    )
