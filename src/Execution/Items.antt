-- ===== src/Execution/Items.antt =====
-- What the in-memory stores of pkg/harness/execution/stores.go and blocked_runtime_store.go share:
-- a map of records by identifier, listed by session in an order of the store's own.
use harness_core.Base.{
  String, Bool, not, ◌||◌, if◌then◌else◌, ◌==◌, List, [], ◌∷◌, ◌≡◌, ◌≢◌, ◌↔◌, true, false, All,
  filter, filter-All, some, Bool-cases, inl, inr, All-imp, sym, arith, eq_iff,
}
use harness_core.Base.Int.{ℤ, eqb_ℤ, ltb_ℤ}
use harness_core.Base.Text.{str_ltb, str_ltb_asymm, str_ltb_trans, str_ltb_antisymm}
use harness_core.Base.Dict.{Dict, lookup, insert, values, IsKeyed, All-lookup_self}
use harness_core.Base.Sort.{
  place, sort, IsOrder, IsSorted, sort-IsSorted, All-place, All-sort, All-of_sort,
}
use harness_core.Base.Result.{Result, ok, or_error, ◌>>=◌, record_not_found}

-- The comparison by which a store sorts: the time, then the step, then the identifier.
unfoldable pub earlier : ℤ → ℤ → String → String → String → String → Bool
earlier time time' step step' id id' =
    if not (eqb_ℤ time time')
    then ltb_ℤ time time'
    else if not (step == step')
    then str_ltb step step'
    else str_ltb id id'

pub earlier_asymm :
    (time time' : ℤ) (step step' id id' : String)
    → earlier time time' step step' id id' ≡ true
    → earlier time' time step' step id' id ≡ false
unfolding earlier
earlier_asymm time time' step step' id id' h =
    ground
      (arith, eq_iff step step', eq_iff step' step, str_ltb_asymm step step', str_ltb_asymm id id')

pub earlier_trans :
    (t t' t'' : ℤ) (step step' step'' id id' id'' : String)
    → earlier t' t step' step id' id ≡ false
    → earlier t'' t' step'' step' id'' id' ≡ false
    → earlier t'' t step'' step id'' id ≡ false
unfolding earlier
earlier_trans t t' t'' step step' step'' id id' id'' h k = ground (
  arith,
  eq_iff step' step,
  eq_iff step'' step',
  eq_iff step'' step,
  str_ltb_trans step step' step'',
  str_ltb_antisymm step step',
  str_ltb_antisymm step' step'',
  str_ltb_trans id id' id'',
)

module _ {V : Type 0} where
  -- `Get`
  abbrev pub get_item : String → Dict V → Result V
  get_item id items = or_error (lookup id items) record_not_found

  -- `sessionID == "" || item.SessionID == sessionID`
  abbrev pub is_of : (V → String) → String → V → Bool
  is_of session session_id item = session_id == "" || session item == session_id

  -- `List`
  abbrev pub list_items : (V → String) → (V → V → Bool) → String → Dict V → List V
  list_items session less session_id items =
      sort less (filter (is_of session session_id) (values items))

  -- `Update`: the record replaces the one that is stored under its identifier.
  abbrev pub replace_item : (V → String) → V → Dict V → Result (Dict V)
  replace_item key next items = do _ ← get_item (key next) items; ok (insert (key next) next items)

  -- The listed records are those stored that match the session.
  pub list_items-All :
      (session : V → String) (less : V → V → Bool) (session_id : String) (items : Dict V)
      (P : V → Type 0)
      → All P (list_items session less session_id items)
        ↔ All (λ v. is_of session session_id v ≡ true → P v) (values items)
  list_items-All session less session_id items P =
      let matching = filter (is_of session session_id) (values items) in
      let (into, back) = filter-All P (is_of session session_id) (values items) in
      ((λ h. into (All-of_sort less P matching h)), (λ h. All-sort less P matching (back h)))

  pub list_items-IsSorted :
      (session : V → String) (less : V → V → Bool) (session_id : String) (items : Dict V)
      → IsOrder less
      → IsSorted less (list_items session less session_id items)
  list_items-IsSorted session less session_id items order =
      sort-IsSorted less order (filter (is_of session session_id) (values items))

  module _ (key : V → String) where
    -- No two elements have one identifier.
    abbrev pub IsDistinct : List V → Type 0
    IsDistinct [] = Unit
    IsDistinct (x ∷ xs) = All (λ y. key y ≢ key x) xs × IsDistinct xs

    values-IsDistinct : (items : Dict V) → IsKeyed key items → IsDistinct (values items)
    unfolding lookup
    values-IsDistinct [] i = tt
    values-IsDistinct ((k, v) ∷ rest) i = (
      All-imp (λ w found same. absurd (cc (found, same, i.0, i.1))) (values rest)
          (All-lookup_self key rest i.2),
      values-IsDistinct rest i.2,
    )

    filter-IsDistinct : (p : V → Bool) (xs : List V) → IsDistinct xs → IsDistinct (filter p xs)
    unfolding filter
    filter-IsDistinct p [] d = tt
    filter-IsDistinct p (x ∷ xs) d = elim (Bool-cases (p x)) [
      | inl e ↦ rw e (
        (filter-All (λ y. key y ≢ key x) p xs).1 (All-imp (λ y h _. h) xs d.0),
        filter-IsDistinct p xs d.1,
      )
      | inr e ↦ rw e (filter-IsDistinct p xs d.1)
    ]

    module _ (less : V → V → Bool) where
      place-IsDistinct :
          (x : V) (ys : List V)
          → All (λ y. key y ≢ key x) ys
          → IsDistinct ys
          → IsDistinct (place less x ys)
      unfolding place
      place-IsDistinct x [] a d = (tt, tt)
      place-IsDistinct x (y ∷ ys) a d = elim (Bool-cases (less y x)) [
        | inl e ↦ rw e (
          All-place less (λ z. key z ≢ key y) x ys (λ same. a.0 (sym same)) d.0,
          place-IsDistinct x ys a.1 d.1,
        )
        | inr e ↦ rw e (a, d)
      ]

      sort-IsDistinct : (xs : List V) → IsDistinct xs → IsDistinct (sort less xs)
      unfolding sort
      sort-IsDistinct [] d = tt
      sort-IsDistinct (x ∷ xs) d =
          place-IsDistinct x (sort less xs) (All-sort less (λ y. key y ≢ key x) xs d.0)
            (sort-IsDistinct xs d.1)

      -- A store that keeps its records under their identifiers lists each of them once, as stored.
      pub list_items-IsDistinct :
          (session : V → String) (session_id : String) (items : Dict V)
          → IsKeyed key items
          → IsDistinct (list_items session less session_id items)
            × All (λ v. lookup (key v) items ≡ some v) (list_items session less session_id items)
      list_items-IsDistinct session session_id items i = (
        sort-IsDistinct (filter (is_of session session_id) (values items)) (
            filter-IsDistinct (is_of session session_id) (values items)
              (values-IsDistinct items i)),
        (list_items-All session less session_id items (λ v. lookup (key v) items ≡ some v)).1
            (All-imp (λ v h _. h) (values items) (All-lookup_self key items i)),
      )
