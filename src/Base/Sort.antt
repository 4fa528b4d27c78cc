-- ===== src/Base/Sort.antt =====
-- `sort.Slice` with a comparison: an insertion sort, which is stable.
use harness_core.Base.{
  ◌≡◌, subst, All-imp, Bool, true, false, some, List, [], ◌∷◌, if◌then◌else◌, All, find, Bool-cases,
  inl, inr,
}

module _ {ℓ} {A : Type ℓ} (less : A → A → Bool) where
  -- `x` goes before the first element that is not less than it.
  unfoldable pub place : A → List A → List A
  place x [] = x ∷ []
  place x (y ∷ ys) = if less y x then y ∷ place x ys else x ∷ y ∷ ys

  unfoldable pub sort : List A → List A
  unfolding place
  sort [] = []
  sort (x ∷ xs) = place x (sort xs)

  -- No later element is less than an earlier one.
  abbrev pub IsSorted : List A → Type ℓ
  IsSorted [] = Unit
  IsSorted (x ∷ xs) = All (λ y. less y x ≡ false) xs × IsSorted xs

  module _ {κ} (P : A → Type κ) where
    pub All-place : (x : A) (ys : List A) → P x → All P ys → All P (place x ys)
    unfolding place
    All-place x [] p h = (p, tt)
    All-place x (y ∷ ys) p h = elim (Bool-cases (less y x)) [
      | inl e ↦ rw e (h.0, All-place x ys p h.1)
      | inr e ↦ rw e (p, h)
    ]

    All-of_place : (x : A) (ys : List A) → All P (place x ys) → P x × All P ys
    unfolding place
    All-of_place x [] h = h
    All-of_place x (y ∷ ys) h = elim (Bool-cases (less y x)) [
      | inl e ↦
          let t : All P (y ∷ place x ys) = rw e at h in
          let r = All-of_place x ys t.1 in (r.0, (t.0, r.1))
      | inr e ↦ rw e at h
    ]

    pub All-sort : (xs : List A) → All P xs → All P (sort xs)
    unfolding sort
    All-sort [] h = tt
    All-sort (x ∷ xs) h = All-place x (sort xs) h.0 (All-sort xs h.1)

    pub All-of_sort : (xs : List A) → All P (sort xs) → All P xs
    unfolding sort
    All-of_sort [] h = tt
    All-of_sort (x ∷ xs) h = let r = All-of_place x (sort xs) h in (r.0, All-of_sort xs r.1)

  -- The comparison is a strict weak order.
  pub record IsOrder : Type ℓ where
    pub asymm : (x y : A) → less x y ≡ true → less y x ≡ false
    pub trans : (x y z : A) → less y x ≡ false → less z y ≡ false → less z x ≡ false

module _ {ℓ} {A : Type ℓ} (less : A → A → Bool) (o : IsOrder less) where
  place-IsSorted : (x : A) (ys : List A) → IsSorted less ys → IsSorted less (place less x ys)
  unfolding place
  place-IsSorted x [] h = (tt, tt)
  place-IsSorted x (y ∷ ys) h = elim (Bool-cases (less y x)) [
    | inl e ↦
        rw e
          (All-place less (λ z. less z y ≡ false) x ys (o.asymm y x e) h.0, place-IsSorted x ys h.1)
    | inr e ↦ rw e ((e, All-imp (λ z k. o.trans x y z e k) ys h.0), h)
  ]

  pub sort-IsSorted : (xs : List A) → IsSorted less (sort less xs)
  unfolding sort
  sort-IsSorted [] = tt
  sort-IsSorted (x ∷ xs) = place-IsSorted x (sort less xs) (sort-IsSorted xs)

  pub irrefl : (x : A) → less x x ≡ false
  irrefl x = elim (Bool-cases (less x x)) [ inl e ↦ o.asymm x x e | inr e ↦ e ]

  -- The first element of a sorted list that passes a test is a least one that passes.
  least-find :
      (p : A → Bool) (xs : List A) {x : A}
      → IsSorted less xs
      → find p xs ≡ some x
      → All (λ y. p y ≡ true → less y x ≡ false) xs
  unfolding find
  least-find p [] s h = tt
  least-find p (y ∷ ys) {x} s h = elim (Bool-cases (p y)) [
    | inl e ↦
        let same : y ≡ x = cc (rw e at h) in
        subst (λ w. All (λ z. p z ≡ true → less z w ≡ false) (y ∷ ys)) same
          ((λ _. irrefl y), All-imp (λ z k _. k) ys s.0)
    | inr e ↦ ((λ t. cc), least-find p ys s.1 (rw e at h))
  ]

  pub least-find-sort :
      (p : A → Bool) (xs : List A) {x : A}
      → find p (sort less xs) ≡ some x
      → All (λ y. p y ≡ true → less y x ≡ false) xs
  least-find-sort p xs {x} h =
      All-of_sort less (λ y. p y ≡ true → less y x ≡ false) xs
        (least-find p (sort less xs) (sort-IsSorted xs) h)
