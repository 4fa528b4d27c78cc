-- ===== src/Base/Dict.antt =====
-- A Go map with string keys: an association list, whose order is one order in which Go may range
-- over the map.
use harness_core.Base.{
  some-ne-none, ◌++◌, ap, String, ◌≡◌, ◌≢◌, refl, subst, Option, none, some, List, [], ◌∷◌, map,
  arith, eq_iff, ◌==◌, if◌then◌else◌, All, All-imp, Bool-cases, inl, inr,
}

abbrev pub Dict {ℓ} : Type ℓ → Type ℓ
Dict V = List (String × V)

module _ {ℓ} {V : Type ℓ} where
  -- `m[name]`
  unfoldable pub lookup : String → Dict V → Option V
  lookup name [] = none
  lookup name ((at, here) ∷ rest) = if at == name then some here else lookup name rest

  -- `m[name] = value`
  unfoldable pub insert : String → V → Dict V → Dict V
  insert name value [] = (name, value) ∷ []
  insert name value ((at, here) ∷ rest) =
      if at == name then (name, value) ∷ rest else (at, here) ∷ insert name value rest

  -- `delete(m, k)`
  unfoldable pub delete : String → Dict V → Dict V
  delete k [] = []
  delete k ((j, w) ∷ m) = let rest = delete k m in if j == k then rest else (j, w) ∷ rest

  -- `for _, v := range m`
  abbrev pub values : Dict V → List V
  values = map (λ e. e.1)

  pub lookup-insert :
      (name asked : String) (value : V) (dict : Dict V)
      → lookup asked (insert name value dict)
        ≡ (if name == asked then some value else lookup asked dict)
  unfolding lookup insert
  lookup-insert name asked value [] = refl
  lookup-insert name asked value ((at, here) ∷ rest) = ground (
    arith,
    lookup-insert name asked value rest,
    eq_iff at asked,
    eq_iff at name,
    eq_iff name asked,
  )

  pub lookup-delete :
      (k j : String) (m : Dict V) → lookup j (delete k m) ≡ (if k == j then none else lookup j m)
  unfolding lookup delete
  lookup-delete k j [] = ground arith
  lookup-delete k j ((i, w) ∷ m) =
      ground (arith, eq_iff k j, eq_iff i k, eq_iff i j, lookup-delete k j m)

  pub lookup-insert_self : (k : String) (v : V) (m : Dict V) → lookup k (insert k v m) ≡ some v
  lookup-insert_self k v m = ground (arith, lookup-insert k k v m, eq_iff k k)

  pub lookup-insert_ne :
      (k j : String) (v : V) (m : Dict V) → k ≢ j → lookup j (insert k v m) ≡ lookup j m
  lookup-insert_ne k j v m h = ground (arith, lookup-insert k j v m, eq_iff k j)

  -- What holds of all values holds of each that is found.
  pub All-lookup {κ} :
      (P : V → Type κ) (k : String) (m : Dict V) {v : V}
      → lookup k m ≡ some v
      → All P (values m)
      → P v
  unfolding lookup
  All-lookup P k [] h a = cc
  All-lookup P k ((j, w) ∷ m) h a = elim (Bool-cases (j == k)) [
    | inl e ↦ subst P (cc (rw e at h)) a.0
    | inr e ↦ All-lookup P k m (rw e at h) a.1
  ]

  pub All-insert {κ} :
      (P : V → Type κ) (k : String) (v : V) (m : Dict V)
      → P v
      → All P (values m)
      → All P (values (insert k v m))
  unfolding insert
  All-insert P k v [] p a = (p, tt)
  All-insert P k v ((j, w) ∷ m) p a = elim (Bool-cases (j == k)) [
    | inl e ↦ rw e (p, a.1)
    | inr e ↦ rw e (a.0, All-insert P k v m p a.1)
  ]

  pub lookup_unique :
      (k j : String) (m : Dict V) {v w : V}
      → lookup k m ≡ some v
      → lookup j m ≡ some w
      → k ≡ j
      → v ≡ w
  lookup_unique k j m h h' e = cc

  -- Each key stands once, and is the one that the value itself names.
  module _ (key : V → String) where
    abbrev pub IsKeyed : Dict V → Type ℓ
    IsKeyed [] = Unit
    IsKeyed ((k, v) ∷ m) = (key v ≡ k) × (lookup k m ≡ none) × IsKeyed m

    pub insert-IsKeyed : (v : V) (m : Dict V) → IsKeyed m → IsKeyed (insert (key v) v m)
    unfolding lookup insert
    insert-IsKeyed v [] h = (refl, refl, tt)
    insert-IsKeyed v ((j, w) ∷ m) h = elim (Bool-cases (j == key v)) [
      | inl e ↦ rw e (refl, subst (λ k. lookup k m ≡ none) ((eq_iff j (key v)).0 e) h.1, h.2)
      | inr e ↦ rw e (
        h.0,
        ground (arith, lookup-insert (key v) j v m, eq_iff (key v) j, eq_iff j (key v), h.1),
        insert-IsKeyed v m h.2,
      )
    ]

    pub lookup-IsKeyed :
        (k : String) (m : Dict V) {v : V} → IsKeyed m → lookup k m ≡ some v → key v ≡ k
    unfolding lookup
    lookup-IsKeyed k [] i h = cc
    lookup-IsKeyed k ((j, w) ∷ m) {v} i h = ground (arith, eq_iff j k, lookup-IsKeyed k m {v = v})

  -- Under its own key, a map finds each of its values.
  module _ (key : V → String) where
    pub All-lookup_self :
        (m : Dict V) → IsKeyed key m → All (λ v. lookup (key v) m ≡ some v) (values m)
    unfolding lookup
    All-lookup_self [] i = tt
    All-lookup_self ((k, w) ∷ m) i = (
      ground (arith, eq_iff k (key w), i.0),
      All-imp (λ v h. ground (arith, eq_iff k (key v), i.1)) (values m) (All-lookup_self m i.2),
    )

    -- To write a value under its own key, whatever the key is called.
    pub insert-IsKeyed_of_eq :
        (k : String) (v : V) (m : Dict V) → key v ≡ k → IsKeyed key m → IsKeyed key (insert k v m)
    insert-IsKeyed_of_eq k v m e i =
        subst (λ j. IsKeyed key (insert j v m)) e (insert-IsKeyed key v m i)

  -- A new key comes last.
  pub values-insert_new :
      (k : String) (v : V) (m : Dict V)
      → lookup k m ≡ none
      → values (insert k v m) ≡ values m ++ v ∷ []
  unfolding lookup insert
  values-insert_new k v [] h = refl
  values-insert_new k v ((j, w) ∷ m) h = elim (Bool-cases (j == k)) [
    | inl e ↦ absurd (some-ne-none (rw e at h))
    | inr e ↦ rw e (ap (◌∷◌ w) (values-insert_new k v m (rw e at h)))
  ]
