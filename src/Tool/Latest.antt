-- ===== src/Tool/Latest.antt =====
-- The latest version of a tool, where versions have an order: pkg/harness/tool/registry.go.
use harness_core.Base.{
  String, ◌≡◌, ◌⊎◌, inl, inr, refl, Bool, false, Option, none, some, List, [], ◌∷◌, ◌==◌, arith,
  eq_iff, All, All-imp, All-both, Bool-cases, sym, ◌∙◌, subst,
}
use harness_core.Base.Text.{str_ltb, str_ltb_asymm, str_ltb_trans}
use harness_core.Base.Dict.{Dict, lookup}
use harness_core.Base.Int.{ℤ, ltb_ℤ, pos}
use harness_core.Base.Strings.{trim_space}
use harness_core.Base.Sort.{
  sort, place, IsOrder, IsSorted, sort-IsSorted, All-sort, All-of_sort, irrefl,
}
use harness_core.Tool.{
  Entry, Registry, resolve, entry_of_last, older, compare_version, parse_numeric_version, last_of,
  keys,
}

module _ (less less' : String → String → Bool) where
  -- The two comparisons agree on a list.
  abbrev Agree : List String → Type 0
  Agree ks = All (λ x. All (λ y. less y x ≡ less' y x) ks) ks

  place_agree :
      (x : String) (ys : List String)
      → All (λ y. less y x ≡ less' y x) ys
      → place less x ys ≡ place less' x ys
  unfolding place
  place_agree x [] h = refl
  place_agree x (y ∷ ys) h = ground (arith, h.0, place_agree x ys h.1)

  sort-Agree : (xs : List String) → Agree xs → sort less xs ≡ sort less' xs
  unfolding sort
  sort-Agree [] h = refl
  sort-Agree (x ∷ xs) h =
      rw (sort-Agree xs (All-imp (λ y k. k.1) xs h.1))
        (place_agree x (sort less' xs) (All-sort less' (λ y. less y x ≡ less' y x) xs h.0.1))

All-last : (P : String → Type 0) (x : String) (xs : List String) → All P (x ∷ xs) → P (last_of x xs)
All-last P x [] h = h.0
All-last P x (y ∷ ys) h = All-last P y ys h.1

module _ (less : String → String → Bool) (order : IsOrder less) where
  last-greatest :
      (x : String) (xs : List String)
      → IsSorted less (x ∷ xs)
      → All (λ y. less (last_of x xs) y ≡ false) (x ∷ xs)
  last-greatest x [] s = (irrefl less order x, tt)
  last-greatest x (y ∷ ys) s = (All-last (λ z. less z x ≡ false) y ys s.0, last-greatest y ys s.1)

place_shape :
    (less : String → String → Bool) (x : String) (ys : List String)
    → (z : String) × (zs : List String) × (place less x ys ≡ z ∷ zs)
unfolding place
place_shape less x [] = (x, [], refl)
place_shape less x (y ∷ ys) = elim (Bool-cases (less y x)) [
  | inl e ↦ (y, place less x ys, rw e refl)
  | inr e ↦ (x, y ∷ ys, rw e refl)
]

keys-found : {V : Type 0} (m : Dict V) → All (λ k. (v : V) × (lookup k m ≡ some v)) (keys m)
unfolding lookup
keys-found [] = tt
keys-found ((j, w) ∷ m) = (
  (w, rw ((eq_iff j j).1 refl) refl),
  All-imp (λ k f. elim (Bool-cases (j == k)) [ inl e ↦ (w, rw e refl) | inr e ↦ (f.0, rw e f.1) ])
      (keys m) (keys-found m),
)

abbrev number : Option ℤ → ℤ
number none = pos 0
number (some n) = n

abbrev by_number : String → String → Bool
by_number a b = ltb_ℤ (number (parse_numeric_version a)) (number (parse_numeric_version b))

numbers-IsOrder : IsOrder by_number
numbers-IsOrder = record { asymm = λ a b h. ground arith; trans = λ a b c h k. ground arith }

texts-IsOrder : IsOrder str_ltb
texts-IsOrder = record { asymm = str_ltb_asymm; trans = str_ltb_trans }

-- Versions are of one kind if all of them are numbers, or none of them is.
abbrev pub IsNumber : String → Type 0
IsNumber k = (n : ℤ) × (parse_numeric_version k ≡ some n)

abbrev pub IsText : String → Type 0
IsText k = parse_numeric_version k ≡ none

abbrev pub OfOneKind : List String → Type 0
OfOneKind ks = All IsNumber ks ⊎ All IsText ks

numbers-Agree : (ks : List String) → All IsNumber ks → Agree older by_number ks
unfolding older compare_version
numbers-Agree ks h = All-imp (λ x p. All-imp (λ y q. rw (p.1, q.1) (ground arith)) ks h) ks h

text_older : (a b : String) → IsText a → older a b ≡ str_ltb a b
unfolding older compare_version
text_older a b h = rw h (ground arith)

texts-Agree : (ks : List String) → All IsText ks → Agree older str_ltb ks
texts-Agree ks h = All-imp (λ x p. All-imp (λ y q. text_older y x q) ks h) ks h

-- The entry that is found is that of a version that no other is newer than.
abbrev pub Newest : {V : Type 0} → Option V → Dict V → Type 0
Newest {V} found versions =
    (k : String) × (v : V) × (found ≡ some v)
    × (lookup k versions ≡ some v)
    × All (λ j. older k j ≡ false) (keys versions)

newest :
    {V : Type 0} (less : String → String → Bool) (e : String × V) (es : Dict V)
    → IsOrder less
    → Agree older less (keys (e ∷ es))
    → Newest (entry_of_last (sort older (keys (e ∷ es))) (e ∷ es)) (e ∷ es)
unfolding sort
newest {V} less e es order agree =
    let ks = keys (e ∷ es) in
    let (z, zs, shape) = place_shape older e.0 (sort older (keys es)) in
    let sorted : sort less ks ≡ z ∷ zs = sym (sort-Agree older less ks agree) ∙ shape in
    let order_of = subst (IsSorted less) sorted (sort-IsSorted less order ks) in
    let top : All (λ j. less (last_of z zs) j ≡ false) ks =
      All-of_sort less (λ j. less (last_of z zs) j ≡ false) ks
        (subst (All (λ j. less (last_of z zs) j ≡ false)) (sym sorted)
          (last-greatest less order z zs order_of)) in
    let (v, there) =
      All-last (λ k. (v : V) × (lookup k (e ∷ es) ≡ some v)) z zs
        (subst (All (λ k. (v : V) × (lookup k (e ∷ es) ≡ some v))) shape (
          All-sort older (λ k. (v : V) × (lookup k (e ∷ es) ≡ some v)) ks (keys-found (e ∷ es)))) in
    let agrees : All (λ j. older (last_of z zs) j ≡ less (last_of z zs) j) ks =
      All-imp
        (λ j inner.
          All-last (λ k. older k j ≡ less k j) z zs
            (subst (All (λ k. older k j ≡ less k j)) shape
              (All-sort older (λ k. older k j ≡ less k j) ks inner)))
        ks agree in
    (last_of z zs, v, rw shape there, there, All-both (λ j same off. same ∙ off) ks agrees top)

-- Where the versions of a tool are all numbers, or none of them is, a call that names no version gets
-- the entry of a version that no other is newer than. Some version of the tool is registered.
pub resolve-Newest :
    {W : Type 0} (name : String) (r : Registry W) (e : String × Entry W) (es : Dict (Entry W))
    → lookup name r.tools ≡ some (e ∷ es)
    → OfOneKind (keys (e ∷ es))
    → Newest (resolve name "" r) (e ∷ es)
unfolding resolve trim_space
resolve-Newest name r e es found (inl numbers) =
    rw found (newest by_number e es numbers-IsOrder (numbers-Agree (keys (e ∷ es)) numbers))
resolve-Newest name r e es found (inr texts) =
    rw found (newest str_ltb e es texts-IsOrder (texts-Agree (keys (e ∷ es)) texts))
