-- ===== src/Base/Text.antt =====
-- Go's `+` and `<` on strings: `<` is lexicographic, by code points (for UTF-8 the same order as by
-- bytes).
use Prim.Native.Char.{code}
use text.Mathlib.TextEquality.{Char-path}
use Prim.Native.String.{◌++◌ as append}
use harness_core.Base.{String, ◌≡◌, refl, Bool, true, false, arith, ltb, if◌then◌else◌}

-- Go's `+` on strings.
abbrev pub concat : String → String → String
concat s t = append s t

unfoldable pub str_ltb : String → String → Bool
str_ltb String.[] String.[] = false
str_ltb String.[] (String.◌∷◌ d t) = true
str_ltb (String.◌∷◌ c s) String.[] = false
str_ltb (String.◌∷◌ c s) (String.◌∷◌ d t) =
    let rest = str_ltb s t in
    if ltb (code c) (code d) then true else if ltb (code d) (code c) then false else rest

-- "not greater" is transitive.
pub str_ltb_trans :
    (s t u : String) → str_ltb t s ≡ false → str_ltb u t ≡ false → str_ltb u s ≡ false
unfolding str_ltb
str_ltb_trans String.[] String.[] String.[] h k = refl
str_ltb_trans String.[] String.[] (String.◌∷◌ e u) h k = refl
str_ltb_trans String.[] (String.◌∷◌ d t) String.[] h k = cc
str_ltb_trans String.[] (String.◌∷◌ d t) (String.◌∷◌ e u) h k = refl
str_ltb_trans (String.◌∷◌ c s) String.[] String.[] h k = cc
str_ltb_trans (String.◌∷◌ c s) String.[] (String.◌∷◌ e u) h k = cc
str_ltb_trans (String.◌∷◌ c s) (String.◌∷◌ d t) String.[] h k = cc
str_ltb_trans (String.◌∷◌ c s) (String.◌∷◌ d t) (String.◌∷◌ e u) h k =
    ground (arith, str_ltb_trans s t u)

pub str_ltb_antisymm : (s t : String) → str_ltb s t ≡ false → str_ltb t s ≡ false → s ≡ t
unfolding str_ltb
str_ltb_antisymm String.[] String.[] h k = refl
str_ltb_antisymm String.[] (String.◌∷◌ d t) h k = cc
str_ltb_antisymm (String.◌∷◌ c s) String.[] h k = cc
str_ltb_antisymm (String.◌∷◌ c s) (String.◌∷◌ d t) h k =
    ground (arith, str_ltb_antisymm s t, Char-path c d)

pub str_ltb_asymm : (s t : String) → str_ltb s t ≡ true → str_ltb t s ≡ false
unfolding str_ltb
str_ltb_asymm String.[] String.[] h = cc
str_ltb_asymm String.[] (String.◌∷◌ d t) h = refl
str_ltb_asymm (String.◌∷◌ c s) String.[] h = cc
str_ltb_asymm (String.◌∷◌ c s) (String.◌∷◌ d t) h = ground (arith, str_ltb_asymm s t)
