-- ===== src/Base/Strings.antt =====
-- The functions of Go's `strings` and `strconv` that the kernel calls. Strings are read by code
-- points.
use Prim.Native.Nat.{◌*◌}
use Prim.Native.Char.{code}
use harness_core.Base.Tests.{ltb, leb, nat_eq, ◌==◌, if◌then◌else◌}
use harness_core.Base.Int.{ℤ, pos, negsuc}
use harness_core.Base.{
  String, ℕ, zero, suc, ◌+◌, ◌-◌, Bool, true, false, ◌&&◌, ◌||◌, Option, none, some, List, [], ◌∷◌,
}

-- unicode.IsSpace, by the code of the character.
unfoldable pub is_space : ℕ → Bool
is_space c =
    (leb 9 c && leb c 13)
    || nat_eq c 32
    || nat_eq c 133
    || nat_eq c 160
    || nat_eq c 5760
    || (leb 8192 c && leb c 8202)
    || nat_eq c 8232
    || nat_eq c 8233
    || nat_eq c 8239
    || nat_eq c 8287
    || nat_eq c 12288

unfoldable trim_left : String → String
trim_left String.[] = ""
trim_left (String.◌∷◌ c s) =
    let rest = trim_left s in if is_space (code c) then rest else String.◌∷◌ c s

unfoldable trim_right : String → String
trim_right String.[] = ""
trim_right (String.◌∷◌ c s) =
    let rest = trim_right s in if is_space (code c) && rest == "" then "" else String.◌∷◌ c rest

-- strings.TrimSpace
unfoldable pub trim_space : String → String
unfolding trim_left trim_right
trim_space s = trim_left (trim_right s)

-- strings.HasPrefix
unfoldable pub has_prefix : String → String → Bool
has_prefix s String.[] = true
has_prefix String.[] (String.◌∷◌ d p) = false
has_prefix (String.◌∷◌ c s) (String.◌∷◌ d p) = nat_eq (code c) (code d) && has_prefix s p

-- strings.Split at one character, given by its code.
unfoldable pub split : ℕ → String → List String
split at String.[] = "" ∷ []
split at (String.◌∷◌ c s) = elim (split at s) [
  | [] ↦ []
  | part ∷ parts ↦ if nat_eq (code c) at then "" ∷ part ∷ parts else String.◌∷◌ c part ∷ parts
]

-- The parts before and after the first separator: strings.SplitN with two parts, if it finds two.
unfoldable pub cut : ℕ → String → Option (String × String)
cut at String.[] = none
cut at (String.◌∷◌ c s) =
    if nat_eq (code c) at
    then some ("", s)
    else elim (cut at s) [ none ↦ none | some parts ↦ some (String.◌∷◌ c parts.0, parts.1) ]

unfoldable digits : ℕ → String → Option ℕ
digits n String.[] = some n
digits n (String.◌∷◌ c s) =
    let rest = digits (n * 10 + (code c - 48)) s in
    if leb 48 (code c) && leb (code c) 57 then rest else none

unfoldable unsigned : String → Option ℕ
unsigned String.[] = none
unsigned (String.◌∷◌ c s) = digits 0 (String.◌∷◌ c s)

abbrev positive : Option ℕ → Option ℤ
positive none = none
positive (some n) = if ltb n 9223372036854775808 then some (pos n) else none

abbrev negative : Option ℕ → Option ℤ
negative none = none
negative (some zero) = some (pos 0)
negative (some (suc n)) = if ltb n 9223372036854775808 then some (negsuc n) else none

-- strconv.Atoi, without the text of its error.
unfoldable pub atoi : String → Option ℤ
unfolding unsigned digits
atoi String.[] = none
atoi (String.◌∷◌ c s) =
    if nat_eq (code c) 45
    then negative (unsigned s)
    else if nat_eq (code c) 43
    then positive (unsigned s)
    else positive (unsigned (String.◌∷◌ c s))
