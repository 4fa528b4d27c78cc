-- ===== src/Tool/Versions.antt =====
-- What the tool registry (pkg/harness/tool/registry.go) finds under a version, and in versions whose
-- comparison goes round.
use harness_core.Base.{
  String, ◌≡◌, ◌≢◌, refl, true, false, ◌&&◌, Option, none, some, List, [], ◌∷◌, ◌==◌, if◌then◌else◌,
  arith, eq_iff, Bool-cases, inl, inr, ap, ◌∙◌, sym,
}
use harness_core.Base.Text.{str_ltb_asymm}
use harness_core.Base.Dict.{lookup, insert, lookup-insert}
use harness_core.Base.Int.{ℤ, ltb_ℤ, pos}
use harness_core.Base.Strings.{trim_space}
use harness_core.Base.Sort.{sort, place}
use harness_core.Tool.{
  Definition, Handler, Entry, Registry, register, resolve, resolve_in, or_empty, version_key, older,
  compare_version, compare_parsed, parse_numeric_version,
}

resolve_in_named :
    {V : Type 0} (version : String) (versions : List (String × V))
    → trim_space version ≢ ""
    → resolve_in version versions ≡ lookup (version_key version) versions
unfolding lookup
resolve_in_named version [] named = refl
resolve_in_named version (e ∷ es) named = ground (arith, eq_iff (trim_space version) "")

module _ {W : Type 0} where
  -- Under a version that is named, the registry finds what was registered last for that tool and
  -- version, and else what it found before. Versions are compared without the spaces around them.
  pub resolve-register :
      (d : Definition) (h : Option (Handler W)) (name version : String) (r : Registry W)
      → trim_space version ≢ ""
      → resolve name version (register d h r) ≡ (
          if (d.tool_name == name) && (version_key d.version == version_key version)
          then some (record { definition = d; handler = h })
          else resolve name version r)
  unfolding resolve register
  resolve-register d h name version r named =
      let entry : Entry W = record { definition = d; handler = h } in
      let found =
        lookup-insert d.tool_name name
          (insert (version_key d.version) entry (or_empty (lookup d.tool_name r.tools))) r.tools in
      elim (Bool-cases (d.tool_name == name)) [
        | inl e ↦
            let same : d.tool_name ≡ name = (eq_iff d.tool_name name).0 e in
            let versions = or_empty (lookup d.tool_name r.tools) in
            let here : or_empty (lookup name r.tools) ≡ versions =
              ap (λ k. or_empty (lookup k r.tools)) (sym same) in
            rw
              (
                found,
                e,
                here,
                resolve_in_named version (insert (version_key d.version) entry versions) named,
                resolve_in_named version versions named,
                lookup-insert (version_key d.version) (version_key version) entry versions,
              )
              refl
        | inr e ↦ rw (found, e) refl
      ]

older_asymm_parsed :
    (m n : Option ℤ) (a b : String)
    → ltb_ℤ (compare_parsed m n a b) (pos 0) ≡ true
    → ltb_ℤ (compare_parsed n m b a) (pos 0) ≡ false
older_asymm_parsed none none a b h = ground (arith, str_ltb_asymm a b)
older_asymm_parsed none (some n) a b h = ground (arith, str_ltb_asymm a b)
older_asymm_parsed (some m) none a b h = ground (arith, str_ltb_asymm a b)
older_asymm_parsed (some m) (some n) a b h = ground arith

older_asymm : (a b : String) → older a b ≡ true → older b a ≡ false
unfolding older compare_version
older_asymm a b h = older_asymm_parsed (parse_numeric_version a) (parse_numeric_version b) a b h

older_ne : (a b : String) → older a b ≡ true → a ≢ b
older_ne a b h e =
    let self : older a a ≡ true = ap (λ k. older a k) e ∙ h in
    let other = older_asymm a a self in cc

apart : (a b : String) → a ≢ b → (a == b) ≡ false
apart a b h = ground (arith, eq_iff a b)

-- Three versions that compare in a circle, in the order in which the map is ranged over.
abbrev pub circle :
    {W : Type 0} → String → String → String → String → Entry W → Entry W → Entry W → Registry W
circle name a b c x y z = record { tools = (name, (a, x) ∷ (b, y) ∷ (c, z) ∷ []) ∷ [] }

-- Where three versions of a tool compare in a circle, each older than the next, the version that the
-- registry takes for the latest depends on the order in which Go ranges over its map: the same three
-- entries give the third of them in one order and the first of them in another.
pub resolve-circle :
    {W : Type 0} (name a b c : String) (x y z : Entry W)
    → older a b ≡ true
    → older b c ≡ true
    → older c a ≡ true
    → (resolve name "" (circle name a b c x y z) ≡ some z)
      × (resolve name "" (circle name b c a y z x) ≡ some x)
unfolding resolve lookup sort place trim_space
resolve-circle name a b c x y z ab bc ca =
    let same = (eq_iff name name).1 refl in
    let found = (eq_iff c c).1 refl in
    let found' = (eq_iff a a).1 refl in
    let ac = apart a c (λ e. older_ne c a ca (sym e)) in
    let ca' = apart c a (older_ne c a ca) in
    let bc' = apart b c (older_ne b c bc) in
    let ba' = apart b a (λ e. older_ne a b ab (sym e)) in
    (
      rw (same, older_asymm b c bc, older_asymm a b ab, ac, bc', found) refl,
      rw (same, older_asymm c a ca, older_asymm b c bc, ba', ca', found') refl,
    )
