-- ===== src/Tool.antt =====
-- pkg/harness/tool: the registry of tools and their versions. A handler is supplied by the program
-- that embeds the kernel; `W` is the world that it acts on.
pub mod Versions
pub mod Latest
use Prim.Native.Char.{code}
use harness_core.Base.{
  String, Bool, true, false, not, ◌&&◌, ◌||◌, ◌==◌, nat_eq, if◌then◌else◌, Option, none, some, List,
  [], ◌∷◌, ◌++◌, map,
}
use harness_core.Base.Text.{str_ltb}
use harness_core.Base.Strings.{trim_space, atoi}
use harness_core.Base.Int.{ℤ, pos, negsuc, ltb_ℤ}
use harness_core.Base.Dict.{Dict, lookup, insert, values}
use harness_core.Base.Sort.{sort}
use harness_core.Metadata.{Metadata}
use harness_core.Plan.Spec.{ActionSpec}
use harness_core.Execution.Actions.{ActionError, ActionResult}

pub data RiskLevel : Type 0 where
  low medium high : RiskLevel
  unknown : String → RiskLevel

pub record Definition : Type 0 where
  pub tool_name : String
  pub version : String
  pub capability_type : String
  pub input_schema : Metadata
  pub result_schema : Metadata
  pub verify_schema : Metadata
  pub risk_level : RiskLevel
  pub enabled : Bool
  pub metadata : Metadata

-- What a call of a tool gives: the result, and the error, by its text.
pub data InvokeError : Type 0 where
  tool_not_registered tool_disabled : InvokeError
  handler_error : String → InvokeError

abbrev pub Handler : Type 0 → Type 0
Handler W = Metadata → W → (ActionResult × Option InvokeError) × W

pub record Entry (W : Type 0) : Type 0 where
  pub definition : Definition
  pub handler : Option (Handler W)

pub record Registry (W : Type 0) : Type 0 where
  pub tools : Dict (Dict (Entry W))

-- versionKey
unfoldable pub version_key : String → String
version_key version = if trim_space version == "" then "__default__" else trim_space version

-- `v2` and `V2` are read as `2`.
abbrev pub without_v : String → String
without_v String.[] = ""
without_v (String.◌∷◌ c s) =
    if (nat_eq (code c) 118 || nat_eq (code c) 86) && not (s == "") then s else String.◌∷◌ c s

-- parseNumericVersion
unfoldable pub parse_numeric_version : String → Option ℤ
parse_numeric_version version =
    if trim_space version == "" || trim_space version == "__default__"
    then none
    else atoi (without_v (trim_space version))

abbrev pub compare_numbers : ℤ → ℤ → ℤ
compare_numbers left right =
    if ltb_ℤ left right then negsuc 0 else if ltb_ℤ right left then pos 1 else pos 0

abbrev pub compare_texts : String → String → ℤ
compare_texts left right =
    if str_ltb left right then negsuc 0 else if str_ltb right left then pos 1 else pos 0

abbrev pub compare_parsed : Option ℤ → Option ℤ → String → String → ℤ
compare_parsed (some li) (some ri) left right = compare_numbers li ri
compare_parsed (some li) none left right = compare_texts left right
compare_parsed none _ left right = compare_texts left right

-- compareVersion
unfoldable pub compare_version : String → String → ℤ
unfolding parse_numeric_version
compare_version left right =
    compare_parsed (parse_numeric_version left) (parse_numeric_version right) left right

-- The comparison that sorts versions: `compareVersion(a, b) < 0`.
unfoldable pub older : String → String → Bool
unfolding compare_version
older left right = ltb_ℤ (compare_version left right) (pos 0)

abbrev pub last_of : String → List String → String
last_of x [] = x
last_of x (y ∷ ys) = last_of y ys

abbrev pub keys : {V : Type 0} → Dict V → List String
keys = map (λ e. e.0)

-- `keys[len(keys)-1]`, looked up.
abbrev pub entry_of_last : {V : Type 0} → List String → Dict V → Option V
entry_of_last [] versions = none
entry_of_last (k ∷ ks) versions = lookup (last_of k ks) versions

abbrev pub or_empty : {V : Type 0} → Option (Dict V) → Dict V
or_empty none = []
or_empty (some versions) = versions

-- `ok` of the first lookup, and `len(versions) == 0`.
abbrev pub resolve_in : {V : Type 0} → String → Dict V → Option V
resolve_in version [] = none
resolve_in version (e ∷ es) =
    if not (trim_space version == "")
    then lookup (version_key version) (e ∷ es)
    else entry_of_last (sort older (keys (e ∷ es))) (e ∷ es)

-- The comparison of `List`.
unfoldable pub listed_before : Definition → Definition → Bool
listed_before a b =
    if a.tool_name == b.tool_name
    then older a.version b.version
    else str_ltb a.tool_name b.tool_name

abbrev pub failed : String → String → ActionResult
failed error_code message = record {
  succeeded = false;
  data_map = [];
  meta = [];
  error = some (record { code = error_code; message = message });
}

module _ {W : Type 0} where
  unfoldable pub register : Definition → Option (Handler W) → Registry W → Registry W
  register def handler r = record {
    tools =
        insert def.tool_name
          (insert (version_key def.version) (record { definition = def; handler = handler })
            (or_empty (lookup def.tool_name r.tools)))
          r.tools;
  }

  unfoldable pub get_version : String → String → Registry W → Option (Entry W)
  get_version name version r = lookup (version_key version) (or_empty (lookup name r.tools))

  unfoldable pub resolve : String → String → Registry W → Option (Entry W)
  resolve name version r = resolve_in version (or_empty (lookup name r.tools))

  unfoldable pub get : String → Registry W → Option (Entry W)
  unfolding resolve
  get name r = resolve name "" r

  abbrev pub definitions : List (Dict (Entry W)) → List Definition
  definitions [] = []
  definitions (versions ∷ rest) = map (λ e. e.definition) (values versions) ++ definitions rest

  unfoldable pub list : Registry W → List Definition
  list r = sort listed_before (definitions (values r.tools))

  abbrev pub invoke_entry : ActionSpec → Option (Entry W) → Handler W
  invoke_entry spec none args w =
      ((failed "TOOL_NOT_REGISTERED" spec.tool_name, some tool_not_registered), w)
  invoke_entry spec (some entry) args w =
      if not entry.definition.enabled
      then ((failed "TOOL_DISABLED" spec.tool_name, some tool_disabled), w)
      else elim entry.handler [
        | none ↦ ((failed "TOOL_NOT_IMPLEMENTED" spec.tool_name, none), w)
        | some h ↦ h args w
      ]

  unfoldable pub invoke : ActionSpec → Registry W → W → (ActionResult × Option InvokeError) × W
  unfolding resolve
  invoke spec r w = invoke_entry spec (resolve spec.tool_name spec.tool_version r) spec.args w
