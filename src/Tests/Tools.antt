-- ===== src/Tests/Tools.antt =====
-- Tools, their versions, and rules about them.
use harness_core.Base.{String, ◌≡◌, refl, true, none, some, [], ◌∷◌, inl, arith, eq_iff}
use harness_core.Base.Text.{str_ltb}
use harness_core.Base.Strings.{trim_space, atoi, is_space}
use harness_core.Base.Int.{pos}
use harness_core.Base.Dict.{lookup}
use harness_core.Metadata.{Value, text}
use harness_core.Permission.{deny}
use harness_core.Permission.Evaluator.{Rule, RulesEvaluator, evaluate_default}
use harness_core.Tool.{
  Definition, Entry, Registry, RiskLevel, register, resolve, older, compare_version, version_key,
  parse_numeric_version,
}
use harness_core.Tool.Versions.{resolve-register, resolve-circle, circle}
use harness_core.Tool.Latest.{resolve-Newest, Newest}

abbrev tool : String → Definition
tool version = record {
  tool_name = "shell.exec";
  version = version;
  capability_type = "shell";
  input_schema = [];
  result_schema = [];
  verify_schema = [];
  risk_level = RiskLevel.medium;
  enabled = true;
  metadata = [];
}

abbrev entry : String → Entry (Unit {0})
entry version = record { definition = tool version; handler = none }

abbrev no_tools : Registry (Unit {0})
no_tools = record { tools = [] }

-- Spaces around a version do not count.
resolve-register_example :
    resolve "shell.exec" " v2" (register (tool "v2 ") none no_tools) ≡ some (entry "v2 ")
unfolding trim_space is_space version_key resolve lookup
resolve-register_example =
    resolve-register (tool "v2 ") none "shell.exec" " v2" no_tools
      (λ e. ground (arith, eq_iff "v2" ""))

circle_1 : older "2" "10" ≡ true
unfolding older compare_version parse_numeric_version trim_space atoi is_space str_ltb
circle_1 = refl

circle_2 : older "10" "1a" ≡ true
unfolding older compare_version parse_numeric_version trim_space atoi is_space str_ltb
circle_2 = refl

circle_3 : older "1a" "2" ≡ true
unfolding older compare_version parse_numeric_version trim_space atoi is_space str_ltb
circle_3 = refl

resolve-circle_example :
    (resolve "shell.exec" ""
        (circle "shell.exec" "2" "10" "1a" (entry "2") (entry "10") (entry "1a"))
      ≡ some (entry "1a"))
    × (resolve "shell.exec" ""
          (circle "shell.exec" "10" "1a" "2" (entry "10") (entry "1a") (entry "2"))
        ≡ some (entry "2"))
resolve-circle_example =
    resolve-circle "shell.exec" "2" "10" "1a" (entry "2") (entry "10") (entry "1a") circle_1
      circle_2 circle_3

abbrev pub two_versions : Registry (Unit {0})
two_versions = record {
  tools = ("shell.exec", ("v10", entry "v10") ∷ ("v9", entry "v9") ∷ []) ∷ [];
}

ten : parse_numeric_version "v10" ≡ some (pos 10)
unfolding parse_numeric_version trim_space atoi is_space
ten = refl

nine : parse_numeric_version "v9" ≡ some (pos 9)
unfolding parse_numeric_version trim_space atoi is_space
nine = refl

resolve-Newest_example :
    Newest (resolve "shell.exec" "" two_versions) (("v10", entry "v10") ∷ ("v9", entry "v9") ∷ [])
unfolding lookup
resolve-Newest_example =
    resolve-Newest "shell.exec" two_versions ("v10", entry "v10") (("v9", entry "v9") ∷ []) refl
      (inl ((pos 10, ten), ((pos 9, nine), tt)))

abbrev no_shell : Rule
no_shell = record { permission = "shell.exec"; pattern = "*"; action = deny }

abbrev policy : RulesEvaluator
policy = record { rules = no_shell ∷ []; fallback = some evaluate_default }

abbrev shown : Value → String
shown (text s) = s
shown _ = ""
