-- ===== src/Metadata.antt =====
-- `map[string]any`: the metadata that sessions, plan steps and approvals carry, and the typed
-- readers of pkg/harness/runtime/plan_identity.go and pkg/harness/execution/aggregate.go.
use harness_core.Base.{String, Bool, Option, some, [], ◌∷◌}
use harness_core.Base.Int.{ℤ, pos}
use harness_core.Base.Dict.{Dict, lookup, insert}

-- The dynamic types that the kernel reads back. A `float64` is given by the integer that `int(f)`
-- truncates it to; every other dynamic type is `opaque`.
pub data Value : Type 0 where
  text : String → Value
  int : ℤ → Value
  int32 : ℤ → Value
  int64 : ℤ → Value
  float64 : ℤ → Value
  bool : Bool → Value
  opaque : Value

abbrev pub Metadata : Type 0
Metadata = Dict Value

-- `v, _ := value.(string)`
abbrev pub text_of : Option Value → String
text_of (some (text s)) = s
text_of _ = ""

-- stringFromMetadata
unfoldable pub string_from_metadata : Metadata → String → String
string_from_metadata metadata key = text_of (lookup key metadata)

abbrev pub int_of : Option Value → ℤ
int_of (some (int n)) = n
int_of (some (int64 n)) = n
int_of (some (float64 n)) = n
int_of _ = pos 0

-- intFromMetadata
unfoldable pub int_from_metadata : Metadata → String → ℤ
int_from_metadata metadata key = int_of (lookup key metadata)

-- mergeMaps
unfoldable pub merge_maps : Metadata → Metadata → Metadata
merge_maps base [] = base
merge_maps base ((key, value) ∷ extra) = insert key value (merge_maps base extra)
