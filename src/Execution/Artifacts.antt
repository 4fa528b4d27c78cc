-- ===== src/Execution/Artifacts.antt =====
-- pkg/harness/execution/types.go and stores.go: artifacts and their in-memory store. The clock's
-- reading and the new identifier are arguments; the mutex makes each method one step.
use harness_core.Base.{String, Bool, List, ◌==◌, if◌then◌else◌}
use harness_core.Base.Int.{ℤ, is_zero, ltb_ℤ}
use harness_core.Base.Dict.{Dict, insert}
use harness_core.Base.Result.{Result, ok, ◌>>=◌}
use harness_core.Metadata.{Metadata}
use harness_core.Execution.Items.{get_item, list_items, replace_item}

pub record Artifact : Type 0 where
  pub artifact_id : String
  pub session_id : String
  pub task_id : String
  pub step_id : String
  pub attempt_id : String
  pub action_id : String
  pub verification_id : String
  pub cycle_id : String
  pub trace_id : String
  pub name : String
  pub kind : String
  pub payload : Metadata
  pub metadata : Metadata
  pub created_at : ℤ

pub record MemoryArtifactStore : Type 0 where
  pub items : Dict Artifact

unfoldable pub create : String → ℤ → Artifact → MemoryArtifactStore → Artifact × MemoryArtifactStore
create fresh_id now spec s =
    let item : Artifact = record spec {
      artifact_id = if spec.artifact_id == "" then fresh_id else spec.artifact_id;
      created_at = if is_zero spec.created_at then now else spec.created_at;
    } in
    (item, record { items = insert item.artifact_id item s.items })

unfoldable pub get : String → MemoryArtifactStore → Result Artifact
get id s = get_item id s.items

unfoldable pub update : Artifact → MemoryArtifactStore → Result MemoryArtifactStore
update next s = do
  items ← replace_item (λ (r : Artifact). r.artifact_id) next s.items
  ok (record { items = items })

-- The comparison of `List`'s sort, which is not stable: artifacts created together come in any
-- order, here the one in which the map holds them.
abbrev pub created_before : Artifact → Artifact → Bool
created_before a b = ltb_ℤ a.created_at b.created_at

unfoldable pub list : String → MemoryArtifactStore → List Artifact
list session_id s = list_items (λ (r : Artifact). r.session_id) created_before session_id s.items
