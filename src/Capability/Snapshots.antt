-- ===== src/Capability/Snapshots.antt =====
-- pkg/harness/capability/store.go: the in-memory store of snapshots.
use harness_core.Base.{String, Bool, ◌==◌, ◌||◌, if◌then◌else◌, Option, none, some, List, filter}
use harness_core.Base.Text.{concat}
use harness_core.Base.Int.{ℤ, is_zero, ltb_ℤ}
use harness_core.Base.Dict.{Dict, lookup, insert, values}
use harness_core.Base.Sort.{sort}
use harness_core.Capability.Types.{
  Snapshot, SnapshotScope, unset, action, Outcome, found, failed, snapshot_not_found,
}

pub record MemorySnapshotStore : Type 0 where
  pub items : Dict Snapshot

abbrev pub scope_or_action : SnapshotScope → SnapshotScope
scope_or_action unset = action
scope_or_action scope = scope

-- MemorySnapshotStore.Create
unfoldable pub create : String → ℤ → Snapshot → MemorySnapshotStore → Snapshot × MemorySnapshotStore
create uuid now spec s =
    let id = if spec.snapshot_id == "" then concat "cap_" uuid else spec.snapshot_id in
    let stored : Snapshot = record spec {
      snapshot_id = id;
      scope = scope_or_action spec.scope;
      resolved_at = if is_zero spec.resolved_at then now else spec.resolved_at;
    } in
    (stored, record { items = insert id stored s.items })

abbrev pub or_missing : Option Snapshot → Outcome Snapshot
or_missing none = failed snapshot_not_found
or_missing (some item) = found item

-- MemorySnapshotStore.Get
unfoldable pub get : String → MemorySnapshotStore → Outcome Snapshot
get id s = or_missing (lookup id s.items)

abbrev pub resolved_before : Snapshot → Snapshot → Bool
resolved_before a b = ltb_ℤ a.resolved_at b.resolved_at

-- MemorySnapshotStore.List
unfoldable pub list : String → MemorySnapshotStore → List Snapshot
list session_id s =
    sort resolved_before
      (filter (λ item. (session_id == "") || (item.session_id == session_id)) (values s.items))
