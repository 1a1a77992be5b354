-- ===== src/Snapshot.antt =====
-- src/snapshot.rs: pinned read versions against admitted compactions, and the retention predicates
-- of src/invariants.rs. A `Snapshot` handle is its read sequence; the map counts the live handles.
-- Each function is one section under the tracker's locks.
pub mod Steps
pub mod Admission
use trine_kv.Prelude.{
  ℕ, zero, suc, ◌+◌, ◌-◌, min, Bool, true, false, not, ◌&&◌, List, [], ◌∷◌, Option, none, some, leb,
  ltb, ◌==◌, if◌then◌else◌,
}
use trine_kv.Prelude.Map.{NatMap, lookup, insert, remove, first_key, last_key}
use trine_kv.Error.{
  Error, Result, ok, err, runtime_busy, read_version_too_new, read_version_expired,
}
use trine_kv.Keys.{Sequence}

pub data SnapshotReachability : Type 0 where
  reachable too_old too_new : SnapshotReachability

unfoldable pub classify_snapshot_reachability : ℕ → ℕ → ℕ → SnapshotReachability
classify_snapshot_reachability requested oldest_retained latest =
    if ltb latest requested
    then too_new
    else if ltb requested oldest_retained
    then too_old
    else reachable

unfoldable pub gc_delete_allowed : Bool → Bool → Bool
gc_delete_allowed is_pending is_reachable = is_pending && not is_reachable

pub record SnapshotTracker : Type 0 where
  pub active : NatMap ℕ
  pub compaction_floors : NatMap ℕ

abbrev pub new_tracker : SnapshotTracker
new_tracker = record { active = []; compaction_floors = [] }

abbrev pub or_default : Option ℕ → ℕ
or_default none = 0
or_default (some n) = n

abbrev pub unwrap_or : ℕ → Option ℕ → ℕ
unwrap_or d none = d
unwrap_or d (some n) = n

-- `*map.entry(k).or_default() += 1`
unfoldable pub increment : ℕ → NatMap ℕ → NatMap ℕ
increment k m = insert k (or_default (lookup k m) + 1) m

unfoldable pub pin : Sequence → SnapshotTracker → SnapshotTracker
unfolding increment
pin read_sequence t = record t { active = increment read_sequence t.active }

-- `*count -= 1`, with the entry removed at 0.
unfoldable pub unpin : Sequence → SnapshotTracker → SnapshotTracker
unpin read_sequence t = elim (lookup read_sequence t.active) [
  | none ↦ t
  | some count ↦
      if (count - 1) == 0
      then record t { active = remove read_sequence t.active }
      else record t { active = insert read_sequence (count - 1) t.active }
]

unfoldable pub oldest_active_or : Sequence → SnapshotTracker → Sequence
oldest_active_or fallback t = unwrap_or fallback (first_key t.active)

abbrev pub sum_values : NatMap ℕ → ℕ
sum_values [] = 0
sum_values ((k, n) ∷ m) = n + sum_values m

unfoldable pub active_count : SnapshotTracker → ℕ
active_count t = sum_values t.active

abbrev pub is_below : Sequence → Option Sequence → Bool
is_below read_sequence none = false
is_below read_sequence (some floor) = ltb read_sequence floor

unfoldable pub pinned_retained_snapshot :
    Sequence → Sequence → Sequence → SnapshotTracker → Result SnapshotTracker
unfolding classify_snapshot_reachability oldest_active_or pin
pinned_retained_snapshot read_sequence latest_sequence retained_floor t =
    let oldest_retained = min (oldest_active_or latest_sequence t) retained_floor in
    if is_below read_sequence (last_key t.compaction_floors)
    then err runtime_busy
    else elim (classify_snapshot_reachability read_sequence oldest_retained latest_sequence) [
      | too_new ↦ err (read_version_too_new read_sequence latest_sequence)
      | too_old ↦ err (read_version_expired read_sequence oldest_retained)
      | reachable ↦ ok (pin read_sequence t)
    ]

-- The floor, and the tracker that the guard will release it from.
unfoldable pub begin_compaction : Sequence → SnapshotTracker → Sequence × SnapshotTracker
unfolding oldest_active_or increment
begin_compaction retained_floor_without_snapshots t =
    let floor =
      min (oldest_active_or retained_floor_without_snapshots t) retained_floor_without_snapshots in
    (floor, record t { compaction_floors = increment floor t.compaction_floors })

-- `Drop for CompactionSnapshotGuard`
unfoldable pub drop_compaction_guard : Sequence → SnapshotTracker → SnapshotTracker
drop_compaction_guard floor t = elim (lookup floor t.compaction_floors) [
  | none ↦ t
  | some count ↦
      if leb count 1
      then record t { compaction_floors = remove floor t.compaction_floors }
      else record t { compaction_floors = insert floor (count - 1) t.compaction_floors }
]
