-- ===== src/Lsm/Conflict.antt =====
-- src/lsm/conflict.rs: whether a key or a range has been modified after a read. The captured sources
-- are those of a point read; the records that a table has for a key or in a range are arguments.
pub mod Memory
pub mod Tables
pub mod Tombstones
pub mod Exact
pub mod Stable
use trine_kv.Prelude.{
  ℕ, Bool, true, false, not, ◌&&◌, ◌||◌, List, [], ◌∷◌, ◌++◌, Option, none, some, any, filter, ltb,
  ◌==◌, if◌then◌else◌,
}
use trine_kv.Keys.{Bytes, Sequence, KeyRange}
use trine_kv.RangeTombstone.{
  RangeTombstoneIndex, new_index, covering_key, overlapping_range, key_is_in_range,
}
use trine_kv.Lsm.{MemtableEntry, Memtable, Tombstone, Tombstone-like, ImmutableMemtable}
use trine_kv.Lsm.Point.{
  InMemoryDelta, Table, Level, LsmPointReadSnapshot, entries_of_key, key_bounds_may_contain_key,
  may_contain_key, table_for_key, memory_tombstones,
}
use trine_kv.Lsm.Compact.{sort_records}

unfoldable pub collect_memtable_point_records : Memtable → Bytes → List MemtableEntry
unfolding entries_of_key
collect_memtable_point_records memtable key = entries_of_key key memtable.entries

unfoldable pub collect_memtable_range_records : Memtable → KeyRange → List MemtableEntry
collect_memtable_range_records memtable range =
    filter (λ e. key_is_in_range e.key.user_key range) memtable.entries

abbrev pub admits : Bytes → Table → Bool
admits key t = if not (key_bounds_may_contain_key t key) then false else may_contain_key t key

abbrev pub found_table : Bytes → Option Table → List Table
found_table key none = []
found_table key (some t) = if may_contain_key t key then t ∷ [] else []

unfoldable pub point_lookup_tables : List Level → Bytes → List Table
unfolding may_contain_key table_for_key
point_lookup_tables [] key = []
point_lookup_tables (l ∷ ls) key =
    (if l.level == 0 then filter (admits key) l.tables else found_table key (table_for_key l key))
    ++ point_lookup_tables ls key

abbrev pub table_handles : List Level → List Table
table_handles [] = []
table_handles (l ∷ ls) = l.tables ++ table_handles ls

unfoldable pub conflict_memtable_range_tombstones :
    LsmPointReadSnapshot → RangeTombstoneIndex Tombstone
unfolding new_index
conflict_memtable_range_tombstones s = new_index (memory_tombstones s)

abbrev pub is_newer : Sequence → Tombstone → Bool
is_newer read_sequence t = ltb read_sequence t.sequence

unfoldable pub range_tombstone_modified_after_key : LsmPointReadSnapshot → Bytes → Sequence → Bool
unfolding conflict_memtable_range_tombstones covering_key
range_tombstone_modified_after_key s key read_sequence =
    any (is_newer read_sequence) (covering_key (conflict_memtable_range_tombstones s) key)
    || any (λ t. any (is_newer read_sequence) (covering_key t.range_tombstones key))
        (table_handles s.levels)

unfoldable pub range_tombstone_modified_after_range :
    LsmPointReadSnapshot → KeyRange → Sequence → Bool
unfolding conflict_memtable_range_tombstones overlapping_range
range_tombstone_modified_after_range s range read_sequence =
    any (is_newer read_sequence) (overlapping_range (conflict_memtable_range_tombstones s) range)
    || any (λ t. any (is_newer read_sequence) (overlapping_range t.range_tombstones range))
        (table_handles s.levels)

-- The records that `collect` takes from each of the sources.
abbrev pub of_deltas : (Memtable → List MemtableEntry) → List InMemoryDelta → List MemtableEntry
of_deltas collect [] = []
of_deltas collect (d ∷ ds) = collect d.memtable ++ of_deltas collect ds

abbrev pub of_immutables :
    (Memtable → List MemtableEntry) → List ImmutableMemtable → List MemtableEntry
of_immutables collect [] = []
of_immutables collect (m ∷ ms) = collect m.memtable ++ of_immutables collect ms

abbrev pub of_tables : (Table → List MemtableEntry) → List Table → List MemtableEntry
of_tables collect [] = []
of_tables collect (t ∷ ts) = collect t ++ of_tables collect ts

abbrev pub of_memory : (Memtable → List MemtableEntry) → LsmPointReadSnapshot → List MemtableEntry
of_memory collect s =
    (collect s.active_memtable ++ of_deltas collect s.deltas)
    ++ of_immutables collect s.immutable_memtables

module _ (records_for_key : Table → Bytes → List MemtableEntry)
    (records_in_range : Table → KeyRange → List MemtableEntry) where
  unfoldable pub collect_point_key_records : LsmPointReadSnapshot → Bytes → List MemtableEntry
  unfolding collect_memtable_point_records point_lookup_tables
  collect_point_key_records s key = sort_records (
      of_memory (λ m. collect_memtable_point_records m key) s
      ++ of_tables (λ t. records_for_key t key) (point_lookup_tables s.levels key))

  unfoldable pub collect_range_point_records : LsmPointReadSnapshot → KeyRange → List MemtableEntry
  unfolding collect_memtable_range_records
  collect_range_point_records s range = sort_records (
      of_memory (λ m. collect_memtable_range_records m range) s
      ++ of_tables (λ t. records_in_range t range) (table_handles s.levels))

  unfoldable pub point_key_modified_after_in_snapshot :
      LsmPointReadSnapshot → Bytes → Sequence → Bool
  unfolding collect_point_key_records range_tombstone_modified_after_key
  point_key_modified_after_in_snapshot s key read_sequence =
      if any (λ e. ltb read_sequence e.key.sequence) (collect_point_key_records s key)
      then true
      else range_tombstone_modified_after_key s key read_sequence

  unfoldable pub key_range_modified_after_in_snapshot :
      LsmPointReadSnapshot → KeyRange → Sequence → Bool
  unfolding collect_range_point_records range_tombstone_modified_after_range
  key_range_modified_after_in_snapshot s range read_sequence =
      if any (λ e. ltb read_sequence e.key.sequence) (collect_range_point_records s range)
      then true
      else range_tombstone_modified_after_range s range read_sequence
