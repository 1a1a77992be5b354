-- ===== src/Tests/LsmTests.antt =====
-- Memtables, deltas and tables (src/lsm, src/memtable.rs, src/table).
use trine_kv.Prelude.{
  ℕ, ◌≤◌, ◌≡◌, refl, Bool, true, false, not, ◌||◌, List, [], ◌∷◌, ◌++◌, Option, none, some, All,
  any, all, filter, arith,
}
use trine_kv.Keys.{Bytes, included, unbounded, half_open, put, compare_keys}
use trine_kv.RangeTombstone.{new_index, key_is_in_range}
use trine_kv.Lsm.{inline, MemtableEntry, Memtable, Tombstone, Tombstone-like}
use trine_kv.Lsm.Point.{
  Table, LsmPointReadSnapshot, newest_visible_memtable_point_candidate_in_snapshot,
  key_bounds_may_contain_key, may_contain_key,
}
use trine_kv.Lsm.Candidate.{is_seen, keep_all, newest, KeyLeq}
use trine_kv.Lsm.Memtables.{IsMemtable}
use trine_kv.Lsm.Deltas.{IsMemorySnapshot, memory_entries, memory_candidate_lem}
use trine_kv.Prelude.{Pairwise}
use trine_kv.Lsm.Point.{
  memory_tombstones, for_each_point_lookup_table, read_visible_point_value_in_snapshot,
}
use trine_kv.Lsm.Probes.{IsTable}
use trine_kv.Lsm.Tables.{level_entries, levels_candidate_lem}
use trine_kv.Lsm.Cover.{HoldsTombstones, level_tombstones}
use trine_kv.Error.{ok}
use trine_kv.Lsm.Reads.{value_of, IsSnapshot, read_visible_lem}
use trine_kv.Lsm.TableBounds.{table_key_bounds, finite_bound_bytes}
use trine_kv.Lsm.TableBounds.Updates.{is_finite, concerns}
use trine_kv.Lsm.TableBounds.Pruning.{IsBuilt, finite_bounds_keep, half_infinite_hides}

abbrev entry : Bytes → ℕ → ℕ → MemtableEntry
entry user_key sequence batch_index = record {
  key = record { user_key = user_key; sequence = sequence; kind = put; batch_index = batch_index };
  value = some (inline (sequence ∷ []));
}

abbrev active : Memtable
active = record {
  entries = entry (1 ∷ []) 9 0 ∷ entry (1 ∷ []) 4 0 ∷ entry (2 ∷ []) 8 1 ∷ [];
  estimated_bytes = 54;
}

active-IsMemtable : IsMemtable active
unfolding compare_keys trine_kv.Prelude.Order.compare_bytes
active-IsMemtable = record {
  ascends = ((refl, (refl, tt)), ((refl, tt), (tt, tt)));
  in_range =
      ((omega arith, omega arith), ((omega arith, omega arith), ((omega arith, omega arith), tt)));
  counted = λ e. absurd (omega (arith, e));
}

abbrev older : Memtable
older = record { entries = entry (1 ∷ []) 2 0 ∷ []; estimated_bytes = 18 }

older-IsMemtable : IsMemtable older
older-IsMemtable = record {
  ascends = (tt, tt);
  in_range = ((omega arith, omega arith), tt);
  counted = λ e. absurd (omega (arith, e));
}

abbrev snapshot : LsmPointReadSnapshot
snapshot = record {
  levels = [];
  deltas =
      record { memtable = older; range_tombstones = []; estimated_bytes = 18; sequence = 2 } ∷ [];
  active_memtable = active;
  active_range_tombstones = [];
  immutable_memtables = [];
}

snapshot_ok : IsMemorySnapshot snapshot
snapshot_ok = record {
  active_ok = active-IsMemtable;
  immutables_ok = tt;
  deltas_ok = (
    older-IsMemtable,
    (
      (
        omega arith,
        (
          λ u s. absurd (omega (arith, s)),
          (λ u s. absurd (omega (arith, s)), (λ u s. absurd (omega (arith, s)), tt)),
        ),
      ),
      tt,
    ),
    tt,
  );
}

memory_candidate_lem_example :
    newest_visible_memtable_point_candidate_in_snapshot snapshot (1 ∷ []) 7
    ≡ newest (1 ∷ []) 7 (memory_entries snapshot)
memory_candidate_lem_example = memory_candidate_lem snapshot (1 ∷ []) 7 snapshot_ok

-- Two written tables, with a finite and with a half-infinite tombstone.
abbrev written : Bytes → Bytes → Table
written smallest largest = record {
  data_block_count = 1;
  smallest_user_key = smallest;
  largest_user_key = largest;
  largest_sequence = 9;
  may_have_range_tombstones = true;
  point_key_filter = none;
  range_tombstones = record { tombstones = [] };
  newest_visible_point_value_record_for_key = λ key read. none;
}

abbrev pub finite_deletion : Tombstone
finite_deletion = record { range = half_open (3 ∷ []) (6 ∷ []); sequence = 9; batch_index = 1 }

abbrev open_deletion : Tombstone
open_deletion = record {
  range = record { start = included (3 ∷ []); end = unbounded };
  sequence = 9;
  batch_index = 1;
}

finite-IsBuilt : IsBuilt (written (1 ∷ []) (6 ∷ [])) active.entries (finite_deletion ∷ [])
unfolding table_key_bounds trine_kv.Prelude.Order.compare_bytes
finite-IsBuilt = record { smallest_ok = refl; largest_ok = refl; blocks = refl; flag = refl }

open-IsBuilt : IsBuilt (written [] []) active.entries (open_deletion ∷ [])
unfolding table_key_bounds
open-IsBuilt = record { smallest_ok = refl; largest_ok = refl; blocks = refl; flag = refl }

finite : all is_finite (finite_deletion ∷ []) ≡ true
unfolding finite_bound_bytes
finite = refl

covered : concerns (5 ∷ []) active.entries (finite_deletion ∷ []) ≡ true
unfolding key_is_in_range trine_kv.Prelude.Order.compare_bytes
    trine_kv.RangeTombstone.key_is_before_start trine_kv.RangeTombstone.key_is_after_end
covered = refl

not_finite : all is_finite (open_deletion ∷ []) ≡ false
unfolding finite_bound_bytes
not_finite = refl

finite_bounds_keep_example : key_bounds_may_contain_key (written (1 ∷ []) (6 ∷ [])) (5 ∷ []) ≡ true
finite_bounds_keep_example =
    finite_bounds_keep (written (1 ∷ []) (6 ∷ [])) active.entries (finite_deletion ∷ []) (5 ∷ [])
      finite-IsBuilt active-IsMemtable.ascends finite covered

half_infinite_hides_example :
    (key_bounds_may_contain_key (written [] []) (1 ∷ []) ≡ false)
    × (may_contain_key (written [] []) (1 ∷ []) ≡ false)
half_infinite_hides_example =
    half_infinite_hides (written [] []) (entry (1 ∷ []) 9 0)
      (entry (1 ∷ []) 4 0 ∷ entry (2 ∷ []) 8 1 ∷ []) (open_deletion ∷ []) 1 [] open-IsBuilt
      not_finite

-- A snapshot with one table in level 1, whose tombstone is newer than its record of the key 5.
abbrev pub table_points : List MemtableEntry
table_points = entry (1 ∷ []) 1 0 ∷ entry (5 ∷ []) 4 0 ∷ []

abbrev stored : Table
stored = record {
  data_block_count = 1;
  smallest_user_key = 1 ∷ [];
  largest_user_key = 6 ∷ [];
  largest_sequence = 9;
  may_have_range_tombstones = true;
  point_key_filter = none;
  range_tombstones = new_index (finite_deletion ∷ []);
  newest_visible_point_value_record_for_key = λ key read. newest key read table_points;
}

abbrev pub full : LsmPointReadSnapshot
full = record snapshot { levels = record { level = 1; tables = stored ∷ [] } ∷ [] }

stored-IsBuilt : IsBuilt stored table_points (finite_deletion ∷ [])
unfolding table_key_bounds trine_kv.Prelude.Order.compare_bytes
stored-IsBuilt = record { smallest_ok = refl; largest_ok = refl; blocks = refl; flag = refl }

points_ascend : Pairwise KeyLeq table_points
unfolding compare_keys trine_kv.Prelude.Order.compare_bytes
points_ascend = ((refl, tt), (tt, tt))

stored-IsTable : IsTable stored table_points
unfolding may_contain_key trine_kv.Prelude.Order.compare_bytes
stored-IsTable = record {
  finds_newest = λ key read. refl;
  bounded = (omega arith, (omega arith, tt));
  admitted = (refl, (refl, tt));
}

stored-HoldsTombstones : HoldsTombstones stored (finite_deletion ∷ [])
stored-HoldsTombstones = record {
  indexed = refl;
  flagged = refl;
  in_bounds = λ key h.
      finite_bounds_keep stored table_points (finite_deletion ∷ []) key stored-IsBuilt points_ascend
        finite (ground (arith, h));
}

pub full-IsSnapshot : IsSnapshot (λ t. table_points) (λ t. finite_deletion ∷ []) full
full-IsSnapshot = record {
  memory = record {
    active_ok = snapshot_ok.active_ok;
    immutables_ok = snapshot_ok.immutables_ok;
    deltas_ok = snapshot_ok.deltas_ok;
  };
  levels_ok = (((stored-IsTable, tt), λ above. (tt, tt)), tt);
  tombstones_ok = ((stored-HoldsTombstones, tt), tt);
}

read_visible_lem_example :
    read_visible_point_value_in_snapshot full (5 ∷ []) 12
    ≡ value_of
        (5 ∷ [])
        12
        (memory_tombstones full ++ level_tombstones (λ t. finite_deletion ∷ []) full.levels)
        (newest (5 ∷ []) 12 (memory_entries full ++ level_entries (λ t. table_points) full.levels))
read_visible_lem_example =
    read_visible_lem (λ t. table_points) (λ t. finite_deletion ∷ []) full (5 ∷ []) 12
      full-IsSnapshot

levels_candidate_lem_example :
    for_each_point_lookup_table (5 ∷ []) 12 none full.levels
    ≡ keep_all none (filter (is_seen (5 ∷ []) 12) (level_entries (λ t. table_points) full.levels))
levels_candidate_lem_example =
    levels_candidate_lem (λ t. table_points) (5 ∷ []) 12 full.levels none full-IsSnapshot.levels_ok
      (λ e h. cc)

-- The key 5 is covered, the key 1 is read from memory.
covered_read : read_visible_point_value_in_snapshot full (5 ∷ []) 12 ≡ ok none
unfolding read_visible_point_value_in_snapshot trine_kv.Prelude.Order.compare_bytes
    trine_kv.Prelude.Sort.sort_by trine_kv.RangeTombstone.start_can_cover_key Tombstone-like
    trine_kv.RangeTombstone.key_is_before_start trine_kv.RangeTombstone.key_is_after_end
covered_read = refl

memory_read : read_visible_point_value_in_snapshot full (1 ∷ []) 7 ≡ ok (some (inline (4 ∷ [])))
unfolding read_visible_point_value_in_snapshot trine_kv.Prelude.Order.compare_bytes compare_keys
    trine_kv.Prelude.Sort.sort_by trine_kv.RangeTombstone.start_can_cover_key Tombstone-like
memory_read = refl
