-- ===== src/Tests/UnboundedTests.antt =====
-- A compaction with an input table that has no key bounds (src/compaction.rs, src/lsm/compact.rs).
use trine_kv.Prelude.{
  ℕ, ◌≡◌, refl, Bool, true, false, not, ◌&&◌, List, [], ◌∷◌, Option, none, some, All, ◌==◌, arith,
}
use trine_kv.Error.{ok}
use trine_kv.Keys.{KeyRange, included, unbounded, put}
use trine_kv.RangeTombstone.{key_is_in_range, new_index}
use trine_kv.RangeTombstone.Index.{new_index-IsSorted}
use trine_kv.Lsm.{Tombstone, Tombstone-like, inline}
use trine_kv.Lsm.Candidate.{keep_all}
use trine_kv.Lsm.Reads.{value_of}
use trine_kv.Lsm.Compact.{InputTable}
use trine_kv.Lsm.Compact.Payloads.{build_compaction_table_payloads}
use trine_kv.Lsm.Compact.Merge.{source_records, seen}
use trine_kv.Lsm.Compact.Spread.{payload_tombstones, payload_records}
use trine_kv.Lsm.Compact.Scans.{is_bounded, IsInput}
use trine_kv.Lsm.Compact.Inputs.{input_records, input_tombstones}
use trine_kv.Compaction.{CompactionTable, all_range, contains, table_has_key_bounds}
use trine_kv.Compaction.Planner.{CompactionPlan, planned, l0_overlap, plan_compaction}
use trine_kv.Compaction.Ranges.{has_record}
use trine_kv.Compaction.Unbounded.{is_input_of, unbounded_input_loses}
use trine_kv.Tests.CompactTests.{entry, table_of, options}

-- Two tables of level 0 from the key 2 to the key 4, and a table of level 1 without key bounds.
abbrev open_levels : List CompactionTable
open_levels =
    table_of 1 0 2 4
    ∷ table_of 2 0 2 4
    ∷ record (table_of 3 1 0 0) { smallest_user_key = []; largest_user_key = [] }
    ∷ []

abbrev narrow : KeyRange
narrow = record { start = included (2 ∷ []); end = included (4 ∷ []) }

abbrev open_plan : CompactionPlan
open_plan = record {
  bucket = 7 ∷ [];
  input_tables = 1 ∷ 2 ∷ 3 ∷ [];
  output_level = 1;
  oldest_active_snapshot = 6;
  key_range = narrow;
  trigger = l0_overlap;
}

open_plan_run : plan_compaction (7 ∷ []) open_levels all_range 6 options ≡ ok (planned open_plan)
unfolding plan_compaction trine_kv.Prelude.Order.compare_bytes
open_plan_run = refl

abbrev two_keys : InputTable
two_keys = record {
  smallest_user_key = 2 ∷ [];
  largest_user_key = 4 ∷ [];
  largest_sequence = 8;
  groups =
      record { user_key = 2 ∷ []; records = entry 2 7 put ∷ [] }
      ∷ record { user_key = 4 ∷ []; records = entry 4 8 put ∷ [] }
      ∷ [];
  range_tombstones = new_index [];
}

-- A deletion without an end, for which the table has no key bounds.
abbrev deletion : Tombstone
deletion = record {
  range = record { start = included (9 ∷ []); end = unbounded };
  sequence = 4;
  batch_index = 0;
}

abbrev open_table : InputTable
open_table = record {
  smallest_user_key = [];
  largest_user_key = [];
  largest_sequence = 4;
  groups =
      record { user_key = 3 ∷ []; records = entry 3 2 put ∷ [] }
      ∷ record { user_key = 6 ∷ []; records = entry 6 3 put ∷ [] }
      ∷ [];
  range_tombstones = new_index (deletion ∷ []);
}

abbrev inputs : List InputTable
inputs = two_keys ∷ open_table ∷ []

two_keys-IsInput : IsInput two_keys
unfolding trine_kv.Prelude.Order.compare_bytes
two_keys-IsInput = record {
  is_source = record { ascends = ((refl, tt), (tt, tt)); keyed = ((refl, tt), ((refl, tt), tt)) };
  within = ((omega arith, λ b. (refl, refl)), ((omega arith, λ b. (refl, refl)), tt));
  sorted = new_index-IsSorted [];
}

open_table-IsInput : IsInput open_table
unfolding trine_kv.Prelude.Order.compare_bytes
open_table-IsInput = record {
  is_source = record { ascends = ((refl, tt), (tt, tt)); keyed = ((refl, tt), ((refl, tt), tt)) };
  within = ((omega arith, λ b. cc), ((omega arith, λ b. cc), tt));
  sorted = new_index-IsSorted (deletion ∷ []);
}

of_plan : All (λ it. is_input_of open_levels (1 ∷ 2 ∷ 3 ∷ []) it ≡ true) inputs
unfolding trine_kv.Prelude.Order.compare_bytes
of_plan = (refl, (refl, tt))

six_outside : key_is_in_range (6 ∷ []) narrow ≡ false
unfolding trine_kv.Prelude.Order.compare_bytes key_is_in_range
    trine_kv.RangeTombstone.key_is_before_start trine_kv.RangeTombstone.key_is_after_end
six_outside = refl

six_found :
    value_of
      (6 ∷ [])
      8
      (input_tombstones inputs)
      (keep_all none (seen (6 ∷ []) 8 (input_records inputs)))
    ≡ ok (some (inline (3 ∷ [])))
unfolding trine_kv.Prelude.Order.compare_bytes trine_kv.Keys.compare_keys Tombstone-like
    key_is_in_range trine_kv.RangeTombstone.key_is_before_start
    trine_kv.RangeTombstone.key_is_after_end new_index trine_kv.Prelude.Sort.sort_by
    trine_kv.Lsm.Point.keep_newer_point_candidate trine_kv.Lsm.covers_visible_point
    trine_kv.Lsm.Point.point_value
six_found = refl

unbounded_input_loses_example :
    All
      (λ t.
        (t.level == 1 && not (table_has_key_bounds t)) ≡ true
        → contains (1 ∷ 2 ∷ 3 ∷ []) t.id ≡ true)
      open_levels
    × All
        (λ it. is_bounded it ≡ true → has_record (6 ∷ []) (source_records it.groups) ≡ false)
        inputs
    × ¬ (
        value_of
          (6 ∷ [])
          8
          (payload_tombstones (build_compaction_table_payloads false inputs narrow 6 64))
          (keep_all none (
            seen
              (6 ∷ [])
              8
              (payload_records (build_compaction_table_payloads false inputs narrow 6 64))))
        ≡ value_of
            (6 ∷ [])
            8
            (input_tombstones inputs)
            (keep_all none (seen (6 ∷ []) 8 (input_records inputs))))
unbounded_input_loses_example =
    unbounded_input_loses (7 ∷ []) open_levels all_range 6 options (planned open_plan) open_plan
      inputs false 64 (6 ∷ []) 8 (inline (3 ∷ [])) open_plan_run refl
      (two_keys-IsInput, (open_table-IsInput, tt)) of_plan six_outside six_found
