-- ===== src/Tests/CompactTests.antt =====
-- src/lsm/compact.rs and src/compaction.rs on concrete tables.
use trine_kv.Prelude.{
  ℕ, ◌≡◌, ◌≤◌, refl, Bool, true, false, List, [], ◌∷◌, ◌++◌, Option, none, some, All, Pairwise,
  arith, inl, any, filter, min, max, ◌*◌, ◌^◌, ◌-◌,
}
use trine_kv.Error.{ok}
use trine_kv.Keys.{
  u64_max, KeyRange, ValueKind, included, excluded, put, point_delete, compare_keys,
}
use trine_kv.RangeTombstone.{key_is_in_range, new_index}
use trine_kv.RangeTombstone.Index.{new_index-IsSorted}
use trine_kv.Lsm.{MemtableEntry, Tombstone, Tombstone-like, inline}
use trine_kv.Lsm.Candidate.{keep_all}
use trine_kv.Lsm.Reads.{value_of}
use trine_kv.Lsm.Compact.{InputTable, RecordGroup}
use trine_kv.Lsm.Compact.Payloads.{CompactionTablePayload, build_compaction_table_payloads}
use trine_kv.Lsm.Compact.Merge.{seen}
use trine_kv.Lsm.Compact.Spread.{payload_tombstones, payload_records}
use trine_kv.Lsm.Compact.Scans.{IsInput}
use trine_kv.Lsm.Compact.Ascending.{UserKeyLeq}
use trine_kv.Lsm.Compact.Inputs.{
  input_records, input_tombstones, InRange, compaction_preserves, outputs_ascend-InRange,
}
use trine_kv.Compaction.{
  CompactionOptions, CompactionTable, all_range, contains, table_has_key_bounds,
  key_range_for_inputs,
}
use trine_kv.Compaction.Inputs.{l0_inputs_with_overlap, chosen_l0_inputs}
use trine_kv.Compaction.Levels.{level_target_bytes}
use trine_kv.Compaction.Planner.{CompactionPlan, planned, l0_overlap, plan_compaction}
use trine_kv.Compaction.Closure.{IsL0Closed}
use trine_kv.Compaction.IncludedTables.{IsPlan}
use trine_kv.Compaction.Plans.{plan_compaction-IsPlan, l0_inputs-IsL0Closed}
use trine_kv.Compaction.Targets.{level_target_bytes-saturates}
use trine_kv.Compaction.Ranges.{is_described, has_record, planned_compaction_preserves}

abbrev pub entry : ℕ → ℕ → ValueKind → MemtableEntry
entry user_key sequence kind = record {
  key = record { user_key = user_key ∷ []; sequence = sequence; kind = kind; batch_index = 0 };
  value = some (inline (sequence ∷ []));
}

abbrev deletion : Tombstone
deletion = record {
  range = record { start = included (5 ∷ []); end = excluded (9 ∷ []) };
  sequence = 4;
  batch_index = 0;
}

-- Two versions of the key 2, a deletion of the key 4, and keys under the range tombstone.
abbrev newer_table : InputTable
newer_table = record {
  smallest_user_key = 2 ∷ [];
  largest_user_key = 6 ∷ [];
  largest_sequence = 8;
  groups =
      record { user_key = 2 ∷ []; records = entry 2 7 put ∷ entry 2 5 put ∷ [] }
      ∷ record { user_key = 4 ∷ []; records = entry 4 3 point_delete ∷ [] }
      ∷ record { user_key = 6 ∷ []; records = entry 6 8 put ∷ entry 6 3 put ∷ [] }
      ∷ [];
  range_tombstones = new_index (deletion ∷ []);
}

abbrev older_table : InputTable
older_table = record {
  smallest_user_key = 2 ∷ [];
  largest_user_key = 7 ∷ [];
  largest_sequence = 2;
  groups =
      record { user_key = 2 ∷ []; records = entry 2 1 put ∷ [] }
      ∷ record { user_key = 7 ∷ []; records = entry 7 2 put ∷ [] }
      ∷ [];
  range_tombstones = new_index [];
}

abbrev tables : List InputTable
tables = newer_table ∷ older_table ∷ []

abbrev range : KeyRange
range = record { start = included (2 ∷ []); end = included (7 ∷ []) }

newer-IsInput : IsInput newer_table
unfolding trine_kv.Prelude.Order.compare_bytes
newer-IsInput = record {
  is_source = record {
    ascends = ((refl, (refl, tt)), ((refl, tt), (tt, tt)));
    keyed = ((refl, (refl, tt)), ((refl, tt), ((refl, (refl, tt)), tt)));
  };
  within = (
    (omega arith, λ b. (refl, refl)),
    (
      (omega arith, λ b. (refl, refl)),
      (
        (omega arith, λ b. (refl, refl)),
        ((omega arith, λ b. (refl, refl)), ((omega arith, λ b. (refl, refl)), tt)),
      ),
    ),
  );
  sorted = new_index-IsSorted (deletion ∷ []);
}

older-IsInput : IsInput older_table
unfolding trine_kv.Prelude.Order.compare_bytes
older-IsInput = record {
  is_source = record { ascends = ((refl, tt), (tt, tt)); keyed = ((refl, tt), ((refl, tt), tt)) };
  within = ((omega arith, λ b. (refl, refl)), ((omega arith, λ b. (refl, refl)), tt));
  sorted = new_index-IsSorted [];
}

key_in_range : key_is_in_range (6 ∷ []) range ≡ true
unfolding trine_kv.Prelude.Order.compare_bytes key_is_in_range
    trine_kv.RangeTombstone.key_is_before_start trine_kv.RangeTombstone.key_is_after_end
key_in_range = refl

compaction_preserves_example :
    value_of
      (6 ∷ [])
      8
      ([] ++ payload_tombstones (build_compaction_table_payloads true tables range 6 64))
      (keep_all none (
        seen (6 ∷ []) 8 (payload_records (build_compaction_table_payloads true tables range 6 64))))
    ≡ value_of
        (6 ∷ [])
        8
        ([] ++ input_tombstones tables)
        (keep_all none (seen (6 ∷ []) 8 (input_records tables)))
compaction_preserves_example =
    compaction_preserves (6 ∷ []) 8 true tables range 6 64 none []
      (newer-IsInput, (older-IsInput, tt)) key_in_range (omega arith) (λ e h. cc) (λ h. inl refl)

outputs_ascend-InRange_example :
    Pairwise UserKeyLeq (payload_records (build_compaction_table_payloads true tables range 6 64))
    × All (InRange range) (payload_records (build_compaction_table_payloads true tables range 6 64))
outputs_ascend-InRange_example =
    outputs_ascend-InRange true tables range 6 64 (newer-IsInput, (older-IsInput, tt))

-- The newest version of the key 2 and the record of the key 6 above the floor stay.
outputs_run :
    payload_records (build_compaction_table_payloads true tables range 6 64)
    ≡ entry 2 7 put ∷ entry 2 5 put ∷ entry 6 8 put ∷ []
unfolding build_compaction_table_payloads trine_kv.Prelude.Order.compare_bytes compare_keys
    trine_kv.Prelude.Sort.sort_by Tombstone-like key_is_in_range
    trine_kv.RangeTombstone.key_is_before_start trine_kv.RangeTombstone.key_is_after_end
    trine_kv.RangeTombstone.start_can_cover_key trine_kv.RangeTombstone.overlapping_range new_index
    trine_kv.RangeTombstone.start_can_overlap_range trine_kv.RangeTombstone.range_ends_before_start
    trine_kv.Lsm.Compact.Payloads.compaction_record_bytes trine_kv.Lsm.value_ref_len
outputs_run = refl

abbrev pub table_of : ℕ → ℕ → ℕ → ℕ → CompactionTable
table_of id level smallest largest = record {
  id = id;
  level = level;
  bytes = 10;
  has_range_tombstones = false;
  smallest_user_key = smallest ∷ [];
  largest_user_key = largest ∷ [];
}

-- Level 0 overlaps one of the tables of level 1, and the other one is out of reach.
abbrev levels : List CompactionTable
levels = table_of 1 0 2 6 ∷ table_of 2 0 5 6 ∷ table_of 3 1 2 7 ∷ table_of 4 1 9 12 ∷ []

abbrev pub options : CompactionOptions
options = record { target_table_bytes = 64; level_size_multiplier = 4; local_l0_compaction = true }

abbrev plan : CompactionPlan
plan = record {
  bucket = 7 ∷ [];
  input_tables = 1 ∷ 2 ∷ 3 ∷ [];
  output_level = 1;
  oldest_active_snapshot = 6;
  key_range = range;
  trigger = l0_overlap;
}

plan_run : plan_compaction (7 ∷ []) levels all_range 6 options ≡ ok (planned plan)
unfolding plan_compaction trine_kv.Prelude.Order.compare_bytes
plan_run = refl

plan_compaction-IsPlan_example : IsPlan levels plan
plan_compaction-IsPlan_example =
    plan_compaction-IsPlan (7 ∷ []) levels all_range 6 options (planned plan) plan plan_run refl

l0_inputs-IsL0Closed_example :
    IsL0Closed levels (l0_inputs_with_overlap levels all_range options)
    × ((i : ℕ)
        → contains (chosen_l0_inputs levels all_range options) i ≡ true
        → contains (l0_inputs_with_overlap levels all_range options) i ≡ true)
l0_inputs-IsL0Closed_example = l0_inputs-IsL0Closed levels all_range options

level_target_bytes-saturates_example :
    (level_target_bytes 3 options ≡ min (max 64 1 * max 4 2 ^ (3 - 1)) u64_max)
    × (level_target_bytes 3 options ≤ level_target_bytes 9 options)
    × (1 ≤ level_target_bytes 3 options)
level_target_bytes-saturates_example =
    level_target_bytes-saturates options 3 9 (omega arith) (omega arith)

has_six :
    has_record (6 ∷ []) (input_records (filter (is_described levels plan.input_tables) tables))
    ≡ true
unfolding trine_kv.Prelude.Order.compare_bytes trine_kv.Compaction.table_has_key_bounds
has_six = refl

planned_compaction_preserves_example :
    value_of
      (6 ∷ [])
      8
      ([] ++ payload_tombstones (build_compaction_table_payloads false tables range 6 64))
      (keep_all (some (entry 6 9 put)) (
        seen
          (6 ∷ [])
          8
          (payload_records (build_compaction_table_payloads false tables range 6 64))))
    ≡ value_of
        (6 ∷ [])
        8
        ([] ++ input_tombstones tables)
        (keep_all (some (entry 6 9 put)) (seen (6 ∷ []) 8 (input_records tables)))
planned_compaction_preserves_example =
    planned_compaction_preserves (7 ∷ []) levels all_range 6 options (planned plan) plan tables
      false 64 (6 ∷ []) 8 (some (entry 6 9 put)) [] plan_run refl
      (newer-IsInput, (older-IsInput, tt)) has_six (omega arith) entry_of_six (λ f. cc)
  where
    entry_of_six : (e : MemtableEntry) → some (entry 6 9 put) ≡ some e → e.key.user_key ≡ 6 ∷ []
    entry_of_six e h = cc
