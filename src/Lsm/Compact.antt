-- ===== src/Lsm/Compact.antt =====
-- src/lsm/compact.rs: what a compaction of tables writes. A table's cursor is the list of its record
-- groups, one for each user key; reading a block does not fail here.
pub mod Sources
pub mod Payloads
pub mod Versions
pub mod Deletions
pub mod Hidden
pub mod Groups
pub mod Merge
pub mod Rounds
pub mod Merged
pub mod Spread
pub mod Outputs
pub mod Written
pub mod Tables
pub mod Chunks
pub mod Ascending
pub mod Scans
pub mod Skip
pub mod Remains
pub mod Preserved
pub mod Inputs
use Prim.Native.Nat.Ordering.{lt, eq, gt}
use trine_kv.Prelude.{
  ℕ, zero, suc, ◌+◌, Ordering, Bool, true, false, not, ◌&&◌, ◌||◌, List, [], ◌∷◌, ◌++◌, Option,
  none, some, any, filter, take, length, partition_point, ltb, leb, if◌then◌else◌,
}
use trine_kv.Prelude.Sort.{sort_by}
use trine_kv.Keys.{
  Bytes, Sequence, u64_max, KeyRange, ValueKind, put, point_delete, range_delete, compare_keys,
}
use trine_kv.RangeTombstone.{
  RangeTombstoneIndex, bytes_lt, key_is_in_range, ranges_overlap, range_intersection,
  range_from_inclusive_span, overlapping_range, sort_tombstones,
}
use trine_kv.Lsm.{
  MemtableEntry, Tombstone, Tombstone-like, optional_len, saturating_add, range_tombstone_bytes,
}
use trine_kv.Lsm.Point.{last?}
use trine_kv.Lsm.Candidate.{bytes_eq}

-- The records of one user key, as a cursor hands them out.
pub record RecordGroup : Type 0 where
  pub user_key : Bytes
  pub records : List MemtableEntry

pub record InputTable : Type 0 where
  pub smallest_user_key : Bytes
  pub largest_user_key : Bytes
  pub largest_sequence : Sequence
  pub groups : List RecordGroup
  pub range_tombstones : RangeTombstoneIndex Tombstone

abbrev pub compare_records : MemtableEntry → MemtableEntry → Ordering
compare_records left right = compare_keys left.key right.key

abbrev pub sort_records : List MemtableEntry → List MemtableEntry
sort_records records = sort_by compare_records records

-- The loop over the sorted records, with the current user key and whether its newest record at or
-- below the oldest snapshot has been kept.
abbrev pub is_current : Option Bytes → Bytes → Bool
is_current none key = false
is_current (some current) key = bytes_eq current key

unfoldable pub compact_loop :
    Sequence → Option Bytes → Bool → List MemtableEntry → List MemtableEntry
compact_loop oldest current kept [] = []
compact_loop oldest current kept (e ∷ es) =
    let kept_here = is_current current e.key.user_key && kept in
    let is_newer = ltb oldest e.key.sequence in
    let rest =
      compact_loop oldest (some e.key.user_key) (if is_newer then kept_here else true) es in
    if is_newer || not kept_here then e ∷ rest else rest

unfoldable pub compact_point_records : Sequence → List MemtableEntry → List MemtableEntry
unfolding compact_loop sort_by compare_keys
compact_point_records oldest records = compact_loop oldest none false (sort_records records)

-- The records behind a tombstone in its group.
abbrev pub group_rest : MemtableEntry → List MemtableEntry → List MemtableEntry
group_rest e es = take (partition_point (λ x. bytes_eq x.key.user_key e.key.user_key) es) es

unfoldable pub has_older_point_record : MemtableEntry → List MemtableEntry → Bool
has_older_point_record e rest = any (λ x. leb x.key.sequence e.key.sequence) rest

abbrev pub is_point_delete : ValueKind → Bool
is_point_delete put = false
is_point_delete point_delete = true
is_point_delete range_delete = false

abbrev pub is_put : ValueKind → Bool
is_put put = true
is_put point_delete = false
is_put range_delete = false

-- Both loops: a group ends where the user key changes.
unfoldable pub cleanup_point_tombstones : List MemtableEntry → List MemtableEntry
unfolding has_older_point_record
cleanup_point_tombstones [] = []
cleanup_point_tombstones (e ∷ es) =
    let rest = cleanup_point_tombstones es in
    if is_point_delete e.key.kind && not (has_older_point_record e (group_rest e es))
    then rest
    else e ∷ rest

unfoldable pub compact_point_record_group :
    Sequence → Bool → List MemtableEntry → List MemtableEntry
unfolding compact_point_records cleanup_point_tombstones
compact_point_record_group oldest full records =
    if full
    then cleanup_point_tombstones (compact_point_records oldest records)
    else compact_point_records oldest records

-- Whether a retention-safe tombstone hides a record.
abbrev pub drops : Sequence → MemtableEntry → Tombstone → Bool
drops oldest e t =
    leb t.sequence oldest
    && (ltb e.key.sequence t.sequence && key_is_in_range e.key.user_key t.range)

unfoldable pub drop_records_covered_by_droppable_tombstone :
    Sequence → List Tombstone → List MemtableEntry → List MemtableEntry
drop_records_covered_by_droppable_tombstone oldest [] records = records
drop_records_covered_by_droppable_tombstone oldest (t ∷ ts) records =
    filter (λ e. not (any (drops oldest e) (t ∷ ts))) records

unfoldable pub table_fully_covered_by_droppable_tombstone :
    Sequence → List Tombstone → InputTable → Bool
table_fully_covered_by_droppable_tombstone oldest tombstones table =
    if leb (length table.smallest_user_key) 0 && leb (length table.largest_user_key) 0
    then false
    else any
        (λ t.
          leb t.sequence oldest
          && (ltb table.largest_sequence t.sequence
              && (key_is_in_range table.smallest_user_key t.range
                  && key_is_in_range table.largest_user_key t.range)))
        tombstones

-- A record that a tombstone of full compactions still has to cover.
abbrev pub still_covers : MemtableEntry → Tombstone → Bool
still_covers e t =
    is_put e.key.kind && (leb e.key.sequence t.sequence && key_is_in_range e.key.user_key t.range)

abbrev pub mark_one : MemtableEntry → List Tombstone → List Bool → List Bool
mark_one e [] marks = marks
mark_one e (t ∷ ts) [] = []
mark_one e (t ∷ ts) (m ∷ ms) = (still_covers e t || m) ∷ mark_one e ts ms

unfoldable pub mark_tombstones_covering_records :
    List Tombstone → List Bool → List MemtableEntry → List Bool
mark_tombstones_covering_records tombstones marks [] = marks
mark_tombstones_covering_records tombstones marks (e ∷ es) =
    mark_tombstones_covering_records tombstones (mark_one e tombstones marks) es

-- `zip` and `filter_map`
abbrev pub marked : List Tombstone → List Bool → List Tombstone
marked [] marks = []
marked (t ∷ ts) [] = []
marked (t ∷ ts) (m ∷ ms) = if m then t ∷ marked ts ms else marked ts ms

unfoldable pub cleanup_range_tombstones_by_coverage :
    List Tombstone → List Bool → Bool → List Tombstone
cleanup_range_tombstones_by_coverage tombstones marks full =
    if full then marked tombstones marks else tombstones

abbrev pub overlapping_tombstones : KeyRange → List InputTable → List Tombstone
overlapping_tombstones range [] = []
overlapping_tombstones range (t ∷ ts) =
    overlapping_range t.range_tombstones range ++ overlapping_tombstones range ts

unfoldable pub collect_compaction_range_tombstones : KeyRange → List InputTable → List Tombstone
unfolding overlapping_range sort_tombstones
collect_compaction_range_tombstones range tables =
    sort_tombstones (overlapping_tombstones range tables)
