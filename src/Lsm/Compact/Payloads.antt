-- ===== src/Lsm/Compact/Payloads.antt =====
-- src/lsm/compact.rs: the chunks of the merged records, and the tables that come out.
use trine_kv.Prelude.{
  ℕ, ◌+◌, Bool, true, false, not, ◌&&◌, List, [], ◌∷◌, ◌++◌, Option, none, some, filter, length,
  ltb, max, if◌then◌else◌,
}
use trine_kv.Keys.{Sequence, u64_max, KeyRange}
use trine_kv.RangeTombstone.{
  key_is_in_range, ranges_overlap, range_intersection, range_from_inclusive_span,
}
use trine_kv.Lsm.{MemtableEntry, Tombstone, optional_len, saturating_add, range_tombstone_bytes}
use trine_kv.Lsm.Point.{last?}
use trine_kv.Lsm.Compact.{
  RecordGroup, InputTable, compact_point_record_group, drop_records_covered_by_droppable_tombstone,
  table_fully_covered_by_droppable_tombstone, mark_tombstones_covering_records,
  cleanup_range_tombstones_by_coverage, collect_compaction_range_tombstones,
}
use trine_kv.Lsm.Compact.Sources.{Source, merge_groups, group_count}

pub record CompactionChunk : Type 0 where
  pub point_records : List MemtableEntry
  pub estimated_bytes : ℕ

abbrev pub empty_chunk : CompactionChunk
empty_chunk = record { point_records = []; estimated_bytes = 0 }

unfoldable pub compaction_record_bytes : MemtableEntry → ℕ
unfolding saturating_add
compaction_record_bytes e =
    saturating_add (saturating_add (length e.key.user_key) (optional_len e.value)) 32

-- The sum is not checked; it stays below `2 ^ 64` for records that a machine holds.
abbrev pub records_bytes : List MemtableEntry → ℕ
records_bytes [] = 0
records_bytes (e ∷ es) = compaction_record_bytes e + records_bytes es

abbrev pub is_empty_list {ℓ} : {A : Type ℓ} → List A → Bool
is_empty_list [] = true
is_empty_list (x ∷ xs) = false

-- The chunks that are finished, and the current one.
abbrev pub Chunks : Type 0
Chunks = List CompactionChunk × CompactionChunk

unfoldable pub push_compaction_records_to_chunks : ℕ → Chunks → List MemtableEntry → Chunks
unfolding saturating_add
push_compaction_records_to_chunks target (chunks, current) records =
    if not (is_empty_list current.point_records)
      && ltb target (saturating_add current.estimated_bytes (records_bytes records))
    then (
      chunks ++ (current ∷ []),
      record {
        point_records = records;
        estimated_bytes = saturating_add 0 (records_bytes records);
      },
    )
    else (
      chunks,
      record {
        point_records = current.point_records ++ records;
        estimated_bytes = saturating_add current.estimated_bytes (records_bytes records);
      },
    )

unfoldable pub chunk_range : List MemtableEntry → Option KeyRange
chunk_range [] = none
chunk_range (e ∷ es) = some (range_from_inclusive_span e.key.user_key (last? e es).key.user_key)

abbrev pub with_range : Tombstone → Option KeyRange → Option Tombstone
with_range t none = none
with_range t (some range) = some (record t { range = range })

unfoldable pub tombstone_for_output_span : Bool → KeyRange → Tombstone → Option Tombstone
unfolding range_intersection ranges_overlap
tombstone_for_output_span full span t =
    if full
    then with_range t (range_intersection t.range span)
    else if ranges_overlap t.range span
    then some t
    else none

pub record CompactionTablePayload : Type 0 where
  pub point_records : List MemtableEntry
  pub range_tombstones : List Tombstone

abbrev pub give : Option Tombstone → Bool → List Tombstone × List Bool → List Tombstone × List Bool
give none m (given, marks) = (given, m ∷ marks)
give (some out) m (given, marks) = (out ∷ given, true ∷ marks)

-- What the tombstones give for a span, and which of them have been assigned now.
abbrev pub assign : Bool → KeyRange → List Tombstone → List Bool → List Tombstone × List Bool
assign full span [] marks = ([], marks)
assign full span (t ∷ ts) [] = ([], [])
assign full span (t ∷ ts) (m ∷ ms) =
    give (tombstone_for_output_span full span t) m (assign full span ts ms)

unfoldable pub chunk_payloads :
    Bool
    → List Tombstone
    → List CompactionChunk
    → List Bool
    → List CompactionTablePayload × List Bool
unfolding tombstone_for_output_span chunk_range
chunk_payloads full tombstones [] assigned = ([], assigned)
chunk_payloads full tombstones (c ∷ cs) assigned = elim (chunk_range c.point_records) [
  | none ↦ chunk_payloads full tombstones cs assigned
  | some span ↦
      let (given, now) = assign full span tombstones assigned in
      let (payloads, finally) = chunk_payloads full tombstones cs now in
      (record { point_records = c.point_records; range_tombstones = given } ∷ payloads, finally)
]

abbrev pub unassigned : List Tombstone → List Bool → List Tombstone
unassigned [] assigned = []
unassigned (t ∷ ts) [] = t ∷ ts
unassigned (t ∷ ts) (a ∷ rest) = if a then unassigned ts rest else t ∷ unassigned ts rest

abbrev tombstones_only : List Tombstone → CompactionTablePayload
tombstones_only tombstones = record { point_records = []; range_tombstones = tombstones }

-- The loop over the tombstones that no chunk has taken, with the table that it is filling.
unfoldable pub tombstone_only_payloads :
    ℕ → List Tombstone → ℕ → List Tombstone → List CompactionTablePayload
unfolding range_tombstone_bytes saturating_add
tombstone_only_payloads target pending bytes [] =
    if is_empty_list pending then [] else tombstones_only pending ∷ []
tombstone_only_payloads target pending bytes (t ∷ ts) =
    let size = range_tombstone_bytes t.range in
    let flush = not (is_empty_list pending) && ltb target (saturating_add bytes size) in
    let rest =
      tombstone_only_payloads target (if flush then t ∷ [] else pending ++ t ∷ [])
        (saturating_add (if flush then 0 else bytes) size) ts in
    if flush then tombstones_only pending ∷ rest else rest

abbrev pub none_assigned : List Tombstone → List Bool
none_assigned [] = []
none_assigned (t ∷ ts) = false ∷ none_assigned ts

unfoldable pub compaction_payloads_from_chunks :
    Bool → ℕ → List Tombstone → List CompactionChunk → List CompactionTablePayload
unfolding chunk_payloads tombstone_only_payloads
compaction_payloads_from_chunks full target tombstones chunks =
    let (payloads, assigned) = chunk_payloads full tombstones chunks (none_assigned tombstones) in
    payloads ++ tombstone_only_payloads target [] 0 (unassigned tombstones assigned)

-- What the loop over the groups carries: the marks of the tombstones, and the chunks.
pub record CompactionLoop : Type 0 where
  pub tombstone_has_remaining_put : List Bool
  pub chunks : Chunks

abbrev pub compacted_group : Sequence → Bool → List Tombstone → RecordGroup → List MemtableEntry
compacted_group oldest full tombstones g =
    drop_records_covered_by_droppable_tombstone oldest tombstones
      (compact_point_record_group oldest full g.records)

-- A group without records that stay is passed over.
unfoldable pub push_group :
    ℕ → List Tombstone → CompactionLoop → List MemtableEntry → CompactionLoop
unfolding mark_tombstones_covering_records push_compaction_records_to_chunks
push_group target tombstones s [] = s
push_group target tombstones s (e ∷ es) = record {
  tombstone_has_remaining_put =
      mark_tombstones_covering_records tombstones s.tombstone_has_remaining_put (e ∷ es);
  chunks = push_compaction_records_to_chunks target s.chunks (e ∷ es);
}

unfoldable pub compact_groups :
    Sequence → Bool → ℕ → List Tombstone → CompactionLoop → List RecordGroup → CompactionLoop
unfolding push_group drop_records_covered_by_droppable_tombstone compact_point_record_group
compact_groups oldest full target tombstones s [] = s
compact_groups oldest full target tombstones s (g ∷ gs) =
    compact_groups oldest full target tombstones
      (push_group target tombstones s (compacted_group oldest full tombstones g)) gs

-- A cursor over a range hands out the groups of the keys in it.
abbrev pub scan : KeyRange → InputTable → Source
scan range t = filter (λ g. key_is_in_range g.user_key range) t.groups

abbrev pub open_sources : Sequence → KeyRange → List Tombstone → List InputTable → List Source
open_sources oldest range tombstones [] = []
open_sources oldest range tombstones (t ∷ ts) =
    if table_fully_covered_by_droppable_tombstone oldest tombstones t
    then open_sources oldest range tombstones ts
    else scan range t ∷ open_sources oldest range tombstones ts

abbrev pub all_chunks : Chunks → List CompactionChunk
all_chunks (chunks, current) =
    if is_empty_list current.point_records then chunks else chunks ++ (current ∷ [])

-- The target of tables without tombstones is at least 1, with tombstones there is one chunk.
abbrev pub chunk_target : ℕ → List Tombstone → ℕ
chunk_target target [] = max target 1
chunk_target target (t ∷ ts) = u64_max

unfoldable pub build_compaction_table_payloads :
    Bool → List InputTable → KeyRange → Sequence → ℕ → List CompactionTablePayload
unfolding collect_compaction_range_tombstones table_fully_covered_by_droppable_tombstone
    merge_groups compact_groups cleanup_range_tombstones_by_coverage compaction_payloads_from_chunks
build_compaction_table_payloads full tables range oldest target_table_bytes =
    let tombstones = collect_compaction_range_tombstones range tables in
    let sources = open_sources oldest range tombstones tables in
    let target = chunk_target target_table_bytes tombstones in
    let done =
      compact_groups oldest full target tombstones
        (record {
          tombstone_has_remaining_put = none_assigned tombstones;
          chunks = ([], empty_chunk);
        })
        (merge_groups (group_count sources) sources) in
    compaction_payloads_from_chunks full target
      (cleanup_range_tombstones_by_coverage tombstones done.tombstone_has_remaining_put full)
      (all_chunks done.chunks)
