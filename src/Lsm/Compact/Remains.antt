-- ===== src/Lsm/Compact/Remains.antt =====
-- What a compaction makes on its way to the tables: the records and the tombstones that stay
-- (src/lsm/compact.rs).
use trine_kv.Prelude.{
  ℕ, ◌≡◌, refl, sym, ap, ◌∙◌, subst, Bool, true, false, ◌||◌, List, [], ◌∷◌, Option, none, some,
  All, All-imp, Pairwise, any, any-filter, filter, arith, Bool-cases, inl, inr,
}
use trine_kv.Keys.{Bytes, Sequence, KeyRange}
use trine_kv.RangeTombstone.{key_is_in_range}
use trine_kv.Lsm.{MemtableEntry, Tombstone, covers_visible_point}
use trine_kv.Lsm.Cover.{covers}
use trine_kv.Lsm.Reads.{value_of}
use trine_kv.Lsm.Compact.{
  InputTable, is_put, still_covers, collect_compaction_range_tombstones,
  cleanup_range_tombstones_by_coverage, marked,
}
use trine_kv.Lsm.Compact.Sources.{Source, group_count, merge_groups}
use trine_kv.Lsm.Compact.Payloads.{
  CompactionChunk, CompactionLoop, CompactionTablePayload, empty_chunk, none_assigned, chunk_target,
  open_sources, compact_groups, all_chunks, build_compaction_table_payloads,
}
use trine_kv.Lsm.Compact.Rounds.{compacted_records}
use trine_kv.Lsm.Compact.Spread.{payload_records, chunk_list_records}
use trine_kv.Lsm.Compact.Written.{in_chunks, outputs-records}
use trine_kv.Lsm.Compact.Chunks.{
  covers_one, marks_by, compact_groups-records, compact_groups-marks, all_chunks-records,
  none_assigned-marks, marked-filter,
}
use trine_kv.Lsm.Compact.Ascending.{UserKeyLeq, merged-ascends, chunks-hold}
use trine_kv.Lsm.Compact.Scans.{IsInput}
use trine_kv.Lsm.Compact.Skip.{open_sources-IsSource}

pub any_within :
    (p q : Tombstone → Bool) (ts : List Tombstone) → any p (filter q ts) ≡ true → any p ts ≡ true
any_within p q [] h = h
any_within p q (t ∷ ts) h = elim (Bool-cases (p t)) [
  | inl y ↦ ground (arith, y)
  | inr n ↦ elim (Bool-cases (q t)) [
    | inl k ↦ ground (arith, n, k, any_within p q ts (ground (arith, n, k, h)))
    | inr k ↦ ground (arith, n, k, any_within p q ts (ground (arith, n, k, h)))
  ]
]

-- A tombstone that covers a record of the list still covers one of the list.
abbrev pub Counted : List MemtableEntry → MemtableEntry → Type 0
Counted es e = (t : Tombstone) → still_covers e t ≡ true → covers_one es t ≡ true

pub all-Counted : (es : List MemtableEntry) → All (Counted es) es
all-Counted [] = tt
all-Counted (e ∷ es) = (
  λ t h. ground (arith, h),
  All-imp {P = Counted es} {Q = Counted (e ∷ es)} (λ x f t h. ground (arith, f t h)) es
      (all-Counted es),
)

-- In a value only the cover of a written record counts.
pub value_of-cover :
    (key : Bytes) (read : Sequence) (ts us : List Tombstone) (c : Option MemtableEntry)
    → ((e : MemtableEntry)
        → c ≡ some e
        → is_put e.key.kind ≡ true
        → any (covers key e.key.sequence e.key.batch_index read) ts
          ≡ any (covers key e.key.sequence e.key.batch_index read) us)
    → value_of key read ts c ≡ value_of key read us c
value_of-cover key read ts us none h = refl
value_of-cover key read ts us (some e) h = elim (Bool-cases (is_put e.key.kind)) [
  | inl y ↦ ground (arith, y, h e refl y)
  | inr n ↦ ground (arith, n)
]

-- A cover of a written record still covers it.
cover-still :
    (key : Bytes) (read : Sequence) (e : MemtableEntry) (t : Tombstone)
    → is_put e.key.kind ≡ true
    → e.key.user_key ≡ key
    → covers key e.key.sequence e.key.batch_index read t ≡ true
    → still_covers e t ≡ true
unfolding covers_visible_point
cover-still key read e t is_written same h =
    ground (arith, is_written, ap (λ u. key_is_in_range u t.range) same, h)

-- What the tombstones that are kept cover of a record: all, if the record is one of those that stay.
pub cleaned_cover :
    (key : Bytes) (read : Sequence) (e : MemtableEntry) (es : List MemtableEntry)
    (ts : List Tombstone)
    → is_put e.key.kind ≡ true
    → e.key.user_key ≡ key
    → Counted es e
    → any (covers key e.key.sequence e.key.batch_index read) ts ≡ true
    → any (covers key e.key.sequence e.key.batch_index read) (filter (covers_one es) ts) ≡ true
cleaned_cover key read e es ts is_written same counted h =
    any-filter (covers key e.key.sequence e.key.batch_index read) (covers_one es) ts
      (λ t k. counted t (cover-still key read e t is_written same k))
    ∙ h

-- What a compaction makes on its way to the tables.
module _ (full : Bool) (tables : List InputTable) (range : KeyRange) (oldest : Sequence)
    (target_table_bytes : ℕ) where
  abbrev pub collected : List Tombstone
  collected = collect_compaction_range_tombstones range tables

  abbrev pub sources : List Source
  sources = open_sources oldest range collected tables

  abbrev pub remaining : List MemtableEntry
  remaining = compacted_records oldest full collected (merge_groups (group_count sources) sources)

  abbrev pub done : CompactionLoop
  done =
      compact_groups oldest full (chunk_target target_table_bytes collected) collected
        (record {
          tombstone_has_remaining_put = none_assigned collected;
          chunks = ([], empty_chunk);
        })
        (merge_groups (group_count sources) sources)

  abbrev pub cleaned : List Tombstone
  cleaned = cleanup_range_tombstones_by_coverage collected done.tombstone_has_remaining_put full

  abbrev pub chunks : List CompactionChunk
  chunks = all_chunks done.chunks

  abbrev pub outputs : List CompactionTablePayload
  outputs = build_compaction_table_payloads full tables range oldest target_table_bytes

  chunks-records : chunk_list_records chunks ≡ remaining
  chunks-records =
      all_chunks-records done.chunks
      ∙ compact_groups-records oldest full (chunk_target target_table_bytes collected) collected
          (record {
            tombstone_has_remaining_put = none_assigned collected;
            chunks = ([], empty_chunk);
          })
          (merge_groups (group_count sources) sources)

  pub remaining-records : payload_records outputs ≡ remaining
  unfolding build_compaction_table_payloads
  remaining-records =
      outputs-records full (chunk_target target_table_bytes collected) cleaned chunks
      ∙ chunks-records

  done-marks :
      done.tombstone_has_remaining_put ≡ marks_by (λ t. false || covers_one remaining t) collected
  done-marks =
      compact_groups-marks (λ t. false) oldest full (chunk_target target_table_bytes collected)
        collected
        (record {
          tombstone_has_remaining_put = none_assigned collected;
          chunks = ([], empty_chunk);
        })
        (merge_groups (group_count sources) sources) (none_assigned-marks collected)

  pub cleaned-full : full ≡ true → cleaned ≡ filter (covers_one remaining) collected
  unfolding cleanup_range_tombstones_by_coverage
  cleaned-full y =
      rw y refl ∙ ap (marked collected) done-marks ∙ marked-filter (covers_one remaining) collected

  pub cleaned-partial : full ≡ false → cleaned ≡ collected
  unfolding cleanup_range_tombstones_by_coverage
  cleaned-partial n = rw n refl

  pub remaining-in_chunks :
      All IsInput tables → All (λ x. in_chunks x.key.user_key chunks ≡ true) remaining
  remaining-in_chunks v = subst (All (λ x. in_chunks x.key.user_key chunks ≡ true)) chunks-records (
      chunks-hold chunks (
        subst (Pairwise UserKeyLeq) (sym chunks-records) (
          merged-ascends oldest full collected (group_count sources) sources
            (open_sources-IsSource oldest range collected tables v))))
