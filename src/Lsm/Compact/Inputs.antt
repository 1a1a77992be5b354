-- ===== src/Lsm/Compact/Inputs.antt =====
-- What the input tables hold of a key in the compaction's range, and of one outside it
-- (src/lsm/compact.rs).
use trine_kv.Prelude.{
  All-append, ℕ, ◌≤◌, ◌≡◌, refl, sym, ap, ◌∙◌, subst, Bool, true, false, ◌||◌, List, [], ◌∷◌, ◌++◌,
  Option, All, All-imp, Pairwise, any, any-append, any-filter, filter, filter-append, filter-none,
  arith, Bool-cases, inl, inr,
}
use trine_kv.Prelude.Sort.{any-sort_by}
use trine_kv.Keys.{Bytes, Sequence, KeyRange}
use trine_kv.RangeTombstone.{
  compare_tombstones, key_is_in_range, ranges_overlap, overlapping_range, sort_tombstones,
}
use trine_kv.RangeTombstone.Bounds.{ranges_overlap_sound}
use trine_kv.RangeTombstone.Index.{overlapping-eq-filter}
use trine_kv.Lsm.{MemtableEntry, Tombstone, Tombstone-like, covers_visible_point}
use trine_kv.Lsm.Candidate.{is_seen, keep_all}
use trine_kv.Lsm.Keeping.{OfKey}
use trine_kv.Lsm.Deltas.{seen_key}
use trine_kv.Lsm.Cover.{covers}
use trine_kv.Lsm.Reads.{value_of}
use trine_kv.Lsm.Compact.{
  RecordGroup, InputTable, overlapping_tombstones, collect_compaction_range_tombstones,
}
use trine_kv.Lsm.Compact.Sources.{Source, group_count, merge_groups}
use trine_kv.Lsm.Compact.Payloads.{scan, build_compaction_table_payloads}
use trine_kv.Lsm.Compact.Merge.{source_records, all_records, seen, Unseen}
use trine_kv.Lsm.Compact.Spread.{payload_tombstones, payload_records}
use trine_kv.Lsm.Compact.Rounds.{All-merge_groups, All-compacted_records}
use trine_kv.Lsm.Compact.Remains.{value_of-cover, collected, sources, remaining-records}
use trine_kv.Lsm.Compact.Ascending.{UserKeyLeq, merged-ascends}
use trine_kv.Lsm.Compact.Scans.{IsInput, scans}
use trine_kv.Lsm.Compact.Skip.{open_sources-IsSource, open_sources-All}
use trine_kv.Lsm.Compact.Preserved.{Newer, scans_preserved}

-- All records and all range tombstones of the input tables.
abbrev pub input_records : List InputTable → List MemtableEntry
input_records [] = []
input_records (t ∷ ts) = source_records t.groups ++ input_records ts

abbrev pub input_tombstones : List InputTable → List Tombstone
input_tombstones [] = []
input_tombstones (t ∷ ts) = t.range_tombstones.tombstones ++ input_tombstones ts

module _ (key : Bytes) (read : Sequence) (range : KeyRange) where
  -- The group of a key has the records of that key.
  other_group :
      (g : RecordGroup)
      → All (λ e. e.key.user_key ≡ g.user_key) g.records
      → key_is_in_range key range ≡ true
      → key_is_in_range g.user_key range ≡ false
      → All (Unseen key read) g.records
  other_group g keyed inside outside = All-imp (λ e same. unseen e same) g.records keyed
    where
      unseen : (e : MemtableEntry) → e.key.user_key ≡ g.user_key → Unseen key read e
      unseen e same = elim (Bool-cases (is_seen key read e)) [
        | inr n ↦ n
        | inl y ↦
            let here : g.user_key ≡ key = sym same ∙ seen_key key read e y in
            ground (arith, ap (λ u. key_is_in_range u range) here, inside, outside)
      ]

  scan-seen :
      (gs : Source)
      → All (λ (g : RecordGroup). All (λ e. e.key.user_key ≡ g.user_key) g.records) gs
      → key_is_in_range key range ≡ true
      → seen key read (source_records (filter (λ g. key_is_in_range g.user_key range) gs))
        ≡ seen key read (source_records gs)
  scan-seen [] keyed inside = refl
  scan-seen (g ∷ gs) (k, ks) inside =
      let rest = scan-seen gs ks inside in
      let split = filter-append (is_seen key read) g.records (source_records gs) in
      elim (Bool-cases (key_is_in_range g.user_key range)) [
        | inl y ↦ rw y (
            filter-append (is_seen key read) g.records
              (source_records (filter (λ g. key_is_in_range g.user_key range) gs))
            ∙ ap (λ es. seen key read g.records ++ es) rest
            ∙ sym split)
        | inr n ↦ rw n (
            rest
            ∙ sym (
                split
                ∙ ap (λ es. es ++ seen key read (source_records gs))
                    (filter-none (is_seen key read) g.records (other_group g k inside n))))
      ]

  scans-seen :
      (tables : List InputTable)
      → All IsInput tables
      → key_is_in_range key range ≡ true
      → seen key read (all_records (scans range tables)) ≡ seen key read (input_records tables)
  scans-seen [] v inside = refl
  scans-seen (t ∷ ts) (v, vs) inside =
      filter-append (is_seen key read) (source_records (scan range t))
        (all_records (scans range ts))
      ∙ ap (λ es. es ++ seen key read (all_records (scans range ts)))
          (scan-seen t.groups v.is_source.keyed inside)
      ∙ ap (λ es. seen key read (source_records t.groups) ++ es) (scans-seen ts vs inside)
      ∙ sym (filter-append (is_seen key read) (source_records t.groups) (input_records ts))

  module _ (point_sequence : Sequence) (point_batch_index : ℕ)
      (inside : key_is_in_range key range ≡ true) where
    abbrev cov_by : Tombstone → Bool
    cov_by = covers key point_sequence point_batch_index read

    cover-overlaps : (t : Tombstone) → cov_by t ≡ true → ranges_overlap range t.range ≡ true
    unfolding covers_visible_point
    cover-overlaps t h = (ranges_overlap_sound key range t.range (ground (arith, inside, h))).0

    overlapping-cover :
        (tables : List InputTable)
        → All IsInput tables
        → any cov_by (overlapping_tombstones range tables) ≡ any cov_by (input_tombstones tables)
    unfolding Tombstone-like
    overlapping-cover [] v = refl
    overlapping-cover (t ∷ ts) (v, vs) =
        let own = t.range_tombstones.tombstones in
        let first : any cov_by (overlapping_range t.range_tombstones range) ≡ any cov_by own =
          ap (any cov_by) (overlapping-eq-filter t.range_tombstones range v.sorted)
          ∙ any-filter cov_by (λ d. ranges_overlap range d.range) own cover-overlaps in
        any-append cov_by (overlapping_range t.range_tombstones range)
          (overlapping_tombstones range ts)
        ∙ ap (λ b. b || any cov_by (overlapping_tombstones range ts)) first
        ∙ ap (λ b. any cov_by own || b) (overlapping-cover ts vs)
        ∙ sym (any-append cov_by own (input_tombstones ts))

    -- The tombstones that are collected cover of a key in the range what those of all tables cover.
    collected-cover :
        (tables : List InputTable)
        → All IsInput tables
        → any cov_by (collect_compaction_range_tombstones range tables)
          ≡ any cov_by (input_tombstones tables)
    unfolding collect_compaction_range_tombstones sort_tombstones
    collected-cover tables v =
        any-sort_by compare_tombstones cov_by (overlapping_tombstones range tables)
        ∙ overlapping-cover tables v

-- A compaction does not change what a retained reader finds. For a key in the compaction's range and
-- a read sequence at or above the oldest snapshot, the records and tombstones of the output tables
-- give the same value as those of the input tables, together with a candidate and tombstones from
-- the rest of the tree. The input tables are as they were written, and the candidate is of the key.
-- In a full compaction a candidate is newer than the records and the collected tombstones.
pub compaction_preserves :
    (key : Bytes) (read : Sequence) (full : Bool) (tables : List InputTable) (range : KeyRange)
    (oldest : Sequence) (target : ℕ) (c : Option MemtableEntry) (more : List Tombstone)
    → All IsInput tables
    → key_is_in_range key range ≡ true
    → oldest ≤ read
    → OfKey key c
    → (full ≡ true → Newer range tables c)
    → value_of key read
        (more
          ++ payload_tombstones (build_compaction_table_payloads full tables range oldest target))
        (keep_all c (
          seen key read
            (payload_records (build_compaction_table_payloads full tables range oldest target))))
      ≡ value_of key read
          (more ++ input_tombstones tables)
          (keep_all c (seen key read (input_records tables)))
compaction_preserves key read full tables range oldest target c more v inside le of_key newer =
    let ts = collect_compaction_range_tombstones range tables in
    let found = keep_all c (seen key read (all_records (scans range tables))) in
    scans_preserved key read full tables range oldest target c more v le of_key newer
    ∙ value_of-cover key read (more ++ ts) (more ++ input_tombstones tables) found
        (λ e h is_written.
          let cov_by = covers key e.key.sequence e.key.batch_index read in
          any-append cov_by more ts
          ∙ ap (λ b. any cov_by more || b)
              (collected-cover key read range e.key.sequence e.key.batch_index inside tables v)
          ∙ sym (any-append cov_by more (input_tombstones tables)))
    ∙ ap (λ es. value_of key read (more ++ input_tombstones tables) (keep_all c es))
        (scans-seen key read range tables v inside)

abbrev pub InRange : KeyRange → MemtableEntry → Type 0
InRange range e = key_is_in_range e.key.user_key range ≡ true

scan-InRange :
    (range : KeyRange) (gs : Source)
    → All (λ (g : RecordGroup). All (λ e. e.key.user_key ≡ g.user_key) g.records) gs
    → All (InRange range) (source_records (filter (λ g. key_is_in_range g.user_key range) gs))
scan-InRange range [] keyed = tt
scan-InRange range (g ∷ gs) (k, ks) =
    let rest = scan-InRange range gs ks in
    elim (Bool-cases (key_is_in_range g.user_key range)) [
      | inl y ↦ rw y (
          All-append (InRange range) g.records
            (source_records (filter (λ g. key_is_in_range g.user_key range) gs))
            (All-imp {P = λ e. e.key.user_key ≡ g.user_key} {Q = InRange range}
              (λ e same. ap (λ u. key_is_in_range u range) same ∙ y) g.records k)
            rest)
      | inr n ↦ rw n rest
    ]

scans-InRange :
    (range : KeyRange) (tables : List InputTable)
    → All IsInput tables
    → All (InRange range) (all_records (scans range tables))
scans-InRange range [] v = tt
scans-InRange range (t ∷ ts) (v, vs) =
    All-append (InRange range) (source_records (scan range t)) (all_records (scans range ts))
      (scan-InRange range t.groups v.is_source.keyed) (scans-InRange range ts vs)

-- If the input tables are as they were written, the records of all output tables together are in
-- ascending order of their user keys, and all of their keys are in the compaction's range.
pub outputs_ascend-InRange :
    (full : Bool) (tables : List InputTable) (range : KeyRange) (oldest : Sequence) (target : ℕ)
    → All IsInput tables
    → Pairwise UserKeyLeq
        (payload_records (build_compaction_table_payloads full tables range oldest target))
      × All
          (InRange range)
          (payload_records (build_compaction_table_payloads full tables range oldest target))
outputs_ascend-InRange full tables range oldest target v =
    let ts = collected full tables range oldest target in
    let opened = sources full tables range oldest target in
    let here = sym (remaining-records full tables range oldest target) in
    (
      subst (Pairwise UserKeyLeq) here (
          merged-ascends oldest full ts (group_count opened) opened
            (open_sources-IsSource oldest range ts tables v)),
      subst (All (InRange range)) here (
          All-compacted_records (InRange range) oldest full ts
            (merge_groups (group_count opened) opened)
            (All-merge_groups (InRange range) (group_count opened) opened (
              open_sources-All oldest range ts (InRange range) tables
                (scans-InRange range tables v)))),
    )
