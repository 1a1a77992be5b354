-- ===== src/Lsm/Reads.antt =====
-- A point read gives what the newest visible record and all tombstones say (src/lsm/read.rs).
use trine_kv.Prelude.{
  ◌≡◌, refl, sym, ap, ◌∙◌, false, List, [], ◌∷◌, ◌++◌, Option, none, some, All, Pairwise, any,
  any-append, ◌==◌, arith, if◌then◌else◌,
}
use trine_kv.Error.{Result, ok}
use trine_kv.Keys.{Bytes, Sequence, put, point_delete, range_delete}
use trine_kv.Lsm.{ValueRef, MemtableEntry, Tombstone}
use trine_kv.Lsm.Point.{
  Table, Level, LsmPointReadSnapshot, memory_tombstones, memtable_range_tombstones_in_snapshot,
  point_value, resolve_point_candidate, read_visible_point_value_in_snapshot,
  newest_visible_memtable_point_candidate_in_snapshot, for_each_point_lookup_table,
}
use trine_kv.Lsm.Candidate.{newest}
use trine_kv.Lsm.Memtables.{keep_seen-append}
use trine_kv.Lsm.Deltas.{IsMemorySnapshot, memory_entries, memory_candidate_lem}
use trine_kv.Lsm.Tables.{IsLevel, Precedes, level_entries, levels_candidate_lem}
use trine_kv.Lsm.Keeping.{OfKey, OfKey-keep_all}
use trine_kv.Lsm.Cover.{
  HoldsTombstones, covers, level_tombstones, range_tombstones_cover_lem, levels_cover_lem,
}

-- What a reader at a sequence should get for a key from all records and all tombstones: nothing
-- without a visible record or when the newest one is a deletion or is covered, else its value.
abbrev pub value_of :
    Bytes → Sequence → List Tombstone → Option MemtableEntry → Result (Option ValueRef)
value_of key read tombstones none = ok none
value_of key read tombstones (some e) = elim e.key.kind [
  | put ↦
      if any (covers key e.key.sequence e.key.batch_index read) tombstones
      then ok none
      else point_value e.value
  | point_delete ↦ ok none
  | range_delete ↦ ok none
]

-- A snapshot whose tables hold the given records and tombstones, with its levels in order.
pub record IsSnapshot (records : Table → List MemtableEntry) (tombstones : Table → List Tombstone)
    (s : LsmPointReadSnapshot) : Type 0 where
  pub memory : IsMemorySnapshot s
  pub levels_ok : All (IsLevel records) s.levels
  pub tombstones_ok : All (λ l. All (λ t. HoldsTombstones t (tombstones t)) l.tables) s.levels

module _ (records : Table → List MemtableEntry) (tombstones : Table → List Tombstone) where
  both_ok :
      (ls : List Level)
      → All (IsLevel records) ls
      → All (λ l. All (λ t. HoldsTombstones t (tombstones t)) l.tables) ls
      → All
          (λ l.
            All (λ t. HoldsTombstones t (tombstones t)) l.tables
            × ((l.level == 0) ≡ false → Pairwise Precedes l.tables))
          ls
  both_ok [] h k = tt
  both_ok (l ∷ ls) (h, hs) (k, ks) = ((k, h.1), both_ok ls hs ks)

  resolve_lem :
      (s : LsmPointReadSnapshot) (key : Bytes) (read : Sequence) (c : Option MemtableEntry)
      → IsSnapshot records tombstones s
      → resolve_point_candidate s (memtable_range_tombstones_in_snapshot s) key c read
        ≡ value_of key read (memory_tombstones s ++ level_tombstones tombstones s.levels) c
  unfolding resolve_point_candidate memtable_range_tombstones_in_snapshot
  resolve_lem s key read none v = refl
  resolve_lem s key read (some e) v = ground (
    arith,
    range_tombstones_cover_lem key e.key.sequence e.key.batch_index read (memory_tombstones s),
    levels_cover_lem key e.key.sequence e.key.batch_index read tombstones s.levels
        (both_ok s.levels v.levels_ok v.tombstones_ok),
    any-append (covers key e.key.sequence e.key.batch_index read) (memory_tombstones s)
        (level_tombstones tombstones s.levels),
  )

  -- A point read of a snapshot gives what a reader at the sequence should get for the key from all
  -- its records and all its range tombstones, in memory and in tables, though it skips deltas,
  -- tables and tombstone lists. The memory part is as in `memory_candidate_lem`; a table finds its
  -- newest record, its bounds and filters admit what it holds, and the levels above 0 are in order.
  pub read_visible_lem :
      (s : LsmPointReadSnapshot) (key : Bytes) (read : Sequence)
      → IsSnapshot records tombstones s
      → read_visible_point_value_in_snapshot s key read
        ≡ value_of key read
            (memory_tombstones s ++ level_tombstones tombstones s.levels)
            (newest key read (memory_entries s ++ level_entries records s.levels))
  unfolding read_visible_point_value_in_snapshot
  read_visible_lem s key read v =
      let in_memory = memory_candidate_lem s key read v.memory in
      let of_key : OfKey key (newest key read (memory_entries s)) =
        OfKey-keep_all key read none (memory_entries s) (λ e h. cc) in
      let found : for_each_point_lookup_table key read
            (newest_visible_memtable_point_candidate_in_snapshot s key read) s.levels
          ≡ newest key read (memory_entries s ++ level_entries records s.levels) =
        ap (λ c. for_each_point_lookup_table key read c s.levels) in_memory
        ∙ levels_candidate_lem records key read s.levels (newest key read (memory_entries s))
            v.levels_ok of_key
        ∙ sym
            (keep_seen-append key read none (memory_entries s) (level_entries records s.levels)) in
      ap (λ c. resolve_point_candidate s (memtable_range_tombstones_in_snapshot s) key c read) found
      ∙ resolve_lem s key read
          (newest key read (memory_entries s ++ level_entries records s.levels)) v
