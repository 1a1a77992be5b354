-- ===== src/Lsm/Conflict/Exact.antt =====
-- Conflict detection against all records and all tombstones, and what it means for the reads of a
-- transaction (src/lsm/conflict.rs).
use trine_kv.Prelude.{
  any-filter_and, ◌≡◌, refl, ap, ◌∙◌, Bool, ◌||◌, List, [], ◌∷◌, ◌++◌, All, All-imp, any,
  any-append, arith,
}
use trine_kv.Prelude.Sort.{any-sort_by}
use trine_kv.Keys.{Bytes, Sequence, KeyRange}
use trine_kv.RangeTombstone.{key_is_in_range}
use trine_kv.Lsm.{MemtableEntry, Tombstone, Tombstone-like}
use trine_kv.Lsm.Point.{Table, Level, LsmPointReadSnapshot}
use trine_kv.Lsm.Memtables.{immutable_entries}
use trine_kv.Lsm.Candidate.{bytes_eq}
use trine_kv.Lsm.Deltas.{memory_entries}
use trine_kv.Lsm.Tables.{level_entries, table_entries}
use trine_kv.Lsm.Reads.{IsSnapshot}
use trine_kv.Lsm.Compact.{compare_records}
use trine_kv.Lsm.Conflict.{
  collect_memtable_point_records, collect_memtable_range_records, point_lookup_tables,
  table_handles, of_tables, of_memory, collect_point_key_records, collect_range_point_records,
  point_key_modified_after_in_snapshot, key_range_modified_after_in_snapshot,
}
use trine_kv.Lsm.Conflict.Memory.{
  modifies, modifies_range, newer_record, memory-Gives, memtable-Gives, memtable_range-Gives,
  deltas-IsMemtable,
}
use trine_kv.Lsm.Conflict.Tables.{Finds, levels-Gives}
use trine_kv.Lsm.Conflict.Tombstones.{
  deletes, deletes_from, all_tombstones, key-deletes, range-deletes_from,
}

module _ (records_for_key : Table → Bytes → List MemtableEntry)
    (records_in_range : Table → KeyRange → List MemtableEntry)
    (records : Table → List MemtableEntry) (tombstones : Table → List Tombstone) where
  -- A snapshot whose tables also find their records by key and by range.
  pub record IsSource (s : LsmPointReadSnapshot) : Type 0 where
    pub snapshot : IsSnapshot records tombstones s
    pub finds : All (λ l. All (Finds records_for_key records_in_range records) l.tables) s.levels

  abbrev pub all_records : LsmPointReadSnapshot → List MemtableEntry
  all_records s = memory_entries s ++ level_entries records s.levels

  point_records-lem :
      (s : LsmPointReadSnapshot) (key : Bytes) (read : Sequence)
      → IsSource s
      → any (newer_record read) (collect_point_key_records records_for_key records_in_range s key)
        ≡ any (modifies key read) (all_records s)
  unfolding collect_point_key_records
  point_records-lem s key read v =
      let memory = v.snapshot.memory in
      let kept = of_memory (λ m. collect_memtable_point_records m key) s in
      let stored = of_tables (λ t. records_for_key t key) (point_lookup_tables s.levels key) in
      any-sort_by compare_records (newer_record read) (kept ++ stored)
      ∙ ground (
        arith,
        any-append (newer_record read) kept stored,
        any-append (modifies key read) (memory_entries s) (level_entries records s.levels),
        levels-Gives records_for_key records_in_range records key read s.levels v.snapshot.levels_ok
            v.finds,
        memory-Gives (λ e. bytes_eq e.key.user_key key) read
            (λ m. collect_memtable_point_records m key) s
            (memtable-Gives key read s.active_memtable memory.active_ok)
            (All-imp (λ d w. memtable-Gives key read d.memtable w) s.deltas
              (deltas-IsMemtable
                (s.active_memtable.entries ++ immutable_entries s.immutable_memtables) s.deltas
                memory.deltas_ok))
            (All-imp (λ m w. memtable-Gives key read m.memtable w) s.immutable_memtables
              memory.immutables_ok),
      )

  -- A key counts as modified after a read exactly if some record of it, or some tombstone over it, in
  -- memory or in a table, has a greater sequence. The sources are as they were written, and the tables
  -- find their records.
  pub point_modified_lem :
      (s : LsmPointReadSnapshot) (key : Bytes) (read : Sequence)
      → IsSource s
      → point_key_modified_after_in_snapshot records_for_key records_in_range s key read ≡ (
          any (modifies key read) (all_records s)
          || any (deletes key read) (all_tombstones tombstones s))
  unfolding point_key_modified_after_in_snapshot
  point_modified_lem s key read v = ground (
    arith,
    point_records-lem s key read v,
    key-deletes tombstones s v.snapshot.tombstones_ok key read,
  )

  tables_in_range :
      (range : KeyRange) (read : Sequence) (ts : List Table)
      → All (Finds records_for_key records_in_range records) ts
      → any (newer_record read) (of_tables (λ t. records_in_range t range) ts)
        ≡ any (modifies_range range read) (table_entries records ts)
  tables_in_range range read [] f = refl
  tables_in_range range read (t ∷ ts) (f, fs) = ground (
    arith,
    ap (any (newer_record read)) (f.in_range range)
        ∙ any-filter_and (newer_record read) (λ e. key_is_in_range e.key.user_key range)
            (records t),
    tables_in_range range read ts fs,
    any-append (newer_record read) (records_in_range t range)
        (of_tables (λ t. records_in_range t range) ts),
    any-append (modifies_range range read) (records t) (table_entries records ts),
  )

  of_tables-append :
      (collect : Table → List MemtableEntry) (p : MemtableEntry → Bool) (ts us : List Table)
      → any p (of_tables collect (ts ++ us))
        ≡ (any p (of_tables collect ts) || any p (of_tables collect us))
  of_tables-append collect p [] us = refl
  of_tables-append collect p (t ∷ ts) us = ground (
    arith,
    of_tables-append collect p ts us,
    any-append p (collect t) (of_tables collect (ts ++ us)),
    any-append p (collect t) (of_tables collect ts),
  )

  levels_in_range :
      (range : KeyRange) (read : Sequence) (ls : List Level)
      → All (λ l. All (Finds records_for_key records_in_range records) l.tables) ls
      → any (newer_record read) (of_tables (λ t. records_in_range t range) (table_handles ls))
        ≡ any (modifies_range range read) (level_entries records ls)
  levels_in_range range read [] f = refl
  levels_in_range range read (l ∷ ls) (f, fs) = ground (
    arith,
    tables_in_range range read l.tables f,
    levels_in_range range read ls fs,
    of_tables-append (λ t. records_in_range t range) (newer_record read) l.tables
        (table_handles ls),
    any-append (modifies_range range read) (table_entries records l.tables)
        (level_entries records ls),
  )

  range_records-lem :
      (s : LsmPointReadSnapshot) (range : KeyRange) (read : Sequence)
      → IsSource s
      → any
          (newer_record read)
          (collect_range_point_records records_for_key records_in_range s range)
        ≡ any (modifies_range range read) (all_records s)
  unfolding collect_range_point_records
  range_records-lem s range read v =
      let kept = of_memory (λ m. collect_memtable_range_records m range) s in
      let stored = of_tables (λ t. records_in_range t range) (table_handles s.levels) in
      any-sort_by compare_records (newer_record read) (kept ++ stored)
      ∙ ground (
        arith,
        any-append (newer_record read) kept stored,
        any-append (modifies_range range read) (memory_entries s) (level_entries records s.levels),
        levels_in_range range read s.levels v.finds,
        memory-Gives (λ e. key_is_in_range e.key.user_key range) read
            (λ m. collect_memtable_range_records m range) s
            (memtable_range-Gives range read s.active_memtable)
            (All_of (λ d. memtable_range-Gives range read d.memtable) s.deltas)
            (All_of (λ m. memtable_range-Gives range read m.memtable) s.immutable_memtables),
      )
    where
      All_of : {A : Type 0} {P : A → Type 0} → ((a : A) → P a) → (xs : List A) → All P xs
      All_of f [] = tt
      All_of f (x ∷ xs) = (f x, All_of f xs)

  -- A range counts as modified after a read exactly if some record of a key in it, or some tombstone
  -- that overlaps it, has a greater sequence. The sources are as they were written, and the tables find
  -- their records.
  pub range_modified_lem :
      (s : LsmPointReadSnapshot) (range : KeyRange) (read : Sequence)
      → IsSource s
      → key_range_modified_after_in_snapshot records_for_key records_in_range s range read ≡ (
          any (modifies_range range read) (all_records s)
          || any (deletes_from range read) (all_tombstones tombstones s))
  unfolding key_range_modified_after_in_snapshot
  range_modified_lem s range read v = ground (
    arith,
    range_records-lem s range read v,
    range-deletes_from tombstones s v.snapshot.tombstones_ok range read,
  )
