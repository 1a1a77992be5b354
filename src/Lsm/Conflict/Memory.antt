-- ===== src/Lsm/Conflict/Memory.antt =====
-- The records in memory that modify a key or a range after a read (src/lsm/conflict.rs).
use trine_kv.Prelude.{
  any-filter_and, bool_eq, ◌≤◌, ◌≡◌, refl, ap, ◌∙◌, Bool, true, ◌&&◌, List, [], ◌∷◌, ◌++◌, All, any,
  any-append, ltb, arith,
}
use trine_kv.Prelude.Order.{compare_bytes, compare_bytes-IsOrder}
use trine_kv.Keys.{
  u64_max, u32_max, Bytes, Sequence, KeyRange, first_internal_key_for_user,
  last_internal_key_for_user,
}
use trine_kv.Keys.Laws.{bracket_iff}
use trine_kv.RangeTombstone.{key_is_in_range}
use trine_kv.Lsm.{MemtableEntry, Memtable, Tombstone-like, ImmutableMemtable}
use trine_kv.Lsm.Point.{InMemoryDelta, LsmPointReadSnapshot, entries_of_key, key_le}
use trine_kv.Lsm.Candidate.{bytes_eq}
use trine_kv.Lsm.Memtables.{IsMemtable}
use trine_kv.Lsm.Deltas.{AreDeltas, memory_entries, delta_entries}
use trine_kv.Lsm.Memtables.{immutable_entries}
use trine_kv.Lsm.Compact.Merge.{bytes_eq-eq}
use trine_kv.Lsm.Conflict.{
  collect_memtable_point_records, collect_memtable_range_records, of_deltas, of_immutables,
  of_memory,
}

-- A record that modifies a key after a read, and one that modifies a range.
abbrev pub modifies : Bytes → Sequence → MemtableEntry → Bool
modifies key read e = bytes_eq e.key.user_key key && ltb read e.key.sequence

abbrev pub modifies_range : KeyRange → Sequence → MemtableEntry → Bool
modifies_range range read e = key_is_in_range e.key.user_key range && ltb read e.key.sequence

abbrev pub newer_record : Sequence → MemtableEntry → Bool
newer_record read e = ltb read e.key.sequence

-- A source gives the records that a test picks from those that it holds.
abbrev Gives : (MemtableEntry → Bool) → Sequence → List MemtableEntry → List MemtableEntry → Type 0
Gives picks read given held =
    any (newer_record read) given ≡ any (λ e. picks e && newer_record read e) held

module _ (picks : MemtableEntry → Bool) (read : Sequence)
    (collect : Memtable → List MemtableEntry) where
  abbrev GivesAll : Memtable → Type 0
  GivesAll m = Gives picks read (collect m) m.entries

  deltas-Gives :
      (ds : List InMemoryDelta)
      → All (λ d. GivesAll d.memtable) ds
      → Gives picks read (of_deltas collect ds) (delta_entries ds)
  deltas-Gives [] h = refl
  deltas-Gives (d ∷ ds) (h, hs) = ground (
    arith,
    h,
    deltas-Gives ds hs,
    any-append (newer_record read) (collect d.memtable) (of_deltas collect ds),
    any-append (λ e. picks e && newer_record read e) d.memtable.entries (delta_entries ds),
  )

  immutables-Gives :
      (ms : List ImmutableMemtable)
      → All (λ m. GivesAll m.memtable) ms
      → Gives picks read (of_immutables collect ms) (immutable_entries ms)
  immutables-Gives [] h = refl
  immutables-Gives (m ∷ ms) (h, hs) = ground (
    arith,
    h,
    immutables-Gives ms hs,
    any-append (newer_record read) (collect m.memtable) (of_immutables collect ms),
    any-append (λ e. picks e && newer_record read e) m.memtable.entries (immutable_entries ms),
  )

  pub memory-Gives :
      (s : LsmPointReadSnapshot)
      → GivesAll s.active_memtable
      → All (λ d. GivesAll d.memtable) s.deltas
      → All (λ m. GivesAll m.memtable) s.immutable_memtables
      → Gives picks read (of_memory collect s) (memory_entries s)
  memory-Gives s a ds ms = ground (
    arith,
    a,
    deltas-Gives s.deltas ds,
    immutables-Gives s.immutable_memtables ms,
    any-append (newer_record read) (collect s.active_memtable ++ of_deltas collect s.deltas)
        (of_immutables collect s.immutable_memtables),
    any-append (newer_record read) (collect s.active_memtable) (of_deltas collect s.deltas),
    any-append (λ e. picks e && newer_record read e)
        (s.active_memtable.entries ++ immutable_entries s.immutable_memtables)
        (delta_entries s.deltas),
    any-append (λ e. picks e && newer_record read e) s.active_memtable.entries
        (immutable_entries s.immutable_memtables),
  )

bytes_eq-true : (a b : Bytes) → a ≡ b → bytes_eq a b ≡ true
bytes_eq-true a b h =
    ground (arith, compare_bytes-IsOrder.preorder.cmp_refl a, ap (compare_bytes a) h)

-- In a memtable the entries between the bracket keys are those of the key.
bracket-eq :
    (key : Bytes) (e : MemtableEntry)
    → (e.key.sequence ≤ u64_max) × (e.key.batch_index ≤ u32_max)
    → (key_le (first_internal_key_for_user key) e.key
        && key_le e.key (last_internal_key_for_user key))
      ≡ bytes_eq e.key.user_key key
bracket-eq key e (hs, hb) =
    let (holds, held) = bracket_iff key e.key hs hb in
    bool_eq
      (key_le (first_internal_key_for_user key) e.key
        && key_le e.key (last_internal_key_for_user key))
      (bytes_eq e.key.user_key key)
      (λ h. bytes_eq-true e.key.user_key key (holds (ground (arith, h), ground (arith, h))))
      (λ h. let (a, b) = held (bytes_eq-eq e.key.user_key key h) in ground (arith, a, b))

entries-Gives :
    (key : Bytes) (read : Sequence) (es : List MemtableEntry)
    → All (λ e. (e.key.sequence ≤ u64_max) × (e.key.batch_index ≤ u32_max)) es
    → any
        (λ e.
          (key_le (first_internal_key_for_user key) e.key
            && key_le e.key (last_internal_key_for_user key))
          && ltb read e.key.sequence)
        es
      ≡ any (modifies key read) es
entries-Gives key read [] h = refl
entries-Gives key read (e ∷ es) (h, hs) =
    ground (arith, bracket-eq key e h, entries-Gives key read es hs)

pub memtable-Gives :
    (key : Bytes) (read : Sequence) (m : Memtable)
    → IsMemtable m
    → any (newer_record read) (collect_memtable_point_records m key)
      ≡ any (modifies key read) m.entries
unfolding collect_memtable_point_records entries_of_key
memtable-Gives key read m v =
    any-filter_and (newer_record read)
      (λ e.
        key_le (first_internal_key_for_user key) e.key
        && key_le e.key (last_internal_key_for_user key))
      m.entries
    ∙ entries-Gives key read m.entries v.in_range

pub memtable_range-Gives :
    (range : KeyRange) (read : Sequence) (m : Memtable)
    → any (newer_record read) (collect_memtable_range_records m range)
      ≡ any (modifies_range range read) m.entries
unfolding collect_memtable_range_records
memtable_range-Gives range read m =
    any-filter_and (newer_record read) (λ e. key_is_in_range e.key.user_key range) m.entries

pub deltas-IsMemtable :
    (pool : List MemtableEntry) (ds : List InMemoryDelta)
    → AreDeltas pool ds
    → All (λ d. IsMemtable d.memtable) ds
deltas-IsMemtable pool [] h = tt
deltas-IsMemtable pool (d ∷ ds) (v, whole, rest) =
    (v, deltas-IsMemtable (pool ++ d.memtable.entries) ds rest)
