-- ===== src/Lsm/Point.antt =====
-- src/lsm/read.rs and src/lsm/version.rs: the newest visible record of a key, and the read that it
-- gives. A table is what the read asks of it: its properties, its filter, its range tombstones and
-- its newest visible record for a key.
use Prim.Native.Nat.Ordering.{lt}
use trine_kv.Prelude.{
  ℕ, Bool, true, false, not, ◌&&◌, ◌||◌, List, [], ◌∷◌, ◌++◌, Option, none, some, any, filter,
  get_elem?, partition_point, leb, ltb, ◌==◌, if◌then◌else◌,
}
use trine_kv.Prelude.Sort.{is_le}
use trine_kv.Error.{Result, ok, err, corruption}
use trine_kv.Keys.{
  Bytes, Sequence, put, point_delete, range_delete, InternalKey, compare_keys,
  first_internal_key_for_user, last_internal_key_for_user,
}
use trine_kv.RangeTombstone.{bytes_lt, bytes_le, RangeTombstoneIndex, new_index, covering_key}
use trine_kv.Lsm.{
  ValueRef, MemtableEntry, Memtable, Tombstone, Tombstone-like, ImmutableMemtable,
  covers_visible_point,
}

pub record InMemoryDelta : Type 0 where
  pub memtable : Memtable
  pub range_tombstones : List Tombstone
  pub estimated_bytes : ℕ
  pub sequence : Sequence

pub record Table : Type 0 where
  pub data_block_count : ℕ
  pub smallest_user_key : Bytes
  pub largest_user_key : Bytes
  pub largest_sequence : Sequence
  pub may_have_range_tombstones : Bool
  pub point_key_filter : Option (Bytes → Bool)
  pub range_tombstones : RangeTombstoneIndex Tombstone
  pub newest_visible_point_value_record_for_key : Bytes → Sequence → Option MemtableEntry

pub record Level : Type 0 where
  pub level : ℕ
  pub tables : List Table

pub record LsmPointReadSnapshot : Type 0 where
  pub levels : List Level
  pub deltas : List InMemoryDelta
  pub active_memtable : Memtable
  pub active_range_tombstones : List Tombstone
  pub immutable_memtables : List ImmutableMemtable

-- `internal_key < other`, the test of both `keep_newer` functions.
abbrev pub key_lt : InternalKey → InternalKey → Bool
key_lt a b = elim (compare_keys a b) [ lt ↦ true | _ ↦ false ]

abbrev pub key_le : InternalKey → InternalKey → Bool
key_le a b = is_le (compare_keys a b)

unfoldable pub keep_newer_point_candidate :
    Option MemtableEntry → MemtableEntry → Option MemtableEntry
keep_newer_point_candidate none e = some e
keep_newer_point_candidate (some current) e =
    if key_lt e.key current.key then some e else some current

-- The loop over the range of a key: the first entry that the reader sees.
unfoldable pub first_visible : Sequence → List MemtableEntry → Option MemtableEntry
first_visible read_sequence [] = none
first_visible read_sequence (e ∷ es) =
    if ltb read_sequence e.key.sequence then first_visible read_sequence es else some e

abbrev pub last? {ℓ} : {A : Type ℓ} → A → List A → A
last? x [] = x
last? x (y ∷ ys) = last? y ys

-- Whether a key lies outside the user keys of the entries.
unfoldable pub is_outside : Bytes → List MemtableEntry → Bool
is_outside key [] = true
is_outside key (e ∷ es) = bytes_lt key e.key.user_key || bytes_lt (last? e es).key.user_key key

-- `BTreeMap::range`
unfoldable pub entries_of_key : Bytes → List MemtableEntry → List MemtableEntry
unfolding first_internal_key_for_user last_internal_key_for_user
entries_of_key key es =
    filter
      (λ e.
        key_le (first_internal_key_for_user key) e.key
        && key_le e.key (last_internal_key_for_user key))
      es

abbrev pub keep_optional : Option MemtableEntry → Option MemtableEntry → Option MemtableEntry
keep_optional candidate none = candidate
keep_optional candidate (some e) = keep_newer_point_candidate candidate e

unfoldable pub keep_newest_visible_memtable_point_candidate :
    Option MemtableEntry → Memtable → Bytes → Sequence → Option MemtableEntry
unfolding is_outside first_visible entries_of_key keep_newer_point_candidate
keep_newest_visible_memtable_point_candidate candidate memtable key read_sequence =
    if memtable.estimated_bytes == 0
    then candidate
    else if is_outside key memtable.entries
    then candidate
    else keep_optional candidate (first_visible read_sequence (entries_of_key key memtable.entries))

unfoldable pub keep_immutables :
    Bytes → Sequence → Option MemtableEntry → List ImmutableMemtable → Option MemtableEntry
unfolding keep_newest_visible_memtable_point_candidate
keep_immutables key read_sequence candidate [] = candidate
keep_immutables key read_sequence candidate (m ∷ ms) =
    keep_immutables key read_sequence
      (keep_newest_visible_memtable_point_candidate candidate m.memtable key read_sequence) ms

-- Whether a delta is skipped.
abbrev pub is_not_newer : Option MemtableEntry → Sequence → Bool
is_not_newer none sequence = false
is_not_newer (some current) sequence = leb sequence current.key.sequence

unfoldable pub keep_deltas :
    Bytes → Sequence → Option MemtableEntry → List InMemoryDelta → Option MemtableEntry
unfolding keep_newest_visible_memtable_point_candidate
keep_deltas key read_sequence candidate [] = candidate
keep_deltas key read_sequence candidate (d ∷ ds) =
    keep_deltas key read_sequence
      (if is_not_newer candidate d.sequence
        then candidate
        else keep_newest_visible_memtable_point_candidate candidate d.memtable key read_sequence)
      ds

unfoldable pub newest_visible_memtable_point_candidate_in_snapshot :
    LsmPointReadSnapshot → Bytes → Sequence → Option MemtableEntry
unfolding keep_newest_visible_memtable_point_candidate keep_immutables keep_deltas
newest_visible_memtable_point_candidate_in_snapshot snapshot key read_sequence =
    keep_deltas key read_sequence
      (keep_immutables key read_sequence
        (keep_newest_visible_memtable_point_candidate none snapshot.active_memtable key
          read_sequence)
        snapshot.immutable_memtables)
      snapshot.deltas

abbrev pub is_nil : Bytes → Bool
is_nil [] = true
is_nil (b ∷ bs) = false

unfoldable pub has_key_bounds : Table → Bool
has_key_bounds t =
    not ((t.data_block_count == 0 && is_nil t.smallest_user_key) && is_nil t.largest_user_key)

unfoldable pub key_bounds_may_contain_key : Table → Bytes → Bool
unfolding has_key_bounds
key_bounds_may_contain_key t key =
    if not (has_key_bounds t)
    then t.may_have_range_tombstones
    else bytes_le t.smallest_user_key key && bytes_le key t.largest_user_key

unfoldable pub may_contain_key : Table → Bytes → Bool
unfolding key_bounds_may_contain_key
may_contain_key t key =
    if not (key_bounds_may_contain_key t key)
    then false
    else elim t.point_key_filter [ none ↦ true | some allows ↦ allows key ]

unfoldable pub table_may_have_newer_point_record : Table → Option Sequence → Bool
table_may_have_newer_point_record t none = true
table_may_have_newer_point_record t (some sequence) = leb sequence t.largest_sequence

unfoldable pub table_for_key : Level → Bytes → Option Table
unfolding has_key_bounds key_bounds_may_contain_key
table_for_key level key =
    let index =
      partition_point (λ t. has_key_bounds t && bytes_lt t.largest_user_key key) level.tables in
    elim (get_elem? level.tables index) [
      | none ↦ none
      | some t ↦ if key_bounds_may_contain_key t key then some t else none
    ]

abbrev pub sequence_of : Option MemtableEntry → Option Sequence
sequence_of none = none
sequence_of (some e) = some e.key.sequence

-- The probe and the visit of one table, as the point read passes them to
-- `for_each_point_lookup_table`.
unfoldable pub probe_table : Bytes → Sequence → Option MemtableEntry → Table → Option MemtableEntry
unfolding table_may_have_newer_point_record may_contain_key keep_newer_point_candidate
probe_table key read_sequence candidate t =
    if not (table_may_have_newer_point_record t (sequence_of candidate))
    then candidate
    else if may_contain_key t key
    then keep_optional candidate (t.newest_visible_point_value_record_for_key key read_sequence)
    else candidate

unfoldable pub probe_level_zero :
    Bytes → Sequence → Option MemtableEntry → List Table → Option MemtableEntry
unfolding key_bounds_may_contain_key probe_table
probe_level_zero key read_sequence candidate [] = candidate
probe_level_zero key read_sequence candidate (t ∷ ts) =
    probe_level_zero key read_sequence
      (if not (key_bounds_may_contain_key t key)
        then candidate
        else probe_table key read_sequence candidate t)
      ts

unfoldable pub for_each_point_lookup_table :
    Bytes → Sequence → Option MemtableEntry → List Level → Option MemtableEntry
unfolding probe_level_zero table_for_key probe_table
for_each_point_lookup_table key read_sequence candidate [] = candidate
for_each_point_lookup_table key read_sequence candidate (l ∷ ls) =
    for_each_point_lookup_table key read_sequence
      (if l.level == 0
        then probe_level_zero key read_sequence candidate l.tables
        else elim (table_for_key l key) [
          | none ↦ candidate
          | some t ↦ probe_table key read_sequence candidate t
        ])
      ls

abbrev pub has_tombstones_for : Bytes → Table → Bool
has_tombstones_for key t = t.may_have_range_tombstones && key_bounds_may_contain_key t key

abbrev pub optional_table : Bytes → Option Table → List Table
optional_table key none = []
optional_table key (some t) = if has_tombstones_for key t then t ∷ [] else []

unfoldable pub range_tombstone_tables_for_key : List Level → Bytes → List Table
unfolding table_for_key
range_tombstone_tables_for_key [] key = []
range_tombstone_tables_for_key (l ∷ ls) key =
    (if l.level == 0
      then filter (has_tombstones_for key) l.tables
      else optional_table key (table_for_key l key))
    ++ range_tombstone_tables_for_key ls key

abbrev pub delta_tombstones : List InMemoryDelta → List Tombstone
delta_tombstones [] = []
delta_tombstones (d ∷ ds) = d.range_tombstones ++ delta_tombstones ds

abbrev pub immutable_tombstones : List ImmutableMemtable → List Tombstone
immutable_tombstones [] = []
immutable_tombstones (m ∷ ms) = m.range_tombstones ++ immutable_tombstones ms

-- The list that `memtable_range_tombstones_in_snapshot` collects.
abbrev pub memory_tombstones : LsmPointReadSnapshot → List Tombstone
memory_tombstones s =
    (delta_tombstones s.deltas ++ s.active_range_tombstones)
    ++ immutable_tombstones s.immutable_memtables

unfoldable pub memtable_range_tombstones_in_snapshot :
    LsmPointReadSnapshot → RangeTombstoneIndex Tombstone
unfolding new_index
memtable_range_tombstones_in_snapshot s = new_index (memory_tombstones s)

unfoldable pub range_tombstones_cover :
    RangeTombstoneIndex Tombstone → Bytes → Sequence → ℕ → Sequence → Bool
unfolding covering_key covers_visible_point
range_tombstones_cover index key point_sequence point_batch_index read_sequence =
    any (λ t. covers_visible_point t key point_sequence point_batch_index read_sequence)
      (covering_key index key)

-- `Table::range_tombstone_covers_visible_point`
unfoldable pub table_covers_visible_point : Table → Bytes → Sequence → ℕ → Sequence → Bool
unfolding covering_key
table_covers_visible_point t key point_sequence point_batch_index read_sequence =
    if not t.may_have_range_tombstones
    then false
    else any
        (λ d.
          leb d.sequence read_sequence
          && (ltb point_sequence d.sequence
              || (d.sequence == point_sequence && ltb point_batch_index d.batch_index)))
        (covering_key t.range_tombstones key)

-- A put record without a value is corrupt; the bytes behind a blob reference are read elsewhere.
unfoldable pub point_value : Option ValueRef → Result (Option ValueRef)
point_value none = err corruption
point_value (some v) = ok (some v)

unfoldable pub resolve_point_candidate :
    LsmPointReadSnapshot
    → RangeTombstoneIndex Tombstone
    → Bytes
    → Option MemtableEntry
    → Sequence
    → Result (Option ValueRef)
unfolding range_tombstones_cover range_tombstone_tables_for_key table_covers_visible_point
    point_value
resolve_point_candidate s index key none read_sequence = ok none
resolve_point_candidate s index key (some e) read_sequence = elim e.key.kind [
  | put ↦
      if range_tombstones_cover index key e.key.sequence e.key.batch_index read_sequence
        || any
            (λ t. table_covers_visible_point t key e.key.sequence e.key.batch_index read_sequence)
            (range_tombstone_tables_for_key s.levels key)
      then ok none
      else point_value e.value
  | point_delete ↦ ok none
  | range_delete ↦ ok none
]

unfoldable pub read_visible_point_value_in_snapshot :
    LsmPointReadSnapshot → Bytes → Sequence → Result (Option ValueRef)
unfolding newest_visible_memtable_point_candidate_in_snapshot for_each_point_lookup_table
    resolve_point_candidate memtable_range_tombstones_in_snapshot
read_visible_point_value_in_snapshot s key read_sequence =
    resolve_point_candidate s (memtable_range_tombstones_in_snapshot s) key
      (for_each_point_lookup_table key read_sequence
        (newest_visible_memtable_point_candidate_in_snapshot s key read_sequence) s.levels)
      read_sequence
