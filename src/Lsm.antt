-- ===== src/Lsm.antt =====
-- src/memtable.rs, src/lsm/write.rs and the records of src/lsm/tree.rs: the in-memory part of an LSM
-- tree. Locks and atomics have no counterpart: an operation is one function on the tree's state.
-- The delta shards' own state is not part of this record.
pub mod Point
pub mod Memtables
pub mod Candidate
pub mod Deltas
pub mod Keeping
pub mod Probes
pub mod Tables
pub mod Cover
pub mod Reads
pub mod TableBounds
pub mod Compact
pub mod Conflict
use Prim.Native.Nat.Ordering.{lt, eq, gt}
use trine_kv.Prelude.{
  ℕ, ◌+◌, ◌-◌, ◌%◌, ◌^◌, min, Ordering, Bool, true, false, not, ◌&&◌, ◌||◌, List, [], ◌∷◌, ◌++◌,
  Option, none, some, length, leb, ltb, ◌==◌, if◌then◌else◌,
}
use trine_kv.Keys.{
  Bytes, Sequence, u64_max, Bound, included, excluded, unbounded, KeyRange, ValueKind, put,
  point_delete, InternalKey, compare_keys,
}
use trine_kv.RangeTombstone.{RangeTombstoneLike, key_is_in_range, compare_tombstones, insert_sorted}
use trine_kv.Wal.{BatchOperation, put_op, delete_op, delete_range_op}

pub record BlobIndex : Type 0 where
  pub file_id : ℕ
  pub offset : ℕ
  pub encoded_len : ℕ
  pub value_len : ℕ
  pub value_checksum : ℕ
  pub record_checksum : ℕ
  pub compression : ℕ

pub data ValueRef : Type 0 where
  inline : Bytes → ValueRef
  blob_index : BlobIndex → ValueRef

-- `ValueRef::len`
unfoldable pub value_ref_len : ValueRef → ℕ
value_ref_len (inline bytes) = length bytes
value_ref_len (blob_index index) = index.value_len

unfoldable pub saturating_add : ℕ → ℕ → ℕ
saturating_add a b = min (a + b) u64_max

-- `fetch_add` and `fetch_sub` of an `AtomicU64`
unfoldable pub fetch_add : ℕ → ℕ → ℕ
fetch_add a b = (a + b) % 2 ^ 64

unfoldable pub fetch_sub : ℕ → ℕ → ℕ
fetch_sub a b = (a + 2 ^ 64 - b) % 2 ^ 64

pub record MemtableEntry : Type 0 where
  pub key : InternalKey
  pub value : Option ValueRef

-- The entries ascend in `compare_keys`, as in a `BTreeMap`.
pub record Memtable : Type 0 where
  pub entries : List MemtableEntry
  pub estimated_bytes : ℕ

abbrev pub default_memtable : Memtable
default_memtable = record { entries = []; estimated_bytes = 0 }

abbrev pub optional_len : Option ValueRef → ℕ
optional_len none = 0
optional_len (some v) = value_ref_len v

unfoldable pub entry_bytes : InternalKey → Option ValueRef → ℕ
unfolding saturating_add
entry_bytes internal_key value =
    saturating_add (saturating_add (length internal_key.user_key) (optional_len value)) 16

-- `BTreeMap::insert`: the entries, and the value that the key had.
unfoldable pub insert_entry : MemtableEntry → List MemtableEntry → List MemtableEntry
unfolding compare_keys
insert_entry e [] = e ∷ []
insert_entry e (x ∷ xs) =
    let rest = insert_entry e xs in
    elim (compare_keys e.key x.key) [ lt ↦ e ∷ x ∷ xs | eq ↦ e ∷ xs | gt ↦ x ∷ rest ]

unfoldable pub old_entry : InternalKey → List MemtableEntry → Option MemtableEntry
unfolding compare_keys
old_entry k [] = none
old_entry k (x ∷ xs) =
    let rest = old_entry k xs in elim (compare_keys k x.key) [ eq ↦ some x | lt ↦ none | gt ↦ rest ]

-- `Memtable::insert`
unfoldable pub insert_record : InternalKey → Option ValueRef → Memtable → Memtable
unfolding entry_bytes insert_entry old_entry fetch_add fetch_sub
insert_record key value m =
    let entries = insert_entry (record { key = key; value = value }) m.entries in
    elim (old_entry key m.entries) [
      | none ↦ record {
        entries = entries;
        estimated_bytes = fetch_add m.estimated_bytes (entry_bytes key value);
      }
      | some old ↦ record {
        entries = entries;
        estimated_bytes =
            fetch_add (fetch_sub m.estimated_bytes (entry_bytes key old.value))
              (entry_bytes key value);
      }
    ]

pub record Tombstone : Type 0 where
  pub range : KeyRange
  pub sequence : Sequence
  pub batch_index : ℕ

instance unfoldable pub Tombstone-like : RangeTombstoneLike Tombstone
Tombstone-like = record { range = λ t. t.range }

unfoldable pub covers_visible_point : Tombstone → Bytes → Sequence → ℕ → Sequence → Bool
unfolding key_is_in_range
covers_visible_point t key point_sequence point_batch_index read_sequence =
    if ltb read_sequence t.sequence || not (key_is_in_range key t.range)
    then false
    else (ltb point_sequence t.sequence
        || (t.sequence == point_sequence && ltb point_batch_index t.batch_index))

pub record ImmutableMemtable : Type 0 where
  pub memtable : Memtable
  pub range_tombstones : List Tombstone
  pub estimated_bytes : ℕ
  pub freeze_sequence : Sequence

pub record MemoryTree : Type 0 where
  pub active_memtable : Memtable
  pub range_tombstones : List Tombstone
  pub range_tombstone_bytes : ℕ
  pub immutable_memtables : List ImmutableMemtable

abbrev bound_bytes : Bound → ℕ
bound_bytes (included bytes) = length bytes
bound_bytes (excluded bytes) = length bytes
bound_bytes unbounded = 0

abbrev key_range_bytes : KeyRange → ℕ
key_range_bytes range = saturating_add (bound_bytes range.start) (bound_bytes range.end)

unfoldable pub range_tombstone_bytes : KeyRange → ℕ
range_tombstone_bytes range = saturating_add (saturating_add (key_range_bytes range) 8) 4

unfoldable pub apply_operation : BatchOperation → Sequence → ℕ → MemoryTree → MemoryTree
unfolding insert_record range_tombstone_bytes insert_sorted fetch_add
apply_operation (put_op bucket key value) sequence batch_index t = record t {
  active_memtable =
      insert_record
        (record { user_key = key; sequence = sequence; kind = put; batch_index = batch_index })
        (some (inline value)) t.active_memtable;
}
apply_operation (delete_op bucket key) sequence batch_index t = record t {
  active_memtable =
      insert_record
        (record {
          user_key = key;
          sequence = sequence;
          kind = point_delete;
          batch_index = batch_index;
        })
        none t.active_memtable;
}
apply_operation (delete_range_op bucket range) sequence batch_index t = record t {
  range_tombstones =
      insert_sorted t.range_tombstones
        (record { range = range; sequence = sequence; batch_index = batch_index });
  range_tombstone_bytes = fetch_add t.range_tombstone_bytes (range_tombstone_bytes range);
}

abbrev is_empty {ℓ} : {A : Type ℓ} → List A → Bool
is_empty [] = true
is_empty (x ∷ xs) = false

unfoldable pub freeze_active_memtable : Sequence → MemoryTree → Bool × MemoryTree
unfolding saturating_add
freeze_active_memtable freeze_sequence t =
    if is_empty t.active_memtable.entries && is_empty t.range_tombstones then (false, t) else (
      true,
      record {
        active_memtable = default_memtable;
        range_tombstones = [];
        range_tombstone_bytes = 0;
        immutable_memtables =
            t.immutable_memtables
            ++ (record {
              memtable = t.active_memtable;
              range_tombstones = t.range_tombstones;
              estimated_bytes =
                  saturating_add t.active_memtable.estimated_bytes t.range_tombstone_bytes;
              freeze_sequence = freeze_sequence;
            }
                ∷ []);
      },
    )
