-- ===== src/Transaction.antt =====
-- src/transaction.rs, src/transaction/core.rs: the reads that a transaction records, and
-- src/db/commit.rs: their validation when it commits. The captured sources of a bucket, or the error of
-- its lookup, and the reads of the database are arguments.
pub mod Validation
use trine_kv.Prelude.{ℕ, Bool, true, false, List, [], ◌∷◌, ◌++◌, Option, none, some, if◌then◌else◌}
use trine_kv.Error.{Result, ok, err, guard, conflict, ◌>>=◌, ◌>>◌}
use trine_kv.Keys.{Bytes, Sequence, KeyRange}
use trine_kv.Lsm.{MemtableEntry, ValueRef}
use trine_kv.Lsm.Point.{Table, LsmPointReadSnapshot}
use trine_kv.Lsm.Conflict.{
  point_key_modified_after_in_snapshot, key_range_modified_after_in_snapshot,
}

pub record ReadKey : Type 0 where
  pub bucket : Bytes
  pub key : Bytes

pub record ReadRange : Type 0 where
  pub bucket : Bytes
  pub range : KeyRange

pub record TransactionReadSet : Type 0 where
  pub point_reads : List ReadKey
  pub range_reads : List ReadRange

-- Less the staged writes, the options and the extension claims, which the reads do not touch.
pub record TransactionCore : Type 0 where
  pub read_sequence : Sequence
  pub read_set : TransactionReadSet

unfoldable pub new_transaction : Sequence → TransactionCore
new_transaction read_sequence = record {
  read_sequence = read_sequence;
  read_set = record { point_reads = []; range_reads = [] };
}

unfoldable pub record_point_read : Bytes → Bytes → TransactionCore → TransactionCore
record_point_read bucket key t = record t {
  read_set = record t.read_set {
    point_reads = t.read_set.point_reads ++ record { bucket = bucket; key = key } ∷ [];
  };
}

unfoldable pub record_range_read : Bytes → KeyRange → TransactionCore → TransactionCore
record_range_read bucket range t = record t {
  read_set = record t.read_set {
    range_reads = t.read_set.range_reads ++ record { bucket = bucket; range = range } ∷ [];
  };
}

-- A read that fails is not recorded.
unfoldable pub get_bucket :
    (Bytes → Bytes → Sequence → Result (Option ValueRef))
    → Bytes
    → Bytes
    → TransactionCore
    → Result (Option ValueRef × TransactionCore)
unfolding record_point_read
get_bucket get_at_sequence bucket key t = get_at_sequence bucket key t.read_sequence >>= λ value.
    ok (value, record_point_read bucket key t)

-- The range is consumed before it is recorded.
unfoldable pub read_range_bucket :
    (Bytes → KeyRange → Sequence → Result (Unit {0}))
    → Bytes
    → KeyRange
    → TransactionCore
    → Result TransactionCore
unfolding record_range_read
read_range_bucket range_at_sequence bucket range t =
    range_at_sequence bucket range t.read_sequence >>= λ consumed.
    ok (record_range_read bucket range t)

module _ (records_for_key : Table → Bytes → List MemtableEntry)
    (records_in_range : Table → KeyRange → List MemtableEntry)
    (bucket_state : Bytes → Result LsmPointReadSnapshot) where
  unfoldable pub validate_point_reads : Sequence → List ReadKey → Result (Unit {0})
  unfolding point_key_modified_after_in_snapshot
  validate_point_reads read_sequence [] = ok tt
  validate_point_reads read_sequence (r ∷ rs) = bucket_state r.bucket >>= λ state.
      if point_key_modified_after_in_snapshot records_for_key records_in_range state r.key
        read_sequence
      then err conflict
      else validate_point_reads read_sequence rs

  unfoldable pub validate_range_reads : Sequence → List ReadRange → Result (Unit {0})
  unfolding key_range_modified_after_in_snapshot
  validate_range_reads read_sequence [] = ok tt
  validate_range_reads read_sequence (r ∷ rs) = bucket_state r.bucket >>= λ state.
      if key_range_modified_after_in_snapshot records_for_key records_in_range state r.range
        read_sequence
      then err conflict
      else validate_range_reads read_sequence rs

  unfoldable pub validate_transaction_reads : Sequence → TransactionReadSet → Result (Unit {0})
  unfolding validate_point_reads validate_range_reads
  validate_transaction_reads read_sequence read_set =
      validate_point_reads read_sequence read_set.point_reads >>= λ checked.
      validate_range_reads read_sequence read_set.range_reads
