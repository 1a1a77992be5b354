-- ===== src/Tests/TransactionTests.antt =====
-- The validation of a transaction's reads on the sources of the point reads (src/lsm/conflict.rs,
-- src/db/commit.rs).
use trine_kv.Prelude.{
  ℕ, ◌≡◌, ◌≤◌, refl, Bool, true, false, ◌||◌, List, [], ◌∷◌, some, All, any, filter, if◌then◌else◌,
  arith,
}
use trine_kv.Error.{Result, ok, err, conflict, invalid_options}
use trine_kv.Keys.{Bytes, KeyRange, half_open}
use trine_kv.RangeTombstone.{key_is_in_range}
use trine_kv.Lsm.{MemtableEntry, Tombstone, Tombstone-like}
use trine_kv.Lsm.Point.{Table, LsmPointReadSnapshot, read_visible_point_value_in_snapshot}
use trine_kv.Lsm.Candidate.{bytes_eq}
use trine_kv.Transaction.{
  TransactionReadSet, new_transaction, record_point_read, record_range_read,
  validate_transaction_reads,
}
use trine_kv.Transaction.Validation.{
  HasSources, AreSources, key_modified, range_modified, validate_transaction_reads-exact,
  validated_reads_same,
}
use trine_kv.Tests.LsmTests.{table_points, finite_deletion, full, full-IsSnapshot}

abbrev for_key : Table → Bytes → List MemtableEntry
for_key t key = filter (λ e. bytes_eq e.key.user_key key) table_points

abbrev in_range : Table → KeyRange → List MemtableEntry
in_range t range = filter (λ e. key_is_in_range e.key.user_key range) table_points

abbrev points : Table → List MemtableEntry
points t = table_points

abbrev deletions : Table → List Tombstone
deletions t = finite_deletion ∷ []

abbrev state_of : Bytes → Result LsmPointReadSnapshot
state_of bucket = if bytes_eq bucket (7 ∷ []) then ok full else err invalid_options

abbrev sources : Bytes → LsmPointReadSnapshot
sources bucket = full

abbrev read_set : TransactionReadSet
read_set = record {
  point_reads =
      record { bucket = 7 ∷ []; key = 1 ∷ [] } ∷ record { bucket = 7 ∷ []; key = 5 ∷ [] } ∷ [];
  range_reads = record { bucket = 7 ∷ []; range = half_open (2 ∷ []) (3 ∷ []) } ∷ [];
}

full-HasSources : HasSources for_key in_range points deletions state_of sources (7 ∷ [])
unfolding trine_kv.Prelude.Order.compare_bytes
full-HasSources = record {
  opened = refl;
  valid = record {
    snapshot = full-IsSnapshot;
    finds = ((record { for_key = λ key. refl; in_range = λ range. refl }, tt), tt);
  };
}

full-AreSources : AreSources for_key in_range points deletions state_of sources read_set
full-AreSources = ((full-HasSources, (full-HasSources, tt)), (full-HasSources, tt))

-- The reads are recorded in order.
recorded :
    (record_range_read (7 ∷ []) (half_open (2 ∷ []) (3 ∷ [])) (
      record_point_read
        (7 ∷ [])
        (5 ∷ [])
        (record_point_read (7 ∷ []) (1 ∷ []) (new_transaction 3)))).read_set
    ≡ read_set
unfolding record_range_read record_point_read new_transaction
recorded = refl

validate_transaction_reads-exact_example :
    validate_transaction_reads for_key in_range state_of 3 read_set ≡ (
      if any
          (key_modified for_key in_range points deletions state_of sources 3)
          read_set.point_reads
        || any
            (range_modified for_key in_range points deletions state_of sources 3)
            read_set.range_reads
      then err conflict
      else ok tt)
validate_transaction_reads-exact_example =
    validate_transaction_reads-exact for_key in_range points deletions state_of sources 3 read_set
      full-AreSources

passes : validate_transaction_reads for_key in_range state_of 12 read_set ≡ ok tt
unfolding validate_transaction_reads trine_kv.Prelude.Order.compare_bytes
    trine_kv.Prelude.Sort.sort_by trine_kv.Keys.compare_keys
    trine_kv.RangeTombstone.start_can_cover_key Tombstone-like key_is_in_range
    trine_kv.RangeTombstone.key_is_before_start trine_kv.RangeTombstone.key_is_after_end
    trine_kv.RangeTombstone.start_can_overlap_range
passes = refl

fails : validate_transaction_reads for_key in_range state_of 3 read_set ≡ err conflict
unfolding validate_transaction_reads trine_kv.Prelude.Order.compare_bytes
    trine_kv.Prelude.Sort.sort_by trine_kv.Keys.compare_keys
fails = refl

validated_reads_same_example :
    All
      (λ r.
        read_visible_point_value_in_snapshot (sources r.bucket) r.key 20
        ≡ read_visible_point_value_in_snapshot (sources r.bucket) r.key 12)
      read_set.point_reads
validated_reads_same_example =
    validated_reads_same for_key in_range points deletions state_of sources 12 20 read_set
      full-AreSources (omega arith) passes
