-- ===== src/Transaction/Validation.antt =====
-- What the validation of a transaction's reads decides (src/db/commit.rs).
use trine_kv.Prelude.{
  ◌≤◌, ◌≡◌, refl, Bool, false, ◌||◌, List, [], ◌∷◌, All, any, if◌then◌else◌, arith, Bool-cases, inl,
  inr,
}
use trine_kv.Error.{Result, ok, err, conflict}
use trine_kv.Keys.{Bytes, Sequence, KeyRange}
use trine_kv.Lsm.{MemtableEntry, Tombstone}
use trine_kv.Lsm.Point.{Table, LsmPointReadSnapshot, read_visible_point_value_in_snapshot}
use trine_kv.Lsm.Conflict.Memory.{modifies, modifies_range}
use trine_kv.Lsm.Conflict.Tombstones.{deletes, deletes_from, all_tombstones}
use trine_kv.Lsm.Conflict.Exact.{IsSource, all_records, point_modified_lem, range_modified_lem}
use trine_kv.Lsm.Conflict.Stable.{unmodified_reads_same}
use trine_kv.Transaction.{
  ReadKey, ReadRange, TransactionReadSet, validate_point_reads, validate_range_reads,
  validate_transaction_reads,
}

module _ (records_for_key : Table → Bytes → List MemtableEntry)
    (records_in_range : Table → KeyRange → List MemtableEntry)
    (records : Table → List MemtableEntry) (tombstones : Table → List Tombstone)
    (bucket_state : Bytes → Result LsmPointReadSnapshot)
    (sources : Bytes → LsmPointReadSnapshot) where
  abbrev bucket_records : Bytes → List MemtableEntry
  bucket_records bucket =
      all_records records_for_key records_in_range records tombstones (sources bucket)

  abbrev bucket_tombstones : Bytes → List Tombstone
  bucket_tombstones bucket = all_tombstones tombstones (sources bucket)

  -- Whether a record or a tombstone of the bucket is newer than the read.
  abbrev pub key_modified : Sequence → ReadKey → Bool
  key_modified read r =
      any (modifies r.key read) (bucket_records r.bucket)
      || any (deletes r.key read) (bucket_tombstones r.bucket)

  abbrev pub range_modified : Sequence → ReadRange → Bool
  range_modified read r =
      any (modifies_range r.range read) (bucket_records r.bucket)
      || any (deletes_from r.range read) (bucket_tombstones r.bucket)

  -- The bucket opens with its sources, as they were written.
  pub record HasSources (bucket : Bytes) : Type 0 where
    pub opened : bucket_state bucket ≡ ok (sources bucket)
    pub valid : IsSource records_for_key records_in_range records tombstones (sources bucket)

  -- The buckets of the reads open.
  abbrev pub AreSources : TransactionReadSet → Type 0
  AreSources read_set =
      All (λ (r : ReadKey). HasSources r.bucket) read_set.point_reads
      × All (λ (r : ReadRange). HasSources r.bucket) read_set.range_reads

  validate_point_reads-lem :
      (read : Sequence) (rs : List ReadKey)
      → All (λ (r : ReadKey). HasSources r.bucket) rs
      → validate_point_reads records_for_key records_in_range bucket_state read rs
        ≡ (if any (key_modified read) rs then err conflict else ok tt)
  unfolding validate_point_reads
  validate_point_reads-lem read [] v = refl
  validate_point_reads-lem read (r ∷ rs) (v, vs) =
      let rest = validate_point_reads-lem read rs vs in
      let here =
        point_modified_lem records_for_key records_in_range records tombstones (sources r.bucket)
          r.key read v.valid in
      rw v.opened (ground (arith, here, rest))

  validate_range_reads-lem :
      (read : Sequence) (rs : List ReadRange)
      → All (λ (r : ReadRange). HasSources r.bucket) rs
      → validate_range_reads records_for_key records_in_range bucket_state read rs
        ≡ (if any (range_modified read) rs then err conflict else ok tt)
  unfolding validate_range_reads
  validate_range_reads-lem read [] v = refl
  validate_range_reads-lem read (r ∷ rs) (v, vs) =
      let rest = validate_range_reads-lem read rs vs in
      let here =
        range_modified_lem records_for_key records_in_range records tombstones (sources r.bucket)
          r.range read v.valid in
      rw v.opened (ground (arith, here, rest))

  pub validate_transaction_reads-exact :
      (read : Sequence) (read_set : TransactionReadSet)
      → AreSources read_set
      → validate_transaction_reads records_for_key records_in_range bucket_state read read_set ≡ (
          if any (key_modified read) read_set.point_reads
            || any (range_modified read) read_set.range_reads
          then err conflict
          else ok tt)
  unfolding validate_transaction_reads
  validate_transaction_reads-exact read read_set v = ground (
    arith,
    validate_point_reads-lem read read_set.point_reads v.0,
    validate_range_reads-lem read read_set.range_reads v.1,
  )

  unmodified_reads :
      (read later : Sequence) (rs : List ReadKey)
      → All (λ (r : ReadKey). HasSources r.bucket) rs
      → read ≤ later
      → any (key_modified read) rs ≡ false
      → All
          (λ r.
            read_visible_point_value_in_snapshot (sources r.bucket) r.key later
            ≡ read_visible_point_value_in_snapshot (sources r.bucket) r.key read)
          rs
  unmodified_reads read later [] v le h = tt
  unmodified_reads read later (r ∷ rs) (v, vs) le h =
      let exact =
        point_modified_lem records_for_key records_in_range records tombstones (sources r.bucket)
          r.key read v.valid in
      (
        unmodified_reads_same records_for_key records_in_range records tombstones (sources r.bucket)
            r.key read later v.valid le (ground (arith, exact, h)),
        unmodified_reads read later rs vs le (ground (arith, h)),
      )

  -- If the reads of a transaction pass the validation, then each key that it read has in the sources
  -- of its bucket the same value at any later sequence as at the read. Each bucket that was read opens with
  -- its sources, as they were written.
  pub validated_reads_same :
      (read later : Sequence) (read_set : TransactionReadSet)
      → AreSources read_set
      → read ≤ later
      → validate_transaction_reads records_for_key records_in_range bucket_state read read_set
        ≡ ok tt
      → All
          (λ r.
            read_visible_point_value_in_snapshot (sources r.bucket) r.key later
            ≡ read_visible_point_value_in_snapshot (sources r.bucket) r.key read)
          read_set.point_reads
  validated_reads_same read later read_set v le h =
      unmodified_reads read later read_set.point_reads v.0 le
        (elim (Bool-cases (any (key_modified read) read_set.point_reads)) [
          | inr n ↦ n
          | inl y ↦ ground (arith, y, h, validate_transaction_reads-exact read read_set v)
        ])
