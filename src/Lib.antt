-- ===== src/Lib.antt =====
-- A model of the core of the key-value store trine-kv, and what is proved of it.
--
-- The store commits batches of writes. A batch takes a commit sequence, is appended to the
-- write-ahead log, is applied to the in-memory tables and becomes visible; readers pin a visible
-- sequence; compactions drop versions that no reader can need. The modelled parts meet at the
-- sequence numbers: the log filters by them on replay, the commit tracker hands them out and
-- publishes them in order, the snapshot tracker weighs pinned ones against compactions, and
-- internal keys and range tombstones carry them.
--
-- Files and the code they are about (paths from the repository's root):
--   Prelude          names, lists, orders, sorting, association lists, little-endian numbers
--   Error            src/error.rs, the error kinds without messages, and `Result`
--   Keys             src/types.rs, src/internal_key.rs, src/mvcc.rs
--   RangeTombstone   src/range_tombstone.rs
--   Commit           src/db/commit_tracker.rs
--   Snapshot         src/snapshot.rs and the retention predicates of src/invariants.rs
--   Limits           src/limits.rs
--   Checksum         src/checksum.rs
--   Wal              src/wal/codec.rs, with the batch types of src/wal.rs and src/write_batch.rs
--   Lsm              src/memtable.rs, src/lsm/write.rs, src/lsm/tree.rs, src/blob.rs (value references)
--   Lsm.Point        src/lsm/read.rs, src/lsm/version.rs, src/table/read.rs (pruning)
--   Lsm.TableBounds  src/table/metadata.rs (key bounds)
--   Lsm.Compact      src/lsm/compact.rs (the tables that a compaction writes)
--   Lsm.Conflict     src/lsm/conflict.rs, src/lsm/version.rs (what a transaction's reads conflict with)
--   Transaction      src/transaction.rs, src/transaction/core.rs, src/db/commit.rs (validation)
--   Compaction       src/compaction.rs (the picker: which tables a compaction takes)
--   Lease            src/substrate/object_store/lease_state.rs
--   Search           src/search.rs (partition points)
--   Branch           src/branch/registry.rs, src/branch/transitions.rs (lifecycle and registry transactions)
--   Branch.Create    src/branch/transitions.rs (creation), src/branch/handle.rs (the registry's part of a write)
--   Tests            runs of the modelled code and the theorems at concrete arguments
--
-- State and operations. A component's state is a record with the fields of the Rust struct, and an
-- operation is a function with the Rust name. A method that changes its receiver takes the old
-- record and returns the new one; a method that can fail returns `Result`. One locked section of a
-- shared object is one function, and the interleavings of threads are the sequences of such
-- sections that a step relation allows (Commit.Visibility, Commit.Barrier, Snapshot.Steps). The pins of
-- `Db::snapshot` are plain pins of any version, and the states of Snapshot.Steps note those that are
-- taken below a floor.
-- Mutable buffers are passed along as lists of bytes, a cursor is its slice and its offset.
--
-- Numbers are natural numbers. A `u64` or `u32` has its bound as a test or as a hypothesis, a
-- wrapping counter has `% 2 ^ 64`, and a `usize` has 64 bits. A `BTreeMap` is an association list
-- in ascending order of its keys. Strings are their UTF-8 bytes. Where `std` leaves a result open
-- (`partition_point` on a list that is not partitioned, a binary search among equal elements) the
-- model takes the first position.
--
-- Loops. The advance loop of the commit tracker has one round more than there are slots, since each
-- round removes a slot. The replay loop has as many rounds as the log has bytes, since each round
-- passes a frame header. The binary search has as many rounds as there are indices, since each round
-- shortens its interval. The merge of a compaction has as many rounds as its sources have groups,
-- since each round takes one. The loops of the picker have one round more than there are tables, since
-- each round but the last adds one. The bounds are proved to be enough. All else recurs on a list or a
-- number.
--
-- Branches. A transaction on the registry is one step, since the store rejects one that conflicts
-- with another. A row holds the decoded entry, and a checkpoint stands under its branch's name. The
-- answer of `snapshot_at`, the drawn generation and the failures of the checkpoint calls are arguments
-- of the creation. A creation that finds its entry commits nothing, so that its registry is the one
-- that it read; a step of Branch.Lineage lets it ensure its checkpoint later, as also a creation that
-- is rejected does.
--
-- Compaction. A table's cursor is the list of its record groups in a range, and a table's index the
-- sorted list of its range tombstones. Reading a block does not fail. An input table
-- may be one without key bounds, whose two bounds are empty keys. The picker sees the tables of all
-- levels as a list, and the sums of their sizes are not cut off.
--
-- Transactions. The validation asks the captured sources of each bucket, which are those of a point
-- read; the theorems on it are about buckets that open. How a table finds the records of a key or a
-- range is an argument of the model.
--
-- Not modelled: lock poisoning, condition variables and wakers (a wait is its condition), the texts
-- of errors, files, object stores and the platform, the compression of tables, and the parts of the
-- store that only join these.
pub mod Prelude
pub mod Error
pub mod Keys
pub mod Limits
pub mod Checksum
pub mod RangeTombstone
pub mod Commit
pub mod Snapshot
pub mod Wal
pub mod Branch
pub mod Compaction
pub mod Lease
pub mod Lsm
pub mod Search
pub mod Transaction
pub mod Tests
