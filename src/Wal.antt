-- ===== src/Wal.antt =====
-- src/wal/codec.rs: the frames of the write-ahead log. A bucket name is the list of its UTF-8 bytes.
pub mod Read
pub mod Format
pub mod Fields
pub mod RoundTrip
pub mod Frames
pub mod Replay
use trine_kv.Prelude.{
  ℕ, zero, suc, ◌+◌, ◌≤◌, Bool, true, false, not, List, [], ◌∷◌, ◌++◌, length, filter, leb, ltb,
  ◌==◌, if◌then◌else◌,
}
use trine_kv.Prelude.LittleEndian.{to_le_bytes}
use trine_kv.Error.{Error, Result, ok, err, ◌>>=◌, ◌>>◌, guard, invalid_options}
use trine_kv.Keys.{Bytes, Sequence, u32_max, Bound, included, excluded, unbounded, KeyRange}
use trine_kv.Checksum.{crc32c}
use trine_kv.Limits.{max_wal_frame_payload_bytes}

pub data BatchOperation : Type 0 where
  put_op : (bucket key value : Bytes) → BatchOperation
  delete_op : (bucket key : Bytes) → BatchOperation
  delete_range_op : (bucket : Bytes) (range : KeyRange) → BatchOperation

pub record WalBatch : Type 0 where
  pub sequence : Sequence
  pub operations : List BatchOperation

abbrev pub wal_magic : ℕ
wal_magic = 1414682444

abbrev pub wal_format_version : ℕ
wal_format_version = 2

abbrev pub header_len : ℕ
header_len = 18

abbrev pub min_wal_operation_bytes : ℕ
min_wal_operation_bytes = 7

unfoldable pub put_u8 : Bytes → ℕ → Bytes
put_u8 bytes value = bytes ++ (value ∷ [])

unfoldable pub put_u32 : Bytes → ℕ → Bytes
put_u32 bytes value = bytes ++ to_le_bytes 4 value

unfoldable pub put_u64 : Bytes → ℕ → Bytes
put_u64 bytes value = bytes ++ to_le_bytes 8 value

unfoldable pub put_bytes : Bytes → Bytes → Result Bytes
unfolding put_u32
put_bytes bytes value = do
  guard (leb (length value) u32_max) invalid_options
  ok (put_u32 bytes (length value) ++ value)

unfoldable pub put_bound : Bytes → Bound → Result Bytes
unfolding put_u8 put_bytes
put_bound bytes unbounded = ok (put_u8 bytes 0)
put_bound bytes (included value) = put_bytes (put_u8 bytes 1) value
put_bound bytes (excluded value) = put_bytes (put_u8 bytes 2) value

-- The body of the loop in `encode_payload`.
unfoldable pub put_operation : Bytes → BatchOperation → Result Bytes
unfolding put_u8 put_bytes put_bound
put_operation bytes (put_op bucket key value) = do
  with_bucket ← put_bytes (put_u8 bytes 1) bucket
  with_key ← put_bytes with_bucket key
  put_bytes with_key value
put_operation bytes (delete_op bucket key) = do
  with_bucket ← put_bytes (put_u8 bytes 2) bucket
  put_bytes with_bucket key
put_operation bytes (delete_range_op bucket range) = do
  with_bucket ← put_bytes (put_u8 bytes 3) bucket
  with_start ← put_bound with_bucket range.start
  put_bound with_start range.end

unfoldable pub put_operations : Bytes → List BatchOperation → Result Bytes
unfolding put_operation
put_operations bytes [] = ok bytes
put_operations bytes (operation ∷ operations) = do
  longer ← put_operation bytes operation
  put_operations longer operations

unfoldable pub encode_payload : Sequence → List BatchOperation → Result Bytes
unfolding put_u32 put_u64 put_operations
encode_payload sequence operations = do
  guard (leb (length operations) u32_max) invalid_options
  put_operations (put_u32 (put_u64 [] sequence) (length operations)) operations

unfoldable pub header_checksum : ℕ → ℕ → ℕ
header_checksum payload_len payload_checksum = crc32c (
    to_le_bytes 4 wal_magic
    ++ (to_le_bytes 2 wal_format_version
        ++ (to_le_bytes 4 payload_len ++ to_le_bytes 4 payload_checksum)))

unfoldable pub encode_batch_frame : Sequence → List BatchOperation → Result Bytes
unfolding encode_payload header_checksum
encode_batch_frame sequence operations = do
  payload ← encode_payload sequence operations
  guard (leb (length payload) max_wal_frame_payload_bytes) invalid_options
  guard (leb (length payload) u32_max) invalid_options
  ok (
      to_le_bytes 4 wal_magic
      ++ (to_le_bytes 2 wal_format_version
          ++ (to_le_bytes 4 (length payload)
              ++ (to_le_bytes 4 (header_checksum (length payload) (crc32c payload))
                  ++ (to_le_bytes 4 (crc32c payload) ++ payload)))))

-- The loop over the batches above the floor.
unfoldable pub encode_batches : Bytes → List WalBatch → Result Bytes
unfolding encode_batch_frame
encode_batches bytes [] = ok bytes
encode_batches bytes (batch ∷ batches) = do
  frame ← encode_batch_frame batch.sequence batch.operations
  encode_batches (bytes ++ frame) batches

unfoldable pub encode_batches_after : List WalBatch → Sequence → Result Bytes
unfolding encode_batches
encode_batches_after batches replay_floor =
    encode_batches [] (filter (λ batch. ltb replay_floor batch.sequence) batches)
