-- ===== src/Wal/Read.antt =====
-- src/wal/codec.rs: the readers of payloads and frames.
use trine_kv.Prelude.{
  ℕ, zero, suc, ◌+◌, ◌-◌, ◌/◌, Bool, List, [], ◌∷◌, ◌++◌, none, some, length, get_elem?, take, drop,
  leb, ltb, ◌==◌, if◌then◌else◌,
}
use trine_kv.Prelude.LittleEndian.{from_le_bytes, slice?, is_utf8}
use trine_kv.Error.{
  Result, ok, err, ◌>>=◌, ◌>>◌, guard, invalid_format, corruption, unsupported_format,
}
use trine_kv.Keys.{Bytes, Sequence, Bound, included, excluded, unbounded}
use trine_kv.Checksum.{crc32c}
use trine_kv.Limits.{
  max_wal_frame_payload_bytes, ensure_invalid_format_len, checked_add_invalid_format,
}
use trine_kv.Wal.{
  BatchOperation, put_op, delete_op, delete_range_op, WalBatch, wal_magic, wal_format_version,
  header_len, min_wal_operation_bytes, header_checksum,
}

-- `read_u16_at`, `read_u32_at` and `read_u64_at` are this reader at 2, 4 and 8 bytes.
unfoldable pub read_at : ℕ → Bytes → ℕ → Result ℕ
unfolding checked_add_invalid_format
read_at width bytes offset = do
  end ← checked_add_invalid_format offset width
  elim (slice? bytes offset end) [
    | none ↦ err invalid_format
    | some value ↦ ok (from_le_bytes value)
  ]

pub record Cursor : Type 0 where
  pub payload : Bytes
  pub offset : ℕ

unfoldable pub read_u8 : Cursor → Result (ℕ × Cursor)
read_u8 c = elim (get_elem? c.payload c.offset) [
  | none ↦ err invalid_format
  | some value ↦ ok (value, record c { offset = c.offset + 1 })
]

-- `Cursor::read_u32` and `Cursor::read_u64`
unfoldable pub read_number : ℕ → Cursor → Result (ℕ × Cursor)
unfolding read_at
read_number width c = do
  value ← read_at width c.payload c.offset
  ok (value, record c { offset = c.offset + width })

unfoldable pub read_bytes : Cursor → Result (Bytes × Cursor)
unfolding read_number checked_add_invalid_format
read_bytes c = do
  (len, c1) ← read_number 4 c
  end ← checked_add_invalid_format c1.offset len
  elim (slice? c1.payload c1.offset end) [
    | none ↦ err invalid_format
    | some value ↦ ok (value, record c1 { offset = end })
  ]

-- The match on a bound's tag.
unfoldable pub read_tagged_bound : ℕ → Cursor → Result (Bound × Cursor)
unfolding read_bytes
read_tagged_bound tag c =
    if tag == 0
    then ok (unbounded, c)
    else if tag == 1
    then (do (value, c1) ← read_bytes c; ok (included value, c1))
    else if tag == 2
    then (do (value, c1) ← read_bytes c; ok (excluded value, c1))
    else err invalid_format

unfoldable pub read_bound : Cursor → Result (Bound × Cursor)
unfolding read_u8 read_tagged_bound
read_bound c = do (tag, c1) ← read_u8 c; read_tagged_bound tag c1

-- The match on an operation's tag.
unfoldable pub read_tagged_operation : ℕ → Bytes → Cursor → Result (BatchOperation × Cursor)
unfolding read_bytes read_bound
read_tagged_operation tag bucket c =
    if tag == 1
    then (do
      (key, c1) ← read_bytes c
      (value, c2) ← read_bytes c1
      ok (put_op bucket key value, c2))
    else if tag == 2
    then (do (key, c1) ← read_bytes c; ok (delete_op bucket key, c1))
    else if tag == 3
    then (do
      (start, c1) ← read_bound c
      (end, c2) ← read_bound c1
      ok (delete_range_op bucket (record { start = start; end = end }), c2))
    else err invalid_format

-- The body of the loop in `decode_payload`.
unfoldable pub read_operation : Cursor → Result (BatchOperation × Cursor)
unfolding read_u8 read_bytes read_tagged_operation
read_operation c = do
  (tag, c1) ← read_u8 c
  (bucket, c2) ← read_bytes c1
  guard (is_utf8 bucket) invalid_format
  read_tagged_operation tag bucket c2

unfoldable pub read_operations : ℕ → Cursor → Result (List BatchOperation × Cursor)
unfolding read_operation
read_operations zero c = ok ([], c)
read_operations (suc count) c = do
  (operation, c1) ← read_operation c
  (operations, c2) ← read_operations count c1
  ok (operation ∷ operations, c2)

unfoldable pub remaining_len : Cursor → ℕ
remaining_len c = length c.payload - c.offset

unfoldable pub is_finished : Cursor → Bool
is_finished c = c.offset == length c.payload

unfoldable pub decode_payload : Bytes → Result WalBatch
unfolding read_number read_operations remaining_len is_finished
decode_payload payload = do
  (sequence, c1) ← read_number 8 (record { payload = payload; offset = 0 })
  (op_count, c2) ← read_number 4 c1
  guard (leb op_count (remaining_len c2 / min_wal_operation_bytes)) invalid_format
  (operations, c3) ← read_operations op_count c2
  guard (is_finished c3) invalid_format
  ok (record { sequence = sequence; operations = operations })

unfoldable pub payload_sequence : Bytes → Result Sequence
unfolding read_at
payload_sequence payload = read_at 8 payload 0

-- What one round of the frame loop does: stop, fail, or go on behind a payload.
pub data Frame : Type 0 where
  incomplete : Frame
  complete : (payload : Bytes) (payload_end : ℕ) → Frame

unfoldable pub read_frame : Bytes → ℕ → Result Frame
unfolding read_at header_checksum ensure_invalid_format_len checked_add_invalid_format
read_frame bytes offset = if ltb (length bytes - offset) header_len then ok incomplete else do
  magic ← read_at 4 bytes offset
  version ← read_at 2 bytes (offset + 4)
  payload_len ← read_at 4 bytes (offset + 6)
  actual_header_checksum ← read_at 4 bytes (offset + 10)
  payload_checksum ← read_at 4 bytes (offset + 14)
  guard (magic == wal_magic) corruption
  guard (version == wal_format_version) unsupported_format
  guard (actual_header_checksum == header_checksum payload_len payload_checksum) corruption
  ensure_invalid_format_len payload_len max_wal_frame_payload_bytes
  payload_start ← checked_add_invalid_format offset header_len
  payload_end ← checked_add_invalid_format payload_start payload_len
  if ltb (length bytes) payload_end then ok incomplete else do
    let payload = take (payload_end - payload_start) (drop payload_start bytes)
    guard (crc32c payload == payload_checksum) corruption
    ok (complete payload payload_end)

unfoldable pub push_payload : Bytes → Sequence → List WalBatch → Result (List WalBatch)
unfolding payload_sequence decode_payload
push_payload payload replay_floor batches = do
  sequence ← payload_sequence payload
  if ltb replay_floor sequence
      then (do batch ← decode_payload payload; ok (batches ++ (batch ∷ [])))
      else ok batches

unfoldable pub decode_loop : ℕ → Bytes → Sequence → ℕ → List WalBatch → Result (List WalBatch)
unfolding read_frame push_payload
decode_loop zero bytes replay_floor offset batches = ok batches
decode_loop (suc fuel) bytes replay_floor offset batches =
    if leb (length bytes) offset then ok batches else do
      frame ← read_frame bytes offset
      elim frame [
        | incomplete ↦ ok batches
        | complete payload payload_end ↦ do
          longer ← push_payload payload replay_floor batches
          decode_loop fuel bytes replay_floor payload_end longer
      ]

-- Every frame has at least a header, so there are fewer rounds than bytes.
unfoldable pub decode_frames_after : Bytes → Sequence → Result (List WalBatch)
unfolding decode_loop
decode_frames_after bytes replay_floor = decode_loop (length bytes) bytes replay_floor 0 []
