-- ===== src/Tests/WalTests.antt =====
-- A log of two batches (src/wal/codec.rs).
use trine_kv.Prelude.{
  ℕ, ◌+◌, ◌≤◌, ◌≡◌, refl, Bool, true, false, List, [], ◌∷◌, ◌++◌, Option, none, some, All, length,
  arith, take, drop,
}
use trine_kv.Error.{ok}
use trine_kv.Keys.{Bytes, included, unbounded}
use trine_kv.Checksum.{crc32c}
use trine_kv.Prelude.LittleEndian.{is_utf8}
use trine_kv.Wal.{
  BatchOperation, put_op, delete_op, delete_range_op, WalBatch, encode_payload, encode_batch_frame,
  encode_batches_after,
}
use trine_kv.Wal.Read.{decode_payload, payload_sequence, decode_loop, decode_frames_after}
use trine_kv.Wal.RoundTrip.{NamesAreUtf8, decode_payload-encode_payload}
use trine_kv.Wal.Frames.{IsTorn}
use trine_kv.Wal.Replay.{IsBatch, decode_frames-encode_batches, decode_loop_settled}

abbrev operations : List BatchOperation
operations =
    put_op (98 ∷ []) (1 ∷ []) (2 ∷ 3 ∷ [])
    ∷ delete_range_op (195 ∷ 164 ∷ []) (record { start = included (7 ∷ []); end = unbounded })
    ∷ []

abbrev first_batch : WalBatch
first_batch = record { sequence = 5; operations = operations }

abbrev second_batch : WalBatch
second_batch = record { sequence = 300; operations = delete_op [] (4 ∷ []) ∷ [] }

abbrev payload : Bytes
payload =
    5 ∷ 0 ∷ 0 ∷ 0 ∷ 0 ∷ 0 ∷ 0 ∷ 0 ∷ 2 ∷ 0 ∷ 0 ∷ 0 ∷ 1 ∷ 1 ∷ 0 ∷ 0 ∷ 0 ∷ 98 ∷ 1 ∷ 0 ∷ 0 ∷ 0 ∷ 1 ∷ 2
    ∷ 0 ∷ 0 ∷ 0 ∷ 2 ∷ 3 ∷ 3 ∷ 2 ∷ 0 ∷ 0 ∷ 0 ∷ 195 ∷ 164 ∷ 1 ∷ 1 ∷ 0 ∷ 0 ∷ 0 ∷ 7 ∷ 0 ∷ []

abbrev second_frame : Bytes
second_frame =
    76 ∷ 87 ∷ 82 ∷ 84 ∷ 2 ∷ 0 ∷ 22 ∷ 0 ∷ 0 ∷ 0 ∷ 33 ∷ 30 ∷ 43 ∷ 231 ∷ 254 ∷ 137 ∷ 144 ∷ 58 ∷ 44 ∷ 1
    ∷ 0 ∷ 0 ∷ 0 ∷ 0 ∷ 0 ∷ 0 ∷ 1 ∷ 0 ∷ 0 ∷ 0 ∷ 2 ∷ 0 ∷ 0 ∷ 0 ∷ 0 ∷ 1 ∷ 0 ∷ 0 ∷ 0 ∷ 4 ∷ []

abbrev log : Bytes
log =
    76
    ∷ 87
    ∷ 82
    ∷ 84
    ∷ 2
    ∷ 0
    ∷ 43
    ∷ 0
    ∷ 0
    ∷ 0
    ∷ 13
    ∷ 172
    ∷ 147
    ∷ 188
    ∷ 112
    ∷ 251
    ∷ 240
    ∷ 203
    ∷ (payload ++ second_frame)

-- The check value of CRC-32C.
crc32c_of_digits : crc32c (49 ∷ 50 ∷ 51 ∷ 52 ∷ 53 ∷ 54 ∷ 55 ∷ 56 ∷ 57 ∷ []) ≡ 3808858755
unfolding crc32c trine_kv.Checksum.table_entry
crc32c_of_digits = refl

payload_encoded : encode_payload 5 operations ≡ ok payload
unfolding encode_payload trine_kv.Prelude.LittleEndian.to_le_bytes
payload_encoded = refl

log_encoded : encode_batches_after (first_batch ∷ second_batch ∷ []) 0 ≡ ok log
unfolding encode_batches_after trine_kv.Prelude.LittleEndian.to_le_bytes crc32c
    trine_kv.Checksum.table_entry
log_encoded = refl

is_torn : IsTorn (take 25 second_frame)
unfolding encode_batch_frame trine_kv.Prelude.LittleEndian.to_le_bytes crc32c
    trine_kv.Checksum.table_entry
is_torn = (second_batch, drop 25 second_frame, refl, omega arith)

names : NamesAreUtf8 operations
unfolding is_utf8
names = (refl, (refl, tt))

decode_payload-encode_payload_example :
    (decode_payload payload ≡ ok first_batch) × (payload_sequence payload ≡ ok 5)
decode_payload-encode_payload_example =
    decode_payload-encode_payload 5 operations payload payload_encoded (omega arith) names
      (omega arith)

are_batches : All IsBatch (first_batch ∷ second_batch ∷ [])
unfolding is_utf8
are_batches = ((omega arith, names), ((omega arith, (refl, tt)), tt))

decode_frames-encode_batches_example :
    decode_frames_after (log ++ take 25 second_frame) 7 ≡ ok (second_batch ∷ [])
decode_frames-encode_batches_example =
    decode_frames-encode_batches (first_batch ∷ second_batch ∷ []) 0 7 log (take 25 second_frame)
      log_encoded are_batches is_torn (omega arith)

decode_loop_settled_example : decode_loop 200 log 7 0 [] ≡ decode_frames_after log 7
decode_loop_settled_example = decode_loop_settled 200 log 7 (omega arith)
