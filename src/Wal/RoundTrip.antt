-- ===== src/Wal/RoundTrip.antt =====
-- Reading back what was written (src/wal/codec.rs): payloads.
use trine_kv.Prelude.{
  ◌-◌, ◌*◌, ◌/◌, ◌≤◌, ◌≡◌, refl, sym, ◌∙◌, subst, true, List, [], ◌∷◌, ◌++◌, All, length, leb,
  length-append, append_assoc, append-nil, le→leb, arith,
}
use trine_kv.Prelude.LittleEndian.{to_le_bytes, length-to_le_bytes, is_utf8}
use trine_kv.Error.{Result, ok, ◌>>=◌, ◌>>◌, guard, invalid_format, chain, pass}
use trine_kv.Keys.{Bytes, Sequence, u64_max, Bound, included, excluded, unbounded}
use trine_kv.Wal.{BatchOperation, put_op, delete_op, delete_range_op, encode_payload}
use trine_kv.Wal.Read.{
  Cursor, read_bytes, read_tagged_bound, read_bound, read_tagged_operation, read_operation,
  read_operations, decode_payload, remaining_len, is_finished, payload_sequence,
}
use trine_kv.Wal.Format.{
  field, bound_layout, operation_layout, operations_layout, Fits, BoundFits, OperationFits,
  OperationsFit, payload_layout, encode_payload-layout,
}
use trine_kv.Wal.Fields.{
  At, Reads, Reads-bind, left, read_at-Reads, read_number-Reads, read_u8-Reads, read_bytes-Reads,
}

-- The last field that a reader takes, and its result.
last_field :
    {B : Type 0} (c : Cursor) (value rest : Bytes) (make : Bytes → B)
    → Fits value
    → At c (field value ++ rest)
    → Reads (read_bytes c >>= λ p. ok (make p.0, p.1)) (make value) rest
last_field c value rest make fit at =
    Reads-bind _ (read_bytes-Reads c value rest fit at) (λ c1 at1. (c1, refl, at1))

read_bound-Reads :
    (c : Cursor) (b : Bound) (rest : Bytes)
    → BoundFits b
    → At c (bound_layout b ++ rest)
    → Reads (read_bound c) b rest
unfolding read_bound read_tagged_bound
read_bound-Reads c unbounded rest fit at =
    Reads-bind _ (read_u8-Reads c 0 rest at) (λ c1 at1. (c1, refl, at1))
read_bound-Reads c (included value) rest fit at =
    Reads-bind _ (read_u8-Reads c 1 (field value ++ rest) at)
      (λ c1 at1. last_field c1 value rest included fit at1)
read_bound-Reads c (excluded value) rest fit at =
    Reads-bind _ (read_u8-Reads c 2 (field value ++ rest) at)
      (λ c1 at1. last_field c1 value rest excluded fit at1)

abbrev bucket_of : BatchOperation → Bytes
bucket_of (put_op bucket key value) = bucket
bucket_of (delete_op bucket key) = bucket
bucket_of (delete_range_op bucket range) = bucket

-- A field in front of another part.
field_then :
    {B : Type 0} {b : B} (c : Cursor) (value part rest rest' : Bytes)
    (k : Bytes × Cursor → Result (B × Cursor))
    → Fits value
    → At c ((field value ++ part) ++ rest)
    → ((c1 : Cursor) → At c1 (part ++ rest) → Reads (k (value, c1)) b rest')
    → Reads (read_bytes c >>= k) b rest'
field_then c value part rest rest' k fit at next =
    Reads-bind k
      (read_bytes-Reads c value (part ++ rest) fit
        (subst (At c) (append_assoc (field value) part rest) at))
      next

read_operation-Reads :
    (c : Cursor) (o : BatchOperation) (rest : Bytes)
    → OperationFits o
    → is_utf8 (bucket_of o) ≡ true
    → At c (operation_layout o ++ rest)
    → Reads (read_operation c) o rest
unfolding read_operation read_tagged_operation
read_operation-Reads c (put_op bucket key value) rest (fit_bucket, (fit_key, fit_value)) utf8 at =
    Reads-bind _ (read_u8-Reads c 1 _ at) (λ c1 at1.
      field_then c1 bucket (field key ++ field value) rest rest _ fit_bucket at1 (λ c2 at2.
        subst
          (λ u.
            Reads (guard u invalid_format >> read_tagged_operation 1 bucket c2)
              (put_op bucket key value) rest)
          (sym utf8)
          (field_then c2 key (field value) rest rest _ fit_key at2
            (λ c3 at3. last_field c3 value rest (put_op bucket key) fit_value at3))))
read_operation-Reads c (delete_op bucket key) rest (fit_bucket, fit_key) utf8 at =
    Reads-bind _ (read_u8-Reads c 2 _ at) (λ c1 at1.
      field_then c1 bucket (field key) rest rest _ fit_bucket at1 (λ c2 at2.
        subst
          (λ u.
            Reads (guard u invalid_format >> read_tagged_operation 2 bucket c2)
              (delete_op bucket key) rest)
          (sym utf8) (last_field c2 key rest (delete_op bucket) fit_key at2)))
read_operation-Reads c (delete_range_op bucket range) rest (fit_bucket, (fit_start, fit_end)) utf8
      at =
    Reads-bind _ (read_u8-Reads c 3 _ at) (λ c1 at1.
      field_then c1 bucket (bound_layout range.start ++ bound_layout range.end) rest rest _
        fit_bucket at1
        (λ c2 at2.
          subst
            (λ u.
              Reads (guard u invalid_format >> read_tagged_operation 3 bucket c2)
                (delete_range_op bucket range) rest)
            (sym utf8)
            (Reads-bind _
              (read_bound-Reads c2 range.start (bound_layout range.end ++ rest) fit_start (
                subst (At c2)
                  (append_assoc (bound_layout range.start) (bound_layout range.end) rest) at2))
              (λ c3 at3.
                Reads-bind _ (read_bound-Reads c3 range.end rest fit_end at3)
                  (λ c4 at4. (c4, refl, at4))))))

-- Bucket names are strings.
abbrev pub NamesAreUtf8 : List BatchOperation → Type 0
NamesAreUtf8 os = All (λ o. is_utf8 (bucket_of o) ≡ true) os

read_operations-Reads :
    (c : Cursor) (os : List BatchOperation) (rest : Bytes)
    → OperationsFit os
    → NamesAreUtf8 os
    → At c (operations_layout os ++ rest)
    → Reads (read_operations (length os) c) os rest
unfolding read_operations
read_operations-Reads c [] rest fit utf8 at = (c, refl, at)
read_operations-Reads c (o ∷ os) rest fit utf8 at =
    Reads-bind _
      (read_operation-Reads c o (operations_layout os ++ rest) fit.0 utf8.0
        (subst (At c) (append_assoc (operation_layout o) (operations_layout os) rest) at))
      (λ c1 at1.
        Reads-bind _ (read_operations-Reads c1 os rest fit.1 utf8.1 at1)
          (λ c2 at2. (c2, refl, at2)))

length-bound_layout : (b : Bound) → 1 ≤ length (bound_layout b)
length-bound_layout unbounded = omega arith
length-bound_layout (included value) = omega arith
length-bound_layout (excluded value) = omega arith

length-operation_layout : (o : BatchOperation) → 7 ≤ length (operation_layout o)
length-operation_layout (put_op bucket key value) = omega (
  arith,
  length-append (field bucket) (field key ++ field value),
  length-append (field key) (field value),
  length-append (to_le_bytes 4 (length bucket)) bucket,
  length-to_le_bytes 4 (length bucket),
  length-append (to_le_bytes 4 (length key)) key,
  length-to_le_bytes 4 (length key),
)
length-operation_layout (delete_op bucket key) = omega (
  arith,
  length-append (field bucket) (field key),
  length-append (to_le_bytes 4 (length bucket)) bucket,
  length-to_le_bytes 4 (length bucket),
  length-append (to_le_bytes 4 (length key)) key,
  length-to_le_bytes 4 (length key),
)
length-operation_layout (delete_range_op bucket range) = omega (
  arith,
  length-append (field bucket) (bound_layout range.start ++ bound_layout range.end),
  length-append (bound_layout range.start) (bound_layout range.end),
  length-append (to_le_bytes 4 (length bucket)) bucket,
  length-to_le_bytes 4 (length bucket),
  length-bound_layout range.start,
  length-bound_layout range.end,
)

length-operations_layout :
    (os : List BatchOperation) → 7 * length os ≤ length (operations_layout os)
length-operations_layout [] = omega arith
length-operations_layout (o ∷ os) = omega (
  arith,
  length-operation_layout o,
  length-operations_layout os,
  length-append (operation_layout o) (operations_layout os),
)

payload_start :
    (payload xs : Bytes)
    → payload ≡ xs
    → length payload ≤ u64_max
    → At (record { payload = payload; offset = 0 }) (xs ++ [])
payload_start payload xs e h = (e ∙ sym (append-nil xs), omega arith, h)

enough :
    (c : Cursor) (os : List BatchOperation)
    → At c (operations_layout os ++ [])
    → leb (length os) (remaining_len c / 7) ≡ true
unfolding remaining_len
enough c os at =
    le→leb (length os) ((length c.payload - c.offset) / 7)
      (omega (arith, left c (operations_layout os) [] at, length-operations_layout os))

finished : (c : Cursor) → At c [] → is_finished c ≡ true
unfolding is_finished
finished c at = ground (arith, left c [] [] at, at.1)

-- A payload that was encoded is decoded to the same sequence and the same operations in the same
-- order, and its sequence can be read alone. The sequence is a `u64`, the bucket names are
-- strings, and the payload is no longer than a `usize` counts.
pub decode_payload-encode_payload :
    (sequence : Sequence) (os : List BatchOperation) (payload : Bytes)
    → encode_payload sequence os ≡ ok payload
    → sequence ≤ u64_max
    → NamesAreUtf8 os
    → length payload ≤ u64_max
    → (decode_payload payload ≡ ok (record { sequence = sequence; operations = os }))
      × (payload_sequence payload ≡ ok sequence)
unfolding decode_payload payload_sequence
decode_payload-encode_payload sequence os payload h fits utf8 size =
    let (layout, count_fits, os_fit) = encode_payload-layout sequence os payload h in
    let at0 = payload_start payload (payload_layout sequence os) layout size in
    let tail = to_le_bytes 4 (length os) ++ operations_layout os in
    let at0' =
      subst (At (record { payload = payload; offset = 0 }))
        (append_assoc (to_le_bytes 8 sequence) tail []) at0 in
    let (c1, e1, at1) = read_number-Reads 8 sequence _ (tail ++ []) (omega (arith, fits)) at0' in
    let (c2, e2, at2) =
      read_number-Reads 4 (length os) c1 (operations_layout os ++ []) (omega (arith, count_fits))
        (subst (At c1) (append_assoc (to_le_bytes 4 (length os)) (operations_layout os) []) at1) in
    let (c3, e3, at3) = read_operations-Reads c2 os [] os_fit utf8 at2 in
    (
      chain _ e1 (
          chain _ e2 (
            pass _ invalid_format (enough c2 os at2)
              (chain _ e3 (pass _ invalid_format (finished c3 at3) refl)))),
      read_at-Reads 8 sequence (record { payload = payload; offset = 0 }) (tail ++ [])
          (omega (arith, fits)) at0',
    )
