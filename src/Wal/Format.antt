-- ===== src/Wal/Format.antt =====
-- The layout of a payload as a function of the batch, and what the writers append to it
-- (src/wal/codec.rs).
use trine_kv.Prelude.{
  ℕ, ◌≤◌, ◌≡◌, refl, ap, ◌∙◌, List, [], ◌∷◌, ◌++◌, length, leb, append_assoc, append-nil, leb→le,
  arith,
}
use trine_kv.Prelude.LittleEndian.{to_le_bytes}
use trine_kv.Error.{Result, ok, err, ◌>>=◌, guard-ok, invalid_options}
use trine_kv.Keys.{Bytes, Sequence, u32_max, Bound, included, excluded, unbounded}
use trine_kv.Wal.{
  BatchOperation, put_op, delete_op, delete_range_op, put_u8, put_u32, put_u64, put_bytes,
  put_bound, put_operation, put_operations, encode_payload,
}

abbrev pub field : Bytes → Bytes
field value = to_le_bytes 4 (length value) ++ value

abbrev pub bound_layout : Bound → Bytes
bound_layout unbounded = 0 ∷ []
bound_layout (included value) = 1 ∷ field value
bound_layout (excluded value) = 2 ∷ field value

abbrev pub operation_layout : BatchOperation → Bytes
operation_layout (put_op bucket key value) = 1 ∷ (field bucket ++ (field key ++ field value))
operation_layout (delete_op bucket key) = 2 ∷ (field bucket ++ field key)
operation_layout (delete_range_op bucket range) =
    3 ∷ (field bucket ++ (bound_layout range.start ++ bound_layout range.end))

abbrev pub operations_layout : List BatchOperation → Bytes
operations_layout [] = []
operations_layout (operation ∷ operations) =
    operation_layout operation ++ operations_layout operations

-- Every field has a length that a `u32` holds.
abbrev pub Fits : Bytes → Type 0
Fits value = length value ≤ u32_max

abbrev pub BoundFits : Bound → Type 0
BoundFits unbounded = Unit
BoundFits (included value) = Fits value
BoundFits (excluded value) = Fits value

abbrev pub OperationFits : BatchOperation → Type 0
OperationFits (put_op bucket key value) = Fits bucket × (Fits key × Fits value)
OperationFits (delete_op bucket key) = Fits bucket × Fits key
OperationFits (delete_range_op bucket range) =
    Fits bucket × (BoundFits range.start × BoundFits range.end)

abbrev pub OperationsFit : List BatchOperation → Type 0
OperationsFit [] = Unit
OperationsFit (operation ∷ operations) = OperationFits operation × OperationsFit operations

-- A writer that succeeds has appended a layout, and what it needed to fit did.
abbrev pub Appends : Result Bytes → Bytes → Bytes → Type 0 → Type 0
Appends r bytes layout Fit = (out : Bytes) → r ≡ ok out → (out ≡ bytes ++ layout) × Fit

put_bytes-Appends :
    (bytes value : Bytes) → Appends (put_bytes bytes value) bytes (field value) (Fits value)
unfolding put_bytes put_u32
put_bytes-Appends bytes value out h =
    ground (arith, append_assoc bytes (to_le_bytes 4 (length value)) value)

put_bound-Appends :
    (bytes : Bytes) (b : Bound) → Appends (put_bound bytes b) bytes (bound_layout b) (BoundFits b)
unfolding put_bound put_u8
put_bound-Appends bytes unbounded out h = ground arith
put_bound-Appends bytes (included value) out h =
    let (e, f) = put_bytes-Appends (bytes ++ (1 ∷ [])) value out h in
    (e ∙ append_assoc bytes (1 ∷ []) (field value), f)
put_bound-Appends bytes (excluded value) out h =
    let (e, f) = put_bytes-Appends (bytes ++ (2 ∷ [])) value out h in
    (e ∙ append_assoc bytes (2 ∷ []) (field value), f)

-- Two writers in a row.
both :
    {r : Result Bytes} (bytes first second : Bytes) {F G : Type 0} (k : Bytes → Result Bytes)
    → Appends r bytes first F
    → ((middle : Bytes) → Appends (k middle) middle second G)
    → Appends (r >>= k) bytes (first ++ second) (F × G)
both {r = ok middle} bytes first second k a b out h =
    let (e, f) = a middle refl in
    let (e', g) = b middle out h in
    (e' ∙ ap (λ m. m ++ second) e ∙ append_assoc bytes first second, (f, g))
both {r = err e} bytes first second k a b out h = cc

-- Under a tag.
tagged :
    {r : Result Bytes} (bytes : Bytes) (tag : ℕ) (layout : Bytes) {F : Type 0}
    → Appends r (bytes ++ (tag ∷ [])) layout F
    → Appends r bytes (tag ∷ layout) F
tagged bytes tag layout a out h =
    let (e, f) = a out h in (e ∙ append_assoc bytes (tag ∷ []) layout, f)

put_operation-Appends :
    (bytes : Bytes) (o : BatchOperation)
    → Appends (put_operation bytes o) bytes (operation_layout o) (OperationFits o)
unfolding put_operation put_u8
put_operation-Appends bytes (put_op bucket key value) = tagged bytes 1 _ (
    both (bytes ++ (1 ∷ [])) (field bucket) (field key ++ field value) _
      (put_bytes-Appends (bytes ++ (1 ∷ [])) bucket)
      (λ m.
        both m (field key) (field value) _ (put_bytes-Appends m key)
          (λ n. put_bytes-Appends n value)))
put_operation-Appends bytes (delete_op bucket key) = tagged bytes 2 _ (
    both (bytes ++ (2 ∷ [])) (field bucket) (field key) _
      (put_bytes-Appends (bytes ++ (2 ∷ [])) bucket) (λ m. put_bytes-Appends m key))
put_operation-Appends bytes (delete_range_op bucket range) = tagged bytes 3 _ (
    both (bytes ++ (3 ∷ [])) (field bucket) (bound_layout range.start ++ bound_layout range.end) _
      (put_bytes-Appends (bytes ++ (3 ∷ [])) bucket)
      (λ m.
        both m (bound_layout range.start) (bound_layout range.end) _
          (put_bound-Appends m range.start) (λ n. put_bound-Appends n range.end)))

put_operations-Appends :
    (bytes : Bytes) (os : List BatchOperation)
    → Appends (put_operations bytes os) bytes (operations_layout os) (OperationsFit os)
unfolding put_operations
put_operations-Appends bytes [] out h = ground (arith, append-nil bytes)
put_operations-Appends bytes (o ∷ os) out h =
    both bytes (operation_layout o) (operations_layout os) _ (put_operation-Appends bytes o)
      (λ m. put_operations-Appends m os) out h

abbrev pub payload_layout : Sequence → List BatchOperation → Bytes
payload_layout sequence os =
    to_le_bytes 8 sequence ++ (to_le_bytes 4 (length os) ++ operations_layout os)

-- A payload that is encoded has the layout of its batch.
pub encode_payload-layout :
    (sequence : Sequence) (os : List BatchOperation) (out : Bytes)
    → encode_payload sequence os ≡ ok out
    → (out ≡ payload_layout sequence os) × (length os ≤ u32_max) × OperationsFit os
unfolding encode_payload put_u64 put_u32
encode_payload-layout sequence os out h =
    let (counted, rest) = guard-ok (leb (length os) u32_max) invalid_options h in
    let (same, fit) =
      put_operations-Appends (to_le_bytes 8 sequence ++ to_le_bytes 4 (length os)) os out rest in
    (
      same
          ∙ append_assoc (to_le_bytes 8 sequence) (to_le_bytes 4 (length os))
              (operations_layout os),
      leb→le (length os) u32_max counted,
      fit,
    )
