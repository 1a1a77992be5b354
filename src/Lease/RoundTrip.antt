-- ===== src/Lease/RoundTrip.antt =====
-- A lease state survives its encoding (src/substrate/object_store/lease_state.rs).
use trine_kv.Prelude.{
  ℕ, ◌+◌, ◌≤◌, ◌<◌, ◌≡◌, refl, sym, ap, ◌∙◌, subst, true, [], ◌++◌, Option, none, some, length,
  take, drop, leb, ◌==◌, take-append, length-append, append-nil, leb→le, arith,
}
use trine_kv.Prelude.LittleEndian.{
  to_le_bytes, length-to_le_bytes, from_le_bytes-to_le_bytes, pow256, drop-part, slice?-part,
  is_utf8,
}
use trine_kv.Error.{ok, guard-ok, chain, pass, corruption, invalid_options, otherwise}
use trine_kv.Keys.{Bytes, u32_max, u64_max}
use trine_kv.Lease.{
  ObjectLeaseState, object_lease_magic, object_lease_version, object_lease_max_bytes, key_bytes,
  encode_lease_state, slice, read_array, decode_lease_state, decode_lease_state_with_key,
}

-- The part of the bytes at an offset.
part_at :
    (bytes part rest : Bytes) (o o' : ℕ)
    → drop o bytes ≡ part ++ rest
    → o + length part ≡ o'
    → (slice bytes o o' ≡ part) × (drop o' bytes ≡ rest)
part_at bytes part rest o o' e h = (
  ap (λ k. take k (drop o bytes)) (omega (arith, h))
      ∙ ap (take (length part)) e
      ∙ take-append part rest,
  subst (λ k. drop k bytes ≡ rest) h (drop-part bytes part rest o e),
)

number_at :
    (w n : ℕ) (bytes rest : Bytes) (o o' : ℕ)
    → n < pow256 w
    → drop o bytes ≡ to_le_bytes w n ++ rest
    → o + w ≡ o'
    → (read_array w (slice bytes o o') ≡ ok n) × (drop o' bytes ≡ rest)
unfolding read_array
number_at w n bytes rest o o' fits e h =
    let size = length-to_le_bytes w n in
    let (part, left) = part_at bytes (to_le_bytes w n) rest o o' e (omega (arith, size, h)) in
    (ap (read_array w) part ∙ ground (arith, size, from_le_bytes-to_le_bytes w n fits), left)

abbrev key_field : Option Bytes → Bytes
key_field key = to_le_bytes 4 (length (key_bytes key)) ++ key_bytes key

abbrev layout : ObjectLeaseState → Bytes
layout s =
    to_le_bytes 4 object_lease_magic
    ++ (to_le_bytes 2 object_lease_version
        ++ (to_le_bytes 8 s.epoch
            ++ (s.owner_id
                ++ (to_le_bytes 8 s.committed_sequence
                    ++ (to_le_bytes 8 s.lease_expires_at_ms ++ key_field s.current_wal_key)))))

encode-layout :
    (s : ObjectLeaseState) (bytes : Bytes)
    → encode_lease_state s ≡ ok bytes
    → (bytes ≡ layout s)
      × (length (key_bytes s.current_wal_key) ≤ u32_max)
      × (length bytes ≤ object_lease_max_bytes)
unfolding encode_lease_state
encode-layout s bytes h =
    let (short_key, h1) =
      guard-ok (leb (length (key_bytes s.current_wal_key)) u32_max) invalid_options h in
    let (short, h2) =
      guard-ok (leb (length (layout s)) object_lease_max_bytes) invalid_options h1 in
    (ground (arith, h2), leb→le _ _ short_key, ground (arith, short, h2))

length-layout :
    (s : ObjectLeaseState)
    → length s.owner_id ≡ 16
    → length (layout s) ≡ 50 + length (key_bytes s.current_wal_key)
unfolding to_le_bytes
length-layout s h = omega (
  arith,
  h,
  length-append s.owner_id (
      to_le_bytes 8 s.committed_sequence
      ++ (to_le_bytes 8 s.lease_expires_at_ms ++ key_field s.current_wal_key)),
)

-- The key of a head is a string that is not empty.
abbrev pub IsHeadKey : Option Bytes → Type 0
IsHeadKey none = Unit
IsHeadKey (some key) = (is_utf8 key ≡ true) × (0 < length key)

with_key :
    (bytes : Bytes) (s : ObjectLeaseState) (key : Option Bytes)
    → drop 50 bytes ≡ key_bytes key
    → length bytes ≡ 50 + length (key_bytes key)
    → length bytes ≤ object_lease_max_bytes
    → IsHeadKey key
    → decode_lease_state_with_key bytes 50
        (length (key_bytes key))
        (record s { current_wal_key = none })
      ≡ ok (record s { current_wal_key = key })
unfolding decode_lease_state_with_key
with_key bytes s none e size short valid =
    pass (leb (50 + 0) u64_max) corruption (ground arith)
      (pass ((50 + 0) == length bytes) corruption (ground (arith, size)) refl)
with_key bytes s (some key) e size short (utf8, positive) =
    let part = slice?-part bytes key [] 50 (omega (arith, size)) (e ∙ sym (append-nil key)) in
    pass (leb (50 + length key) u64_max) corruption (ground (arith, size, short)) (
      pass ((50 + length key) == length bytes) corruption (ground (arith, size)) (
        otherwise (length key == 0) (ok (record s { current_wal_key = none }))
          (ground (arith, positive)) (ground (arith, part, utf8))))

-- A lease state that is encoded is decoded to itself. Its numbers are 64-bit, its owner has 16
-- bytes, and its key is none or a string that is not empty.
pub decode-encode :
    (s : ObjectLeaseState) (bytes : Bytes)
    → encode_lease_state s ≡ ok bytes
    → s.epoch ≤ u64_max
    → s.committed_sequence ≤ u64_max
    → s.lease_expires_at_ms ≤ u64_max
    → length s.owner_id ≡ 16
    → IsHeadKey s.current_wal_key
    → decode_lease_state bytes ≡ ok s
unfolding decode_lease_state
decode-encode s bytes h epoch_fits sequence_fits expiry_fits owner_size valid =
    let (e, key_fits, short) = encode-layout s bytes h in
    let (r1, d1) = number_at 4 object_lease_magic bytes _ 0 4 (omega arith) e refl in
    let (r2, d2) = number_at 2 object_lease_version bytes _ 4 6 (omega arith) d1 refl in
    let (r3, d3) = number_at 8 s.epoch bytes _ 6 14 (omega (arith, epoch_fits)) d2 refl in
    let (r4, d4) = part_at bytes s.owner_id _ 14 30 d3 (omega (arith, owner_size)) in
    let (r5, d5) =
      number_at 8 s.committed_sequence bytes _ 30 38 (omega (arith, sequence_fits)) d4 refl in
    let (r6, d6) =
      number_at 8 s.lease_expires_at_ms bytes _ 38 46 (omega (arith, expiry_fits)) d5 refl in
    let (r7, d7) =
      number_at 4 (length (key_bytes s.current_wal_key)) bytes (key_bytes s.current_wal_key) 46 50
        (omega (arith, key_fits)) d6 refl in
    let size : length bytes ≡ 50 + length (key_bytes s.current_wal_key) =
      ap length e ∙ length-layout s owner_size in
    let owned : decode_lease_state_with_key bytes 50 (length (key_bytes s.current_wal_key))
          (record s { owner_id = slice bytes 14 30; current_wal_key = none })
        ≡ ok s =
      ap
        (λ o.
          decode_lease_state_with_key bytes 50 (length (key_bytes s.current_wal_key))
            (record s { owner_id = o; current_wal_key = none }))
        r4
      ∙ with_key bytes s s.current_wal_key d7 size short valid in
    pass (leb 50 (length bytes)) corruption (ground (arith, size)) (
      chain _ r1 (
        pass _ corruption refl (
          chain _ r2 (
            pass _ corruption refl (
              chain _ r3 (
                pass (length (slice bytes 14 30) == 16) corruption
                  (ground (arith, ap length r4, owner_size))
                  (chain _ r5 (chain _ r6 (chain _ r7 owned)))))))))
