-- ===== src/Wal/Frames.antt =====
-- One round of the frame loop, over a whole frame and over a torn one (src/wal/codec.rs).
use trine_kv.Prelude.{
  ℕ, zero, suc, ◌+◌, ◌-◌, ◌≤◌, ◌<◌, ◌≡◌, refl, ap, sym, ◌∙◌, subst, inl, inr, true, List, [], ◌∷◌,
  ◌++◌, length, take, drop, leb, ltb, ◌==◌, if◌then◌else◌, length-append, length-drop, take-append,
  take-append-drop, leb→le, ltb→lt, Bool-cases, arith,
}
use trine_kv.Prelude.LittleEndian.{to_le_bytes, length-to_le_bytes, pow256}
use trine_kv.Error.{
  Result, ok, ◌>>◌, guard, invalid_options, corruption, unsupported_format, chain, pass, otherwise,
  guard-ok, bind-ok,
}
use trine_kv.Keys.{Bytes, Sequence, u32_max, u64_max}
use trine_kv.Checksum.{crc32c, crc32c_fits}
use trine_kv.Limits.{
  max_wal_frame_payload_bytes, checked_add_invalid_format, ensure_invalid_format_len,
}
use trine_kv.Wal.{
  BatchOperation, WalBatch, wal_magic, wal_format_version, header_checksum, encode_payload,
  encode_batch_frame,
}
use trine_kv.Wal.Read.{Cursor, read_at, Frame, incomplete, complete, read_frame}
use trine_kv.Wal.Fields.{At, left, skip, read_at-Reads}

-- A frame's header for a payload, and what follows it.
abbrev pub frame_layout : Bytes → Bytes → Bytes
frame_layout payload rest =
    to_le_bytes 4 wal_magic
    ++ (to_le_bytes 2 wal_format_version
        ++ (to_le_bytes 4 (length payload)
            ++ (to_le_bytes 4 (header_checksum (length payload) (crc32c payload))
                ++ (to_le_bytes 4 (crc32c payload) ++ rest))))

pub length-frame_layout :
    (payload rest : Bytes) → length (frame_layout payload rest) ≡ 18 + length rest
unfolding to_le_bytes
length-frame_layout payload rest = omega arith

pub frame_layout-append :
    (payload a b : Bytes) → frame_layout payload (a ++ b) ≡ frame_layout payload a ++ b
unfolding to_le_bytes
frame_layout-append payload a b = refl

take-within : (n : ℕ) (xs ys : Bytes) → n ≤ length xs → take n (xs ++ ys) ≡ take n xs
take-within zero xs ys h = refl
take-within (suc n) [] ys h = ground (arith, h)
take-within (suc n) (x ∷ xs) ys h = ap (λ t. x ∷ t) (take-within n xs ys (omega (arith, h)))

frame_layout-split :
    (payload a torn rest : Bytes)
    → frame_layout payload a ≡ torn ++ rest
    → 18 ≤ length torn
    → torn ≡ frame_layout payload (drop 18 torn)
unfolding to_le_bytes
frame_layout-split payload a torn rest e h =
    let same : take 18 torn ≡ take 18 (frame_layout payload a) =
      sym (take-within 18 torn rest h) ∙ ap (take 18) (sym e) in
    sym (take-append-drop 18 torn) ∙ ap (λ t. t ++ drop 18 torn) same

pub encode_batch_frame-layout :
    (sequence : Sequence) (os : List BatchOperation) (frame : Bytes)
    → encode_batch_frame sequence os ≡ ok frame
    → (payload : Bytes) × (encode_payload sequence os ≡ ok payload)
      × (length payload ≤ max_wal_frame_payload_bytes)
      × (frame_layout payload payload ≡ frame)
unfolding encode_batch_frame
encode_batch_frame-layout sequence os frame h =
    let (payload, e, h1) = bind-ok (encode_payload sequence os) _ h in
    let (short, h2) =
      guard-ok (leb (length payload) max_wal_frame_payload_bytes) invalid_options h1 in
    let (_, h3) = guard-ok (leb (length payload) u32_max) invalid_options h2 in
    (payload, e, leb→le _ _ short, ground (arith, h3))

header_checksum_fits : (n c : ℕ) → header_checksum n c ≤ u32_max
unfolding header_checksum
header_checksum_fits n c = crc32c_fits _

==-refl : (n : ℕ) → (n == n) ≡ true
==-refl n = ground arith

abbrev pub at_offset : Bytes → ℕ → Cursor
at_offset bytes offset = record { payload = bytes; offset = offset }

-- The number at an offset, and the cursor behind it.
number :
    (w n : ℕ) (bytes rest : Bytes) (o o' : ℕ)
    → n < pow256 w
    → o + w ≡ o'
    → At (at_offset bytes o) (to_le_bytes w n ++ rest)
    → (read_at w bytes o ≡ ok n) × At (at_offset bytes o') rest
number w n bytes rest o o' fits e at = (
  read_at-Reads w n (at_offset bytes o) rest fits at,
  subst (λ k. At (at_offset bytes k) rest) (ap (λ k. o + k) (length-to_le_bytes w n) ∙ e)
      (skip (at_offset bytes o) (to_le_bytes w n) rest at),
)

checked_add-ok : (a b : ℕ) → a + b ≤ u64_max → checked_add_invalid_format a b ≡ ok (a + b)
unfolding checked_add_invalid_format
checked_add-ok a b h = ground arith

ensure-ok : (a b : ℕ) → a ≤ b → ensure_invalid_format_len a b ≡ ok tt
unfolding ensure_invalid_format_len
ensure-ok a b h = ground arith

-- The cursor behind a header.
behind_header :
    (bytes payload rest : Bytes) (o : ℕ)
    → At (at_offset bytes o) (frame_layout payload rest)
    → At (at_offset bytes (o + 18)) rest
unfolding to_le_bytes
behind_header bytes payload rest o at = skip (at_offset bytes o) (frame_layout payload []) rest at

-- A round over a sound header: the frame is complete exactly if the payload is all there.
read_frame-layout :
    (bytes payload rest : Bytes) (o : ℕ) (r : Result Frame)
    → length payload ≤ max_wal_frame_payload_bytes
    → length bytes + max_wal_frame_payload_bytes ≤ u64_max
    → At (at_offset bytes o) (frame_layout payload rest)
    → ((if ltb (length bytes) (o + 18 + length payload)
          then ok incomplete
          else (guard
                (crc32c (take (o + 18 + length payload - (o + 18)) (drop (o + 18) bytes))
                  == crc32c payload)
                corruption
              >> ok (
                  complete
                    (take (o + 18 + length payload - (o + 18)) (drop (o + 18) bytes))
                    (o + 18 + length payload))))
        ≡ r)
    → read_frame bytes o ≡ r
unfolding read_frame
read_frame-layout bytes payload rest o r short room at h =
    let size = length-frame_layout payload rest in
    let all = left (at_offset bytes o) [] (frame_layout payload rest) at in
    let crc = crc32c_fits payload in
    let (e1, at1) = number 4 wal_magic bytes _ o (o + 4) (omega arith) refl at in
    let (e2, at2) =
      number 2 wal_format_version bytes _ (o + 4) (o + 6) (omega arith) (omega arith) at1 in
    let (e3, at3) =
      number 4 (length payload) bytes _ (o + 6) (o + 10) (omega (arith, short)) (omega arith) at2 in
    let (e4, at4) =
      number 4 (header_checksum (length payload) (crc32c payload)) bytes _ (o + 10) (o + 14)
        (omega (arith, header_checksum_fits (length payload) (crc32c payload))) (omega arith) at3 in
    let (e5, at5) =
      number 4 (crc32c payload) bytes _ (o + 14) (o + 18) (omega (arith, crc)) (omega arith) at4 in
    otherwise (ltb (length bytes - o) 18) (ok incomplete) (ground (arith, all, size)) (
      chain _ e1 (
        chain _ e2 (
          chain _ e3 (
            chain _ e4 (
              chain _ e5 (
                pass true corruption refl (
                  pass true unsupported_format refl (
                    pass _ corruption (==-refl (header_checksum (length payload) (crc32c payload)))
                      (chain _ (ensure-ok (length payload) max_wal_frame_payload_bytes short) (
                        chain _ (checked_add-ok o 18 (omega (arith, all, size, at.2))) (
                          chain _
                            (checked_add-ok (o + 18) (length payload)
                              (omega (arith, all, size, at.1, short, room)))
                            h)))))))))))

pub read_frame-whole :
    (bytes payload rest : Bytes) (o : ℕ)
    → length payload ≤ max_wal_frame_payload_bytes
    → length bytes + max_wal_frame_payload_bytes ≤ u64_max
    → At (at_offset bytes o) (frame_layout payload (payload ++ rest))
    → (read_frame bytes o ≡ ok (complete payload (o + 18 + length payload)))
      × At (at_offset bytes (o + 18 + length payload)) rest
read_frame-whole bytes payload rest o short room at =
    let size = length-frame_layout payload (payload ++ rest) in
    let all = left (at_offset bytes o) [] (frame_layout payload (payload ++ rest)) at in
    let at' = behind_header bytes payload (payload ++ rest) o at in
    let shown : take (o + 18 + length payload - (o + 18)) (drop (o + 18) bytes) ≡ payload =
      ap (λ k. take k (drop (o + 18) bytes)) (omega arith)
      ∙ ap (take (length payload)) at'.0
      ∙ take-append payload rest in
    (
      read_frame-layout bytes payload (payload ++ rest) o _ short room at (
          otherwise (ltb (length bytes) (o + 18 + length payload)) (ok incomplete)
            (ground (arith, all, size, length-append payload rest))
            (pass _ corruption
              (ap (λ p. crc32c p == crc32c payload) shown ∙ ==-refl (crc32c payload))
              (ap (λ p. ok (complete p (o + 18 + length payload))) shown))),
      skip (at_offset bytes (o + 18)) payload rest at',
    )

read_frame-torn :
    (bytes payload rest : Bytes) (o : ℕ)
    → length payload ≤ max_wal_frame_payload_bytes
    → length bytes + max_wal_frame_payload_bytes ≤ u64_max
    → At (at_offset bytes o) (frame_layout payload rest)
    → length rest < length payload
    → read_frame bytes o ≡ ok incomplete
read_frame-torn bytes payload rest o short room at torn =
    let size = length-frame_layout payload rest in
    let all = left (at_offset bytes o) [] (frame_layout payload rest) at in
    read_frame-layout bytes payload rest o (ok incomplete) short room at (ground (arith, all, size))

read_frame-short :
    (bytes rest : Bytes) (o : ℕ)
    → At (at_offset bytes o) rest
    → length rest < 18
    → read_frame bytes o ≡ ok incomplete
unfolding read_frame
read_frame-short bytes rest o at h = ground (arith, left (at_offset bytes o) [] rest at)

-- A proper prefix of an encoded frame.
abbrev pub IsTorn : Bytes → Type 0
IsTorn torn =
    (batch : WalBatch) × (rest : Bytes) × (encode_batch_frame batch.sequence batch.operations
      ≡ ok (torn ++ rest))
    × (0 < length rest)

pub read_frame-IsTorn :
    (bytes torn : Bytes) (o : ℕ)
    → IsTorn torn
    → length bytes + max_wal_frame_payload_bytes ≤ u64_max
    → At (at_offset bytes o) torn
    → read_frame bytes o ≡ ok incomplete
read_frame-IsTorn bytes torn o (batch, rest, encoded, missing) room at =
    let (payload, e, short, whole) =
      encode_batch_frame-layout batch.sequence batch.operations (torn ++ rest) encoded in
    elim (Bool-cases (ltb (length torn) 18)) [
      | inl few ↦ read_frame-short bytes torn o at (ltb→lt (length torn) 18 few)
      | inr many ↦
          let split = frame_layout-split payload payload torn rest whole (ground arith) in
          read_frame-torn bytes payload (drop 18 torn) o short room
            (subst (At (at_offset bytes o)) split at)
            (ground (
              arith,
              length-drop 18 torn,
              length-append torn rest,
              ap length whole,
              length-frame_layout payload payload,
            ))
    ]
