-- ===== src/Wal/Replay.antt =====
-- Replaying the log: whole frames above the floor come back, and a torn last frame does not
-- (src/wal/codec.rs).
use trine_kv.Prelude.{
  ℕ, zero, suc, ◌+◌, ◌-◌, ◌≤◌, ◌<◌, ◌≡◌, refl, ap, sym, ◌∙◌, subst, inl, inr, List, [], ◌∷◌, ◌++◌,
  All, length, take, drop, filter, leb, ltb, ◌==◌, if◌then◌else◌, length-append, append_assoc,
  append-nil, filter-append, Bool-cases, arith,
}
use trine_kv.Error.{
  Result, ok, ◌>>=◌, corruption, unsupported_format, chain, otherwise, guard-ok, bind-ok, either,
  bind-same,
}
use trine_kv.Keys.{Bytes, Sequence, u64_max}
use trine_kv.Checksum.{crc32c}
use trine_kv.Limits.{
  max_wal_frame_payload_bytes, checked_add_invalid_format, ensure_invalid_format_len,
}
use trine_kv.Wal.{
  WalBatch, wal_magic, wal_format_version, header_checksum, encode_payload, encode_batch_frame,
  encode_batches, encode_batches_after,
}
use trine_kv.Wal.Read.{
  read_at, Frame, incomplete, complete, read_frame, push_payload, decode_loop, decode_frames_after,
}
use trine_kv.Wal.Fields.{At, left}
use trine_kv.Wal.RoundTrip.{NamesAreUtf8, decode_payload-encode_payload}
use trine_kv.Wal.Frames.{
  frame_layout, length-frame_layout, frame_layout-append, encode_batch_frame-layout, at_offset,
  read_frame-whole, read_frame-IsTorn, IsTorn,
}

-- Encoded batches, one frame behind the other.
data IsEncoding : List WalBatch → Bytes → Type 0 where
  nothing : IsEncoding [] []
  frame_then :
      (batch : WalBatch) (batches : List WalBatch) (frame rest : Bytes)
      → encode_batch_frame batch.sequence batch.operations ≡ ok frame
      → IsEncoding batches rest
      → IsEncoding (batch ∷ batches) (frame ++ rest)

encode_batches-IsEncoding :
    (bytes : Bytes) (batches : List WalBatch) (out : Bytes)
    → encode_batches bytes batches ≡ ok out
    → (xs : Bytes) × IsEncoding batches xs × (out ≡ bytes ++ xs)
unfolding encode_batches
encode_batches-IsEncoding bytes [] out h = ([], nothing, ground (arith, append-nil bytes))
encode_batches-IsEncoding bytes (batch ∷ batches) out h =
    let (frame, encoded, h') = bind-ok (encode_batch_frame batch.sequence batch.operations) _ h in
    let (xs, rest, e) = encode_batches-IsEncoding (bytes ++ frame) batches out h' in
    (frame ++ xs, frame_then batch batches frame xs encoded rest, e ∙ append_assoc bytes frame xs)

-- The numbers of a batch fit their types, and its bucket names are strings.
abbrev pub IsBatch : WalBatch → Type 0
IsBatch batch = (batch.sequence ≤ u64_max) × NamesAreUtf8 batch.operations

abbrev pub above : Sequence → List WalBatch → List WalBatch
above floor batches = filter (λ batch. ltb floor batch.sequence) batches

push_payload-encoded :
    (batch : WalBatch) (payload : Bytes) (floor : Sequence) (batches : List WalBatch)
    → encode_payload batch.sequence batch.operations ≡ ok payload
    → IsBatch batch
    → length payload ≤ u64_max
    → push_payload payload floor batches ≡ ok (batches ++ above floor (batch ∷ []))
unfolding push_payload
push_payload-encoded batch payload floor batches encoded valid size =
    let (decoded, seq) =
      decode_payload-encode_payload batch.sequence batch.operations payload encoded valid.0 valid.1
        size in
    chain _ seq (elim (Bool-cases (ltb floor batch.sequence)) [
      | inl e ↦ ground (arith, decoded)
      | inr e ↦ ground (arith, append-nil batches)
    ])

decode_loop-IsEncoding :
    {batches : List WalBatch} {xs : Bytes} (fuel : ℕ) (bytes torn : Bytes) (floor : Sequence)
    (o : ℕ) (done : List WalBatch)
    → IsEncoding batches xs
    → All IsBatch batches
    → IsTorn torn
    → length bytes + max_wal_frame_payload_bytes ≤ u64_max
    → length bytes ≤ o + fuel
    → At (at_offset bytes o) (xs ++ torn)
    → decode_loop fuel bytes floor o done ≡ ok (done ++ above floor batches)
unfolding decode_loop
decode_loop-IsEncoding zero bytes torn floor o done nothing valid is_torn room fuel_ok at =
    ap ok (sym (append-nil done))
decode_loop-IsEncoding (suc fuel) bytes torn floor o done nothing valid is_torn room fuel_ok at =
    elim (Bool-cases (leb (length bytes) o)) [
      | inl e ↦ ground (arith, append-nil done)
      | inr e ↦
          otherwise _ _ e (
            chain _ (read_frame-IsTorn bytes torn o is_torn room at)
              (ap ok (sym (append-nil done))))
    ]
decode_loop-IsEncoding zero bytes torn floor o done
      (frame_then batch batches frame rest encoded others) valid is_torn room fuel_ok at =
    let (payload, e, short, whole) =
      encode_batch_frame-layout batch.sequence batch.operations frame encoded in
    absurd (
      omega (
        arith,
        left (at_offset bytes o) [] ((frame ++ rest) ++ torn) at,
        length-append (frame ++ rest) torn,
        length-append frame rest,
        ap length whole,
        length-frame_layout payload payload,
        fuel_ok,
      ))
decode_loop-IsEncoding (suc fuel) bytes torn floor o done
      (frame_then batch batches frame rest encoded others) valid is_torn room fuel_ok at =
    let (payload, e, short, whole) =
      encode_batch_frame-layout batch.sequence batch.operations frame encoded in
    let split : (frame ++ rest) ++ torn ≡ frame_layout payload (payload ++ (rest ++ torn)) =
      append_assoc frame rest torn
      ∙ ap (λ f. f ++ (rest ++ torn)) (sym whole)
      ∙ sym (frame_layout-append payload payload (rest ++ torn)) in
    let at' = subst (At (at_offset bytes o)) split at in
    let (r, at'') = read_frame-whole bytes payload (rest ++ torn) o short room at' in
    let size = left (at_offset bytes o) [] (frame_layout payload (payload ++ (rest ++ torn))) at' in
    otherwise (leb (length bytes) o) (ok done)
      (ground (arith, size, length-frame_layout payload (payload ++ (rest ++ torn))))
      (chain _ r (
        chain _ (push_payload-encoded batch payload floor done e valid.0 (omega (arith, short))) (
          decode_loop-IsEncoding fuel bytes torn floor (o + 18 + length payload)
            (done ++ above floor (batch ∷ [])) others valid.1 is_torn room (omega (arith, fuel_ok))
            at''
          ∙ ap ok (
              append_assoc done (above floor (batch ∷ [])) (above floor batches)
              ∙ ap (λ l. done ++ l)
                  (sym (filter-append (λ b. ltb floor b.sequence) (batch ∷ []) batches))))))

-- The log of the batches above a floor, with an appended frame that is cut off anywhere (also
-- at its start), replays to the batches above both floors, in order, and the torn frame is left
-- out. The batches have 64-bit sequences and string names, and the log leaves room for one more
-- payload below the largest `usize`.
pub decode_frames-encode_batches :
    (batches : List WalBatch) (written_floor replay_floor : Sequence) (log torn : Bytes)
    → encode_batches_after batches written_floor ≡ ok log
    → All IsBatch (above written_floor batches)
    → IsTorn torn
    → length (log ++ torn) + max_wal_frame_payload_bytes ≤ u64_max
    → decode_frames_after (log ++ torn) replay_floor
      ≡ ok (above replay_floor (above written_floor batches))
unfolding encode_batches_after decode_frames_after
decode_frames-encode_batches batches written_floor replay_floor log torn h valid is_torn room =
    let (xs, encoding, e) = encode_batches-IsEncoding [] (above written_floor batches) log h in
    decode_loop-IsEncoding (length (log ++ torn)) (log ++ torn) torn replay_floor 0 [] encoding
      valid is_torn room (omega arith) (ap (λ l. l ++ torn) e, omega arith, omega (arith, room))

not_complete : (payload : Bytes) (o end : ℕ) → ok incomplete ≡ ok (complete payload end) → o < end
not_complete payload o end h = cc

same_end : (p q : Bytes) (e f : ℕ) → ok (complete p e) ≡ ok (complete q f) → e ≡ f
same_end p q e f h = cc

added :
    (o start len end end' : ℕ)
    → checked_add_invalid_format o 18 ≡ ok start
    → checked_add_invalid_format start len ≡ ok end'
    → end' ≡ end
    → o < end
unfolding checked_add_invalid_format
added o start len end end' e1 e2 e3 = ground arith

read_frame-advances :
    (bytes payload : Bytes) (o end : ℕ) → read_frame bytes o ≡ ok (complete payload end) → o < end
unfolding read_frame checked_add_invalid_format
read_frame-advances bytes payload o end h = elim (either (ltb (length bytes - o) 18) h) [
  | inl e ↦ not_complete payload o end e
  | inr h0 ↦
      let (magic, _, h1) = bind-ok (read_at 4 bytes o) _ h0 in
      let (version, _, h2) = bind-ok (read_at 2 bytes (o + 4)) _ h1 in
      let (len, _, h3) = bind-ok (read_at 4 bytes (o + 6)) _ h2 in
      let (header_crc, _, h4) = bind-ok (read_at 4 bytes (o + 10)) _ h3 in
      let (crc, _, h5) = bind-ok (read_at 4 bytes (o + 14)) _ h4 in
      let (_, h6) = guard-ok (magic == wal_magic) corruption h5 in
      let (_, h7) = guard-ok (version == wal_format_version) unsupported_format h6 in
      let (_, h8) = guard-ok (header_crc == header_checksum len crc) corruption h7 in
      let (_, _, h9) = bind-ok (ensure_invalid_format_len len max_wal_frame_payload_bytes) _ h8 in
      let (start, e1, h10) = bind-ok (checked_add_invalid_format o 18) _ h9 in
      let (end', e2, h11) = bind-ok (checked_add_invalid_format start len) _ h10 in
      elim (either (ltb (length bytes) end') h11) [
        | inl e ↦ not_complete payload o end e
        | inr h12 ↦
            let (_, h13) =
              guard-ok (crc32c (take (end' - start) (drop start bytes)) == crc) corruption h12 in
            added o start len end end' e1 e2 (same_end _ payload end' end h13)
      ]
]

-- What the loop does with a frame, with the fuel that is left.
abbrev next_round : ℕ → Bytes → Sequence → List WalBatch → Frame → Result (List WalBatch)
next_round fuel bytes floor done frame = elim frame [
  | incomplete ↦ ok done
  | complete payload payload_end ↦
      push_payload payload floor done >>= λ longer. decode_loop fuel bytes floor payload_end longer
]

decode_loop_settles :
    (f g : ℕ) (bytes : Bytes) (floor : Sequence) (o : ℕ) (done : List WalBatch)
    → length bytes ≤ o + f
    → length bytes ≤ o + g
    → decode_loop f bytes floor o done ≡ decode_loop g bytes floor o done
unfolding decode_loop
decode_loop_settles zero zero bytes floor o done hf hg = refl
decode_loop_settles zero (suc g) bytes floor o done hf hg = ground arith
decode_loop_settles (suc f) zero bytes floor o done hf hg = ground arith
decode_loop_settles (suc f) (suc g) bytes floor o done hf hg =
    ap (λ r. if leb (length bytes) o then ok done else r)
      (bind-same (read_frame bytes o) (next_round f bytes floor done)
        (next_round g bytes floor done)
        (λ frame.
          elim frame
            as (λ fr.
              read_frame bytes o ≡ ok fr
              → next_round f bytes floor done fr ≡ next_round g bytes floor done fr) [
                | incomplete ↦ λ e. refl
                | complete payload end ↦ λ e.
                    bind-same (push_payload payload floor done) _ _ (λ longer _.
                      let advances = read_frame-advances bytes payload o end e in
                      decode_loop_settles f g bytes floor end longer (omega (arith, advances, hf))
                        (omega (arith, advances, hg)))
              ]))

-- The replay loop stops by itself: any fuel that is at least the number of bytes gives the result
-- of `decode_frames_after`, on every input, damaged ones included.
pub decode_loop_settled :
    (fuel : ℕ) (bytes : Bytes) (floor : Sequence)
    → length bytes ≤ fuel
    → decode_loop fuel bytes floor 0 [] ≡ decode_frames_after bytes floor
unfolding decode_frames_after
decode_loop_settled fuel bytes floor h =
    decode_loop_settles fuel (length bytes) bytes floor 0 [] (omega (arith, h)) (omega arith)
