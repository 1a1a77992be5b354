-- ===== src/Lsm/Compact/Tables.antt =====
-- The tables that a compaction writes hold its records, and cover what its tombstones cover
-- (src/lsm/compact.rs).
use trine_kv.Prelude.{
  ℕ, ◌≡◌, sym, ap, ◌∙◌, Bool, true, false, List, [], ◌∷◌, ◌++◌, append_assoc, any-append, arith,
  Bool-cases, Option-cases, inl, inr,
}
use trine_kv.Keys.{Bytes, Sequence}
use trine_kv.RangeTombstone.{key_is_in_range}
use trine_kv.Lsm.{Tombstone}
use trine_kv.Lsm.Compact.Payloads.{
  CompactionChunk, assign, chunk_range, chunk_payloads, unassigned, none_assigned,
  compaction_payloads_from_chunks,
}
use trine_kv.Lsm.Compact.Spread.{payload_tombstones, cov, assign_sound}
use trine_kv.Lsm.Compact.Outputs.{
  Fits, none_assigned-Fits, assign-Fits, unassigned-none, has_cover, unassigned_sound,
  assign_complete, assign_conserves,
}
use trine_kv.Lsm.Compact.Written.{
  Outcome, chunk_payloads-none, chunk_payloads-some, in_span, in_chunks, any_append_cases,
  outputs-tombstones,
}

module _ (key : Bytes) (point_sequence : Sequence) (point_batch_index : ℕ) (read : Sequence) where
  abbrev covered : List Tombstone → Bool
  covered ts = has_cover key point_sequence point_batch_index read ts

  abbrev c_of : Tombstone → Bool
  c_of = cov key point_sequence point_batch_index read

  left : (xs ys : List Tombstone) → covered xs ≡ true → covered (xs ++ ys) ≡ true
  left xs ys h = ground (arith, any-append c_of xs ys, h)

  right : (xs ys : List Tombstone) → covered ys ≡ true → covered (xs ++ ys) ≡ true
  right xs ys h = ground (arith, any-append c_of xs ys, h)

  chunk_payloads_sound :
      (full : Bool) (ts : List Tombstone) (cs : List CompactionChunk) (ms : List Bool)
      → covered (payload_tombstones (chunk_payloads full ts cs ms).0) ≡ true
      → covered ts ≡ true
  unfolding chunk_payloads
  chunk_payloads_sound full ts [] ms h = cc
  chunk_payloads_sound full ts (c ∷ cs) ms h = elim (Option-cases (chunk_range c.point_records)) [
    | inl e ↦ chunk_payloads_sound full ts cs ms (
        sym (
          ap (λ (r : Outcome). covered (payload_tombstones r.0))
            (chunk_payloads-none full ts c cs ms e))
        ∙ h)
    | inr (span, e) ↦
        elim (any_append_cases c_of (assign full span ts ms).0
          (payload_tombstones (chunk_payloads full ts cs (assign full span ts ms).1).0)
          (sym (
              ap (λ (r : Outcome). covered (payload_tombstones r.0))
                (chunk_payloads-some full ts c cs ms span e))
            ∙ h)) [
              | inl a ↦ assign_sound key point_sequence point_batch_index read full span ts ms a
              | inr b ↦ chunk_payloads_sound full ts cs (assign full span ts ms).1 b
            ]
  ]

  chunk_payloads_complete :
      (full : Bool) (ts : List Tombstone) (cs : List CompactionChunk) (ms : List Bool)
      → Fits ts ms
      → in_chunks key cs ≡ true
      → covered ts ≡ true
      → covered (payload_tombstones (chunk_payloads full ts cs ms).0) ≡ true
  unfolding chunk_payloads
  chunk_payloads_complete full ts [] ms f h k = cc
  chunk_payloads_complete full ts (c ∷ cs) ms f h k =
      elim (Option-cases (chunk_range c.point_records)) [
        | inl e ↦
            ap (λ (r : Outcome). covered (payload_tombstones r.0))
              (chunk_payloads-none full ts c cs ms e)
            ∙ chunk_payloads_complete full ts cs ms f (ground (arith, h, ap (in_span key) e)) k
        | inr (span, e) ↦
            let given = (assign full span ts ms).0 in
            let rest =
              payload_tombstones (chunk_payloads full ts cs (assign full span ts ms).1).0 in
            ap (λ (r : Outcome). covered (payload_tombstones r.0))
              (chunk_payloads-some full ts c cs ms span e)
            ∙ (elim (Bool-cases (key_is_in_range key span)) [
              | inl y ↦
                  left given rest (
                    assign_complete key point_sequence point_batch_index read full span ts ms f y k)
              | inr n ↦ right given rest (
                  chunk_payloads_complete full ts cs (assign full span ts ms).1
                    (assign-Fits full span ts ms f) (ground (arith, h, ap (in_span key) e, n)) k)
            ])
      ]

  chunk_payloads_conserve :
      (ts : List Tombstone) (cs : List CompactionChunk) (ms : List Bool)
      → Fits ts ms
      → covered (unassigned ts ms) ≡ true
      → covered (
          payload_tombstones (chunk_payloads false ts cs ms).0
          ++ unassigned ts (chunk_payloads false ts cs ms).1)
        ≡ true
  unfolding chunk_payloads
  chunk_payloads_conserve ts [] ms f h = h
  chunk_payloads_conserve ts (c ∷ cs) ms f h = elim (Option-cases (chunk_range c.point_records)) [
    | inl e ↦
        ap (λ (r : Outcome). covered (payload_tombstones r.0 ++ unassigned ts r.1))
          (chunk_payloads-none false ts c cs ms e)
        ∙ chunk_payloads_conserve ts cs ms f h
    | inr (span, e) ↦
        let given = (assign false span ts ms).0 in
        let later = chunk_payloads false ts cs (assign false span ts ms).1 in
        let both = payload_tombstones later.0 ++ unassigned ts later.1 in
        ap (λ (r : Outcome). covered (payload_tombstones r.0 ++ unassigned ts r.1))
          (chunk_payloads-some false ts c cs ms span e)
        ∙ ap covered (append_assoc given (payload_tombstones later.0) (unassigned ts later.1))
        ∙ (elim (assign_conserves key point_sequence point_batch_index read span ts ms f h) [
          | inl a ↦ left given both a
          | inr b ↦ right given both (
              chunk_payloads_conserve ts cs (assign false span ts ms).1
                (assign-Fits false span ts ms f) b)
        ])
  ]

  -- The tombstones of the output tables cover no more than the tombstones.
  pub outputs_sound :
      (full : Bool) (target : ℕ) (ts : List Tombstone) (cs : List CompactionChunk)
      → covered (payload_tombstones (compaction_payloads_from_chunks full target ts cs)) ≡ true
      → covered ts ≡ true
  outputs_sound full target ts cs h =
      let out = chunk_payloads full ts cs (none_assigned ts) in
      elim (any_append_cases c_of (payload_tombstones out.0) (unassigned ts out.1)
        (sym (ap covered (outputs-tombstones full target ts cs)) ∙ h)) [
          | inl a ↦ chunk_payloads_sound full ts cs (none_assigned ts) a
          | inr b ↦ unassigned_sound key point_sequence point_batch_index read ts out.1 b
        ]

  -- At a key within the span of an output table they cover as much.
  pub outputs_complete :
      (full : Bool) (target : ℕ) (ts : List Tombstone) (cs : List CompactionChunk)
      → in_chunks key cs ≡ true
      → covered ts ≡ true
      → covered (payload_tombstones (compaction_payloads_from_chunks full target ts cs)) ≡ true
  outputs_complete full target ts cs h k =
      let out = chunk_payloads full ts cs (none_assigned ts) in
      ap covered (outputs-tombstones full target ts cs)
      ∙ left (payload_tombstones out.0) (unassigned ts out.1)
          (chunk_payloads_complete full ts cs (none_assigned ts) (none_assigned-Fits ts) h k)

  -- In a partial compaction they cover as much at every key.
  pub outputs_conserve :
      (target : ℕ) (ts : List Tombstone) (cs : List CompactionChunk)
      → covered ts ≡ true
      → covered (payload_tombstones (compaction_payloads_from_chunks false target ts cs)) ≡ true
  outputs_conserve target ts cs h =
      ap covered (outputs-tombstones false target ts cs)
      ∙ chunk_payloads_conserve ts cs (none_assigned ts) (none_assigned-Fits ts)
          (ap covered (unassigned-none ts) ∙ h)
