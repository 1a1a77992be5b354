-- ===== src/Lsm/Compact/Written.antt =====
-- The records of the tables that a compaction writes (src/lsm/compact.rs).
use trine_kv.Prelude.{
  ℕ, ◌≡◌, refl, sym, ap, ◌∙◌, ◌⊎◌, Bool, true, false, not, ◌&&◌, List, [], ◌∷◌, ◌++◌, append_assoc,
  append-nil, Option, none, some, any, any-append, ltb, arith, Bool-cases, Option-cases, inl, inr,
}
use trine_kv.Keys.{Bytes, KeyRange}
use trine_kv.RangeTombstone.{key_is_in_range}
use trine_kv.Lsm.{Tombstone, MemtableEntry, saturating_add, range_tombstone_bytes}
use trine_kv.Lsm.Compact.Payloads.{
  CompactionChunk, CompactionTablePayload, assign, chunk_range, chunk_payloads, unassigned,
  none_assigned, tombstone_only_payloads, is_empty_list, compaction_payloads_from_chunks,
}
use trine_kv.Lsm.Compact.Spread.{payload_tombstones, payload_records, chunk_list_records}
use trine_kv.Lsm.Compact.Outputs.{tombstone_only_payloads-all}

abbrev made : CompactionChunk → List Tombstone → CompactionTablePayload
made c given = record { point_records = c.point_records; range_tombstones = given }

abbrev pub Outcome : Type 0
Outcome = List CompactionTablePayload × List Bool

pub chunk_payloads-none :
    (full : Bool) (ts : List Tombstone) (c : CompactionChunk) (cs : List CompactionChunk)
    (ms : List Bool)
    → chunk_range c.point_records ≡ none
    → chunk_payloads full ts (c ∷ cs) ms ≡ chunk_payloads full ts cs ms
unfolding chunk_payloads
chunk_payloads-none full ts c cs ms e = rw (e, chunk_payloads)

pub chunk_payloads-some :
    (full : Bool) (ts : List Tombstone) (c : CompactionChunk) (cs : List CompactionChunk)
    (ms : List Bool) (span : KeyRange)
    → chunk_range c.point_records ≡ some span
    → chunk_payloads full ts (c ∷ cs) ms ≡ (
      made c (assign full span ts ms).0 ∷ (chunk_payloads full ts cs (assign full span ts ms).1).0,
      (chunk_payloads full ts cs (assign full span ts ms).1).1,
    )
unfolding chunk_payloads
chunk_payloads-some full ts c cs ms span e = rw (e, chunk_payloads)

no_range : (c : CompactionChunk) → chunk_range c.point_records ≡ none → c.point_records ≡ []
unfolding chunk_range
no_range c h = empty c.point_records h
  where
    empty : (es : List MemtableEntry) → chunk_range es ≡ none → es ≡ []
    empty [] h = refl
    empty (e ∷ es) h = cc

-- The records of the chunks are in the tables, in their order.
chunk_payloads-records :
    (full : Bool) (ts : List Tombstone) (cs : List CompactionChunk) (ms : List Bool)
    → payload_records (chunk_payloads full ts cs ms).0 ≡ chunk_list_records cs
unfolding chunk_payloads
chunk_payloads-records full ts [] ms = refl
chunk_payloads-records full ts (c ∷ cs) ms = elim (Option-cases (chunk_range c.point_records)) [
  | inl e ↦
      ap (λ (r : Outcome). payload_records r.0) (chunk_payloads-none full ts c cs ms e)
      ∙ chunk_payloads-records full ts cs ms
      ∙ sym (ap (λ xs. xs ++ chunk_list_records cs) (no_range c e))
  | inr (span, e) ↦
      ap (λ (r : Outcome). payload_records r.0) (chunk_payloads-some full ts c cs ms span e)
      ∙ ap (λ xs. c.point_records ++ xs)
          (chunk_payloads-records full ts cs (assign full span ts ms).1)
]

-- Whether the span of a chunk holds a key.
abbrev pub in_span : Bytes → Option KeyRange → Bool
in_span key none = false
in_span key (some span) = key_is_in_range key span

abbrev pub in_chunks : Bytes → List CompactionChunk → Bool
in_chunks key cs = any (λ c. in_span key (chunk_range c.point_records)) cs

pub any_append_cases :
    (p : Tombstone → Bool) (xs ys : List Tombstone)
    → any p (xs ++ ys) ≡ true
    → (any p xs ≡ true) ⊎ (any p ys ≡ true)
any_append_cases p xs ys h = elim (Bool-cases (any p xs)) [
  | inl y ↦ inl y
  | inr n ↦ inr (ground (arith, any-append p xs ys, n, h))
]

payload_tombstones-append :
    (ps qs : List CompactionTablePayload)
    → payload_tombstones (ps ++ qs) ≡ payload_tombstones ps ++ payload_tombstones qs
payload_tombstones-append [] qs = refl
payload_tombstones-append (p ∷ ps) qs =
    ap (λ xs. p.range_tombstones ++ xs) (payload_tombstones-append ps qs)
    ∙ sym (append_assoc p.range_tombstones (payload_tombstones ps) (payload_tombstones qs))

payload_records-append :
    (ps qs : List CompactionTablePayload)
    → payload_records (ps ++ qs) ≡ payload_records ps ++ payload_records qs
payload_records-append [] qs = refl
payload_records-append (p ∷ ps) qs =
    ap (λ xs. p.point_records ++ xs) (payload_records-append ps qs)
    ∙ sym (append_assoc p.point_records (payload_records ps) (payload_records qs))

no_point_records :
    (target : ℕ) (pending : List Tombstone) (bytes : ℕ) (ts : List Tombstone)
    → payload_records (tombstone_only_payloads target pending bytes ts) ≡ []
unfolding tombstone_only_payloads
no_point_records target [] bytes [] = refl
no_point_records target (p ∷ ps) bytes [] = refl
no_point_records target pending bytes (t ∷ ts) =
    let size = range_tombstone_bytes t.range in
    let flush = not (is_empty_list pending) && ltb target (saturating_add bytes size) in
    elim (Bool-cases flush) [
      | inl y ↦ rw y (no_point_records target (t ∷ []) (saturating_add 0 size) ts)
      | inr n ↦ rw n (no_point_records target (pending ++ t ∷ []) (saturating_add bytes size) ts)
    ]

-- The output tables hold the records of the chunks.
pub outputs-records :
    (full : Bool) (target : ℕ) (ts : List Tombstone) (cs : List CompactionChunk)
    → payload_records (compaction_payloads_from_chunks full target ts cs) ≡ chunk_list_records cs
unfolding compaction_payloads_from_chunks
outputs-records full target ts cs =
    let made_payloads = chunk_payloads full ts cs (none_assigned ts) in
    payload_records-append made_payloads.0
      (tombstone_only_payloads target [] 0 (unassigned ts made_payloads.1))
    ∙ ap (λ xs. payload_records made_payloads.0 ++ xs)
        (no_point_records target [] 0 (unassigned ts made_payloads.1))
    ∙ append-nil (payload_records made_payloads.0)
    ∙ chunk_payloads-records full ts cs (none_assigned ts)

pub outputs-tombstones :
    (full : Bool) (target : ℕ) (ts : List Tombstone) (cs : List CompactionChunk)
    → payload_tombstones (compaction_payloads_from_chunks full target ts cs)
      ≡ payload_tombstones (chunk_payloads full ts cs (none_assigned ts)).0
        ++ unassigned ts (chunk_payloads full ts cs (none_assigned ts)).1
unfolding compaction_payloads_from_chunks
outputs-tombstones full target ts cs =
    let made_payloads = chunk_payloads full ts cs (none_assigned ts) in
    payload_tombstones-append made_payloads.0
      (tombstone_only_payloads target [] 0 (unassigned ts made_payloads.1))
    ∙ ap (λ xs. payload_tombstones made_payloads.0 ++ xs)
        (tombstone_only_payloads-all target [] 0 (unassigned ts made_payloads.1))
