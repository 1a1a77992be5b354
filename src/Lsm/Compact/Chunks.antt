-- ===== src/Lsm/Compact/Chunks.antt =====
-- The chunks hold the compacted records in ascending order of their user keys, and the marks say
-- which tombstones still cover one of them (src/lsm/compact.rs).
use trine_kv.Prelude.{
  ℕ, ◌≡◌, refl, sym, ap, fun_ext, ◌∙◌, Bool, true, false, not, ◌&&◌, ◌||◌, List, [], ◌∷◌, ◌++◌,
  append_assoc, append-nil, any, any-append, filter, map, ltb, Bool-cases, inl, inr,
}
use trine_kv.Keys.{Sequence}
use trine_kv.Lsm.{MemtableEntry, Tombstone, saturating_add}
use trine_kv.Lsm.Compact.{
  RecordGroup, still_covers, mark_one, mark_tombstones_covering_records, marked,
}
use trine_kv.Lsm.Compact.Payloads.{
  CompactionChunk, Chunks, CompactionLoop, is_empty_list, records_bytes,
  push_compaction_records_to_chunks, compacted_group, push_group, compact_groups, all_chunks,
  none_assigned,
}
use trine_kv.Lsm.Compact.Rounds.{compacted_records}
use trine_kv.Lsm.Compact.Spread.{chunk_list_records}

abbrev pub chunk_records : Chunks → List MemtableEntry
chunk_records (chunks, current) = chunk_list_records chunks ++ current.point_records

chunk_list_records-append :
    (cs ds : List CompactionChunk)
    → chunk_list_records (cs ++ ds) ≡ chunk_list_records cs ++ chunk_list_records ds
chunk_list_records-append [] ds = refl
chunk_list_records-append (c ∷ cs) ds =
    ap (λ xs. c.point_records ++ xs) (chunk_list_records-append cs ds)
    ∙ sym (append_assoc c.point_records (chunk_list_records cs) (chunk_list_records ds))

push-records :
    (target : ℕ) (s : Chunks) (es : List MemtableEntry)
    → chunk_records (push_compaction_records_to_chunks target s es) ≡ chunk_records s ++ es
unfolding push_compaction_records_to_chunks
push-records target (chunks, current) es =
    elim (Bool-cases (
      not (is_empty_list current.point_records)
      && ltb target (saturating_add current.estimated_bytes (records_bytes es)))) [
        | inl y ↦ rw y (
            ap (λ xs. xs ++ es)
              (chunk_list_records-append chunks (current ∷ [])
                ∙ ap (λ xs. chunk_list_records chunks ++ xs) (append-nil current.point_records)))
        | inr n ↦ rw n (sym (append_assoc (chunk_list_records chunks) current.point_records es))
      ]

empty_list : {A : Type 0} (xs : List A) → is_empty_list xs ≡ true → xs ≡ []
empty_list [] h = refl
empty_list (x ∷ xs) h = cc

push_group-records :
    (target : ℕ) (ts : List Tombstone) (s : CompactionLoop) (es : List MemtableEntry)
    → chunk_records (push_group target ts s es).chunks ≡ chunk_records s.chunks ++ es
unfolding push_group
push_group-records target ts s [] = sym (append-nil (chunk_records s.chunks))
push_group-records target ts s (e ∷ es) = push-records target s.chunks (e ∷ es)

-- The loop appends the records of each group.
pub compact_groups-records :
    (oldest : Sequence) (full : Bool) (target : ℕ) (ts : List Tombstone) (s : CompactionLoop)
    (gs : List RecordGroup)
    → chunk_records (compact_groups oldest full target ts s gs).chunks
      ≡ chunk_records s.chunks ++ compacted_records oldest full ts gs
unfolding compact_groups
compact_groups-records oldest full target ts s [] = sym (append-nil (chunk_records s.chunks))
compact_groups-records oldest full target ts s (g ∷ gs) =
    let es = compacted_group oldest full ts g in
    compact_groups-records oldest full target ts (push_group target ts s es) gs
    ∙ ap (λ xs. xs ++ compacted_records oldest full ts gs) (push_group-records target ts s es)
    ∙ append_assoc (chunk_records s.chunks) es (compacted_records oldest full ts gs)

pub all_chunks-records : (s : Chunks) → chunk_list_records (all_chunks s) ≡ chunk_records s
all_chunks-records (chunks, current) = elim (Bool-cases (is_empty_list current.point_records)) [
  | inl y ↦ rw y (
      sym (append-nil (chunk_list_records chunks))
      ∙ ap (λ xs. chunk_list_records chunks ++ xs) (sym (empty_list current.point_records y)))
  | inr n ↦ rw n (
      chunk_list_records-append chunks (current ∷ [])
      ∙ ap (λ xs. chunk_list_records chunks ++ xs) (append-nil current.point_records))
]

-- The marks after some records, where they were the values of a test.
abbrev pub marks_by : (Tombstone → Bool) → List Tombstone → List Bool
marks_by p ts = map p ts

mark_one-marks :
    (p : Tombstone → Bool) (e : MemtableEntry) (ts : List Tombstone)
    → mark_one e ts (marks_by p ts) ≡ marks_by (λ t. still_covers e t || p t) ts
mark_one-marks p e [] = refl
mark_one-marks p e (t ∷ ts) = ap (λ ms. (still_covers e t || p t) ∷ ms) (mark_one-marks p e ts)

-- Whether a tombstone still covers one of the records.
abbrev pub covers_one : List MemtableEntry → Tombstone → Bool
covers_one es t = any (λ e. still_covers e t) es

or_false : (a : Bool) → a ≡ (a || false)
or_false true = refl
or_false false = refl

or_shift : (a b c : Bool) → (b || (a || c)) ≡ ((a || b) || c)
or_shift true true c = refl
or_shift true false c = refl
or_shift false true c = refl
or_shift false false c = refl

or_assoc : (a b c : Bool) → (a || (b || c)) ≡ ((a || b) || c)
or_assoc true b c = refl
or_assoc false b c = refl

mark-marks :
    (p : Tombstone → Bool) (es : List MemtableEntry) (ts : List Tombstone)
    → mark_tombstones_covering_records ts (marks_by p ts) es
      ≡ marks_by (λ t. p t || covers_one es t) ts
unfolding mark_tombstones_covering_records
mark-marks p [] ts = ap (λ q. marks_by q ts) (fun_ext (λ t. or_false (p t)))
mark-marks p (e ∷ es) ts =
    ap (λ ms. mark_tombstones_covering_records ts ms es) (mark_one-marks p e ts)
    ∙ mark-marks (λ t. still_covers e t || p t) es ts
    ∙ ap (λ q. marks_by q ts)
        (fun_ext (λ t. sym (or_shift (still_covers e t) (p t) (covers_one es t))))

push_group-marks :
    (p : Tombstone → Bool) (target : ℕ) (ts : List Tombstone) (s : CompactionLoop)
    (es : List MemtableEntry)
    → s.tombstone_has_remaining_put ≡ marks_by p ts
    → (push_group target ts s es).tombstone_has_remaining_put
      ≡ marks_by (λ t. p t || covers_one es t) ts
unfolding push_group
push_group-marks p target ts s [] h = h ∙ ap (λ q. marks_by q ts) (fun_ext (λ t. or_false (p t)))
push_group-marks p target ts s (e ∷ es) h =
    ap (λ ms. mark_tombstones_covering_records ts ms (e ∷ es)) h ∙ mark-marks p (e ∷ es) ts

-- After the loop a tombstone is marked if it still covers one of the records.
pub compact_groups-marks :
    (p : Tombstone → Bool) (oldest : Sequence) (full : Bool) (target : ℕ) (ts : List Tombstone)
    (s : CompactionLoop) (gs : List RecordGroup)
    → s.tombstone_has_remaining_put ≡ marks_by p ts
    → (compact_groups oldest full target ts s gs).tombstone_has_remaining_put
      ≡ marks_by (λ t. p t || covers_one (compacted_records oldest full ts gs) t) ts
unfolding compact_groups
compact_groups-marks p oldest full target ts s [] h =
    h ∙ ap (λ q. marks_by q ts) (fun_ext (λ t. or_false (p t)))
compact_groups-marks p oldest full target ts s (g ∷ gs) h =
    let es = compacted_group oldest full ts g in
    let rest = compacted_records oldest full ts gs in
    compact_groups-marks (λ t. p t || covers_one es t) oldest full target ts
      (push_group target ts s es) gs (push_group-marks p target ts s es h)
    ∙ ap (λ q. marks_by q ts)
        (fun_ext (λ t. sym (
          ap (λ b. p t || b) (any-append (λ e. still_covers e t) es rest)
          ∙ or_assoc (p t) (covers_one es t) (covers_one rest t))))

pub none_assigned-marks : (ts : List Tombstone) → none_assigned ts ≡ marks_by (λ t. false) ts
none_assigned-marks [] = refl
none_assigned-marks (t ∷ ts) = ap (λ ms. false ∷ ms) (none_assigned-marks ts)

pub marked-filter :
    (p : Tombstone → Bool) (ts : List Tombstone) → marked ts (marks_by p ts) ≡ filter p ts
marked-filter p [] = refl
marked-filter p (t ∷ ts) = elim (Bool-cases (p t)) [
  | inl y ↦ rw y (ap (λ r. t ∷ r) (marked-filter p ts))
  | inr n ↦ rw n (marked-filter p ts)
]
