-- ===== src/Lsm/Compact/Groups.antt =====
-- What a reader finds for a key in the compacted group of the key (src/lsm/compact.rs).
use trine_kv.Prelude.{
  ◌≤◌, ◌≡◌, refl, sym, ap, ◌∙◌, subst, ◌⊎◌, Bool, true, false, not, ◌&&◌, List, [], ◌∷◌, ◌++◌,
  Option, none, some, All, any, any-append, filter, ltb, leb, arith, Bool-cases, inl, inr,
}
use trine_kv.Prelude.Sort.{sort_by, All-insert_by}
use trine_kv.Error.{ok}
use trine_kv.Keys.{Bytes, Sequence}
use trine_kv.RangeTombstone.{key_is_in_range}
use trine_kv.Lsm.{MemtableEntry, Tombstone, covers_visible_point}
use trine_kv.Lsm.Point.{keep_newer_point_candidate}
use trine_kv.Lsm.Candidate.{is_seen, keep_all, newest, KeyLeq, keep_all_settled, All-filter}
use trine_kv.Lsm.Keeping.{OfKey}
use trine_kv.Lsm.Deltas.{seen_key}
use trine_kv.Lsm.Cover.{covers}
use trine_kv.Lsm.Reads.{value_of}
use trine_kv.Lsm.Compact.{
  RecordGroup, is_point_delete, drops, drop_records_covered_by_droppable_tombstone, sort_records,
  compact_loop, compact_point_records, cleanup_point_tombstones, compact_point_record_group,
}
use trine_kv.Lsm.Compact.Payloads.{compacted_group}
use trine_kv.Lsm.Compact.Versions.{
  All-compact_loop, compact_point_records-ascends, compact_point_records-newest,
  compare_records-IsPreorder,
}
use trine_kv.Lsm.Compact.Deletions.{
  Cleaned, All-cleanup_point_tombstones, cleanup_point_tombstones-newest,
}
use trine_kv.Lsm.Compact.Hidden.{any_imp, Buried, Dead, Alike, Alike-keep, Alike-drop, OfKey-keep}

All-sort_records :
    (P : MemtableEntry → Type 0) (es : List MemtableEntry) → All P es → All P (sort_records es)
unfolding sort_by
All-sort_records P [] h = tt
All-sort_records P (e ∷ es) (h, hs) =
    All-insert_by compare_records-IsPreorder P e (sort_records es) h (All-sort_records P es hs)

pub filter-true : (es : List MemtableEntry) → filter (λ (e : MemtableEntry). true) es ≡ es
filter-true [] = refl
filter-true (e ∷ es) = ap (λ r. e ∷ r) (filter-true es)

-- The early return for no tombstones changes nothing.
drop_records-filter :
    (oldest : Sequence) (tombstones : List Tombstone) (es : List MemtableEntry)
    → drop_records_covered_by_droppable_tombstone oldest tombstones es
      ≡ filter (λ e. not (any (drops oldest e) tombstones)) es
unfolding drop_records_covered_by_droppable_tombstone
drop_records-filter oldest [] es = sym (filter-true es)
drop_records-filter oldest (t ∷ ts) es = refl

pub All-compacted_group :
    (P : MemtableEntry → Type 0) (oldest : Sequence) (full : Bool) (tombstones : List Tombstone)
    (g : RecordGroup)
    → All P g.records
    → All P (compacted_group oldest full tombstones g)
unfolding compact_point_record_group compact_point_records
All-compacted_group P oldest full tombstones g h =
    let sorted = All-sort_records P g.records h in
    let versions = All-compact_loop P oldest none false (sort_records g.records) sorted in
    let cleaned =
      All-cleanup_point_tombstones P (compact_loop oldest none false (sort_records g.records))
        versions in
    let kept : All P (compact_point_record_group oldest full g.records) = elim (Bool-cases full) [
      | inl t ↦ rw t cleaned
      | inr f ↦ rw f versions
    ] in
    subst (All P)
      (sym
        (drop_records-filter oldest tombstones (compact_point_record_group oldest full g.records)))
      (All-filter P (λ e. not (any (drops oldest e) tombstones))
        (compact_point_record_group oldest full g.records) kept)

module _ (key : Bytes) (read oldest : Sequence) (tombstones : List Tombstone) where
  -- Leaving out records of which those of the key are hidden.
  pub filter-Alike :
      (q : MemtableEntry → Bool) (c c' : Option MemtableEntry) (es : List MemtableEntry)
      → ((e : MemtableEntry) → q e ≡ false → e.key.user_key ≡ key → Buried key oldest tombstones e)
      → OfKey key c'
      → Alike key oldest tombstones c c'
      → Alike key oldest tombstones
          (keep_all c (filter (is_seen key read) (filter q es)))
          (keep_all c' (filter (is_seen key read) es))
  filter-Alike q c c' [] h of_key alike = alike
  filter-Alike q c c' (e ∷ es) h of_key alike = elim (Bool-cases (is_seen key read e)) [
    | inl seen ↦
        let same = seen_key key read e seen in
        elim (Bool-cases (q e)) [
          | inl t ↦
              rw (t, seen)
                (filter-Alike q (keep_newer_point_candidate c e) (keep_newer_point_candidate c' e)
                  es h (OfKey-keep key oldest tombstones c' e same of_key)
                  (Alike-keep key oldest tombstones c c' e same alike))
          | inr f ↦
              rw (f, seen)
                (filter-Alike q c (keep_newer_point_candidate c' e) es h
                  (OfKey-keep key oldest tombstones c' e same of_key)
                  (Alike-drop key oldest tombstones c c' e (h e f same) of_key alike))
        ]
    | inr unseen ↦ elim (Bool-cases (q e)) [
      | inl t ↦ rw (t, unseen) (filter-Alike q c c' es h of_key alike)
      | inr f ↦ rw (f, unseen) (filter-Alike q c c' es h of_key alike)
    ]
  ]

  drops-Buried :
      (e : MemtableEntry)
      → not (any (drops oldest e) tombstones) ≡ false
      → e.key.user_key ≡ key
      → Buried key oldest tombstones e
  drops-Buried e h same = (
    same,
    subst
        (λ k.
          any
            (λ t.
              leb t.sequence oldest && (ltb e.key.sequence t.sequence && key_is_in_range k t.range))
            tombstones
          ≡ true)
        same (ground (arith, h)),
  )

  -- A hidden record reads as none, whatever other tombstones there are.
  value_of-Dead :
      (more : List Tombstone) (c : Option MemtableEntry)
      → oldest ≤ read
      → Dead key oldest tombstones c
      → value_of key read (more ++ tombstones) c ≡ ok none
  unfolding covers_visible_point
  value_of-Dead more none le d = refl
  value_of-Dead more (some e) le d =
      let (same, h) = d e refl in
      let cover : any (covers key e.key.sequence e.key.batch_index read) tombstones ≡ true =
        any_imp
          (λ t.
            leb t.sequence oldest && (ltb e.key.sequence t.sequence && key_is_in_range key t.range))
          (covers key e.key.sequence e.key.batch_index read) tombstones
          (λ t k. ground (arith, k, le)) h in
      ground (
        arith,
        any-append (covers key e.key.sequence e.key.batch_index read) more tombstones,
        cover,
      )

  pub Alike-value_of :
      (more : List Tombstone) (c c' : Option MemtableEntry)
      → oldest ≤ read
      → Alike key oldest tombstones c c'
      → value_of key read (more ++ tombstones) c ≡ value_of key read (more ++ tombstones) c'
  Alike-value_of more c c' le (inl h) = ap (value_of key read (more ++ tombstones)) h
  Alike-value_of more c c' le (inr (d, d')) =
      value_of-Dead more c le d ∙ sym (value_of-Dead more c' le d')

  Cleaned-value_of :
      (all_tombstones : List Tombstone) (after before : Option MemtableEntry)
      → Cleaned after before
      → value_of key read all_tombstones after ≡ value_of key read all_tombstones before
  Cleaned-value_of ts after before (inl h) = ap (value_of key read ts) h
  Cleaned-value_of ts after before (inr (gone, (d, found, deletes))) =
      ap (value_of key read ts) gone ∙ sym (ap (value_of key read ts) found ∙ deleted d deletes)
    where
      deleted :
          (d : MemtableEntry)
          → is_point_delete d.key.kind ≡ true
          → value_of key read ts (some d) ≡ value_of key read ts none
      deleted d h = ground (arith, h)

  drop-value_of :
      (more : List Tombstone) (c : Option MemtableEntry) (es : List MemtableEntry)
      → oldest ≤ read
      → OfKey key c
      → value_of key read (more ++ tombstones) (
          keep_all c (
            filter
              (is_seen key read)
              (drop_records_covered_by_droppable_tombstone oldest tombstones es)))
        ≡ value_of key read (more ++ tombstones) (keep_all c (filter (is_seen key read) es))
  drop-value_of more c es le of_key =
      ap (λ xs. value_of key read (more ++ tombstones) (keep_all c (filter (is_seen key read) xs)))
        (drop_records-filter oldest tombstones es)
      ∙ Alike-value_of more
          (keep_all c
            (filter (is_seen key read) (filter (λ e. not (any (drops oldest e) tombstones)) es)))
          (keep_all c (filter (is_seen key read) es)) le
          (filter-Alike (λ e. not (any (drops oldest e) tombstones)) c c es drops-Buried of_key
            (inl refl))

  -- The candidate is in front of all records of the group, or there is none yet.
  abbrev pub InFront : Option MemtableEntry → List MemtableEntry → Type 0
  InFront c es = (c ≡ none) ⊎ ((x : MemtableEntry) × (c ≡ some x) × All (KeyLeq x) es)

  in_front :
      (c : Option MemtableEntry) (x : MemtableEntry) (es : List MemtableEntry)
      → c ≡ some x
      → All (KeyLeq x) es
      → keep_all c (filter (is_seen key read) es) ≡ some x
  in_front c x es same h =
      ap (λ k. keep_all k (filter (is_seen key read) es)) same
      ∙ keep_all_settled x (filter (is_seen key read) es)
          (All-filter (KeyLeq x) (is_seen key read) es h)

  -- A reader at or above the oldest snapshot finds the same value in the compacted group as in all
  -- its records, after any candidate, which a full compaction wants to be newer than the group.
  pub compacted_group-value_of :
      (full : Bool) (more : List Tombstone) (c : Option MemtableEntry) (g : RecordGroup)
      → oldest ≤ read
      → OfKey key c
      → (full ≡ true → InFront c g.records)
      → value_of key read
          (more ++ tombstones)
          (keep_all c (filter (is_seen key read) (compacted_group oldest full tombstones g)))
        ≡ value_of key read (more ++ tombstones) (keep_all c (filter (is_seen key read) g.records))
  unfolding compact_point_record_group
  compacted_group-value_of false more c g le of_key front =
      drop-value_of more c (compact_point_records oldest g.records) le of_key
      ∙ ap (value_of key read (more ++ tombstones))
          (compact_point_records-newest key read oldest c g.records le)
  compacted_group-value_of true more c g le of_key front = elim (front refl) [
    | inr (x, same, above) ↦ ap (value_of key read (more ++ tombstones)) (
        in_front c x (compacted_group oldest true tombstones g) same
          (All-compacted_group (KeyLeq x) oldest true tombstones g above)
        ∙ sym (in_front c x g.records same above))
    | inl empty ↦
        drop-value_of more c (cleanup_point_tombstones (compact_point_records oldest g.records)) le
          of_key
        ∙ rw empty (
            Cleaned-value_of (more ++ tombstones)
              (newest key read (cleanup_point_tombstones (compact_point_records oldest g.records)))
              (newest key read (compact_point_records oldest g.records))
              (cleanup_point_tombstones-newest key read (compact_point_records oldest g.records)
                (compact_point_records-ascends oldest g.records))
            ∙ ap (value_of key read (more ++ tombstones))
                (compact_point_records-newest key read oldest none g.records le))
  ]
