-- ===== src/Lsm/Compact/Preserved.antt =====
-- A compaction keeps what every retained reader finds (src/lsm/compact.rs).
use trine_kv.Prelude.{
  bool_eq, some-injective, ℕ, ◌≤◌, ◌<◌, ◌||◌, ◌≡◌, refl, sym, ap, ◌∙◌, subst, ◌⊎◌, Bool, true,
  false, List, [], ◌∷◌, ◌++◌, Option, none, some, All, any, any-append, arith, Bool-cases, inl, inr,
}
use trine_kv.Keys.{Bytes, Sequence, KeyRange}
use trine_kv.Lsm.{MemtableEntry, Tombstone, covers_visible_point}
use trine_kv.Lsm.Candidate.{is_seen, keep_all, KeyLeq, All-filter}
use trine_kv.Lsm.Keeping.{OfKey}
use trine_kv.Lsm.Deltas.{keep_all_from, seen_key, filter-All}
use trine_kv.Lsm.Cover.{covers}
use trine_kv.Lsm.Reads.{value_of}
use trine_kv.Lsm.Compact.{InputTable, is_put, collect_compaction_range_tombstones}
use trine_kv.Lsm.Compact.Sources.{group_count}
use trine_kv.Lsm.Compact.Payloads.{
  CompactionTablePayload, chunk_target, build_compaction_table_payloads,
}
use trine_kv.Lsm.Compact.Groups.{InFront, Alike-value_of}
use trine_kv.Lsm.Compact.Merge.{all_records, seen}
use trine_kv.Lsm.Compact.Merged.{merged-finds}
use trine_kv.Lsm.Compact.Spread.{payload_tombstones, payload_records}
use trine_kv.Lsm.Compact.Written.{in_chunks}
use trine_kv.Lsm.Compact.Tables.{outputs_sound, outputs_complete, outputs_conserve}
use trine_kv.Lsm.Compact.Chunks.{covers_one}
use trine_kv.Lsm.Compact.Scans.{IsInput, scans}
use trine_kv.Lsm.Compact.Skip.{open_sources-Alike, open_sources-IsSource, open_sources-All}
use trine_kv.Lsm.Compact.Remains.{
  any_within, Counted, all-Counted, value_of-cover, cleaned_cover, collected, sources, remaining,
  cleaned, chunks, outputs, remaining-records, cleaned-full, cleaned-partial, remaining-in_chunks,
}

-- A candidate from the rest of the tree that is newer than the records and tombstones of all input
-- tables, or none.
abbrev pub Newer : KeyRange → List InputTable → Option MemtableEntry → Type 0
Newer range tables c =
    (c ≡ none)
    ⊎ ((x : MemtableEntry) × (c ≡ some x)
        × All (KeyLeq x) (all_records (scans range tables))
        × All (λ t. t.sequence < x.key.sequence) (collect_compaction_range_tombstones range tables))

no_cover :
    (key : Bytes) (read : Sequence) (e : MemtableEntry) (ts : List Tombstone)
    → All (λ t. t.sequence < e.key.sequence) ts
    → any (covers key e.key.sequence e.key.batch_index read) ts ≡ false
unfolding covers_visible_point
no_cover key read e [] h = refl
no_cover key read e (t ∷ ts) (h, hs) = ground (arith, h, no_cover key read e ts hs)

All-three :
    (P Q R S : MemtableEntry → Type 0) (es : List MemtableEntry)
    → ((e : MemtableEntry) → P e → Q e → R e → S e)
    → All P es
    → All Q es
    → All R es
    → All S es
All-three P Q R S [] f p q r = tt
All-three P Q R S (e ∷ es) f (p, ps) (q, qs) (r, rs) = (f e p q r, All-three P Q R S es f ps qs rs)

module _ (key : Bytes) (read : Sequence) (full : Bool) (tables : List InputTable) (range : KeyRange)
    (oldest : Sequence) (target : ℕ) (c : Option MemtableEntry) where
  abbrev tombstones : List Tombstone
  tombstones = collected full tables range oldest target

  abbrev left_records : List MemtableEntry
  left_records = remaining full tables range oldest target

  abbrev written : List CompactionTablePayload
  written = outputs full tables range oldest target

  abbrev cov_at : MemtableEntry → List Tombstone → Bool
  cov_at e ts = any (covers key e.key.sequence e.key.batch_index read) ts

  -- Where the record that is found comes from.
  abbrev Origin : MemtableEntry → Type 0
  Origin e =
      (c ≡ some e)
      ⊎ ((e.key.user_key ≡ key)
          × (in_chunks e.key.user_key (chunks full tables range oldest target) ≡ true)
          × Counted left_records e)

  All-Origin : All IsInput tables → All Origin (seen key read left_records)
  All-Origin v =
      All-three (λ e. is_seen key read e ≡ true)
        (λ e. in_chunks e.key.user_key (chunks full tables range oldest target) ≡ true)
        (Counted left_records) Origin (seen key read left_records)
        (λ e s i n. inr (seen_key key read e s, i, n)) (filter-All (is_seen key read) left_records)
        (All-filter (λ e. in_chunks e.key.user_key (chunks full tables range oldest target) ≡ true)
          (is_seen key read) left_records (remaining-in_chunks full tables range oldest target v))
        (All-filter (Counted left_records) (is_seen key read) left_records
          (all-Counted left_records))

  written_sound :
      (e : MemtableEntry)
      → cov_at e (payload_tombstones written) ≡ true
      → cov_at e tombstones ≡ true
  unfolding build_compaction_table_payloads
  written_sound e h =
      let kept = cleaned full tables range oldest target in
      let below : cov_at e kept ≡ true =
        outputs_sound key e.key.sequence e.key.batch_index read full
          (chunk_target target tombstones) kept (chunks full tables range oldest target) h in
      elim (Bool-cases full) [
        | inl y ↦
            any_within (covers key e.key.sequence e.key.batch_index read) (covers_one left_records)
              tombstones
              (sym (ap (cov_at e) (cleaned-full full tables range oldest target y)) ∙ below)
        | inr n ↦ sym (ap (cov_at e) (cleaned-partial full tables range oldest target n)) ∙ below
      ]

  Newer-uncovered :
      (e : MemtableEntry) → Newer range tables c → c ≡ some e → cov_at e tombstones ≡ false
  Newer-uncovered e (inl h) same = cc
  Newer-uncovered e (inr (x, found, above, later)) same = no_cover key read e tombstones (
      subst (λ (u : MemtableEntry). All (λ t. t.sequence < u.key.sequence) tombstones)
        (some-injective x e (sym found ∙ same)) later)

  written_complete :
      (e : MemtableEntry)
      → is_put e.key.kind ≡ true
      → Origin e
      → (full ≡ true → Newer range tables c)
      → cov_at e tombstones ≡ true
      → cov_at e (payload_tombstones written) ≡ true
  unfolding build_compaction_table_payloads
  written_complete e is_written from newer h = elim (Bool-cases full) [
    | inr n ↦
        ap (λ f. cov_at e (payload_tombstones (outputs f tables range oldest target))) n
        ∙ outputs_conserve key e.key.sequence e.key.batch_index read
            (chunk_target target tombstones) (cleaned false tables range oldest target)
            (chunks false tables range oldest target)
            (ap (cov_at e) (cleaned-partial false tables range oldest target refl) ∙ h)
    | inl y ↦ elim from [
      | inl same ↦ ground (arith, Newer-uncovered e (newer y) same, h)
      | inr (same, inside, counted) ↦
          outputs_complete key e.key.sequence e.key.batch_index read full
            (chunk_target target tombstones) (cleaned full tables range oldest target)
            (chunks full tables range oldest target)
            (sym (ap (λ u. in_chunks u (chunks full tables range oldest target)) same) ∙ inside)
            (ap (cov_at e) (cleaned-full full tables range oldest target y)
              ∙ cleaned_cover key read e left_records tombstones is_written same counted h)
    ]
  ]

  merged_value :
      (more : List Tombstone)
      → All IsInput tables
      → oldest ≤ read
      → OfKey key c
      → (full ≡ true → Newer range tables c)
      → value_of key read (more ++ tombstones) (keep_all c (seen key read left_records))
        ≡ value_of key read
            (more ++ tombstones)
            (keep_all c (seen key read (all_records (scans range tables))))
  merged_value more v le of_key newer =
      let opened = sources full tables range oldest target in
      merged-finds key read oldest full more tombstones c (group_count opened) opened (omega arith)
        (open_sources-IsSource oldest range tombstones tables v) le of_key (λ f. in_front (newer f))
      ∙ Alike-value_of key read oldest tombstones more
          (keep_all c (seen key read (all_records opened)))
          (keep_all c (seen key read (all_records (scans range tables)))) le
          (open_sources-Alike key read oldest tombstones range tables c c v of_key (inl refl))
    where
      in_front :
          Newer range tables c
          → InFront key read oldest tombstones c
              (all_records (sources full tables range oldest target))
      in_front (inl h) = inl h
      in_front (inr (x, same, above, later)) =
          inr (x, same, open_sources-All oldest range tombstones (KeyLeq x) tables above)

  written_value :
      (more : List Tombstone)
      → All IsInput tables
      → OfKey key c
      → (full ≡ true → Newer range tables c)
      → value_of key read
          (more ++ payload_tombstones written)
          (keep_all c (seen key read left_records))
        ≡ value_of key read (more ++ tombstones) (keep_all c (seen key read left_records))
  written_value more v of_key newer =
      value_of-cover key read (more ++ payload_tombstones written) (more ++ tombstones)
        (keep_all c (seen key read left_records))
        (λ e found is_written.
          let from : Origin e =
            keep_all_from Origin c (seen key read left_records) e (λ e h. inl h) (All-Origin v)
              found in
          any-append (covers key e.key.sequence e.key.batch_index read) more
            (payload_tombstones written)
          ∙ ap (λ b. cov_at e more || b)
              (bool_eq (cov_at e (payload_tombstones written)) (cov_at e tombstones)
                (written_sound e) (written_complete e is_written from newer))
          ∙ sym (any-append (covers key e.key.sequence e.key.batch_index read) more tombstones))

  pub scans_preserved :
      (more : List Tombstone)
      → All IsInput tables
      → oldest ≤ read
      → OfKey key c
      → (full ≡ true → Newer range tables c)
      → value_of key read
          (more ++ payload_tombstones written)
          (keep_all c (seen key read (payload_records written)))
        ≡ value_of key read
            (more ++ tombstones)
            (keep_all c (seen key read (all_records (scans range tables))))
  scans_preserved more v le of_key newer =
      ap
        (λ es.
          value_of key read (more ++ payload_tombstones written) (keep_all c (seen key read es)))
        (remaining-records full tables range oldest target)
      ∙ written_value more v of_key newer
      ∙ merged_value more v le of_key newer
