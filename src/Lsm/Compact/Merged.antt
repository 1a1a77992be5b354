-- ===== src/Lsm/Compact/Merged.antt =====
-- A reader finds the same value in the merged and compacted groups as in the tables that went in
-- (src/lsm/compact.rs).
use trine_kv.Prelude.{
  All-append, ℕ, zero, suc, ◌≤◌, ◌<◌, ◌≡◌, refl, sym, ap, ◌∙◌, Bool, true, List, [], ◌∷◌, ◌++◌,
  Option, none, some, All, All-imp, filter-append, filter-none, append-nil, map, arith, Bool-cases,
  Option-cases, inl, inr,
}
use trine_kv.Error.{Result}
use trine_kv.Keys.{Bytes, Sequence}
use trine_kv.Lsm.{MemtableEntry, Tombstone, ValueRef}
use trine_kv.Lsm.Candidate.{bytes_eq, is_seen, keep_all, KeyLeq}
use trine_kv.Lsm.Keeping.{OfKey}
use trine_kv.Lsm.Reads.{value_of}
use trine_kv.Lsm.Compact.{RecordGroup}
use trine_kv.Lsm.Compact.Sources.{
  Source, next_compaction_user_key, head_records, advance, take_records, merge_groups, group_count,
}
use trine_kv.Lsm.Compact.Payloads.{compacted_group}
use trine_kv.Lsm.Compact.Groups.{InFront, All-compacted_group, compacted_group-value_of}
use trine_kv.Lsm.Compact.Merge.{
  all_records, IsSource, select_key-none, select_key-least, select_key-taken, bytes_eq-eq, seen,
  Unseen, other_key, seen-advance_all, taken_part,
}
use trine_kv.Lsm.Compact.Rounds.{
  compacted_records, merge_groups-none, merge_groups-some, All-merge_groups, All-compacted_records,
  key_round, IsSource-advance,
}

no_records : (ss : List Source) → group_count ss ≤ 0 → all_records ss ≡ []
no_records [] h = refl
no_records ([] ∷ ss) h = no_records ss (omega (arith, h))
no_records ((g ∷ gs) ∷ ss) h = absurd (omega (arith, h))

head-keyed :
    (u : Bytes) (s : Source) → IsSource s → All (λ e. e.key.user_key ≡ u) (head_records u s)
head-keyed u [] v = tt
head-keyed u (g ∷ gs) v = elim (Bool-cases (bytes_eq g.user_key u)) [
  | inl t ↦ rw t (All-imp (λ e k. k ∙ bytes_eq-eq g.user_key u t) g.records v.keyed.0)
  | inr f ↦ rw f tt
]

pub take-keyed :
    (u : Bytes) (ss : List Source)
    → All IsSource ss
    → All (λ e. e.key.user_key ≡ u) (take_records u ss)
take-keyed u [] v = tt
take-keyed u (s ∷ ss) (v, vs) =
    All-append (λ e. e.key.user_key ≡ u) (head_records u s) (take_records u ss) (head-keyed u s v)
      (take-keyed u ss vs)

taken :
    (u : Bytes) (ss : List Source)
    → next_compaction_user_key ss ≡ some u
    → group_count (map (advance u) ss) < group_count ss
unfolding next_compaction_user_key
taken u ss e = elim (select_key-taken none ss u e) [ inl h ↦ cc | inr less ↦ less ]

module _ (key : Bytes) (read oldest : Sequence) (full : Bool)
    (more tombstones : List Tombstone) where
  -- What a reader finds among records after a candidate, with all tombstones.
  abbrev pub finds : Option MemtableEntry → List MemtableEntry → Result (Option ValueRef)
  finds c es = value_of key read (more ++ tombstones) (keep_all c (seen key read es))

  Unseen-front :
      (c : Option MemtableEntry) (xs ys : List MemtableEntry)
      → All (Unseen key read) xs
      → finds c (xs ++ ys) ≡ finds c ys
  Unseen-front c xs ys h =
      ap (λ zs. value_of key read (more ++ tombstones) (keep_all c zs))
        (filter-append (is_seen key read) xs ys
          ∙ ap (λ zs. zs ++ seen key read ys) (filter-none (is_seen key read) xs h))

  Unseen-back :
      (c : Option MemtableEntry) (xs ys : List MemtableEntry)
      → All (Unseen key read) ys
      → finds c (xs ++ ys) ≡ finds c xs
  Unseen-back c xs ys h =
      ap (λ zs. value_of key read (more ++ tombstones) (keep_all c zs))
        (filter-append (is_seen key read) xs ys
          ∙ ap (λ zs. seen key read xs ++ zs) (filter-none (is_seen key read) ys h)
          ∙ append-nil (seen key read xs))

  same_seen :
      (c : Option MemtableEntry) (xs ys : List MemtableEntry)
      → seen key read xs ≡ seen key read ys
      → finds c xs ≡ finds c ys
  same_seen c xs ys h = ap (λ zs. value_of key read (more ++ tombstones) (keep_all c zs)) h

  InFront-part :
      (c : Option MemtableEntry) (xs ys : List MemtableEntry)
      → ((P : MemtableEntry → Type 0) → All P xs → All P ys)
      → InFront key read oldest tombstones c xs
      → InFront key read oldest tombstones c ys
  InFront-part c xs ys part (inl h) = inl h
  InFront-part c xs ys part (inr (x, same, above)) = inr (x, same, part (KeyLeq x) above)

  -- The round of the key itself: after it there is no record of the key.
  key_found :
      (c : Option MemtableEntry) (rounds : ℕ) (ss : List Source)
      → All IsSource ss
      → oldest ≤ read
      → OfKey key c
      → (full ≡ true → InFront key read oldest tombstones c (all_records ss))
      → next_compaction_user_key ss ≡ some key
      → finds c (compacted_records oldest full tombstones (merge_groups (suc rounds) ss))
        ≡ finds c (all_records ss)
  unfolding next_compaction_user_key
  key_found c rounds ss v le of_key front e =
      let g : RecordGroup = record { user_key = key; records = take_records key ss } in
      let rest = merge_groups rounds (map (advance key) ss) in
      let (here, others) = key_round key read ss v (select_key-least none ss key e).0 in
      let hidden =
        All-compacted_records (Unseen key read) oldest full tombstones rest
          (All-merge_groups (Unseen key read) rounds (map (advance key) ss) others) in
      ap (λ gs. finds c (compacted_records oldest full tombstones gs))
        (merge_groups-some rounds ss key e)
      ∙ Unseen-back c (compacted_group oldest full tombstones g)
          (compacted_records oldest full tombstones rest) hidden
      ∙ compacted_group-value_of key read oldest tombstones full more c g le of_key (λ f.
        InFront-part c (all_records ss) (take_records key ss) (λ P h. (taken_part P key ss h).0)
          (front f))
      ∙ sym (same_seen c (all_records ss) (take_records key ss) here)

  -- With as many rounds as there are groups the merge loop ends, and what a reader at or above the
  -- oldest snapshot finds after a candidate is what it finds in all records of the sources.
  pub merged-finds :
      (c : Option MemtableEntry) (rounds : ℕ) (ss : List Source)
      → group_count ss ≤ rounds
      → All IsSource ss
      → oldest ≤ read
      → OfKey key c
      → (full ≡ true → InFront key read oldest tombstones c (all_records ss))
      → finds c (compacted_records oldest full tombstones (merge_groups rounds ss))
        ≡ finds c (all_records ss)
  unfolding merge_groups next_compaction_user_key
  merged-finds c zero ss enough v le of_key front = ap (finds c) (sym (no_records ss enough))
  merged-finds c (suc rounds) ss enough v le of_key front =
      elim (Option-cases (next_compaction_user_key ss)) [
        | inl e ↦
            ap (λ gs. finds c (compacted_records oldest full tombstones gs))
              (merge_groups-none rounds ss e)
            ∙ ap (finds c) (sym (select_key-none none ss e).1)
        | inr (u, e) ↦
            let g : RecordGroup = record { user_key = u; records = take_records u ss } in
            let rest = merge_groups rounds (map (advance u) ss) in
            let step =
              ap (λ gs. finds c (compacted_records oldest full tombstones gs))
                (merge_groups-some rounds ss u e) in
            elim (Bool-cases (bytes_eq u key)) [
              | inr other ↦
                  let hidden =
                    All-compacted_group (Unseen key read) oldest full tombstones g
                      (other_key key read u (take_records u ss) other (take-keyed u ss v)) in
                  let less : group_count (map (advance u) ss) < group_count ss = taken u ss e in
                  step
                  ∙ Unseen-front c (compacted_group oldest full tombstones g)
                      (compacted_records oldest full tombstones rest) hidden
                  ∙ merged-finds c rounds (map (advance u) ss) (omega (arith, less, enough))
                      (IsSource-advance key read u ss v) le of_key
                      (λ f.
                        InFront-part c (all_records ss) (all_records (map (advance u) ss))
                          (λ P h. (taken_part P u ss h).1) (front f))
                  ∙ same_seen c (all_records (map (advance u) ss)) (all_records ss)
                      (seen-advance_all key read u ss other v)
              | inl same ↦
                  key_found c rounds ss v le of_key front (e ∙ ap some (bytes_eq-eq u key same))
            ]
      ]
