-- ===== src/Lsm/Compact/Skip.antt =====
-- The tables that a compaction drops unread hold hidden records only (src/lsm/compact.rs).
use trine_kv.Prelude.{
  All-append, All-split, ◌≡◌, refl, sym, ap, ◌∙◌, subst, true, false, ◌&&◌, List, [], ◌∷◌, ◌++◌,
  Option, All, All-imp, filter-append, ltb, leb, arith, Bool-cases, inl, inr,
}
use trine_kv.Prelude.Order.{compare_bytes-IsOrder}
use trine_kv.Keys.{Bytes, Sequence, KeyRange, Bound, included, excluded, unbounded}
use trine_kv.RangeTombstone.{
  bytes_lt, bytes_le, key_is_in_range, key_is_before_start, key_is_after_end,
}
use trine_kv.Lsm.{MemtableEntry, Tombstone, Tombstone-like}
use trine_kv.Lsm.Point.{keep_newer_point_candidate}
use trine_kv.Lsm.Deltas.{seen_key}
use trine_kv.Lsm.Candidate.{is_seen, keep_all, keep_all-append}
use trine_kv.Lsm.Keeping.{OfKey, OfKey-keep_all}
use trine_kv.Lsm.Compact.{InputTable, table_fully_covered_by_droppable_tombstone}
use trine_kv.Lsm.Compact.Payloads.{scan, open_sources}
use trine_kv.Lsm.Compact.Hidden.{any_imp, Buried, Alike, Alike-drop, OfKey-keep}
use trine_kv.Lsm.Compact.Groups.{filter-true, filter-Alike}
use trine_kv.Lsm.Compact.Merge.{source_records, all_records, IsSource, seen, not_lt_trans}
use trine_kv.Lsm.Compact.Scans.{is_bounded, Within, IsInput, scans, scan-IsSource, scan-records}

gt_trans : (k a s : Bytes) → bytes_lt k a ≡ false → bytes_le a s ≡ false → bytes_le k s ≡ false
gt_trans k a s h j = ground (
  arith,
  compare_bytes-IsOrder.preorder.cmp_swap a s,
  compare_bytes-IsOrder.preorder.cmp_swap a k,
  compare_bytes-IsOrder.preorder.cmp_swap k s,
  compare_bytes-IsOrder.preorder.cmp_swap s k,
  compare_bytes-IsOrder.preorder.cmp_swap k a,
  compare_bytes-IsOrder.preorder.lt_trans s a k,
  compare_bytes-IsOrder.preorder.eq_left k a s,
)

gt_below : (e b k : Bytes) → bytes_le e b ≡ false → bytes_lt b k ≡ false → bytes_le e k ≡ false
gt_below e b k h j = ground (
  arith,
  compare_bytes-IsOrder.preorder.cmp_swap e b,
  compare_bytes-IsOrder.preorder.cmp_swap b k,
  compare_bytes-IsOrder.preorder.cmp_swap e k,
  compare_bytes-IsOrder.preorder.cmp_swap k e,
  compare_bytes-IsOrder.preorder.lt_trans k b e,
  compare_bytes-IsOrder.preorder.eq_left k b e,
  compare_bytes-IsOrder.eq_of_cmp b k,
)

not_before :
    (a k : Bytes) (start : Bound)
    → bytes_lt k a ≡ false
    → key_is_before_start a start ≡ false
    → key_is_before_start k start ≡ false
unfolding key_is_before_start
not_before a k (included s) h j = not_lt_trans k a s h j
not_before a k (excluded s) h j = gt_trans k a s h j
not_before a k unbounded h j = refl

not_after :
    (b k : Bytes) (end : Bound)
    → bytes_lt b k ≡ false
    → key_is_after_end b end ≡ false
    → key_is_after_end k end ≡ false
unfolding key_is_after_end
not_after b k (included e) h j = not_lt_trans e b k j h
not_after b k (excluded e) h j = gt_below e b k j h
not_after b k unbounded h j = refl

-- A range that holds two keys holds what lies between.
between_keys :
    (a k b : Bytes) (r : KeyRange)
    → bytes_lt k a ≡ false
    → bytes_lt b k ≡ false
    → key_is_in_range a r ≡ true
    → key_is_in_range b r ≡ true
    → key_is_in_range k r ≡ true
unfolding key_is_in_range
between_keys a k b r h j ka kb = ground (
  arith,
  not_before a k r.start h (ground (arith, ka)),
  not_after b k r.end j (ground (arith, kb)),
)

module _ (key : Bytes) (read oldest : Sequence) (tombstones : List Tombstone) where
  covered_range :
      (t : InputTable) (e : MemtableEntry) (d : Tombstone)
      → Within t e
      → is_bounded t ≡ true
      → (leb d.sequence oldest
          && (ltb t.largest_sequence d.sequence
              && (key_is_in_range t.smallest_user_key d.range
                  && key_is_in_range t.largest_user_key d.range)))
        ≡ true
      → (leb d.sequence oldest
          && (ltb e.key.sequence d.sequence && key_is_in_range e.key.user_key d.range))
        ≡ true
  covered_range t e d w b h = ground (
    arith,
    w.0,
    between_keys t.smallest_user_key e.key.user_key t.largest_user_key d.range (w.1 b).0 (w.1 b).1
        (ground (arith, h)) (ground (arith, h)),
  )

  -- A table that is dropped unread holds hidden records only.
  dropped-Buried :
      (t : InputTable) (e : MemtableEntry)
      → table_fully_covered_by_droppable_tombstone oldest tombstones t ≡ true
      → Within t e
      → e.key.user_key ≡ key
      → Buried key oldest tombstones e
  unfolding table_fully_covered_by_droppable_tombstone
  dropped-Buried t e h w same = (
    same,
    any_imp
        (λ d.
          leb d.sequence oldest
          && (ltb t.largest_sequence d.sequence
              && (key_is_in_range t.smallest_user_key d.range
                  && key_is_in_range t.largest_user_key d.range)))
        (λ d.
          leb d.sequence oldest && (ltb e.key.sequence d.sequence && key_is_in_range key d.range))
        tombstones
        (λ d k.
          subst
            (λ u.
              (leb d.sequence oldest
                && (ltb e.key.sequence d.sequence && key_is_in_range u d.range))
              ≡ true)
            same (covered_range t e d w (ground (arith, h)) k))
        (ground (arith, h)),
  )

  abbrev Same : Option MemtableEntry → Option MemtableEntry → Type 0
  Same = Alike key oldest tombstones

  gone-Alike :
      (c c' : Option MemtableEntry) (es : List MemtableEntry)
      → All (λ e. e.key.user_key ≡ key → Buried key oldest tombstones e) es
      → OfKey key c'
      → Same c c'
      → Same c (keep_all c' (seen key read es))
  gone-Alike c c' [] h of_key alike = alike
  gone-Alike c c' (e ∷ es) (h, hs) of_key alike = elim (Bool-cases (is_seen key read e)) [
    | inl y ↦
        let same = seen_key key read e y in
        rw y (
          gone-Alike c (keep_newer_point_candidate c' e) es hs
            (OfKey-keep key oldest tombstones c' e same of_key)
            (Alike-drop key oldest tombstones c c' e (h same) of_key alike))
    | inr n ↦ rw n (gone-Alike c c' es hs of_key alike)
  ]

  both-Alike :
      (c c' : Option MemtableEntry) (es : List MemtableEntry)
      → OfKey key c'
      → Same c c'
      → Same (keep_all c (seen key read es)) (keep_all c' (seen key read es))
  both-Alike c c' es of_key alike =
      subst (λ xs. Same (keep_all c (seen key read xs)) (keep_all c' (seen key read es)))
        (filter-true es)
        (filter-Alike key read oldest tombstones (λ e. true) c c' es (λ e h. cc) of_key alike)

  keep_two :
      (c : Option MemtableEntry) (xs ys : List MemtableEntry)
      → keep_all c (seen key read (xs ++ ys))
        ≡ keep_all (keep_all c (seen key read xs)) (seen key read ys)
  keep_two c xs ys =
      ap (keep_all c) (filter-append (is_seen key read) xs ys)
      ∙ keep_all-append c (seen key read xs) (seen key read ys)

  -- Leaving out the tables that are dropped unread.
  pub open_sources-Alike :
      (range : KeyRange) (tables : List InputTable) (c c' : Option MemtableEntry)
      → All IsInput tables
      → OfKey key c'
      → Same c c'
      → Same
          (keep_all c (seen key read (all_records (open_sources oldest range tombstones tables))))
          (keep_all c' (seen key read (all_records (scans range tables))))
  open_sources-Alike range [] c c' v of_key alike = alike
  open_sources-Alike range (t ∷ ts) c c' (v, vs) of_key alike =
      let here = source_records (scan range t) in
      let kept = all_records (open_sources oldest range tombstones ts) in
      let rest = all_records (scans range ts) in
      let after = OfKey-keep_all key read c' here of_key in
      elim (Bool-cases (table_fully_covered_by_droppable_tombstone oldest tombstones t)) [
        | inl y ↦
            let buried =
              All-imp {P = Within t}
                {Q = λ e. e.key.user_key ≡ key → Buried key oldest tombstones e}
                (λ e w. dropped-Buried t e y w) here
                (scan-records range (Within t) t.groups v.within) in
            rw y (
              subst (Same (keep_all c (seen key read kept))) (sym (keep_two c' here rest)) (
                open_sources-Alike range ts c (keep_all c' (seen key read here)) vs after
                  (gone-Alike c c' here buried of_key alike)))
        | inr n ↦ rw n (
            subst (λ r. Same r (keep_all c' (seen key read (here ++ rest))))
              (sym (keep_two c here kept))
              (subst (Same (keep_all (keep_all c (seen key read here)) (seen key read kept)))
                (sym (keep_two c' here rest))
                (open_sources-Alike range ts (keep_all c (seen key read here))
                  (keep_all c' (seen key read here)) vs after (both-Alike c c' here of_key alike))))
      ]

-- What holds of the cursors of all tables holds of those that are opened.
module _ (oldest : Sequence) (range : KeyRange) (tombstones : List Tombstone) where
  pub open_sources-IsSource :
      (tables : List InputTable)
      → All IsInput tables
      → All IsSource (open_sources oldest range tombstones tables)
  open_sources-IsSource [] v = tt
  open_sources-IsSource (t ∷ ts) (v, vs) =
      let rest = open_sources-IsSource ts vs in
      elim (Bool-cases (table_fully_covered_by_droppable_tombstone oldest tombstones t)) [
        | inl y ↦ rw y rest
        | inr n ↦ rw n (scan-IsSource range t v, rest)
      ]

  pub open_sources-All :
      (P : MemtableEntry → Type 0) (tables : List InputTable)
      → All P (all_records (scans range tables))
      → All P (all_records (open_sources oldest range tombstones tables))
  open_sources-All P [] h = tt
  open_sources-All P (t ∷ ts) h =
      let (a, b) = All-split P (source_records (scan range t)) (all_records (scans range ts)) h in
      let rest = open_sources-All P ts b in
      elim (Bool-cases (table_fully_covered_by_droppable_tombstone oldest tombstones t)) [
        | inl y ↦ rw y rest
        | inr n ↦ rw n (
            All-append P (source_records (scan range t))
              (all_records (open_sources oldest range tombstones ts)) a rest)
      ]
