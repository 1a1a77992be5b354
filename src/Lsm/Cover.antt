-- ===== src/Lsm/Cover.antt =====
-- Which tombstones the point read looks at (src/lsm/read.rs, src/lsm/version.rs, src/table/read.rs).
use trine_kv.Prelude.{
  any-filter_and, ℕ, ◌≡◌, refl, ap, ◌∙◌, Bool, true, false, not, ◌&&◌, ◌||◌, List, [], ◌∷◌, ◌++◌,
  some, All, Pairwise, any, filter, any-append, leb, ltb, ◌==◌, arith, Bool-cases, inl, inr,
}
use trine_kv.Prelude.Sort.{any-sort_by}
use trine_kv.Prelude.Order.{compare_bytes-IsOrder}
use trine_kv.Keys.{Bytes, Sequence}
use trine_kv.RangeTombstone.{new_index, covering_key, key_is_in_range, compare_tombstones, bytes_lt}
use trine_kv.RangeTombstone.Index.{covering-eq-filter, new_index-IsSorted}
use trine_kv.Lsm.{Tombstone, Tombstone-like, covers_visible_point}
use trine_kv.Lsm.Point.{
  Table, Level, has_key_bounds, key_bounds_may_contain_key, table_for_key, has_tombstones_for,
  optional_table, range_tombstone_tables_for_key, range_tombstones_cover,
  table_covers_visible_point,
}
use trine_kv.Lsm.Probes.{before, stopped, passed_over, stopped_at}
use trine_kv.Lsm.Tables.{Precedes}

abbrev pub no_elements {ℓ} : {A : Type ℓ} → List A → Bool
no_elements [] = true
no_elements (x ∷ xs) = false

-- What the cover relies on in a table that holds the given tombstones.
pub record HoldsTombstones (t : Table) (tombstones : List Tombstone) : Type 0 where
  pub indexed : t.range_tombstones ≡ new_index tombstones
  pub flagged : t.may_have_range_tombstones ≡ not (no_elements tombstones)
  pub in_bounds :
      (key : Bytes)
      → any (λ d. key_is_in_range key d.range) tombstones ≡ true
      → key_bounds_may_contain_key t key ≡ true

passed_out :
    (key : Bytes) (t : Table)
    → (has_key_bounds t && bytes_lt t.largest_user_key key) ≡ true
    → key_bounds_may_contain_key t key ≡ false
unfolding key_bounds_may_contain_key
passed_out key t h =
    ground (arith, h, compare_bytes-IsOrder.preorder.cmp_swap t.largest_user_key key)

pub any-new_index :
    (p : Tombstone → Bool) (ts : List Tombstone) → any p (new_index ts).tombstones ≡ any p ts
unfolding new_index
any-new_index p ts = any-sort_by compare_tombstones p ts

any-same :
    (p q : Tombstone → Bool) (ts : List Tombstone)
    → ((t : Tombstone) → p t ≡ q t)
    → any p ts ≡ any q ts
any-same p q [] h = refl
any-same p q (t ∷ ts) h = ground (arith, h t, any-same p q ts h)

module _ (tombstones : Table → List Tombstone) where
  abbrev pub table_tombstones : List Table → List Tombstone
  table_tombstones [] = []
  table_tombstones (t ∷ ts) = tombstones t ++ table_tombstones ts

  abbrev pub level_tombstones : List Level → List Tombstone
  level_tombstones [] = []
  level_tombstones (l ∷ ls) = table_tombstones l.tables ++ level_tombstones ls

module _ (key : Bytes) (point_sequence : Sequence) (point_batch_index : ℕ) (read : Sequence) where
  abbrev pub covers : Tombstone → Bool
  covers t = covers_visible_point t key point_sequence point_batch_index read

  covers_split :
      (t : Tombstone)
      → (key_is_in_range key t.range
          && (leb t.sequence read
              && (ltb point_sequence t.sequence
                  || (t.sequence == point_sequence && ltb point_batch_index t.batch_index))))
        ≡ covers t
  unfolding covers_visible_point
  covers_split t = ground arith

  in_range_and_covers : (t : Tombstone) → (key_is_in_range key t.range && covers t) ≡ covers t
  unfolding covers_visible_point
  in_range_and_covers t = ground arith

  -- An index covers a point exactly if one of its tombstones does.
  pub range_tombstones_cover_lem :
      (ts : List Tombstone)
      → range_tombstones_cover (new_index ts) key point_sequence point_batch_index read
        ≡ any covers ts
  unfolding range_tombstones_cover Tombstone-like
  range_tombstones_cover_lem ts =
      ap (any covers) (covering-eq-filter (new_index ts) key (new_index-IsSorted ts))
      ∙ any-filter_and covers (λ t. key_is_in_range key t.range) (new_index ts).tombstones
      ∙ any-same (λ t. key_is_in_range key t.range && covers t) covers (new_index ts).tombstones
          in_range_and_covers
      ∙ any-new_index covers ts

  abbrev test : Tombstone → Bool
  test d =
      leb d.sequence read
      && (ltb point_sequence d.sequence
          || (d.sequence == point_sequence && ltb point_batch_index d.batch_index))

  none_covers : (ts : List Tombstone) → no_elements ts ≡ true → any covers ts ≡ false
  none_covers [] h = refl
  none_covers (t ∷ ts) h = cc

  table_covers_lem :
      (t : Table) (ts : List Tombstone)
      → HoldsTombstones t ts
      → table_covers_visible_point t key point_sequence point_batch_index read ≡ any covers ts
  unfolding table_covers_visible_point Tombstone-like
  table_covers_lem t ts v =
      let looked : any
            (λ d.
              leb d.sequence read
              && (ltb point_sequence d.sequence
                  || (d.sequence == point_sequence && ltb point_batch_index d.batch_index)))
            (covering_key t.range_tombstones key)
          ≡ any covers ts =
        ap (λ i. any test (covering_key i key)) v.indexed
        ∙ ap (any test) (covering-eq-filter (new_index ts) key (new_index-IsSorted ts))
        ∙ any-filter_and test (λ d. key_is_in_range key d.range) (new_index ts).tombstones
        ∙ any-same (λ d. key_is_in_range key d.range && test d) covers (new_index ts).tombstones
            covers_split
        ∙ any-new_index covers ts in
      elim (Bool-cases (no_elements ts)) [
        | inl e ↦ ground (arith, v.flagged, e, none_covers ts e)
        | inr e ↦ ground (arith, v.flagged, e, looked)
      ]

  covers-any :
      (ts : List Tombstone)
      → any covers ts ≡ true
      → any (λ d. key_is_in_range key d.range) ts ≡ true
  covers-any [] h = h
  covers-any (t ∷ ts) h = ground (arith, in_range_and_covers t, covers-any ts)

  outside_covers :
      (t : Table) (ts : List Tombstone)
      → HoldsTombstones t ts
      → key_bounds_may_contain_key t key ≡ false
      → any covers ts ≡ false
  outside_covers t ts v out = elim (Bool-cases (any covers ts)) [
    | inl y ↦ cc (out, v.in_bounds key (covers-any ts y))
    | inr n ↦ n
  ]

  module _ (tombstones : Table → List Tombstone) where
    abbrev looks : Table → Bool
    looks t = table_covers_visible_point t key point_sequence point_batch_index read

    -- A table that is left out would have covered nothing.
    left_out :
        (t : Table)
        → HoldsTombstones t (tombstones t)
        → has_tombstones_for key t ≡ false
        → any covers (tombstones t) ≡ false
    left_out t v out = elim (Bool-cases (key_bounds_may_contain_key t key)) [
      | inl y ↦ none_covers (tombstones t) (ground (arith, v.flagged, out, y))
      | inr n ↦ outside_covers t (tombstones t) v n
    ]

    level_zero_covers :
        (ts : List Table)
        → All (λ t. HoldsTombstones t (tombstones t)) ts
        → any looks (filter (has_tombstones_for key) ts)
          ≡ any covers (table_tombstones tombstones ts)
    level_zero_covers [] v = refl
    level_zero_covers (t ∷ ts) (v, vs) =
        let split = any-append covers (tombstones t) (table_tombstones tombstones ts) in
        let rest = level_zero_covers ts vs in
        elim (Bool-cases (has_tombstones_for key t)) [
          | inl y ↦ ground (arith, y, split, rest, table_covers_lem t (tombstones t) v)
          | inr n ↦ ground (arith, n, split, rest, left_out t v n)
        ]

    behind_covers :
        (t : Table) (ts : List Table)
        → (has_key_bounds t && bytes_lt t.largest_user_key key) ≡ false
        → All (Precedes t) ts
        → All (λ u. HoldsTombstones u (tombstones u)) ts
        → any covers (table_tombstones tombstones ts) ≡ false
    behind_covers t [] h p v = refl
    behind_covers t (u ∷ us) h (p, ps) (v, vs) =
        let out =
          before key t u (stopped (has_key_bounds t) (bytes_lt t.largest_user_key key) h p.0) p in
        ground (
          arith,
          any-append covers (tombstones u) (table_tombstones tombstones us),
          outside_covers u (tombstones u) v out,
          behind_covers t us h ps vs,
        )

    found_covers :
        (t : Table)
        → HoldsTombstones t (tombstones t)
        → key_bounds_may_contain_key t key ≡ true
        → any looks (optional_table key (some t)) ≡ any covers (tombstones t)
    found_covers t v y = elim (Bool-cases (has_tombstones_for key t)) [
      | inl has ↦ ground (arith, has, table_covers_lem t (tombstones t) v)
      | inr lacks ↦ ground (arith, lacks, left_out t v lacks)
    ]

    sorted_level_covers :
        (n : ℕ) (ts : List Table)
        → All (λ t. HoldsTombstones t (tombstones t)) ts
        → Pairwise Precedes ts
        → any looks (optional_table key (table_for_key (record { level = n; tables = ts }) key))
          ≡ any covers (table_tombstones tombstones ts)
    unfolding table_for_key
    sorted_level_covers n [] v p = refl
    sorted_level_covers n (t ∷ ts) (v, vs) (p, ps) =
        let split = any-append covers (tombstones t) (table_tombstones tombstones ts) in
        elim (Bool-cases (has_key_bounds t && bytes_lt t.largest_user_key key)) [
          | inl passed ↦
              ap (λ o. any looks (optional_table key o)) (passed_over n t ts key passed)
              ∙ sorted_level_covers n ts vs ps
              ∙ ground (arith, split, outside_covers t (tombstones t) v (passed_out key t passed))
          | inr stop ↦
              let rest = behind_covers t ts stop p vs in
              elim (Bool-cases (key_bounds_may_contain_key t key)) [
                | inl y ↦
                    ap (λ o. any looks (optional_table key o)) ((stopped_at n t ts key stop).0 y)
                    ∙ found_covers t v y
                    ∙ ground (arith, split, rest)
                | inr n' ↦
                    ap (λ o. any looks (optional_table key o)) ((stopped_at n t ts key stop).1 n')
                    ∙ ground (arith, split, rest, outside_covers t (tombstones t) v n')
              ]
        ]

    -- The tables that the read asks cover a point exactly if some tombstone of some table does.
    pub levels_cover_lem :
        (ls : List Level)
        → All
            (λ l.
              All (λ t. HoldsTombstones t (tombstones t)) l.tables
              × ((l.level == 0) ≡ false → Pairwise Precedes l.tables))
            ls
        → any looks (range_tombstone_tables_for_key ls key)
          ≡ any covers (level_tombstones tombstones ls)
    unfolding range_tombstone_tables_for_key
    levels_cover_lem [] v = refl
    levels_cover_lem (l ∷ ls) (v, vs) =
        let split =
          any-append covers (table_tombstones tombstones l.tables)
            (level_tombstones tombstones ls) in
        let rest = levels_cover_lem ls vs in
        elim (Bool-cases (l.level == 0)) [
          | inl y ↦ ground (
            arith,
            y,
            split,
            rest,
            any-append looks (filter (has_tombstones_for key) l.tables)
                (range_tombstone_tables_for_key ls key),
            level_zero_covers l.tables v.0,
          )
          | inr n ↦ ground (
            arith,
            n,
            split,
            rest,
            any-append looks (optional_table key (table_for_key l key))
                (range_tombstone_tables_for_key ls key),
            sorted_level_covers l.level l.tables v.0 (v.1 n),
          )
        ]
