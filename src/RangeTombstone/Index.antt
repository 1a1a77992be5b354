-- ===== src/RangeTombstone/Index.antt =====
-- The tombstone index against a scan of all tombstones (src/range_tombstone.rs).
use Prim.Native.Nat.Ordering.{lt, eq}
use mathlib.Core.List.{Perm}
use trine_kv.Prelude.{
  ℕ, compare, [], subst, fun_ext, ◌≡◌, refl, true, not, ◌&&◌, List, filter, filter-partition, arith,
  Ordering,
}
use trine_kv.Prelude.Order.{
  IsPreorder, compare-IsOrder, then_with, compare_bytes, compare_bytes-IsOrder, eq_right,
  lex-IsPreorder, on-IsPreorder,
}
use trine_kv.Prelude.Sort.{
  is_le, Leq, IsSorted, sort_by-IsSorted, filter-sort_by, insert_by-IsSorted,
}
use trine_kv.Keys.{Bytes, Bound, included, excluded, unbounded, KeyRange}
use trine_kv.RangeTombstone.{
  key_is_before_start, key_is_after_end, key_is_in_range, range_ends_before_start, ranges_overlap,
  compare_start_bounds, compare_end_bounds, start_can_cover_key, start_can_overlap_end,
  start_can_overlap_range, RangeTombstoneLike, RangeTombstoneIndex, compare_tombstones, new_index,
  covering_key, overlapping_range, insert_sorted,
}
use trine_kv.RangeTombstone.Bounds.{cover-eq-not_before, overlap-eq-not_before}

-- A bound is placed by three coordinates, compared in turn: whether it is unbounded, its key, and
-- the side of the key on which it lies.
abbrev key_of : Bound → Bytes
key_of unbounded = []
key_of (included key) = key
key_of (excluded key) = key

abbrev is_bounded : Bound → ℕ
is_bounded unbounded = 0
is_bounded (included key) = 1
is_bounded (excluded key) = 1

abbrev is_unbounded : Bound → ℕ
is_unbounded unbounded = 1
is_unbounded (included key) = 0
is_unbounded (excluded key) = 0

abbrev is_excluded : Bound → ℕ
is_excluded unbounded = 0
is_excluded (included key) = 0
is_excluded (excluded key) = 1

abbrev is_included : Bound → ℕ
is_included unbounded = 0
is_included (included key) = 1
is_included (excluded key) = 0

abbrev by_coordinates : (Bound → ℕ) → (Bound → ℕ) → Bound → Bound → Ordering
by_coordinates first last a b =
    then_with (compare (first a) (first b))
      (then_with (compare_bytes (key_of a) (key_of b)) (compare (last a) (last b)))

by_coordinates-IsPreorder : (first last : Bound → ℕ) → IsPreorder (by_coordinates first last)
by_coordinates-IsPreorder first last =
    lex-IsPreorder (on-IsPreorder first compare-IsOrder.preorder) (
      lex-IsPreorder (on-IsPreorder key_of compare_bytes-IsOrder.preorder)
        (on-IsPreorder last compare-IsOrder.preorder))

start_coordinates :
    (a b : Bound) → by_coordinates is_bounded is_excluded a b ≡ compare_start_bounds a b
unfolding compare_start_bounds compare_bytes
start_coordinates unbounded unbounded = refl
start_coordinates unbounded (included r) = refl
start_coordinates unbounded (excluded r) = refl
start_coordinates (included l) unbounded = refl
start_coordinates (excluded l) unbounded = refl
start_coordinates (included l) (included r) = ground arith
start_coordinates (included l) (excluded r) = ground arith
start_coordinates (excluded l) (included r) = ground arith
start_coordinates (excluded l) (excluded r) = ground arith

end_coordinates :
    (a b : Bound) → by_coordinates is_unbounded is_included a b ≡ compare_end_bounds a b
unfolding compare_end_bounds compare_bytes
end_coordinates unbounded unbounded = refl
end_coordinates unbounded (included r) = refl
end_coordinates unbounded (excluded r) = refl
end_coordinates (included l) unbounded = refl
end_coordinates (excluded l) unbounded = refl
end_coordinates (included l) (included r) = ground arith
end_coordinates (included l) (excluded r) = ground arith
end_coordinates (excluded l) (included r) = ground arith
end_coordinates (excluded l) (excluded r) = ground arith

pub compare_start_bounds-IsPreorder : IsPreorder compare_start_bounds
compare_start_bounds-IsPreorder =
    subst IsPreorder (fun_ext λ a. fun_ext λ b. start_coordinates a b)
      (by_coordinates-IsPreorder is_bounded is_excluded)

pub compare_end_bounds-IsPreorder : IsPreorder compare_end_bounds
compare_end_bounds-IsPreorder =
    subst IsPreorder (fun_ext λ a. fun_ext λ b. end_coordinates a b)
      (by_coordinates-IsPreorder is_unbounded is_included)

open compare_bytes-IsOrder use {cmp_swap, lt_trans, eq_left}

module _ (a b c : Bytes) where
  facts :
      (compare_bytes a b ≡ lt → compare_bytes b c ≡ lt → compare_bytes a c ≡ lt)
      × (compare_bytes a b ≡ eq → compare_bytes a c ≡ compare_bytes b c)
      × (compare_bytes b c ≡ eq → compare_bytes a b ≡ compare_bytes a c)
  facts = (lt_trans a b c, eq_left a b c, eq_right compare_bytes-IsOrder.preorder a b c)

-- A later start bound is behind a key, or behind an end, wherever an earlier one is.
before_start_mono :
    (key : Bytes) (a b : Bound)
    → is_le (compare_start_bounds a b) ≡ true
    → key_is_before_start key a ≡ true
    → key_is_before_start key b ≡ true
unfolding compare_start_bounds key_is_before_start
before_start_mono key unbounded b h k = cc
before_start_mono key (included l) unbounded h k = cc
before_start_mono key (excluded l) unbounded h k = cc
before_start_mono key (included l) (included r) h k = ground (arith, facts key l r)
before_start_mono key (included l) (excluded r) h k = ground (arith, facts key l r)
before_start_mono key (excluded l) (included r) h k = ground (arith, facts key l r)
before_start_mono key (excluded l) (excluded r) h k = ground (arith, facts key l r)

ends_before_mono :
    (end a b : Bound)
    → is_le (compare_start_bounds a b) ≡ true
    → range_ends_before_start end a ≡ true
    → range_ends_before_start end b ≡ true
unfolding compare_start_bounds range_ends_before_start
ends_before_mono unbounded a b h k = cc
ends_before_mono (included e) unbounded b h k = cc
ends_before_mono (excluded e) unbounded b h k = cc
ends_before_mono (included e) (included l) unbounded h k = cc
ends_before_mono (included e) (excluded l) unbounded h k = cc
ends_before_mono (excluded e) (included l) unbounded h k = cc
ends_before_mono (excluded e) (excluded l) unbounded h k = cc
ends_before_mono (included e) (included l) (included r) h k = ground (arith, facts e l r)
ends_before_mono (included e) (included l) (excluded r) h k = ground (arith, facts e l r)
ends_before_mono (included e) (excluded l) (included r) h k = ground (arith, facts e l r)
ends_before_mono (included e) (excluded l) (excluded r) h k = ground (arith, facts e l r)
ends_before_mono (excluded e) (included l) (included r) h k = ground (arith, facts e l r)
ends_before_mono (excluded e) (included l) (excluded r) h k = ground (arith, facts e l r)
ends_before_mono (excluded e) (excluded l) (included r) h k = ground (arith, facts e l r)
ends_before_mono (excluded e) (excluded l) (excluded r) h k = ground (arith, facts e l r)

module _ {T : Type 0} ⦃like : RangeTombstoneLike T⦄ where
  pub compare_tombstones-IsPreorder : IsPreorder (compare_tombstones {T = T})
  unfolding compare_tombstones
  compare_tombstones-IsPreorder =
      lex-IsPreorder
        (on-IsPreorder (λ (t : T). (like.range t).start) compare_start_bounds-IsPreorder)
        (on-IsPreorder (λ (t : T). (like.range t).end) compare_end_bounds-IsPreorder)

  start_le :
      (a b : T)
      → Leq compare_tombstones a b
      → is_le (compare_start_bounds (like.range a).start (like.range b).start) ≡ true
  unfolding compare_tombstones
  start_le a b h = ground arith

  pub covering-eq-filter :
      (index : RangeTombstoneIndex T) (key : Bytes)
      → IsSorted compare_tombstones index.tombstones
      → covering_key index key ≡ filter (λ t. key_is_in_range key (like.range t)) index.tombstones
  unfolding covering_key key_is_in_range
  covering-eq-filter index key h =
      filter-partition (Leq compare_tombstones) (λ t. start_can_cover_key (like.range t).start key)
        (λ t.
          not (key_is_before_start key (like.range t).start)
          && not (key_is_after_end key (like.range t).end))
        (λ x y r e. ground (
          arith,
          start_le x y r,
          before_start_mono key (like.range x).start (like.range y).start,
          cover-eq-not_before (like.range x).start key,
          cover-eq-not_before (like.range y).start key,
        ))
        (λ x e. ground (arith, cover-eq-not_before (like.range x).start key)) index.tombstones h

  pub overlapping-eq-filter :
      (index : RangeTombstoneIndex T) (range : KeyRange)
      → IsSorted compare_tombstones index.tombstones
      → overlapping_range index range
        ≡ filter (λ t. ranges_overlap range (like.range t)) index.tombstones
  unfolding overlapping_range ranges_overlap start_can_overlap_range
  overlapping-eq-filter index range h =
      filter-partition (Leq compare_tombstones)
        (λ t. start_can_overlap_end (like.range t).start range.end)
        (λ t.
          not (range_ends_before_start range.end (like.range t).start)
          && not (range_ends_before_start (like.range t).end range.start))
        (λ x y r e. ground (
          arith,
          start_le x y r,
          ends_before_mono range.end (like.range x).start (like.range y).start,
          overlap-eq-not_before (like.range x).start range.end,
          overlap-eq-not_before (like.range y).start range.end,
        ))
        (λ x e. ground (arith, overlap-eq-not_before (like.range x).start range.end))
        index.tombstones h

  pub new_index-IsSorted :
      (tombstones : List T) → IsSorted compare_tombstones (new_index tombstones).tombstones
  unfolding new_index
  new_index-IsSorted tombstones = sort_by-IsSorted compare_tombstones-IsPreorder tombstones

  -- On an index built from a list, the query for a key returns, in some order, exactly the
  -- tombstones of the list whose range holds the key: the cut at the partition point loses none.
  pub covering_key-perm :
      (tombstones : List T) (key : Bytes)
      → Perm
          (covering_key (new_index tombstones) key)
          (filter (λ t. key_is_in_range key (like.range t)) tombstones)
  covering_key-perm tombstones key =
      rw (covering-eq-filter (new_index tombstones) key (new_index-IsSorted tombstones)) (
        unfold new_index in
        filter-sort_by compare_tombstones (λ t. key_is_in_range key (like.range t)) tombstones)

  -- The query for a range returns, in some order, exactly the tombstones of the list that
  -- overlap the range.
  pub overlapping_range-perm :
      (tombstones : List T) (range : KeyRange)
      → Perm
          (overlapping_range (new_index tombstones) range)
          (filter (λ t. ranges_overlap range (like.range t)) tombstones)
  overlapping_range-perm tombstones range =
      rw (overlapping-eq-filter (new_index tombstones) range (new_index-IsSorted tombstones)) (
        unfold new_index in
        filter-sort_by compare_tombstones (λ t. ranges_overlap range (like.range t)) tombstones)

  -- Inserting into a sorted list keeps it sorted, so that both queries stay exact on it.
  pub insert_sorted_queries :
      (tombstones : List T) (t : T) (key : Bytes) (range : KeyRange)
      → IsSorted compare_tombstones tombstones
      → IsSorted compare_tombstones (insert_sorted tombstones t)
        × (covering_key (record { tombstones = insert_sorted tombstones t }) key
            ≡ filter (λ t. key_is_in_range key (like.range t)) (insert_sorted tombstones t))
        × (overlapping_range (record { tombstones = insert_sorted tombstones t }) range
            ≡ filter (λ t. ranges_overlap range (like.range t)) (insert_sorted tombstones t))
  insert_sorted_queries tombstones t key range h = (
    sorted,
    covering-eq-filter (record { tombstones = insert_sorted tombstones t }) key sorted,
    overlapping-eq-filter (record { tombstones = insert_sorted tombstones t }) range sorted,
  )
    where
      sorted : IsSorted compare_tombstones (insert_sorted tombstones t)
      sorted =
          unfold insert_sorted in insert_by-IsSorted compare_tombstones-IsPreorder t tombstones h
