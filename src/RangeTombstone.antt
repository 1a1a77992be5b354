-- ===== src/RangeTombstone.antt =====
-- src/range_tombstone.rs: ranges of user keys, and an index of range tombstones.
pub mod Bounds
pub mod Index
use Prim.Native.Nat.Ordering.{lt, eq, gt}
use trine_kv.Prelude.{
  ℕ, Ordering, Bool, true, false, not, ◌&&◌, Option, none, some, List, take, filter,
  partition_point, if◌then◌else◌,
}
use trine_kv.Prelude.Order.{then_with, compare_bytes}
use trine_kv.Prelude.Sort.{sort_by, insert_by}
use trine_kv.Keys.{Bytes, Bound, included, excluded, unbounded, KeyRange}

-- `<` and `<=` of byte slices.
abbrev pub bytes_lt : Bytes → Bytes → Bool
bytes_lt a b = elim (compare_bytes a b) [ lt ↦ true | _ ↦ false ]

abbrev pub bytes_le : Bytes → Bytes → Bool
bytes_le a b = elim (compare_bytes a b) [ gt ↦ false | _ ↦ true ]

unfoldable pub key_is_before_start : Bytes → Bound → Bool
key_is_before_start key (included start) = bytes_lt key start
key_is_before_start key (excluded start) = bytes_le key start
key_is_before_start key unbounded = false

unfoldable pub key_is_after_end : Bytes → Bound → Bool
key_is_after_end key (included end) = bytes_lt end key
key_is_after_end key (excluded end) = bytes_le end key
key_is_after_end key unbounded = false

unfoldable pub key_is_in_range : Bytes → KeyRange → Bool
key_is_in_range key range =
    not (key_is_before_start key range.start) && not (key_is_after_end key range.end)

unfoldable pub range_ends_before_start : Bound → Bound → Bool
range_ends_before_start unbounded start = false
range_ends_before_start (included end) unbounded = false
range_ends_before_start (excluded end) unbounded = false
range_ends_before_start (excluded end) (included start) = bytes_le end start
range_ends_before_start (excluded end) (excluded start) = bytes_le end start
range_ends_before_start (included end) (included start) = bytes_lt end start
range_ends_before_start (included end) (excluded start) = bytes_le end start

unfoldable pub ranges_overlap : KeyRange → KeyRange → Bool
ranges_overlap left right =
    not (range_ends_before_start left.end right.start)
    && not (range_ends_before_start right.end left.start)

unfoldable pub compare_start_bounds : Bound → Bound → Ordering
compare_start_bounds unbounded unbounded = eq
compare_start_bounds unbounded (included r) = lt
compare_start_bounds unbounded (excluded r) = lt
compare_start_bounds (included l) unbounded = gt
compare_start_bounds (excluded l) unbounded = gt
compare_start_bounds (included l) (included r) = compare_bytes l r
compare_start_bounds (excluded l) (excluded r) = compare_bytes l r
compare_start_bounds (included l) (excluded r) = then_with (compare_bytes l r) lt
compare_start_bounds (excluded l) (included r) = then_with (compare_bytes l r) gt

unfoldable pub compare_end_bounds : Bound → Bound → Ordering
compare_end_bounds unbounded unbounded = eq
compare_end_bounds unbounded (included r) = gt
compare_end_bounds unbounded (excluded r) = gt
compare_end_bounds (included l) unbounded = lt
compare_end_bounds (excluded l) unbounded = lt
compare_end_bounds (included l) (included r) = compare_bytes l r
compare_end_bounds (excluded l) (excluded r) = compare_bytes l r
compare_end_bounds (excluded l) (included r) = then_with (compare_bytes l r) lt
compare_end_bounds (included l) (excluded r) = then_with (compare_bytes l r) gt

unfoldable pub max_start_bound : Bound → Bound → Bound
max_start_bound left right = elim (compare_start_bounds left right) [ lt ↦ right | _ ↦ left ]

unfoldable pub min_end_bound : Bound → Bound → Bound
min_end_bound left right = elim (compare_end_bounds left right) [ gt ↦ right | _ ↦ left ]

unfoldable pub range_intersection : KeyRange → KeyRange → Option KeyRange
range_intersection left right =
    if not (ranges_overlap left right)
    then none
    else some (record {
      start = max_start_bound left.start right.start;
      end = min_end_bound left.end right.end;
    })

unfoldable pub range_from_inclusive_span : Bytes → Bytes → KeyRange
range_from_inclusive_span smallest largest = record {
  start = included smallest;
  end = included largest;
}

unfoldable pub start_can_cover_key : Bound → Bytes → Bool
start_can_cover_key unbounded key = true
start_can_cover_key (included start) key = bytes_le start key
start_can_cover_key (excluded start) key = bytes_lt start key

-- The nested match on the end of `range`, then on `start`.
unfoldable pub start_can_overlap_end : Bound → Bound → Bool
start_can_overlap_end start unbounded = true
start_can_overlap_end unbounded (included end) = true
start_can_overlap_end (included start) (included end) = bytes_le start end
start_can_overlap_end (excluded start) (included end) = bytes_lt start end
start_can_overlap_end unbounded (excluded end) = true
start_can_overlap_end (included start) (excluded end) = bytes_lt start end
start_can_overlap_end (excluded start) (excluded end) = bytes_lt start end

unfoldable pub start_can_overlap_range : Bound → KeyRange → Bool
unfolding start_can_overlap_end
start_can_overlap_range start range = start_can_overlap_end start range.end

-- The trait, with the one method.
pub record RangeTombstoneLike (T : Type 0) : Type 0 where
  pub range : T → KeyRange

-- An index is its sorted list.
pub record RangeTombstoneIndex (T : Type 0) : Type 0 where
  pub tombstones : List T

module _ {T : Type 0} ⦃like : RangeTombstoneLike T⦄ where
  unfoldable pub compare_tombstones : T → T → Ordering
  compare_tombstones left right =
      then_with (compare_start_bounds (like.range left).start (like.range right).start)
        (compare_end_bounds (like.range left).end (like.range right).end)

  unfoldable pub sort_tombstones : List T → List T
  unfolding compare_tombstones
  sort_tombstones tombstones = sort_by compare_tombstones tombstones

  unfoldable pub new_index : List T → RangeTombstoneIndex T
  unfolding sort_tombstones
  new_index tombstones = record { tombstones = sort_tombstones tombstones }

  unfoldable pub covering_key : RangeTombstoneIndex T → Bytes → List T
  covering_key index key =
      filter (λ t. key_is_in_range key (like.range t))
        (take (partition_point (λ t. start_can_cover_key (like.range t).start key) index.tombstones)
          index.tombstones)

  unfoldable pub overlapping_range : RangeTombstoneIndex T → KeyRange → List T
  overlapping_range index range =
      filter (λ t. ranges_overlap range (like.range t))
        (take
          (partition_point (λ t. start_can_overlap_range (like.range t).start range)
            index.tombstones)
          index.tombstones)

  -- `insert_sorted` asks a binary search for a place, which `std` leaves open among equal
  -- elements; this is the first such place.
  unfoldable pub insert_sorted : List T → T → List T
  unfolding compare_tombstones
  insert_sorted tombstones tombstone = insert_by compare_tombstones tombstone tombstones
