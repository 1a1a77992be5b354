-- ===== src/RangeTombstone/Bounds.antt =====
-- What the predicates on ranges say of the keys in them.
use Prim.Native.Nat.Ordering.{lt, eq}
use trine_kv.Prelude.{◌≡◌, refl, Bool, true, false, not, ◌&&◌, Option, none, some, arith}
use trine_kv.Prelude.Order.{compare_bytes, compare_bytes-IsOrder, eq_right}
use trine_kv.Keys.{Bytes, Bound, included, excluded, unbounded, KeyRange}
use trine_kv.RangeTombstone.{
  key_is_before_start, key_is_after_end, key_is_in_range, range_ends_before_start, ranges_overlap,
  compare_start_bounds, compare_end_bounds, max_start_bound, min_end_bound, range_intersection,
  start_can_cover_key, start_can_overlap_end,
}
open compare_bytes-IsOrder use {cmp_swap, lt_trans, eq_left}

-- The three comparisons among three byte strings, as facts for the tactics.
abbrev Facts : Bytes → Bytes → Bytes → Type 0
Facts a b c =
    (compare_bytes a b ≡ lt → compare_bytes b c ≡ lt → compare_bytes a c ≡ lt)
    × (compare_bytes a b ≡ eq → compare_bytes a c ≡ compare_bytes b c)
    × (compare_bytes b c ≡ eq → compare_bytes a b ≡ compare_bytes a c)

facts : (a b c : Bytes) → Facts a b c
facts a b c = (lt_trans a b c, eq_left a b c, eq_right compare_bytes-IsOrder.preorder a b c)

module _ (key : Bytes) where
  before_max_start :
      (l r : Bound)
      → not (key_is_before_start key (max_start_bound l r))
        ≡ (not (key_is_before_start key l) && not (key_is_before_start key r))
  unfolding key_is_before_start max_start_bound compare_start_bounds
  before_max_start unbounded unbounded = refl
  before_max_start unbounded (included r) = refl
  before_max_start unbounded (excluded r) = refl
  before_max_start (included l) unbounded = ground arith
  before_max_start (excluded l) unbounded = ground arith
  before_max_start (included l) (included r) =
      ground (arith, facts key l r, facts key r l, cmp_swap l r, cmp_swap key l, cmp_swap key r)
  before_max_start (included l) (excluded r) =
      ground (arith, facts key l r, facts key r l, cmp_swap l r, cmp_swap key l, cmp_swap key r)
  before_max_start (excluded l) (included r) =
      ground (arith, facts key l r, facts key r l, cmp_swap l r, cmp_swap key l, cmp_swap key r)
  before_max_start (excluded l) (excluded r) =
      ground (arith, facts key l r, facts key r l, cmp_swap l r, cmp_swap key l, cmp_swap key r)

  after_min_end :
      (l r : Bound)
      → not (key_is_after_end key (min_end_bound l r))
        ≡ (not (key_is_after_end key l) && not (key_is_after_end key r))
  unfolding key_is_after_end min_end_bound compare_end_bounds
  after_min_end unbounded unbounded = refl
  after_min_end unbounded (included r) = refl
  after_min_end unbounded (excluded r) = refl
  after_min_end (included l) unbounded = ground arith
  after_min_end (excluded l) unbounded = ground arith
  after_min_end (included l) (included r) =
      ground (arith, facts l r key, facts r l key, cmp_swap l r, cmp_swap l key, cmp_swap r key)
  after_min_end (included l) (excluded r) =
      ground (arith, facts l r key, facts r l key, cmp_swap l r, cmp_swap l key, cmp_swap r key)
  after_min_end (excluded l) (included r) =
      ground (arith, facts l r key, facts r l key, cmp_swap l r, cmp_swap l key, cmp_swap r key)
  after_min_end (excluded l) (excluded r) =
      ground (arith, facts l r key, facts r l key, cmp_swap l r, cmp_swap l key, cmp_swap r key)

  -- An end before a start leaves no key between.
  pub gap_has_no_key :
      (end start : Bound)
      → range_ends_before_start end start ≡ true
      → (not (key_is_before_start key start) && not (key_is_after_end key end)) ≡ false
  unfolding key_is_before_start key_is_after_end range_ends_before_start
  gap_has_no_key unbounded start h = cc
  gap_has_no_key (included e) unbounded h = cc
  gap_has_no_key (excluded e) unbounded h = cc
  gap_has_no_key (included e) (included s) h =
      ground (arith, facts e s key, facts key e s, cmp_swap e key, cmp_swap s key)
  gap_has_no_key (included e) (excluded s) h =
      ground (arith, facts e s key, facts key e s, cmp_swap e key, cmp_swap s key)
  gap_has_no_key (excluded e) (included s) h =
      ground (arith, facts e s key, facts key e s, cmp_swap e key, cmp_swap s key)
  gap_has_no_key (excluded e) (excluded s) h =
      ground (arith, facts e s key, facts key e s, cmp_swap e key, cmp_swap s key)

-- Membership in the result of an intersection; there is none where the result is `None`.
abbrev pub in_intersection : Bytes → Option KeyRange → Bool
in_intersection key none = false
in_intersection key (some range) = key_is_in_range key range

-- The intersection of two ranges holds exactly the keys that both hold, also where the ranges
-- are found not to overlap and the result is `None`.
pub range_intersection_lem :
    (key : Bytes) (left right : KeyRange)
    → in_intersection key (range_intersection left right)
      ≡ (key_is_in_range key left && key_is_in_range key right)
unfolding range_intersection ranges_overlap key_is_in_range
range_intersection_lem key left right = ground (
  arith,
  before_max_start key left.start right.start,
  after_min_end key left.end right.end,
  gap_has_no_key key left.end right.start,
  gap_has_no_key key right.end left.start,
)

-- Ranges that share a key overlap, and the test does not depend on the order of the two.
pub ranges_overlap_sound :
    (key : Bytes) (left right : KeyRange)
    → (key_is_in_range key left && key_is_in_range key right) ≡ true
    → (ranges_overlap left right ≡ true) × (ranges_overlap right left ≡ true)
unfolding ranges_overlap key_is_in_range
ranges_overlap_sound key left right h =
    ground (arith, gap_has_no_key key left.end right.start, gap_has_no_key key right.end left.start)

pub cover-eq-not_before :
    (start : Bound) (key : Bytes)
    → start_can_cover_key start key ≡ not (key_is_before_start key start)
unfolding start_can_cover_key key_is_before_start
cover-eq-not_before unbounded key = refl
cover-eq-not_before (included s) key = ground (arith, cmp_swap s key)
cover-eq-not_before (excluded s) key = ground (arith, cmp_swap s key)

pub overlap-eq-not_before :
    (start end : Bound) → start_can_overlap_end start end ≡ not (range_ends_before_start end start)
unfolding start_can_overlap_end range_ends_before_start
overlap-eq-not_before unbounded unbounded = refl
overlap-eq-not_before (included s) unbounded = refl
overlap-eq-not_before (excluded s) unbounded = refl
overlap-eq-not_before unbounded (included e) = refl
overlap-eq-not_before unbounded (excluded e) = refl
overlap-eq-not_before (included s) (included e) = ground (arith, cmp_swap s e)
overlap-eq-not_before (excluded s) (included e) = ground (arith, cmp_swap s e)
overlap-eq-not_before (included s) (excluded e) = ground (arith, cmp_swap s e)
overlap-eq-not_before (excluded s) (excluded e) = ground (arith, cmp_swap s e)
