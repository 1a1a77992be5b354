-- ===== src/Tests/KeyTests.antt =====
-- Keys, ranges and range tombstones (src/internal_key.rs, src/range_tombstone.rs).
use trine_kv.Prelude.{
  ℕ, ◌≤◌, ◌≡◌, refl, ◌↔◌, Bool, true, false, not, ◌&&◌, List, [], ◌∷◌, Option, none, some, filter,
  arith,
}
use mathlib.Core.List.{Perm}
use trine_kv.Prelude.Sort.{Leq, IsSorted}
use trine_kv.Keys.{excluded, unbounded, KeyRange, half_open, InternalKey, put}
use trine_kv.RangeTombstone.{
  RangeTombstoneLike, RangeTombstoneIndex, key_is_in_range, ranges_overlap, range_intersection,
  new_index, covering_key, overlapping_range, insert_sorted, compare_tombstones, sort_tombstones,
}
use trine_kv.RangeTombstone.Bounds.{in_intersection, range_intersection_lem, ranges_overlap_sound}
use trine_kv.RangeTombstone.Index.{covering_key-perm, overlapping_range-perm}

record Deletion : Type 0 where
  deleted : KeyRange
  at : ℕ

instance Deletion-like : RangeTombstoneLike Deletion
Deletion-like = record { range = λ d. d.deleted }

abbrev early : Deletion
early = record { deleted = half_open (1 ∷ []) (4 ∷ []); at = 1 }

abbrev middle : Deletion
middle = record { deleted = half_open (3 ∷ []) (6 ∷ []); at = 2 }

abbrev late : Deletion
late = record { deleted = record { start = excluded (5 ∷ []); end = unbounded }; at = 3 }

abbrev three : List Deletion
three = late ∷ early ∷ middle ∷ []

covering_three : covering_key (new_index three) (3 ∷ []) ≡ early ∷ middle ∷ []
unfolding covering_key new_index trine_kv.Prelude.Sort.sort_by
    trine_kv.RangeTombstone.compare_start_bounds Deletion-like trine_kv.Prelude.Order.compare_bytes
    trine_kv.RangeTombstone.start_can_cover_key key_is_in_range
    trine_kv.RangeTombstone.key_is_before_start trine_kv.RangeTombstone.key_is_after_end
covering_three = refl

abbrev record_of_7 : InternalKey
record_of_7 = record { user_key = 7 ∷ []; sequence = 12; kind = put; batch_index = 3 }

range_intersection_lem_example :
    in_intersection (3 ∷ []) (range_intersection early.deleted middle.deleted)
    ≡ (key_is_in_range (3 ∷ []) early.deleted && key_is_in_range (3 ∷ []) middle.deleted)
range_intersection_lem_example = range_intersection_lem (3 ∷ []) early.deleted middle.deleted

in_both : (key_is_in_range (3 ∷ []) early.deleted && key_is_in_range (3 ∷ []) middle.deleted) ≡ true
unfolding key_is_in_range trine_kv.RangeTombstone.key_is_before_start
    trine_kv.Prelude.Order.compare_bytes trine_kv.RangeTombstone.key_is_after_end
in_both = refl

ranges_overlap_sound_example :
    (ranges_overlap early.deleted middle.deleted ≡ true)
    × (ranges_overlap middle.deleted early.deleted ≡ true)
ranges_overlap_sound_example = ranges_overlap_sound (3 ∷ []) early.deleted middle.deleted in_both

covering_key-perm_example :
    Perm
      (covering_key (new_index three) (3 ∷ []))
      (filter (λ t. key_is_in_range (3 ∷ []) t.deleted) three)
unfolding Deletion-like
covering_key-perm_example = covering_key-perm three (3 ∷ [])

overlapping_range-perm_example :
    Perm
      (overlapping_range (new_index three) (half_open (4 ∷ []) (6 ∷ [])))
      (filter (λ t. ranges_overlap (half_open (4 ∷ []) (6 ∷ [])) t.deleted) three)
unfolding Deletion-like
overlapping_range-perm_example = overlapping_range-perm three (half_open (4 ∷ []) (6 ∷ []))

two-IsSorted : IsSorted compare_tombstones (early ∷ late ∷ [])
unfolding compare_tombstones Deletion-like trine_kv.RangeTombstone.compare_start_bounds
    trine_kv.Prelude.Order.compare_bytes
two-IsSorted = ((refl, tt), (tt, tt))
