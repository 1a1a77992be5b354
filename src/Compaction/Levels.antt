-- ===== src/Compaction/Levels.antt =====
-- src/compaction.rs: the sizes of the levels and which of them wants a compaction.
use trine_kv.Prelude.{
  ℕ, zero, suc, ◌+◌, ◌-◌, ◌*◌, ◌^◌, min, max, compare, Ordering, Bool, false, not, ◌&&◌, List, [],
  ◌∷◌, Option, none, some, any, filter, length, ltb, leb, ◌==◌, if◌then◌else◌,
}
use trine_kv.Keys.{KeyRange, u64_max}
use trine_kv.Compaction.{CompactionOptions, CompactionTable, overlaps_range}
use trine_kv.Compaction.Inputs.{sum_bytes, at_level, max_by, find}

-- A `BTreeSet` of levels is a list in ascending order.
abbrev insert_level : ℕ → List ℕ → List ℕ
insert_level level [] = level ∷ []
insert_level level (l ∷ ls) =
    if level == l then l ∷ ls else if ltb level l then level ∷ l ∷ ls else l ∷ insert_level level ls

abbrev levels_of : List CompactionTable → List ℕ
levels_of [] = []
levels_of (t ∷ ts) = insert_level t.level (levels_of ts)

unfoldable pub level_set : List CompactionTable → KeyRange → List ℕ
unfolding overlaps_range
level_set tables range =
    levels_of (filter (λ t. not (t.level == 0) && overlaps_range t range) tables)

unfoldable pub overlapping_table_count : List CompactionTable → KeyRange → ℕ → ℕ
unfolding overlaps_range
overlapping_table_count tables range level = length (at_level tables range level)

abbrev pub multi_table_fallback_threshold : ℕ → ℕ
multi_table_fallback_threshold level = min (1 + level) u64_max

unfoldable pub lower_level_lazy_skip : List CompactionTable → KeyRange → Bool
unfolding level_set overlapping_table_count
lower_level_lazy_skip tables range =
    any
      (λ level.
        leb 2 (overlapping_table_count tables range level)
        && ltb (overlapping_table_count tables range level) (multi_table_fallback_threshold level))
      (level_set tables range)

abbrev deepest_of : Option ℕ → List CompactionTable → Option ℕ
deepest_of deepest [] = deepest
deepest_of none (t ∷ ts) = deepest_of (some t.level) ts
deepest_of (some level) (t ∷ ts) = deepest_of (some (max level t.level)) ts

unfoldable pub deepest_nonzero_level : List CompactionTable → Option ℕ
deepest_nonzero_level tables = deepest_of none (filter (λ t. not (t.level == 0)) tables)

unfoldable pub level_has_range_tombstone_table : List CompactionTable → KeyRange → ℕ → Bool
unfolding overlaps_range
level_has_range_tombstone_table tables range level =
    any (λ t. t.level == level && (t.has_range_tombstones && overlaps_range t range)) tables

abbrev pub is_level : Option ℕ → ℕ → Bool
is_level none level = false
is_level (some deepest) level = deepest == level

-- The level whose tombstones have to move down.
unfoldable pub tombstone_debt_level : List CompactionTable → KeyRange → Option ℕ
unfolding level_set deepest_nonzero_level level_has_range_tombstone_table
tombstone_debt_level tables range =
    find
      (λ level.
        not (is_level (deepest_nonzero_level tables) level)
        && level_has_range_tombstone_table tables range level)
      (level_set tables range)

unfoldable pub shallowest_multi_table_level : List CompactionTable → KeyRange → Option ℕ
unfolding level_set overlapping_table_count
shallowest_multi_table_level tables range =
    find
      (λ level.
        leb (multi_table_fallback_threshold level) (overlapping_table_count tables range level))
      (level_set tables range)

unfoldable pub level_bytes : List CompactionTable → ℕ → ℕ
level_bytes tables level = sum_bytes (filter (λ t. t.level == level) tables)

abbrev pub grow_target : ℕ → ℕ → ℕ → ℕ
grow_target zero multiplier target = target
grow_target (suc exponent) multiplier target =
    grow_target exponent multiplier (min (target * multiplier) u64_max)

unfoldable pub level_target_bytes : ℕ → CompactionOptions → ℕ
level_target_bytes level options =
    grow_target (level - 1) (max options.level_size_multiplier 2) (max options.target_table_bytes 1)

unfoldable pub level_is_over_target : List CompactionTable → CompactionOptions → ℕ → Bool
unfolding level_bytes level_target_bytes
level_is_over_target tables options level =
    ltb (level_target_bytes level options) (level_bytes tables level)

abbrev u128_saturating_mul : ℕ → ℕ → ℕ
u128_saturating_mul a b = min (a * b) (2 ^ 128 - 1)

unfoldable pub compare_level_scores : List CompactionTable → CompactionOptions → ℕ → ℕ → Ordering
unfolding level_bytes level_target_bytes
compare_level_scores tables options left right =
    compare (u128_saturating_mul (level_bytes tables left) (level_target_bytes right options))
      (u128_saturating_mul (level_bytes tables right) (level_target_bytes left options))

unfoldable pub highest_scored_level : List CompactionTable → KeyRange → CompactionOptions → Option ℕ
unfolding level_set level_is_over_target compare_level_scores
highest_scored_level tables range options =
    max_by (compare_level_scores tables options)
      (filter (level_is_over_target tables options) (level_set tables range))
