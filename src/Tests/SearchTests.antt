-- ===== src/Tests/SearchTests.antt =====
-- The search policies (src/search.rs).
use trine_kv.Prelude.{ℕ, ◌<◌, ◌≡◌, refl, ◌↔◌, Bool, true, ltb, arith}
use trine_kv.Search.{
  linear, binary, auto, linear_loop, linear_partition_point, binary_loop, binary_partition_point,
  partition_point_by,
}
use trine_kv.Search.Partition.{IsMonotone, partition_point_by_splits, policies_agree}

abbrev below_five : ℕ → Bool
below_five i = ltb i 5

below_five-IsMonotone : IsMonotone 12 below_five
below_five-IsMonotone i j le below h = ground (arith, le, h)

linear_run : partition_point_by 12 linear below_five ≡ 5
unfolding partition_point_by linear_partition_point linear_loop
linear_run = refl

binary_run : partition_point_by 12 binary below_five ≡ 5
unfolding partition_point_by binary_partition_point binary_loop
binary_run = refl

auto_short_run : partition_point_by 4 auto below_five ≡ 4
unfolding partition_point_by linear_partition_point linear_loop
auto_short_run = refl

partition_point_by_splits_example :
    (below_five 4 ≡ true) ↔ (4 < partition_point_by 12 binary below_five)
partition_point_by_splits_example =
    partition_point_by_splits 12 binary below_five below_five-IsMonotone 4 (omega arith)

policies_agree_example :
    partition_point_by 12 linear below_five ≡ partition_point_by 12 binary below_five
policies_agree_example = policies_agree 12 linear binary below_five below_five-IsMonotone
