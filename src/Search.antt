-- ===== src/Search.antt =====
-- The search of a partition point under the index policies (src/search.rs).
pub mod Partition
use trine_kv.Prelude.{ℕ, zero, suc, ◌+◌, ◌-◌, ◌/◌, Bool, ltb, leb, if◌then◌else◌}

pub data IndexSearchPolicy : Type 0 where
  linear : IndexSearchPolicy
  binary : IndexSearchPolicy
  auto : IndexSearchPolicy

-- The loop over the indices from `index`, of which `count` are left.
unfoldable pub linear_loop : (count index : ℕ) → (ℕ → Bool) → ℕ
linear_loop zero index predicate = index
linear_loop (suc count) index predicate =
    let rest = linear_loop count (suc index) predicate in if predicate index then rest else index

unfoldable pub linear_partition_point : ℕ → (ℕ → Bool) → ℕ
linear_partition_point len predicate = linear_loop len 0 predicate

abbrev pub middle_of : ℕ → ℕ → ℕ
middle_of left right = left + (right - left) / 2

abbrev pub next_left : ℕ → ℕ → (ℕ → Bool) → ℕ
next_left left right predicate =
    if predicate (middle_of left right) then middle_of left right + 1 else left

abbrev pub next_right : ℕ → ℕ → (ℕ → Bool) → ℕ
next_right left right predicate =
    if predicate (middle_of left right) then right else middle_of left right

-- The `while` loop; each round shortens the interval, so `right - left` rounds suffice.
unfoldable pub binary_loop : (fuel left right : ℕ) → (ℕ → Bool) → ℕ
binary_loop zero left right predicate = left
binary_loop (suc fuel) left right predicate =
    let rest =
      binary_loop fuel (next_left left right predicate) (next_right left right predicate)
        predicate in
    if ltb left right then rest else left

unfoldable pub binary_partition_point : ℕ → (ℕ → Bool) → ℕ
binary_partition_point len predicate = binary_loop len 0 len predicate

unfoldable pub partition_point_by : ℕ → IndexSearchPolicy → (ℕ → Bool) → ℕ
partition_point_by len linear predicate = linear_partition_point len predicate
partition_point_by len binary predicate = binary_partition_point len predicate
partition_point_by len auto predicate =
    if leb len 8 then linear_partition_point len predicate else binary_partition_point len predicate
