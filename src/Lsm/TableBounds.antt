-- ===== src/Lsm/TableBounds.antt =====
-- src/table/metadata.rs: the key bounds that a table is written with.
pub mod Updates
pub mod Pruning
use trine_kv.Prelude.{
  Bool, true, false, not, ◌&&◌, List, [], ◌∷◌, Option, none, some, if◌then◌else◌,
}
use trine_kv.Keys.{Bytes, Bound, included, excluded, unbounded}
use trine_kv.RangeTombstone.{bytes_lt}
use trine_kv.Lsm.{MemtableEntry, Tombstone}
use trine_kv.Lsm.Point.{last?}

unfoldable pub finite_bound_bytes : Bound → Option Bytes
finite_bound_bytes (included bytes) = some bytes
finite_bound_bytes (excluded bytes) = some bytes
finite_bound_bytes unbounded = none

unfoldable pub update_smallest : Option Bytes → Bytes → Option Bytes
update_smallest none candidate = some candidate
update_smallest (some current) candidate =
    if bytes_lt candidate current then some candidate else some current

unfoldable pub update_largest : Option Bytes → Bytes → Option Bytes
update_largest none candidate = some candidate
update_largest (some current) candidate =
    if bytes_lt current candidate then some candidate else some current

abbrev pub first_user_key : List MemtableEntry → Option Bytes
first_user_key [] = none
first_user_key (e ∷ es) = some e.key.user_key

abbrev pub last_user_key : List MemtableEntry → Option Bytes
last_user_key [] = none
last_user_key (e ∷ es) = some (last? e es).key.user_key

-- The loop over the tombstones; `none` is its early return.
unfoldable pub tombstone_bounds :
    Option Bytes → Option Bytes → List Tombstone → Option (Option Bytes × Option Bytes)
unfolding finite_bound_bytes update_smallest update_largest
tombstone_bounds smallest largest [] = some (smallest, largest)
tombstone_bounds smallest largest (t ∷ ts) = elim (finite_bound_bytes t.range.start) [
  | none ↦ none
  | some start ↦ elim (finite_bound_bytes t.range.end) [
    | none ↦ none
    | some end ↦ tombstone_bounds (update_smallest smallest start) (update_largest largest end) ts
  ]
]

-- The last match: both bounds, or none.
abbrev pub both_or_empty : Option Bytes → Option Bytes → Bytes × Bytes
both_or_empty (some smallest) (some largest) = (smallest, largest)
both_or_empty (some smallest) none = ([], [])
both_or_empty none largest = ([], [])

unfoldable pub table_key_bounds : List MemtableEntry → List Tombstone → Bytes × Bytes
unfolding tombstone_bounds
table_key_bounds point_records range_tombstones =
    elim (tombstone_bounds (first_user_key point_records) (last_user_key point_records)
      range_tombstones) [
        | none ↦ ([], [])
        | some (smallest, largest) ↦ both_or_empty smallest largest
      ]
