-- ===== src/Compaction/Inputs.antt =====
-- src/compaction.rs: the inputs of one level with those that they overlap. Each round of a loop adds
-- an input, so one round more than there are tables suffices.
use trine_kv.Prelude.{
  ℕ, zero, suc, ◌+◌, ◌*◌, min, compare, Ordering, Bool, false, ◌&&◌, ◌||◌, List, [], ◌∷◌, Option,
  none, some, filter, length, map, ltb, leb, ◌==◌, if◌then◌else◌,
}
use trine_kv.Prelude.Order.{then_with}
use trine_kv.Keys.{KeyRange, u64_max}
use trine_kv.Compaction.{
  CompactionOptions, CompactionTable, KeySpan, overlaps_key_span, overlaps_range, contains,
  key_span_for_inputs, push_wanted, overlaps_span,
}
use Prim.Native.Nat.Ordering.{gt}

unfoldable pub close_loop : ℕ → List CompactionTable → List ℕ → List ℕ
unfolding key_span_for_inputs overlaps_key_span
close_loop zero tables inputs = inputs
close_loop (suc rounds) tables inputs = elim (key_span_for_inputs tables inputs) [
  | none ↦ inputs
  | some span ↦
      let after = push_wanted (λ t. t.level == 0 && overlaps_key_span t span) tables inputs in
      let rest = close_loop rounds tables after in
      if length after == length inputs then after else rest
]

unfoldable pub close_overlapping_l0_inputs : List CompactionTable → List ℕ → List ℕ
unfolding close_loop
close_overlapping_l0_inputs tables inputs = close_loop (suc (length tables)) tables inputs

unfoldable pub include_loop : ℕ → List CompactionTable → List ℕ → ℕ → Option KeySpan → List ℕ
unfolding key_span_for_inputs overlaps_key_span overlaps_range
include_loop zero tables inputs level span = inputs
include_loop (suc rounds) tables inputs level span =
    let after = push_wanted (λ t. t.level == level && overlaps_span t span) tables inputs in
    let rest = include_loop rounds tables after level (key_span_for_inputs tables after) in
    if length after == length inputs then after else rest

unfoldable pub include_overlapping_level :
    List CompactionTable → List ℕ → ℕ → Option KeySpan → List ℕ
unfolding include_loop
include_overlapping_level tables inputs level span =
    include_loop (suc (length tables)) tables inputs level span

-- The inputs with the tables of a level that they overlap.
abbrev pub with_level : List CompactionTable → List ℕ → ℕ → List ℕ
with_level tables inputs level =
    include_overlapping_level tables inputs level (key_span_for_inputs tables inputs)

abbrev pub sum_bytes : List CompactionTable → ℕ
sum_bytes [] = 0
sum_bytes (t ∷ ts) = t.bytes + sum_bytes ts

abbrev pub ids : List CompactionTable → List ℕ
ids tables = map (λ (t : CompactionTable). t.id) tables

abbrev pub at_level : List CompactionTable → KeyRange → ℕ → List CompactionTable
at_level tables range level = filter (λ t. t.level == level && overlaps_range t range) tables

unfoldable pub broad_l0_inputs : List CompactionTable → KeyRange → List ℕ
unfolding overlaps_range
broad_l0_inputs tables range = ids (at_level tables range 0)

unfoldable pub overlapping_level_bytes : List CompactionTable → CompactionTable → ℕ → ℕ
unfolding key_span_for_inputs overlaps_key_span
overlapping_level_bytes tables candidate level =
    elim (key_span_for_inputs tables (candidate.id ∷ [])) [
      | none ↦ sum_bytes (filter (λ t. t.level == level) tables)
      | some span ↦ sum_bytes (filter (λ t. t.level == level && overlaps_key_span t span) tables)
    ]

-- `max_by`, which takes the last one of several greatest elements.
abbrev pub max_from {ℓ} : {A : Type ℓ} → (A → A → Ordering) → A → List A → A
max_from cmp best [] = best
max_from cmp best (x ∷ xs) = max_from cmp (elim (cmp best x) [ gt ↦ best | _ ↦ x ]) xs

abbrev pub max_by {ℓ} : {A : Type ℓ} → (A → A → Ordering) → List A → Option A
max_by cmp [] = none
max_by cmp (x ∷ xs) = some (max_from cmp x xs)

unfoldable pub compare_l0_seed_candidates :
    List CompactionTable → CompactionTable → CompactionTable → Ordering
unfolding overlapping_level_bytes
compare_l0_seed_candidates tables left right =
    let left_overlap = overlapping_level_bytes tables left 1 in
    let right_overlap = overlapping_level_bytes tables right 1 in
    then_with (then_with (compare right_overlap left_overlap) (compare left.bytes right.bytes))
      (compare right.id left.id)

unfoldable pub pick_l0_seed_table : List CompactionTable → KeyRange → Option CompactionTable
unfolding overlaps_range compare_l0_seed_candidates
pick_l0_seed_table tables range =
    max_by (compare_l0_seed_candidates tables) (at_level tables range 0)

abbrev pub seed_inputs : Option CompactionTable → List ℕ
seed_inputs none = []
seed_inputs (some seed) = seed.id ∷ []

unfoldable pub local_l0_inputs : List CompactionTable → KeyRange → List ℕ
unfolding pick_l0_seed_table close_overlapping_l0_inputs
local_l0_inputs tables range =
    close_overlapping_l0_inputs tables (seed_inputs (pick_l0_seed_table tables range))

unfoldable pub compaction_input_bytes : List CompactionTable → List ℕ → ℕ
compaction_input_bytes tables inputs = sum_bytes (filter (λ t. contains inputs t.id) tables)

abbrev pub saturating_mul : ℕ → ℕ → ℕ
saturating_mul a b = min (a * b) u64_max

unfoldable pub local_l0_inputs_save_rewrite : List CompactionTable → List ℕ → List ℕ → Bool
unfolding compaction_input_bytes
local_l0_inputs_save_rewrite tables local_inputs broad_inputs =
    let local_bytes = compaction_input_bytes tables local_inputs in
    let broad_bytes = compaction_input_bytes tables broad_inputs in
    if length local_inputs == 0 || leb (length broad_inputs) (length local_inputs)
    then false
    else if broad_bytes == 0
    then ltb (saturating_mul (length local_inputs) 2) (length broad_inputs)
    else ltb (saturating_mul local_bytes 2) broad_bytes

abbrev pub chosen_l0_inputs : List CompactionTable → KeyRange → CompactionOptions → List ℕ
chosen_l0_inputs tables range options =
    let broad_inputs = broad_l0_inputs tables range in
    let local_inputs = local_l0_inputs tables range in
    if options.local_l0_compaction && local_l0_inputs_save_rewrite tables local_inputs broad_inputs
    then local_inputs
    else broad_inputs

abbrev pub closed_inputs : List CompactionTable → List ℕ → List ℕ
closed_inputs tables [] = []
closed_inputs tables (i ∷ is) = close_overlapping_l0_inputs tables (i ∷ is)

unfoldable pub l0_inputs_with_overlap : List CompactionTable → KeyRange → CompactionOptions → List ℕ
unfolding broad_l0_inputs local_l0_inputs local_l0_inputs_save_rewrite close_overlapping_l0_inputs
l0_inputs_with_overlap tables range options =
    closed_inputs tables (chosen_l0_inputs tables range options)

abbrev pub included_l0_inputs : List CompactionTable → List ℕ → Option (List ℕ)
included_l0_inputs tables [] = none
included_l0_inputs tables (i ∷ is) = some (with_level tables (i ∷ is) 1)

unfoldable pub l0_compaction_inputs :
    List CompactionTable → KeyRange → CompactionOptions → Option (List ℕ)
unfolding l0_inputs_with_overlap include_overlapping_level key_span_for_inputs
l0_compaction_inputs tables range options =
    included_l0_inputs tables (l0_inputs_with_overlap tables range options)

abbrev compare_input_candidates : CompactionTable → CompactionTable → Ordering
compare_input_candidates left right =
    then_with (compare left.bytes right.bytes) (compare right.id left.id)

unfoldable pub pick_leveled_input_table :
    List CompactionTable → KeyRange → ℕ → Option CompactionTable
unfolding overlaps_range
pick_leveled_input_table tables range level =
    max_by compare_input_candidates (at_level tables range level)

abbrev pub narrow_inputs : List CompactionTable → ℕ → Option CompactionTable → List ℕ
narrow_inputs tables output_level none = []
narrow_inputs tables output_level (some table) = with_level tables (table.id ∷ []) output_level

unfoldable pub narrow_leveled_inputs : List CompactionTable → KeyRange → ℕ → ℕ → List ℕ
unfolding pick_leveled_input_table include_overlapping_level key_span_for_inputs
narrow_leveled_inputs tables range input_level output_level =
    narrow_inputs tables output_level (pick_leveled_input_table tables range input_level)

abbrev pub find {ℓ} : {A : Type ℓ} → (A → Bool) → List A → Option A
find p [] = none
find p (x ∷ xs) = if p x then some x else find p xs

unfoldable pub narrow_tombstone_inputs : List CompactionTable → KeyRange → ℕ → ℕ → List ℕ
unfolding overlaps_range include_overlapping_level key_span_for_inputs
narrow_tombstone_inputs tables range input_level output_level = narrow_inputs tables output_level (
    find (λ t. t.level == input_level && (t.has_range_tombstones && overlaps_range t range)) tables)
