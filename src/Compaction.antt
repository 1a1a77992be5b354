-- ===== src/Compaction.antt =====
-- src/compaction.rs: which tables a compaction takes, and into which level. Sums of sizes of tables
-- are not checked; they stay below `2 ^ 64` for tables that a disk holds.
pub mod Levels
pub mod Inputs
pub mod Planner
pub mod Targets
pub mod Passes
pub mod Closure
pub mod IncludedTables
pub mod Plans
pub mod Spans
pub mod Ranges
pub mod Unbounded
use trine_kv.Prelude.{
  ℕ, zero, suc, ◌+◌, Bool, true, false, not, ◌&&◌, ◌||◌, List, [], ◌∷◌, ◌++◌, Option, none, some,
  any, filter, length, ltb, ◌==◌, if◌then◌else◌,
}
use trine_kv.Keys.{Bytes, Sequence, u32_max, KeyRange, Bound, included, excluded, unbounded}
use trine_kv.RangeTombstone.{bytes_lt, bytes_le, key_is_before_start, key_is_after_end}

pub record CompactionOptions : Type 0 where
  pub target_table_bytes : ℕ
  pub level_size_multiplier : ℕ
  pub local_l0_compaction : Bool

pub record CompactionTable : Type 0 where
  pub id : ℕ
  pub level : ℕ
  pub bytes : ℕ
  pub has_range_tombstones : Bool
  pub smallest_user_key : Bytes
  pub largest_user_key : Bytes

pub record KeySpan : Type 0 where
  pub smallest : Bytes
  pub largest : Bytes

abbrev pub is_empty_key : Bytes → Bool
is_empty_key [] = true
is_empty_key (b ∷ bs) = false

unfoldable pub table_has_key_bounds : CompactionTable → Bool
table_has_key_bounds t = not (is_empty_key t.smallest_user_key && is_empty_key t.largest_user_key)

unfoldable pub overlaps_key_span : CompactionTable → KeySpan → Bool
unfolding table_has_key_bounds
overlaps_key_span t span =
    if not (table_has_key_bounds t)
    then true
    else (bytes_le t.smallest_user_key span.largest && bytes_le span.smallest t.largest_user_key)

abbrev all_bounds : Bound → Bound → Bool
all_bounds unbounded unbounded = true
all_bounds unbounded (included end) = false
all_bounds unbounded (excluded end) = false
all_bounds (included start) end = false
all_bounds (excluded start) end = false

abbrev pub is_all_range : KeyRange → Bool
is_all_range range = all_bounds range.start range.end

abbrev pub all_range : KeyRange
all_range = record { start = unbounded; end = unbounded }

unfoldable pub overlaps_range : CompactionTable → KeyRange → Bool
unfolding table_has_key_bounds key_is_after_end key_is_before_start
overlaps_range t range =
    if is_all_range range || not (table_has_key_bounds t)
    then true
    else (not (key_is_after_end t.smallest_user_key range.end)
        && not (key_is_before_start t.largest_user_key range.start))

abbrev pub contains : List ℕ → ℕ → Bool
contains ids id = any (λ i. i == id) ids

abbrev pub widen : Option KeySpan → CompactionTable → KeySpan
widen none t = record { smallest = t.smallest_user_key; largest = t.largest_user_key }
widen (some span) t = record {
  smallest =
      if bytes_lt t.smallest_user_key span.smallest then t.smallest_user_key else span.smallest;
  largest = if bytes_lt t.largest_user_key span.largest then span.largest else t.largest_user_key;
}

abbrev pub span_of : Option KeySpan → List CompactionTable → Option KeySpan
span_of span [] = span
span_of span (t ∷ ts) = span_of (some (widen span t)) ts

abbrev pub bounded_inputs : List CompactionTable → List ℕ → List CompactionTable
bounded_inputs tables input_tables =
    filter (λ t. contains input_tables t.id && table_has_key_bounds t) tables

unfoldable pub key_span_for_inputs : List CompactionTable → List ℕ → Option KeySpan
unfolding table_has_key_bounds
key_span_for_inputs tables input_tables = span_of none (bounded_inputs tables input_tables)

abbrev pub range_of_span : Option KeySpan → KeyRange
range_of_span none = all_range
range_of_span (some span) = record { start = included span.smallest; end = included span.largest }

unfoldable pub key_range_for_inputs : List CompactionTable → List ℕ → KeyRange
unfolding key_span_for_inputs
key_range_for_inputs tables input_tables = range_of_span (key_span_for_inputs tables input_tables)

-- One pass over the tables that pushes those that are wanted and not yet inputs.
abbrev pub push_wanted : (CompactionTable → Bool) → List CompactionTable → List ℕ → List ℕ
push_wanted wanted [] inputs = inputs
push_wanted wanted (t ∷ ts) inputs =
    push_wanted wanted ts
      (if wanted t && not (contains inputs t.id) then inputs ++ t.id ∷ [] else inputs)

abbrev pub overlaps_span : CompactionTable → Option KeySpan → Bool
overlaps_span t none = overlaps_range t all_range
overlaps_span t (some span) = overlaps_key_span t span

-- `TableLevel::next`
abbrev pub next_level : ℕ → Option ℕ
next_level level = if ltb level u32_max then some (level + 1) else none
