-- ===== src/Compaction/IncludedTables.antt =====
-- The inputs of one rule of the picker are closed (src/compaction.rs).
use trine_kv.Prelude.{
  ℕ, ◌≤◌, ◌≡◌, refl, ◌⊎◌, true, List, [], ◌∷◌, Option, none, some, length, arith, inl, inr,
}
use trine_kv.Keys.{KeyRange}
use trine_kv.Compaction.{CompactionTable, contains, key_range_for_inputs}
use trine_kv.Compaction.Inputs.{
  with_level, narrow_inputs, narrow_leveled_inputs, pick_leveled_input_table,
}
use trine_kv.Compaction.Planner.{CompactionPlan}
use trine_kv.Compaction.Closure.{IsClosed, include-IsClosed}

-- A plan over some tables: there are inputs, the tables of the output level that they overlap are
-- among them, and the range is theirs.
pub record IsPlan (tables : List CompactionTable) (plan : CompactionPlan) : Type 0 where
  pub has_inputs : 1 ≤ length plan.input_tables
  pub closed : IsClosed tables plan.output_level plan.input_tables
  pub range_of_inputs : plan.key_range ≡ key_range_for_inputs tables plan.input_tables

has_length : (inputs : List ℕ) (i : ℕ) → contains inputs i ≡ true → 1 ≤ length inputs
has_length [] i h = cc
has_length (j ∷ js) i h = omega arith

pub with_level-has_inputs :
    (tables : List CompactionTable) (i : ℕ) (is : List ℕ) (level : ℕ)
    → 1 ≤ length (with_level tables (i ∷ is) level)
with_level-has_inputs tables i is level =
    has_length (with_level tables (i ∷ is) level) i
      ((include-IsClosed tables (i ∷ is) level).1 i (ground arith))

pub narrow-IsClosed :
    (tables : List CompactionTable) (level : ℕ) (o : Option CompactionTable)
    → (narrow_inputs tables level o ≡ []) ⊎ IsClosed tables level (narrow_inputs tables level o)
narrow-IsClosed tables level none = inl refl
narrow-IsClosed tables level (some t) = inr (include-IsClosed tables (t.id ∷ []) level).0

pub leveled-IsClosed :
    (tables : List CompactionTable) (range : KeyRange) (level output : ℕ)
    → (narrow_leveled_inputs tables range level output ≡ [])
      ⊎ IsClosed tables output (narrow_leveled_inputs tables range level output)
unfolding narrow_leveled_inputs
leveled-IsClosed tables range level output =
    narrow-IsClosed tables output (pick_leveled_input_table tables range level)
