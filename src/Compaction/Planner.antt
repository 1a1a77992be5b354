-- ===== src/Compaction/Planner.antt =====
-- src/compaction.rs: the decision which compaction to run.
use trine_kv.Prelude.{ℕ, List, [], ◌∷◌, Option, none, some, length, ltb, if◌then◌else◌}
use trine_kv.Error.{Result, ok, err, corruption, ◌>>=◌}
use trine_kv.Keys.{Bytes, Sequence, KeyRange}
use trine_kv.Compaction.{CompactionOptions, CompactionTable, next_level, key_range_for_inputs}
use trine_kv.Compaction.Inputs.{
  l0_compaction_inputs, narrow_leveled_inputs, narrow_tombstone_inputs,
}
use trine_kv.Compaction.Levels.{
  highest_scored_level, tombstone_debt_level, shallowest_multi_table_level, lower_level_lazy_skip,
}

pub data CompactionTrigger : Type 0 where
  l0_overlap level_size multi_table_level tombstone_debt : CompactionTrigger

pub data CompactionSkip : Type 0 where
  lower_level_lazy : CompactionSkip

pub record CompactionPlan : Type 0 where
  pub bucket : Bytes
  pub input_tables : List ℕ
  pub output_level : ℕ
  pub oldest_active_snapshot : Sequence
  pub key_range : KeyRange
  pub trigger : CompactionTrigger

pub record CompactionDecision : Type 0 where
  pub plan : Option CompactionPlan
  pub skip : Option CompactionSkip

abbrev pub planned : CompactionPlan → CompactionDecision
planned plan = record { plan = some plan; skip = none }

abbrev pub idle : Option CompactionSkip → CompactionDecision
idle skip = record { plan = none; skip = skip }

-- `level.next().ok_or_else(level_overflow)`
abbrev pub next_of : Option ℕ → Result ℕ
next_of none = err corruption
next_of (some level) = ok level

module _ (bucket : Bytes) (tables : List CompactionTable) (range : KeyRange)
    (oldest : Sequence) where
  abbrev pub plan_of : List ℕ → ℕ → CompactionTrigger → CompactionPlan
  plan_of input_tables output_level trigger = record {
    bucket = bucket;
    input_tables = input_tables;
    output_level = output_level;
    oldest_active_snapshot = oldest;
    key_range = key_range_for_inputs tables input_tables;
    trigger = trigger;
  }

  abbrev pub lazy_skip : Option CompactionSkip
  lazy_skip = if lower_level_lazy_skip tables range then some lower_level_lazy else none

  -- The plan for a level if there are inputs, and what follows else.
  abbrev pub plan_or :
      CompactionTrigger → ℕ → List ℕ → Result CompactionDecision → Result CompactionDecision
  plan_or trigger output_level [] otherwise = otherwise
  plan_or trigger output_level (i ∷ is) otherwise =
      ok (planned (plan_of (i ∷ is) output_level trigger))

  abbrev pub fallback_plan : Option ℕ → Result CompactionDecision
  fallback_plan none = ok (idle lazy_skip)
  fallback_plan (some level) = next_of (next_level level) >>= λ output_level.
      plan_or multi_table_level output_level (narrow_leveled_inputs tables range level output_level)
        (ok (idle lazy_skip))

  abbrev pub debt_plan_of : List ℕ → ℕ → Option CompactionPlan
  debt_plan_of input_tables output_level =
      if ltb (length input_tables) 2
      then none
      else some (plan_of input_tables output_level tombstone_debt)

  abbrev pub debt_plan : Option ℕ → Result (Option CompactionPlan)
  debt_plan none = ok none
  debt_plan (some level) = next_of (next_level level) >>= λ output_level.
      ok (debt_plan_of (narrow_tombstone_inputs tables range level output_level) output_level)

  unfoldable pub tombstone_debt_plan : Result (Option CompactionPlan)
  unfolding tombstone_debt_level narrow_tombstone_inputs key_range_for_inputs
  tombstone_debt_plan = debt_plan (tombstone_debt_level tables range)

  abbrev pub debt_or_fallback : Option CompactionPlan → Result CompactionDecision
  debt_or_fallback (some plan) = ok (planned plan)
  debt_or_fallback none = fallback_plan (shallowest_multi_table_level tables range)

  abbrev pub below_size : Result CompactionDecision
  below_size = tombstone_debt_plan >>= debt_or_fallback

  abbrev pub leveled_plan : Option ℕ → Result CompactionDecision
  leveled_plan none = below_size
  leveled_plan (some level) = next_of (next_level level) >>= λ output_level.
      plan_or level_size output_level (narrow_leveled_inputs tables range level output_level)
        below_size

  abbrev pub l0_or_leveled : Option (List ℕ) → Option ℕ → Result CompactionDecision
  l0_or_leveled (some input_tables) scored = ok (planned (plan_of input_tables 1 l0_overlap))
  l0_or_leveled none scored = leveled_plan scored

  unfoldable pub plan_compaction : CompactionOptions → Result CompactionDecision
  unfolding tombstone_debt_plan shallowest_multi_table_level lower_level_lazy_skip
      highest_scored_level narrow_leveled_inputs l0_compaction_inputs key_range_for_inputs
  plan_compaction options =
      l0_or_leveled (l0_compaction_inputs tables range options)
        (highest_scored_level tables range options)
