-- ===== src/Compaction/Plans.antt =====
-- What every plan of the picker satisfies (src/compaction.rs).
use trine_kv.Prelude.{
  some-injective, ℕ, ◌≤◌, ◌≡◌, refl, sym, ap, ◌∙◌, subst, ◌⊎◌, true, List, [], ◌∷◌, Option, none,
  some, length, ltb, ◌==◌, ◌&&◌, All, arith, Bool-cases, inl, inr,
}
use trine_kv.Error.{Result, ok, err, corruption, ◌>>=◌}
use trine_kv.Keys.{Bytes, Sequence, KeyRange}
use trine_kv.Compaction.{
  KeySpan, overlaps_range, overlaps_key_span, span_of, bounded_inputs, CompactionOptions,
  CompactionTable, contains, next_level, key_span_for_inputs,
}
use trine_kv.Compaction.Inputs.{
  with_level, closed_inputs, chosen_l0_inputs, included_l0_inputs, l0_inputs_with_overlap,
  l0_compaction_inputs, narrow_leveled_inputs, narrow_tombstone_inputs, find,
}
use trine_kv.Compaction.Levels.{
  highest_scored_level, tombstone_debt_level, shallowest_multi_table_level,
}
use trine_kv.Compaction.Planner.{
  CompactionTrigger, CompactionPlan, CompactionDecision, l0_overlap, level_size, multi_table_level,
  tombstone_debt, idle, lazy_skip, planned, next_of, plan_of, plan_or, fallback_plan, debt_plan_of,
  debt_plan, debt_or_fallback, below_size, leveled_plan, tombstone_debt_plan, l0_or_leveled,
  plan_compaction,
}
use trine_kv.Compaction.Closure.{IsClosed, include-IsClosed, IsL0Closed, close-IsL0Closed}
use trine_kv.Compaction.IncludedTables.{
  IsPlan, with_level-has_inputs, narrow-IsClosed, leveled-IsClosed,
}

module _ (bucket : Bytes) (tables : List CompactionTable) (range : KeyRange)
    (oldest : Sequence) where
  abbrev Plans : Option CompactionPlan → Type 0
  Plans o = (plan : CompactionPlan) → o ≡ some plan → IsPlan tables plan

  abbrev Decides : Result CompactionDecision → Type 0
  Decides r = (d : CompactionDecision) → r ≡ ok d → Plans d.plan

  plan_of-IsPlan :
      (inputs : List ℕ) (output : ℕ) (trigger : CompactionTrigger)
      → 1 ≤ length inputs
      → IsClosed tables output inputs
      → IsPlan tables (plan_of bucket tables range oldest inputs output trigger)
  plan_of-IsPlan inputs output trigger some_inputs closed = record {
    has_inputs = some_inputs;
    closed = closed;
    range_of_inputs = refl;
  }

  decided : (d : CompactionDecision) → Plans d.plan → Decides (ok d)
  decided d h e same = subst (λ (u : CompactionDecision). Plans u.plan) (ok-injective d e same) h
    where
      ok-injective : (a b : CompactionDecision) → ok a ≡ ok b → a ≡ b
      ok-injective a b h = cc

  some_plan : (p : CompactionPlan) → IsPlan tables p → Plans (some p)
  some_plan p h plan same = subst (IsPlan tables) (some-injective p plan same) h

  idle-Decides : (d : CompactionDecision) → d.plan ≡ none → Decides (ok d)
  idle-Decides d e = decided d (λ plan found. absurd-none plan (sym e ∙ found))
    where
      absurd-none : (plan : CompactionPlan) → none ≡ some plan → IsPlan tables plan
      absurd-none plan h = cc

  err-Decides : Decides (err corruption)
  err-Decides d h = cc

  plan_or-Decides :
      (trigger : CompactionTrigger) (output : ℕ) (inputs : List ℕ)
      (otherwise : Result CompactionDecision)
      → (inputs ≡ []) ⊎ IsClosed tables output inputs
      → Decides otherwise
      → Decides (plan_or bucket tables range oldest trigger output inputs otherwise)
  plan_or-Decides trigger output [] otherwise closed rest = rest
  plan_or-Decides trigger output (i ∷ is) otherwise (inl h) rest = absurd-cons h
    where
      absurd-cons :
          i ∷ is ≡ []
          → Decides (plan_or bucket tables range oldest trigger output (i ∷ is) otherwise)
      absurd-cons h = cc
  plan_or-Decides trigger output (i ∷ is) otherwise (inr closed) rest =
      decided (planned (plan_of bucket tables range oldest (i ∷ is) output trigger)) (
        some_plan (plan_of bucket tables range oldest (i ∷ is) output trigger)
          (plan_of-IsPlan (i ∷ is) output trigger (omega arith) closed))

  next-Decides :
      (o : Option ℕ) (f : ℕ → Result CompactionDecision)
      → ((output : ℕ) → Decides (f output))
      → Decides (next_of o >>= f)
  next-Decides none f h = err-Decides
  next-Decides (some output) f h = h output

  fallback-Decides : (o : Option ℕ) → Decides (fallback_plan bucket tables range oldest o)
  fallback-Decides none = idle-Decides (idle (lazy_skip bucket tables range oldest)) refl
  fallback-Decides (some level) =
      next-Decides (next_level level)
        (λ output.
          plan_or bucket tables range oldest multi_table_level output
            (narrow_leveled_inputs tables range level output)
            (ok (idle (lazy_skip bucket tables range oldest))))
        (λ output.
          plan_or-Decides multi_table_level output (narrow_leveled_inputs tables range level output)
            (ok (idle (lazy_skip bucket tables range oldest)))
            (leveled-IsClosed tables range level output)
            (idle-Decides (idle (lazy_skip bucket tables range oldest)) refl))

  debt_plan_of-Plans :
      (inputs : List ℕ) (output : ℕ)
      → (inputs ≡ []) ⊎ IsClosed tables output inputs
      → Plans (debt_plan_of bucket tables range oldest inputs output)
  debt_plan_of-Plans inputs output h plan same = elim (Bool-cases (ltb (length inputs) 2)) [
    | inl y ↦ ground (arith, y, same)
    | inr n ↦ elim h [
      | inl e ↦ ground (arith, n, ap (λ is. length is) e)
      | inr closed ↦
          some_plan (plan_of bucket tables range oldest inputs output tombstone_debt)
            (plan_of-IsPlan inputs output tombstone_debt (ground (arith, n)) closed) plan
            (ground (arith, n, same))
    ]
  ]

  narrow_tombstone-IsClosed :
      (level output : ℕ)
      → (narrow_tombstone_inputs tables range level output ≡ [])
        ⊎ IsClosed tables output (narrow_tombstone_inputs tables range level output)
  unfolding narrow_tombstone_inputs
  narrow_tombstone-IsClosed level output =
      narrow-IsClosed tables output
        (find (λ t. t.level == level && (t.has_range_tombstones && overlaps_range t range)) tables)

  debt-Decides :
      (o : Option ℕ)
      → Decides
          (debt_plan bucket tables range oldest o >>= debt_or_fallback bucket tables range oldest)
  debt-Decides none = fallback-Decides (shallowest_multi_table_level tables range)
  debt-Decides (some level) = next_case (next_level level)
    where
      plan_case :
          (p : Option CompactionPlan)
          → Plans p
          → Decides (debt_or_fallback bucket tables range oldest p)
      plan_case none h = fallback-Decides (shallowest_multi_table_level tables range)
      plan_case (some p) h = decided (planned p) h

      next_case :
          (o : Option ℕ)
          → Decides (
              (next_of o >>= λ output. ok (
                debt_plan_of bucket tables range oldest
                  (narrow_tombstone_inputs tables range level output)
                  output))
              >>= debt_or_fallback bucket tables range oldest)
      next_case none = err-Decides
      next_case (some output) =
          plan_case
            (debt_plan_of bucket tables range oldest
              (narrow_tombstone_inputs tables range level output) output)
            (debt_plan_of-Plans (narrow_tombstone_inputs tables range level output) output
              (narrow_tombstone-IsClosed level output))

  below_size-Decides : Decides (below_size bucket tables range oldest)
  unfolding tombstone_debt_plan
  below_size-Decides = debt-Decides (tombstone_debt_level tables range)

  leveled-Decides : (o : Option ℕ) → Decides (leveled_plan bucket tables range oldest o)
  leveled-Decides none = below_size-Decides
  leveled-Decides (some level) =
      next-Decides (next_level level)
        (λ output.
          plan_or bucket tables range oldest level_size output
            (narrow_leveled_inputs tables range level output)
            (below_size bucket tables range oldest))
        (λ output.
          plan_or-Decides level_size output (narrow_leveled_inputs tables range level output)
            (below_size bucket tables range oldest) (leveled-IsClosed tables range level output)
            below_size-Decides)

  l0-Decides :
      (inputs : List ℕ) (scored : Option ℕ)
      → Decides (l0_or_leveled bucket tables range oldest (included_l0_inputs tables inputs) scored)
  l0-Decides [] scored = leveled-Decides scored
  l0-Decides (i ∷ is) scored =
      let inputs = with_level tables (i ∷ is) 1 in
      decided (planned (plan_of bucket tables range oldest inputs 1 l0_overlap)) (
        some_plan (plan_of bucket tables range oldest inputs 1 l0_overlap) (
          plan_of-IsPlan inputs 1 l0_overlap (with_level-has_inputs tables i is 1)
            (include-IsClosed tables (i ∷ is) 1).0))

  plan_compaction-Decides :
      (options : CompactionOptions) → Decides (plan_compaction bucket tables range oldest options)
  unfolding plan_compaction l0_compaction_inputs
  plan_compaction-Decides options =
      l0-Decides (l0_inputs_with_overlap tables range options)
        (highest_scored_level tables range options)

-- Whichever rule makes it, a plan has inputs, and every table of the output level that overlaps the
-- key span of its inputs is one of them: the loops have rounds enough for this. The plan's range is the
-- range of its inputs.
pub plan_compaction-IsPlan :
    (bucket : Bytes) (tables : List CompactionTable) (range : KeyRange) (oldest : Sequence)
    (options : CompactionOptions) (decision : CompactionDecision) (plan : CompactionPlan)
    → plan_compaction bucket tables range oldest options ≡ ok decision
    → decision.plan ≡ some plan
    → IsPlan tables plan
plan_compaction-IsPlan bucket tables range oldest options decision plan h k =
    plan_compaction-Decides bucket tables range oldest options decision h plan k

closed-IsL0Closed :
    (tables : List CompactionTable) (inputs : List ℕ)
    → IsL0Closed tables (closed_inputs tables inputs)
      × ((i : ℕ) → contains inputs i ≡ true → contains (closed_inputs tables inputs) i ≡ true)
unfolding key_span_for_inputs
closed-IsL0Closed tables [] = (λ span found. no_span tables span found, λ i h. h)
  where
    no_span :
        (ts : List CompactionTable) (span : KeySpan)
        → span_of none (bounded_inputs ts []) ≡ some span
        → All
            (λ t. (t.level == 0 && overlaps_key_span t span) ≡ true → contains [] t.id ≡ true)
            tables
    no_span [] span h = cc
    no_span (t ∷ ts) span h = no_span ts span h
closed-IsL0Closed tables (i ∷ is) = close-IsL0Closed tables (i ∷ is)

-- The inputs of level 0 hold the chosen ones and every table of level 0 that overlaps their key span.
pub l0_inputs-IsL0Closed :
    (tables : List CompactionTable) (range : KeyRange) (options : CompactionOptions)
    → IsL0Closed tables (l0_inputs_with_overlap tables range options)
      × ((i : ℕ)
          → contains (chosen_l0_inputs tables range options) i ≡ true
          → contains (l0_inputs_with_overlap tables range options) i ≡ true)
unfolding l0_inputs_with_overlap
l0_inputs-IsL0Closed tables range options =
    closed-IsL0Closed tables (chosen_l0_inputs tables range options)
