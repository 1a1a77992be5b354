-- ===== src/Compaction/Closure.antt =====
-- The loops over the inputs end with all tables that the inputs overlap (src/compaction.rs).
use trine_kv.Prelude.{
  some-injective, ℕ, zero, suc, ◌≤◌, ◌<◌, ◌≡◌, sym, ap, ◌∙◌, subst, Bool, true, false, ◌&&◌, List,
  [], Option, none, some, All, length, ◌==◌, if◌then◌else◌, arith, Option-cases, inl, inr,
}
use trine_kv.Compaction.{
  CompactionTable, KeySpan, overlaps_key_span, contains, key_span_for_inputs, push_wanted,
  overlaps_span,
}
use trine_kv.Compaction.Inputs.{
  close_loop, close_overlapping_l0_inputs, include_loop, include_overlapping_level,
}
use trine_kv.Compaction.Passes.{
  missing, Grows, missing-Grows, missing-length, push-Grows, Taken, push-wanted, push-missing,
}

-- The tables of a level that overlap the span of the inputs are inputs.
abbrev pub IsClosed : List CompactionTable → ℕ → List ℕ → Type 0
IsClosed tables level inputs =
    All
      (λ t.
        (t.level == level && overlaps_span t (key_span_for_inputs tables inputs)) ≡ true
        → contains inputs t.id ≡ true)
      tables

module _ (tables : List CompactionTable) (level : ℕ) where
  abbrev wants : Option KeySpan → CompactionTable → Bool
  wants span t = t.level == level && overlaps_span t span

  abbrev next_inputs : Option KeySpan → List ℕ → List ℕ
  next_inputs span inputs = push_wanted (wants span) tables inputs

  -- With more rounds than tables are missing the loop ends closed, and no input is lost.
  include_loop-IsClosed :
      (rounds : ℕ) (inputs : List ℕ)
      → missing tables inputs < rounds
      → IsClosed tables level
          (include_loop rounds tables inputs level (key_span_for_inputs tables inputs))
        × Grows inputs (include_loop rounds tables inputs level (key_span_for_inputs tables inputs))
  unfolding include_loop
  include_loop-IsClosed zero inputs enough = absurd (omega (arith, enough))
  include_loop-IsClosed (suc rounds) inputs enough =
      let span = key_span_for_inputs tables inputs in
      let after = next_inputs span inputs in
      elim (push-missing (wants span) tables inputs) [
        | inl same ↦
            let stays : (length after == length inputs) ≡ true =
              ground (arith, ap (λ is. length is) same) in
            rw stays (
              subst (IsClosed tables level) (sym same)
                  (subst (Taken (wants span) tables) same (push-wanted (wants span) tables inputs)),
              push-Grows (wants span) tables inputs,
            )
        | inr (longer, fewer) ↦
            let grows : (length after == length inputs) ≡ false = ground (arith, longer) in
            let (closed, kept) =
              include_loop-IsClosed rounds after (omega (arith, fewer, enough)) in
            rw grows (closed, λ i h. kept i (push-Grows (wants span) tables inputs i h))
      ]

missing-bound :
    (tables : List CompactionTable) (inputs : List ℕ) → missing tables inputs ≤ length tables
missing-bound tables inputs =
    omega (arith, missing-length tables, missing-Grows tables [] inputs (λ i h. cc))

-- The inputs with the tables of a level that they overlap are closed.
pub include-IsClosed :
    (tables : List CompactionTable) (inputs : List ℕ) (level : ℕ)
    → IsClosed tables level
        (include_overlapping_level tables inputs level (key_span_for_inputs tables inputs))
      × ((i : ℕ)
          → contains inputs i ≡ true
          → contains
              (include_overlapping_level tables inputs level (key_span_for_inputs tables inputs))
              i
            ≡ true)
unfolding include_overlapping_level
include-IsClosed tables inputs level =
    include_loop-IsClosed tables level (suc (length tables)) inputs
      (omega (arith, missing-bound tables inputs))

-- The tables of level 0 that overlap the span of the inputs are inputs.
abbrev pub IsL0Closed : List CompactionTable → List ℕ → Type 0
IsL0Closed tables inputs =
    (span : KeySpan)
    → key_span_for_inputs tables inputs ≡ some span
    → All (λ t. (t.level == 0 && overlaps_key_span t span) ≡ true → contains inputs t.id ≡ true)
        tables

module _ (tables : List CompactionTable) where
  abbrev touched : KeySpan → CompactionTable → Bool
  touched span t = t.level == 0 && overlaps_key_span t span

  close_loop-none :
      (rounds : ℕ) (inputs : List ℕ)
      → key_span_for_inputs tables inputs ≡ none
      → close_loop (suc rounds) tables inputs ≡ inputs
  unfolding close_loop
  close_loop-none rounds inputs e = rw (e, close_loop)

  close_loop-some :
      (rounds : ℕ) (inputs : List ℕ) (span : KeySpan)
      → key_span_for_inputs tables inputs ≡ some span
      → close_loop (suc rounds) tables inputs ≡ (
          if length (push_wanted (touched span) tables inputs) == length inputs
          then push_wanted (touched span) tables inputs
          else close_loop rounds tables (push_wanted (touched span) tables inputs))
  unfolding close_loop
  close_loop-some rounds inputs span e = rw (e, close_loop)

  abbrev Closes : List ℕ → List ℕ → Type 0
  Closes inputs after = IsL0Closed tables after × Grows inputs after

  close_loop-IsL0Closed :
      (rounds : ℕ) (inputs : List ℕ)
      → missing tables inputs < rounds
      → Closes inputs (close_loop rounds tables inputs)
  close_loop-IsL0Closed zero inputs enough = absurd (omega (arith, enough))
  close_loop-IsL0Closed (suc rounds) inputs enough =
      elim (Option-cases (key_span_for_inputs tables inputs)) [
        | inl e ↦
            subst (Closes inputs) (sym (close_loop-none rounds inputs e))
              (λ span found. cc, λ i h. h)
        | inr (span, e) ↦
            let after = push_wanted (touched span) tables inputs in
            subst (Closes inputs) (sym (close_loop-some rounds inputs span e))
              (elim (push-missing (touched span) tables inputs) [
                | inl same ↦
                    let stays : (length after == length inputs) ≡ true =
                      ground (arith, ap (λ is. length is) same) in
                    rw stays (
                      subst (IsL0Closed tables) (sym same) (λ other found.
                          subst (λ u. Taken (touched u) tables inputs)
                            (some-injective span other (sym e ∙ found))
                            (subst (Taken (touched span) tables) same
                              (push-wanted (touched span) tables inputs))),
                      push-Grows (touched span) tables inputs,
                    )
                | inr (longer, fewer) ↦
                    let grows : (length after == length inputs) ≡ false = ground (arith, longer) in
                    let (closed, kept) =
                      close_loop-IsL0Closed rounds after (omega (arith, fewer, enough)) in
                    rw grows (closed, λ i h. kept i (push-Grows (touched span) tables inputs i h))
              ])
      ]

pub close-IsL0Closed :
    (tables : List CompactionTable) (inputs : List ℕ)
    → IsL0Closed tables (close_overlapping_l0_inputs tables inputs)
      × ((i : ℕ)
          → contains inputs i ≡ true
          → contains (close_overlapping_l0_inputs tables inputs) i ≡ true)
unfolding close_overlapping_l0_inputs
close-IsL0Closed tables inputs =
    close_loop-IsL0Closed tables (suc (length tables)) inputs
      (omega (arith, missing-bound tables inputs))
