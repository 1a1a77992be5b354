-- ===== src/Compaction/Unbounded.antt =====
-- Compactions with input tables that have no key bounds (src/compaction.rs, src/lsm/compact.rs).
use trine_kv.Prelude.{
  ℕ, ◌≡◌, refl, sym, ap, ◌∙◌, Bool, true, false, not, ◌&&◌, List, [], ◌∷◌, Option, none, some, All,
  All-imp, any, arith, Bool-cases, inl, inr, ◌==◌,
}
use trine_kv.Error.{ok}
use trine_kv.Keys.{Bytes, Sequence, KeyRange}
use trine_kv.RangeTombstone.{key_is_in_range}
use trine_kv.Lsm.{MemtableEntry, Tombstone, ValueRef}
use trine_kv.Lsm.Candidate.{bytes_eq, keep_all}
use trine_kv.Lsm.Reads.{value_of}
use trine_kv.Lsm.Compact.{InputTable}
use trine_kv.Lsm.Compact.Payloads.{build_compaction_table_payloads}
use trine_kv.Lsm.Compact.Merge.{source_records, seen, bytes_eq-eq}
use trine_kv.Lsm.Compact.Spread.{payload_tombstones, payload_records}
use trine_kv.Lsm.Compact.Scans.{are_bounds, is_bounded, IsInput}
use trine_kv.Lsm.Compact.Hidden.{any_imp}
use trine_kv.Lsm.Compact.Inputs.{input_records, input_tombstones, outputs_ascend-InRange}
use trine_kv.Compaction.{
  CompactionOptions, CompactionTable, KeySpan, overlaps_key_span, overlaps_range, contains,
  table_has_key_bounds, overlaps_span, key_span_for_inputs, key_range_for_inputs,
}
use trine_kv.Compaction.Planner.{CompactionPlan, CompactionDecision, plan_compaction}
use trine_kv.Compaction.Plans.{plan_compaction-IsPlan}
use trine_kv.Compaction.Ranges.{
  has_bounds_lem, describes, is_described, input-InRange, has_record, key-InRange,
}

-- Whether a table that is an input stands for an input of the merge, with bounds or without.
abbrev stands_for : List ℕ → InputTable → CompactionTable → Bool
stands_for inputs it t =
    contains inputs t.id
    && (bytes_eq t.smallest_user_key it.smallest_user_key
        && bytes_eq t.largest_user_key it.largest_user_key)

abbrev pub is_input_of : List CompactionTable → List ℕ → InputTable → Bool
is_input_of tables inputs it = any (stands_for inputs it) tables

-- An input with bounds stands for a table with bounds.
bounded-described :
    (inputs : List ℕ) (it : InputTable) (t : CompactionTable)
    → is_bounded it ≡ true
    → stands_for inputs it t ≡ true
    → describes inputs it t ≡ true
bounded-described inputs it t b h =
    let bounded : table_has_key_bounds t ≡ true =
      has_bounds_lem t
      ∙ ap (λ k. are_bounds k t.largest_user_key)
          (bytes_eq-eq t.smallest_user_key it.smallest_user_key (ground (arith, h)))
      ∙ ap (are_bounds it.smallest_user_key)
          (bytes_eq-eq t.largest_user_key it.largest_user_key (ground (arith, h)))
      ∙ b in
    ground (arith, h, bounded)

-- An input with bounds has no record of a key outside the range.
bounded_lacks :
    (tables : List CompactionTable) (inputs : List ℕ) (key : Bytes) (it : InputTable)
    → key_is_in_range key (key_range_for_inputs tables inputs) ≡ false
    → IsInput it
    → is_input_of tables inputs it ≡ true
    → is_bounded it ≡ true
    → has_record key (source_records it.groups) ≡ false
bounded_lacks tables inputs key it outside v h b =
    elim (Bool-cases (has_record key (source_records it.groups))) [
      | inr n ↦ n
      | inl y ↦
          let described : is_described tables inputs it ≡ true =
            any_imp (stands_for inputs it) (describes inputs it) tables
              (λ t k. bounded-described inputs it t b k) h in
          cc (
            key-InRange (key_range_for_inputs tables inputs) key (source_records it.groups)
              (input-InRange tables inputs it v described) y)
    ]

all_lack :
    (tables : List CompactionTable) (inputs : List ℕ) (key : Bytes) (its : List InputTable)
    → key_is_in_range key (key_range_for_inputs tables inputs) ≡ false
    → All IsInput its
    → All (λ it. is_input_of tables inputs it ≡ true) its
    → All (λ it. is_bounded it ≡ true → has_record key (source_records it.groups) ≡ false) its
all_lack tables inputs key [] outside vs hs = tt
all_lack tables inputs key (it ∷ its) outside (v, vs) (h, hs) =
    (bounded_lacks tables inputs key it outside v h, all_lack tables inputs key its outside vs hs)

none_seen :
    (key : Bytes) (read : Sequence) (es : List MemtableEntry)
    → has_record key es ≡ false
    → seen key read es ≡ []
none_seen key read [] h = refl
none_seen key read (e ∷ es) h = ground (arith, none_seen key read es, h)

-- The output tables give no value for a key outside the range.
outputs_lack :
    (full : Bool) (its : List InputTable) (range : KeyRange) (oldest : Sequence) (target : ℕ)
    (key : Bytes) (read : Sequence) (ts : List Tombstone)
    → All IsInput its
    → key_is_in_range key range ≡ false
    → value_of key read ts (
        keep_all none (
          seen key read
            (payload_records (build_compaction_table_payloads full its range oldest target))))
      ≡ ok none
outputs_lack full its range oldest target key read ts v outside =
    let out = payload_records (build_compaction_table_payloads full its range oldest target) in
    let inside = (outputs_ascend-InRange full its range oldest target v).1 in
    let lacks : has_record key out ≡ false = elim (Bool-cases (has_record key out)) [
      | inr n ↦ n
      | inl y ↦ cc (key-InRange range key out inside y)
    ] in
    ap (λ es. value_of key read ts (keep_all none es)) (none_seen key read out lacks)

-- A table without bounds overlaps every span.
unbounded_overlaps :
    (t : CompactionTable) (span : Option KeySpan)
    → table_has_key_bounds t ≡ false
    → overlaps_span t span ≡ true
unfolding overlaps_key_span overlaps_range
unbounded_overlaps t none h = ground (arith, h)
unbounded_overlaps t (some span) h = ground (arith, h)

pub unbounded_input_loses :
    (bucket : Bytes) (tables : List CompactionTable) (range : KeyRange) (oldest : Sequence)
    (options : CompactionOptions) (decision : CompactionDecision) (plan : CompactionPlan)
    (its : List InputTable) (full : Bool) (target : ℕ) (key : Bytes) (read : Sequence)
    (v : ValueRef)
    → plan_compaction bucket tables range oldest options ≡ ok decision
    → decision.plan ≡ some plan
    → All IsInput its
    → All (λ it. is_input_of tables plan.input_tables it ≡ true) its
    → key_is_in_range key plan.key_range ≡ false
    → value_of key read (input_tombstones its) (keep_all none (seen key read (input_records its)))
      ≡ ok (some v)
    → All
        (λ t.
          (t.level == plan.output_level && not (table_has_key_bounds t)) ≡ true
          → contains plan.input_tables t.id ≡ true)
        tables
      × All (λ it. is_bounded it ≡ true → has_record key (source_records it.groups) ≡ false) its
      × ¬ (
          value_of key read
            (payload_tombstones
              (build_compaction_table_payloads full its plan.key_range oldest target))
            (keep_all none (
              seen key read (
                payload_records
                  (build_compaction_table_payloads full its plan.key_range oldest target))))
          ≡ value_of key read
              (input_tombstones its)
              (keep_all none (seen key read (input_records its))))
unbounded_input_loses bucket tables range oldest options decision plan its full target key read v h
      k ws is outside found =
    let is_plan = plan_compaction-IsPlan bucket tables range oldest options decision plan h k in
    let span = key_span_for_inputs tables plan.input_tables in
    (
      All-imp
          {P = λ t.
            (t.level == plan.output_level && overlaps_span t span) ≡ true
            → contains plan.input_tables t.id ≡ true}
          {Q = λ t.
            (t.level == plan.output_level && not (table_has_key_bounds t)) ≡ true
            → contains plan.input_tables t.id ≡ true}
          (λ t closed e. closed (ground (arith, e, unbounded_overlaps t span))) tables
          is_plan.closed,
      all_lack tables plan.input_tables key its
          (ap (key_is_in_range key) (sym is_plan.range_of_inputs) ∙ outside) ws is,
      λ same. cc (
        same,
        found,
        outputs_lack full its plan.key_range oldest target key read
            (payload_tombstones
              (build_compaction_table_payloads full its plan.key_range oldest target))
            ws outside,
      ),
    )
