-- ===== src/Compaction/Ranges.antt =====
-- The range of a compaction, and its inputs that have key bounds (src/compaction.rs,
-- src/lsm/compact.rs).
use trine_kv.Prelude.{
  length, leb, All-append, ℕ, ◌≤◌, ◌≡◌, sym, ap, ◌∙◌, subst, Bool, true, false, ◌&&◌, List, [], ◌∷◌,
  ◌++◌, Option, none, some, All, All-imp, any, filter, if◌then◌else◌, arith, Bool-cases,
  Option-cases, inl, inr,
}
use trine_kv.Error.{ok}
use trine_kv.Keys.{Bytes, Sequence, KeyRange}
use trine_kv.RangeTombstone.{bytes_lt, key_is_in_range, key_is_before_start, key_is_after_end}
use trine_kv.Lsm.{MemtableEntry, Tombstone}
use trine_kv.Lsm.Candidate.{bytes_eq, keep_all}
use trine_kv.Lsm.Keeping.{OfKey}
use trine_kv.Lsm.Reads.{value_of}
use trine_kv.Lsm.Compact.{InputTable}
use trine_kv.Lsm.Compact.Payloads.{build_compaction_table_payloads}
use trine_kv.Lsm.Compact.Merge.{source_records, seen, not_lt_trans, bytes_eq-eq}
use trine_kv.Lsm.Compact.Spread.{payload_tombstones, payload_records}
use trine_kv.Lsm.Compact.Scans.{are_bounds, is_bounded, IsInput, Within}
use trine_kv.Lsm.Compact.Preserved.{Newer}
use trine_kv.Lsm.Compact.Inputs.{input_records, input_tombstones, InRange, compaction_preserves}
use trine_kv.Compaction.{
  CompactionOptions, CompactionTable, KeySpan, contains, bounded_inputs, is_empty_key,
  table_has_key_bounds, key_span_for_inputs, range_of_span, key_range_for_inputs,
}
use trine_kv.Compaction.Planner.{CompactionPlan, CompactionDecision, plan_compaction}
use trine_kv.Compaction.Plans.{plan_compaction-IsPlan}
use trine_kv.Compaction.Spans.{Holds, span_of-Holds}

-- Whether one of the tables that are inputs and have key bounds describes an input of the merge.
abbrev pub describes : List ℕ → InputTable → CompactionTable → Bool
describes inputs it t =
    (contains inputs t.id && table_has_key_bounds t)
    && (bytes_eq t.smallest_user_key it.smallest_user_key
        && bytes_eq t.largest_user_key it.largest_user_key)

abbrev pub is_described : List CompactionTable → List ℕ → InputTable → Bool
is_described tables inputs it = any (describes inputs it) tables

is_empty_key_lem : (key : Bytes) → is_empty_key key ≡ leb (length key) 0
is_empty_key_lem [] = ground arith
is_empty_key_lem (b ∷ bs) = ground arith

pub has_bounds_lem :
    (t : CompactionTable)
    → table_has_key_bounds t ≡ are_bounds t.smallest_user_key t.largest_user_key
unfolding table_has_key_bounds
has_bounds_lem t =
    ground (arith, is_empty_key_lem t.smallest_user_key, is_empty_key_lem t.largest_user_key)

-- An input that is described by a table with key bounds has the same ones.
described-bounded :
    (inputs : List ℕ) (it : InputTable) (tables : List CompactionTable)
    → is_described tables inputs it ≡ true
    → is_bounded it ≡ true
described-bounded inputs it [] h = cc
described-bounded inputs it (t ∷ ts) h = elim (Bool-cases (describes inputs it t)) [
  | inr n ↦ described-bounded inputs it ts (ground (arith, n, h))
  | inl y ↦
      subst (λ k. are_bounds k it.largest_user_key ≡ true)
        (bytes_eq-eq t.smallest_user_key it.smallest_user_key (ground (arith, y)))
        (subst (λ k. are_bounds t.smallest_user_key k ≡ true)
          (bytes_eq-eq t.largest_user_key it.largest_user_key (ground (arith, y)))
          (sym (has_bounds_lem t) ∙ ground (arith, y)))
]

described_bounds :
    (inputs : List ℕ) (it : InputTable) (r : KeySpan) (tables : List CompactionTable)
    → is_described tables inputs it ≡ true
    → All (λ t. Holds r t.smallest_user_key t.largest_user_key) (bounded_inputs tables inputs)
    → Holds r it.smallest_user_key it.largest_user_key
described_bounds inputs it r [] h hs = cc
described_bounds inputs it r (t ∷ ts) h hs =
    elim (Bool-cases (contains inputs t.id && table_has_key_bounds t)) [
      | inl y ↦
          let all : All (λ u. Holds r u.smallest_user_key u.largest_user_key)
              (t ∷ bounded_inputs ts inputs) =
            subst
              (λ b.
                All (λ u. Holds r u.smallest_user_key u.largest_user_key)
                  (if b then t ∷ bounded_inputs ts inputs else bounded_inputs ts inputs))
              y hs in
          elim (Bool-cases (
            bytes_eq t.smallest_user_key it.smallest_user_key
            && bytes_eq t.largest_user_key it.largest_user_key)) [
              | inl k ↦
                  subst (λ u. Holds r u it.largest_user_key)
                    (bytes_eq-eq t.smallest_user_key it.smallest_user_key (ground (arith, k)))
                    (subst (λ u. Holds r t.smallest_user_key u)
                      (bytes_eq-eq t.largest_user_key it.largest_user_key (ground (arith, k)))
                      all.0)
              | inr k ↦ described_bounds inputs it r ts (ground (arith, y, k, h)) all.1
            ]
      | inr n ↦ described_bounds inputs it r ts (ground (arith, n, h)) (
          subst
            (λ b.
              All (λ u. Holds r u.smallest_user_key u.largest_user_key)
                (if b then t ∷ bounded_inputs ts inputs else bounded_inputs ts inputs))
            n hs)
    ]

-- An input that is described has its keys in the range of the inputs.
described-InRange :
    (tables : List CompactionTable) (inputs : List ℕ) (it : InputTable) (key : Bytes)
    → is_described tables inputs it ≡ true
    → bytes_lt key it.smallest_user_key ≡ false
    → bytes_lt it.largest_user_key key ≡ false
    → key_is_in_range key (key_range_for_inputs tables inputs) ≡ true
unfolding key_range_for_inputs key_span_for_inputs key_is_in_range key_is_before_start
    key_is_after_end
described-InRange tables inputs it key h low high =
    elim (Option-cases (key_span_for_inputs tables inputs)) [
      | inl e ↦ ap (λ o. key_is_in_range key (range_of_span o)) e
      | inr (r, e) ↦
          let (all, from) = span_of-Holds none (bounded_inputs tables inputs) r e in
          let (a, b) = described_bounds inputs it r tables h all in
          ap (λ o. key_is_in_range key (range_of_span o)) e
          ∙ ground (
            arith,
            not_lt_trans key it.smallest_user_key r.smallest low a,
            not_lt_trans r.largest it.largest_user_key key b high,
          )
    ]

pub input-InRange :
    (tables : List CompactionTable) (inputs : List ℕ) (it : InputTable)
    → IsInput it
    → is_described tables inputs it ≡ true
    → All (InRange (key_range_for_inputs tables inputs)) (source_records it.groups)
input-InRange tables inputs it v h =
    let bounded = described-bounded inputs it tables h in
    All-imp {P = Within it} {Q = InRange (key_range_for_inputs tables inputs)}
      (λ e w. described-InRange tables inputs it e.key.user_key h (w.1 bounded).0 (w.1 bounded).1)
      (source_records it.groups) v.within

-- The described ones among the inputs have their keys in the range.
inputs-InRange :
    (tables : List CompactionTable) (inputs : List ℕ) (its : List InputTable)
    → All IsInput its
    → All
        (InRange (key_range_for_inputs tables inputs))
        (input_records (filter (is_described tables inputs) its))
inputs-InRange tables inputs [] v = tt
inputs-InRange tables inputs (it ∷ its) (v, vs) =
    let rest = inputs-InRange tables inputs its vs in
    elim (Bool-cases (is_described tables inputs it)) [
      | inl y ↦ rw y (
          All-append (InRange (key_range_for_inputs tables inputs)) (source_records it.groups)
            (input_records (filter (is_described tables inputs) its))
            (input-InRange tables inputs it v y) rest)
      | inr n ↦ rw n rest
    ]

-- Whether a table has a record of the key.
abbrev pub has_record : Bytes → List MemtableEntry → Bool
has_record key es = any (λ e. bytes_eq e.key.user_key key) es

pub key-InRange :
    (range : KeyRange) (key : Bytes) (es : List MemtableEntry)
    → All (InRange range) es
    → has_record key es ≡ true
    → key_is_in_range key range ≡ true
key-InRange range key [] h k = cc
key-InRange range key (e ∷ es) (h, hs) k = elim (Bool-cases (bytes_eq e.key.user_key key)) [
  | inl y ↦ sym (ap (λ u. key_is_in_range u range) (bytes_eq-eq e.key.user_key key y)) ∙ h
  | inr n ↦ key-InRange range key es hs (ground (arith, n, k))
]

-- The compaction of a plan does not change what a retained reader finds: for the key of a record of an
-- input table that has key bounds and a read sequence at or above the oldest snapshot, the output
-- tables for the plan's range give the same value as the input tables, together with a candidate and
-- tombstones from the rest of the tree. The input tables are as they were written, with bounds or
-- without; the one with the record is described by an input of the plan that has key bounds, the
-- candidate is of the key, and in a full compaction it is newer than the records and the collected
-- tombstones.
pub planned_compaction_preserves :
    (bucket : Bytes) (tables : List CompactionTable) (range : KeyRange) (oldest : Sequence)
    (options : CompactionOptions) (decision : CompactionDecision) (plan : CompactionPlan)
    (its : List InputTable) (full : Bool) (target : ℕ) (key : Bytes) (read : Sequence)
    (c : Option MemtableEntry) (more : List Tombstone)
    → plan_compaction bucket tables range oldest options ≡ ok decision
    → decision.plan ≡ some plan
    → All IsInput its
    → has_record key (input_records (filter (is_described tables plan.input_tables) its)) ≡ true
    → oldest ≤ read
    → OfKey key c
    → (full ≡ true → Newer plan.key_range its c)
    → value_of key read
        (more
          ++ payload_tombstones
              (build_compaction_table_payloads full its plan.key_range oldest target))
        (keep_all c (
          seen key read (
            payload_records
              (build_compaction_table_payloads full its plan.key_range oldest target))))
      ≡ value_of key read
          (more ++ input_tombstones its)
          (keep_all c (seen key read (input_records its)))
planned_compaction_preserves bucket tables range oldest options decision plan its full target key
      read c more h k v has le of_key newer =
    let is_plan = plan_compaction-IsPlan bucket tables range oldest options decision plan h k in
    let bounded = input_records (filter (is_described tables plan.input_tables) its) in
    let inside =
      subst (λ r. All (InRange r) bounded) (sym is_plan.range_of_inputs)
        (inputs-InRange tables plan.input_tables its v) in
    compaction_preserves key read full its plan.key_range oldest target c more v
      (key-InRange plan.key_range key bounded inside has) le of_key newer
