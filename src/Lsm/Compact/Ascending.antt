-- ===== src/Lsm/Compact/Ascending.antt =====
-- The compacted records ascend in their user keys, so that the span of a chunk holds its keys
-- (src/lsm/compact.rs).
use trine_kv.Prelude.{
  All-append, ℕ, zero, suc, ◌≡◌, sym, ap, ◌∙◌, subst, Bool, true, false, List, [], ◌∷◌, ◌++◌, none,
  All, All-imp, Pairwise, map, arith, Option-cases, inl, inr,
}
use trine_kv.Prelude.Order.{compare_bytes-IsOrder}
use trine_kv.Keys.{Bytes, Sequence}
use trine_kv.RangeTombstone.{
  bytes_lt, key_is_in_range, key_is_before_start, key_is_after_end, range_from_inclusive_span,
}
use trine_kv.Lsm.{MemtableEntry, Tombstone}
use trine_kv.Lsm.Point.{last?}
use trine_kv.Lsm.Compact.{RecordGroup}
use trine_kv.Lsm.Compact.Sources.{
  Source, next_compaction_user_key, take_records, advance, merge_groups,
}
use trine_kv.Lsm.Compact.Payloads.{CompactionChunk, chunk_range, compacted_group}
use trine_kv.Lsm.Compact.Groups.{All-compacted_group}
use trine_kv.Lsm.Compact.Merge.{
  source_records, all_records, IsSource, From, select_key-least, taken_part, not_lt_trans,
  bytes_lt_irrefl,
}
use trine_kv.Lsm.Compact.Rounds.{
  compacted_records, merge_groups-none, merge_groups-some, All-merge_groups, All-compacted_records,
  IsSource-advance,
}
use trine_kv.Lsm.Compact.Merged.{take-keyed}
use trine_kv.Lsm.Compact.Spread.{chunk_list_records}
use trine_kv.Lsm.Compact.Written.{in_chunks, in_span}

-- The user key of the first record is not above that of the second.
abbrev pub UserKeyLeq : MemtableEntry → MemtableEntry → Type 0
UserKeyLeq a b = bytes_lt b.key.user_key a.key.user_key ≡ false

abbrev AtLeast : Bytes → MemtableEntry → Type 0
AtLeast u e = bytes_lt e.key.user_key u ≡ false

Pairwise-append :
    (xs ys : List MemtableEntry)
    → Pairwise UserKeyLeq xs
    → Pairwise UserKeyLeq ys
    → All (λ x. All (UserKeyLeq x) ys) xs
    → Pairwise UserKeyLeq (xs ++ ys)
Pairwise-append [] ys h k m = k
Pairwise-append (x ∷ xs) ys (h, hs) k (m, ms) =
    (All-append (UserKeyLeq x) xs ys h m, Pairwise-append xs ys hs k ms)

Pairwise-split :
    (xs ys : List MemtableEntry)
    → Pairwise UserKeyLeq (xs ++ ys)
    → Pairwise UserKeyLeq xs × Pairwise UserKeyLeq ys
Pairwise-split [] ys h = (tt, h)
Pairwise-split (x ∷ xs) ys (h, hs) =
    let (a, b) = Pairwise-split xs ys hs in ((all_left x xs ys h, a), b)
  where
    all_left :
        (x : MemtableEntry) (xs ys : List MemtableEntry)
        → All (UserKeyLeq x) (xs ++ ys)
        → All (UserKeyLeq x) xs
    all_left x [] ys h = tt
    all_left x (y ∷ xs) ys (h, hs) = (h, all_left x xs ys hs)

same_key_ascends :
    (u : Bytes) (es : List MemtableEntry)
    → All (λ e. e.key.user_key ≡ u) es
    → Pairwise UserKeyLeq es
same_key_ascends u [] h = tt
same_key_ascends u (e ∷ es) (h, hs) = (
  All-imp
      (λ x k.
        subst (λ v. bytes_lt v e.key.user_key ≡ false) (h ∙ sym k) (bytes_lt_irrefl e.key.user_key))
      es hs,
  same_key_ascends u es hs,
)

keyed-AtLeast :
    (u v : Bytes) (es : List MemtableEntry)
    → bytes_lt v u ≡ false
    → All (λ e. e.key.user_key ≡ v) es
    → All (AtLeast u) es
keyed-AtLeast u v es h k = All-imp (λ e same. ap (λ w. bytes_lt w u) same ∙ h) es k

above-AtLeast :
    (u v : Bytes) (gs : Source)
    → bytes_lt v u ≡ false
    → All (λ (g : RecordGroup). bytes_lt v g.user_key ≡ true) gs
    → All (λ (g : RecordGroup). All (λ e. e.key.user_key ≡ g.user_key) g.records) gs
    → All (AtLeast u) (source_records gs)
above-AtLeast u v [] h above keyed = tt
above-AtLeast u v (g ∷ gs) h (a, rest) (k, ks) =
    let from : bytes_lt g.user_key u ≡ false =
      not_lt_trans g.user_key v u
        (ground (arith, compare_bytes-IsOrder.preorder.cmp_swap v g.user_key, a)) h in
    All-append (AtLeast u) g.records (source_records gs)
      (keyed-AtLeast u g.user_key g.records from k) (above-AtLeast u v gs h rest ks)

source-AtLeast :
    (u : Bytes) (s : Source) → IsSource s → From u s → All (AtLeast u) (source_records s)
source-AtLeast u [] v from = tt
source-AtLeast u (g ∷ gs) v from =
    All-append (AtLeast u) g.records (source_records gs)
      (keyed-AtLeast u g.user_key g.records from v.keyed.0)
      (above-AtLeast u g.user_key gs from v.ascends.0 v.keyed.1)

all-AtLeast :
    (u : Bytes) (ss : List Source)
    → All IsSource ss
    → All (From u) ss
    → All (AtLeast u) (all_records ss)
all-AtLeast u [] v from = tt
all-AtLeast u (s ∷ ss) (v, vs) (f, fs) =
    All-append (AtLeast u) (source_records s) (all_records ss) (source-AtLeast u s v f)
      (all-AtLeast u ss vs fs)

module _ (oldest : Sequence) (full : Bool) (tombstones : List Tombstone) where
  -- The merge takes the user keys in ascending order.
  pub merged-ascends :
      (rounds : ℕ) (ss : List Source)
      → All IsSource ss
      → Pairwise UserKeyLeq (compacted_records oldest full tombstones (merge_groups rounds ss))
  unfolding merge_groups next_compaction_user_key
  merged-ascends zero ss v = tt
  merged-ascends (suc rounds) ss v = elim (Option-cases (next_compaction_user_key ss)) [
    | inl e ↦
        subst (λ gs. Pairwise UserKeyLeq (compacted_records oldest full tombstones gs))
          (sym (merge_groups-none rounds ss e)) tt
    | inr (u, e) ↦
        let g : RecordGroup = record { user_key = u; records = take_records u ss } in
        let rest = merge_groups rounds (map (advance u) ss) in
        let here =
          All-compacted_group (λ x. x.key.user_key ≡ u) oldest full tombstones g
            (take-keyed u ss v) in
        let later = All-compacted_records (AtLeast u) oldest full tombstones rest (
          All-merge_groups (AtLeast u) rounds (map (advance u) ss)
            (taken_part (AtLeast u) u ss
              (all-AtLeast u ss v (select_key-least none ss u e).0)).1) in
        subst (λ gs. Pairwise UserKeyLeq (compacted_records oldest full tombstones gs))
          (sym (merge_groups-some rounds ss u e))
          (Pairwise-append (compacted_group oldest full tombstones g)
            (compacted_records oldest full tombstones rest)
            (same_key_ascends u (compacted_group oldest full tombstones g) here)
            (merged-ascends rounds (map (advance u) ss) (IsSource-advance u 0 u ss v))
            (All-imp
              (λ x same.
                All-imp (λ y k. ap (bytes_lt y.key.user_key) same ∙ k)
                  (compacted_records oldest full tombstones rest) later)
              (compacted_group oldest full tombstones g) here))
  ]

-- The last record has the greatest user key.
last-UserKeyLeq :
    (e : MemtableEntry) (es : List MemtableEntry)
    → Pairwise UserKeyLeq (e ∷ es)
    → All (λ x. UserKeyLeq x (last? e es)) (e ∷ es)
last-UserKeyLeq e [] h = (bytes_lt_irrefl e.key.user_key, tt)
last-UserKeyLeq e (y ∷ ys) ((h, hs), k) =
    let rest = last-UserKeyLeq y ys k in
    (not_lt_trans (last? y ys).key.user_key y.key.user_key e.key.user_key rest.0 h, rest)

in_inclusive :
    (k a b : Bytes)
    → bytes_lt k a ≡ false
    → bytes_lt b k ≡ false
    → key_is_in_range k (range_from_inclusive_span a b) ≡ true
unfolding key_is_in_range key_is_before_start key_is_after_end range_from_inclusive_span
in_inclusive k a b h j = ground (arith, h, j)

All-both :
    (P Q R : MemtableEntry → Type 0) (es : List MemtableEntry)
    → ((x : MemtableEntry) → P x → Q x → R x)
    → All P es
    → All Q es
    → All R es
All-both P Q R [] f h k = tt
All-both P Q R (e ∷ es) f (h, hs) (k, ks) = (f e h k, All-both P Q R es f hs ks)

span-holds :
    (es : List MemtableEntry)
    → Pairwise UserKeyLeq es
    → All (λ x. in_span x.key.user_key (chunk_range es) ≡ true) es
unfolding chunk_range
span-holds [] h = tt
span-holds (e ∷ es) h =
    All-both (UserKeyLeq e) (λ x. UserKeyLeq x (last? e es))
      (λ x. in_span x.key.user_key (chunk_range (e ∷ es)) ≡ true) (e ∷ es)
      (λ x. in_inclusive x.key.user_key e.key.user_key (last? e es).key.user_key)
      (bytes_lt_irrefl e.key.user_key, h.0) (last-UserKeyLeq e es h)

-- Each record has its user key in the span of a chunk.
pub chunks-hold :
    (cs : List CompactionChunk)
    → Pairwise UserKeyLeq (chunk_list_records cs)
    → All (λ x. in_chunks x.key.user_key cs ≡ true) (chunk_list_records cs)
chunks-hold [] h = tt
chunks-hold (c ∷ cs) h =
    let (here, rest) = Pairwise-split c.point_records (chunk_list_records cs) h in
    All-append (λ x. in_chunks x.key.user_key (c ∷ cs) ≡ true) c.point_records
      (chunk_list_records cs)
      (All-imp {P = λ x. in_span x.key.user_key (chunk_range c.point_records) ≡ true}
        {Q = λ x. in_chunks x.key.user_key (c ∷ cs) ≡ true} (λ x k. ground (arith, k))
        c.point_records (span-holds c.point_records here))
      (All-imp {P = λ x. in_chunks x.key.user_key cs ≡ true}
        {Q = λ x. in_chunks x.key.user_key (c ∷ cs) ≡ true} (λ x k. ground (arith, k))
        (chunk_list_records cs) (chunks-hold cs rest))
