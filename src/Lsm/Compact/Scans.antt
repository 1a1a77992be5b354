-- ===== src/Lsm/Compact/Scans.antt =====
-- The cursors over the input tables in a range (src/lsm/compact.rs).
use trine_kv.Prelude.{
  All-append, All-split, ◌≤◌, ◌≡◌, Bool, true, false, List, [], ◌∷◌, All, Pairwise, filter,
  Bool-cases, inl, inr, length, leb, not, ◌&&◌,
}
use trine_kv.Prelude.Sort.{IsSorted}
use trine_kv.Keys.{Bytes, KeyRange}
use trine_kv.RangeTombstone.{compare_tombstones, bytes_lt, key_is_in_range}
use trine_kv.Lsm.{MemtableEntry, Tombstone-like}
use trine_kv.Lsm.Compact.{RecordGroup, InputTable}
use trine_kv.Lsm.Compact.Sources.{Source}
use trine_kv.Lsm.Compact.Payloads.{scan}
use trine_kv.Lsm.Compact.Merge.{source_records, IsSource}

-- Whether two keys are bounds: a table without bounds has two empty keys for them.
abbrev pub are_bounds : Bytes → Bytes → Bool
are_bounds smallest largest = not (leb (length smallest) 0 && leb (length largest) 0)

abbrev pub is_bounded : InputTable → Bool
is_bounded t = are_bounds t.smallest_user_key t.largest_user_key

-- A record that the table's properties speak of: the key bounds, where there are any, hold for it.
abbrev pub Within : InputTable → MemtableEntry → Type 0
Within t e =
    (e.key.sequence ≤ t.largest_sequence)
    × (is_bounded t ≡ true
        → (bytes_lt e.key.user_key t.smallest_user_key ≡ false)
          × (bytes_lt t.largest_user_key e.key.user_key ≡ false))

-- A table as it was written, with key bounds or without: ascending groups, properties that hold of
-- its records, and its range tombstones in the order of their index.
pub record IsInput (t : InputTable) : Type 0 where
  pub is_source : IsSource t.groups
  pub within : All (Within t) (source_records t.groups)
  pub sorted : IsSorted compare_tombstones t.range_tombstones.tombstones

-- What the cursors of all input tables would hand out.
abbrev pub scans : KeyRange → List InputTable → List Source
scans range [] = []
scans range (t ∷ ts) = scan range t ∷ scans range ts

module _ (range : KeyRange) where
  in_scan : RecordGroup → Bool
  in_scan g = key_is_in_range g.user_key range

  All-scan :
      (P : RecordGroup → Type 0) (gs : Source)
      → All P gs
      → All P (filter (λ g. key_is_in_range g.user_key range) gs)
  All-scan P [] h = tt
  All-scan P (g ∷ gs) (h, hs) = elim (Bool-cases (key_is_in_range g.user_key range)) [
    | inl y ↦ rw y (h, All-scan P gs hs)
    | inr n ↦ rw n (All-scan P gs hs)
  ]

  scan-ascends :
      (gs : Source)
      → Pairwise (λ (a b : RecordGroup). bytes_lt a.user_key b.user_key ≡ true) gs
      → Pairwise
          (λ (a b : RecordGroup). bytes_lt a.user_key b.user_key ≡ true)
          (filter (λ g. key_is_in_range g.user_key range) gs)
  scan-ascends [] h = tt
  scan-ascends (g ∷ gs) (h, hs) = elim (Bool-cases (key_is_in_range g.user_key range)) [
    | inl y ↦ rw y (All-scan (λ b. bytes_lt g.user_key b.user_key ≡ true) gs h, scan-ascends gs hs)
    | inr n ↦ rw n (scan-ascends gs hs)
  ]

  pub scan-IsSource : (t : InputTable) → IsInput t → IsSource (scan range t)
  scan-IsSource t v = record {
    ascends = scan-ascends t.groups v.is_source.ascends;
    keyed =
        All-scan (λ g. All (λ e. e.key.user_key ≡ g.user_key) g.records) t.groups v.is_source.keyed;
  }

  pub scan-records :
      (P : MemtableEntry → Type 0) (gs : Source)
      → All P (source_records gs)
      → All P (source_records (filter (λ g. key_is_in_range g.user_key range) gs))
  scan-records P [] h = tt
  scan-records P (g ∷ gs) h =
      let (a, b) = All-split P g.records (source_records gs) h in
      let rest = scan-records P gs b in
      elim (Bool-cases (key_is_in_range g.user_key range)) [
        | inl y ↦ rw y (
            All-append P g.records
              (source_records (filter (λ g. key_is_in_range g.user_key range) gs)) a rest)
        | inr n ↦ rw n rest
      ]
