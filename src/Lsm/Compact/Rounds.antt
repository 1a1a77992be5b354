-- ===== src/Lsm/Compact/Rounds.antt =====
-- A reader finds the same value in the merged and compacted groups as in the tables that went in
-- (src/lsm/compact.rs).
use trine_kv.Prelude.{
  All-append, ℕ, zero, suc, ◌≡◌, refl, sym, ap, ◌∙◌, subst, Bool, true, false, List, [], ◌∷◌, ◌++◌,
  none, some, All, filter-append, filter-none, append-nil, map, arith, Bool-cases, Option-cases,
  inl, inr,
}
use trine_kv.Keys.{Bytes, Sequence}
use trine_kv.RangeTombstone.{bytes_lt}
use trine_kv.Lsm.{MemtableEntry, Tombstone}
use trine_kv.Lsm.Candidate.{bytes_eq, is_seen}
use trine_kv.Lsm.Compact.{RecordGroup}
use trine_kv.Lsm.Compact.Sources.{
  Source, next_compaction_user_key, head_records, advance, take_records, merge_groups,
}
use trine_kv.Lsm.Compact.Payloads.{compacted_group}
use trine_kv.Lsm.Compact.Groups.{All-compacted_group}
use trine_kv.Lsm.Compact.Merge.{
  source_records, all_records, IsSource, IsSource-tail, From, bytes_eq-eq, seen, Unseen, other_key,
  taken_part,
}

-- The records of the groups after their compaction.
abbrev pub compacted_records :
    Sequence → Bool → List Tombstone → List RecordGroup → List MemtableEntry
compacted_records oldest full tombstones [] = []
compacted_records oldest full tombstones (g ∷ gs) =
    compacted_group oldest full tombstones g ++ compacted_records oldest full tombstones gs

pub merge_groups-none :
    (rounds : ℕ) (ss : List Source)
    → next_compaction_user_key ss ≡ none
    → merge_groups (suc rounds) ss ≡ []
unfolding merge_groups
merge_groups-none rounds ss e = rw (e, merge_groups)

pub merge_groups-some :
    (rounds : ℕ) (ss : List Source) (u : Bytes)
    → next_compaction_user_key ss ≡ some u
    → merge_groups (suc rounds) ss
      ≡ record { user_key = u; records = take_records u ss }
        ∷ merge_groups rounds (map (advance u) ss)
unfolding merge_groups
merge_groups-some rounds ss u e = rw (e, merge_groups)

pub All-merge_groups :
    (P : MemtableEntry → Type 0) (rounds : ℕ) (ss : List Source)
    → All P (all_records ss)
    → All (λ (g : RecordGroup). All P g.records) (merge_groups rounds ss)
unfolding merge_groups
All-merge_groups P zero ss h = tt
All-merge_groups P (suc rounds) ss h = elim (Option-cases (next_compaction_user_key ss)) [
  | inl e ↦
      subst (All (λ (g : RecordGroup). All P g.records)) (sym (merge_groups-none rounds ss e)) tt
  | inr (u, e) ↦
      let (taken, left) = taken_part P u ss h in
      subst (All (λ (g : RecordGroup). All P g.records)) (sym (merge_groups-some rounds ss u e))
        (taken, All-merge_groups P rounds (map (advance u) ss) left)
]

pub All-compacted_records :
    (P : MemtableEntry → Type 0) (oldest : Sequence) (full : Bool) (tombstones : List Tombstone)
    (gs : List RecordGroup)
    → All (λ (g : RecordGroup). All P g.records) gs
    → All P (compacted_records oldest full tombstones gs)
All-compacted_records P oldest full tombstones [] h = tt
All-compacted_records P oldest full tombstones (g ∷ gs) (h, hs) =
    All-append P (compacted_group oldest full tombstones g)
      (compacted_records oldest full tombstones gs)
      (All-compacted_group P oldest full tombstones g h)
      (All-compacted_records P oldest full tombstones gs hs)

module _ (key : Bytes) (read : Sequence) where
  not_below : (v w : Bytes) → bytes_lt v key ≡ false → bytes_lt v w ≡ true → bytes_eq w key ≡ false
  not_below v w h k = elim (Bool-cases (bytes_eq w key)) [
    | inr f ↦ f
    | inl t ↦ ground (arith, h, k, ap (bytes_lt v) (bytes_eq-eq w key t))
  ]

  above-Unseen :
      (v : Bytes) (gs : Source)
      → bytes_lt v key ≡ false
      → All (λ (g : RecordGroup). bytes_lt v g.user_key ≡ true) gs
      → All (λ (g : RecordGroup). All (λ e. e.key.user_key ≡ g.user_key) g.records) gs
      → All (Unseen key read) (source_records gs)
  above-Unseen v [] h above keyed = tt
  above-Unseen v (g ∷ gs) h (a, as') (k, ks) =
      All-append (Unseen key read) g.records (source_records gs)
        (other_key key read g.user_key g.records (not_below v g.user_key h a) k)
        (above-Unseen v gs h as' ks)

  -- Where the smallest head is the key, a source has its records there and nowhere else.
  key_head :
      (s : Source)
      → IsSource s
      → From key s
      → (seen key read (source_records s) ≡ seen key read (head_records key s))
        × All (Unseen key read) (source_records (advance key s))
  key_head [] v from = (refl, tt)
  key_head (g ∷ gs) v from =
      let rest = above-Unseen g.user_key gs from v.ascends.0 v.keyed.1 in
      let empty = filter-none (is_seen key read) (source_records gs) rest in
      elim (Bool-cases (bytes_eq g.user_key key)) [
        | inl t ↦ rw t (
          filter-append (is_seen key read) g.records (source_records gs)
              ∙ ap (λ xs. seen key read g.records ++ xs) empty
              ∙ append-nil (seen key read g.records),
          rest,
        )
        | inr f ↦
            let here = other_key key read g.user_key g.records f v.keyed.0 in
            let whole = All-append (Unseen key read) g.records (source_records gs) here rest in
            rw f (filter-none (is_seen key read) (g.records ++ source_records gs) whole, whole)
      ]

  pub key_round :
      (ss : List Source)
      → All IsSource ss
      → All (From key) ss
      → (seen key read (all_records ss) ≡ seen key read (take_records key ss))
        × All (Unseen key read) (all_records (map (advance key) ss))
  key_round [] v from = (refl, tt)
  key_round (s ∷ ss) (v, vs) (f, fs) =
      let (here, unseen) = key_head s v f in
      let (there, others) = key_round ss vs fs in
      (
        filter-append (is_seen key read) (source_records s) (all_records ss)
            ∙ ap (λ xs. xs ++ seen key read (all_records ss)) here
            ∙ ap (λ xs. seen key read (head_records key s) ++ xs) there
            ∙ sym (filter-append (is_seen key read) (head_records key s) (take_records key ss)),
        All-append (Unseen key read) (source_records (advance key s))
            (all_records (map (advance key) ss)) unseen others,
      )

  pub IsSource-advance :
      (u : Bytes) (ss : List Source) → All IsSource ss → All IsSource (map (advance u) ss)
  IsSource-advance u [] v = tt
  IsSource-advance u ([] ∷ ss) (v, vs) = (v, IsSource-advance u ss vs)
  IsSource-advance u ((g ∷ gs) ∷ ss) (v, vs) =
      let rest = IsSource-advance u ss vs in
      elim (Bool-cases (bytes_eq g.user_key u)) [
        | inl t ↦ rw t (IsSource-tail g gs v, rest)
        | inr f ↦ rw f (v, rest)
      ]
