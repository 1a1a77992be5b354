-- ===== src/Lsm/Compact/Deletions.antt =====
-- A deletion that has nothing left to hide in its group may go (src/lsm/compact.rs).
use trine_kv.Prelude.{
  ◌≡◌, refl, sym, ap, ◌∙◌, ◌⊎◌, true, false, not, ◌&&◌, List, [], ◌∷◌, Option, none, some, All,
  Pairwise, All-imp, filter, filter-none, leb, arith, Bool-cases, inl, inr,
}
use trine_kv.Prelude.Order.{compare_bytes-IsOrder}
use trine_kv.Keys.{Bytes, Sequence, compare_keys}
use trine_kv.Lsm.{MemtableEntry}
use trine_kv.Lsm.Point.{keep_newer_point_candidate}
use trine_kv.Lsm.Candidate.{
  bytes_eq, is_seen, keep_all, newest, KeyLeq, keep_all_settled, All-filter,
}
use trine_kv.Lsm.Compact.{
  is_point_delete, group_rest, has_older_point_record, cleanup_point_tombstones,
}

pub All-cleanup_point_tombstones :
    (P : MemtableEntry → Type 0) (es : List MemtableEntry)
    → All P es
    → All P (cleanup_point_tombstones es)
unfolding cleanup_point_tombstones
All-cleanup_point_tombstones P [] h = tt
All-cleanup_point_tombstones P (e ∷ es) (h, hs) =
    let rest = All-cleanup_point_tombstones P es hs in
    elim (Bool-cases
      (is_point_delete e.key.kind && not (has_older_point_record e (group_rest e es)))) [
        | inl t ↦ rw t rest
        | inr f ↦ rw f (h, rest)
      ]

-- A record behind another one is not of its user key, or at most as new.
same_key_older :
    (e x : MemtableEntry)
    → KeyLeq e x
    → bytes_eq x.key.user_key e.key.user_key ≡ true
    → leb x.key.sequence e.key.sequence ≡ true
unfolding compare_keys
same_key_older e x h same = ground (
  arith,
  compare_bytes-IsOrder.preorder.cmp_swap e.key.user_key x.key.user_key,
  compare_bytes-IsOrder.eq_of_cmp x.key.user_key e.key.user_key,
)

other_key_follows :
    (e x y : MemtableEntry)
    → KeyLeq e x
    → KeyLeq x y
    → bytes_eq x.key.user_key e.key.user_key ≡ false
    → bytes_eq y.key.user_key e.key.user_key ≡ false
unfolding compare_keys
other_key_follows e x y h k other = ground (
  arith,
  compare_bytes-IsOrder.preorder.cmp_swap e.key.user_key x.key.user_key,
  compare_bytes-IsOrder.preorder.cmp_swap x.key.user_key y.key.user_key,
  compare_bytes-IsOrder.preorder.lt_trans e.key.user_key x.key.user_key y.key.user_key,
  compare_bytes-IsOrder.preorder.eq_left y.key.user_key e.key.user_key x.key.user_key,
  compare_bytes-IsOrder.preorder.cmp_swap e.key.user_key y.key.user_key,
)

last_of_group :
    (e : MemtableEntry) (es : List MemtableEntry)
    → Pairwise KeyLeq (e ∷ es)
    → has_older_point_record e (group_rest e es) ≡ false
    → All (λ x. bytes_eq x.key.user_key e.key.user_key ≡ false) es
unfolding has_older_point_record
last_of_group e [] h k = tt
last_of_group e (x ∷ xs) (h, hs) k = elim (Bool-cases (bytes_eq x.key.user_key e.key.user_key)) [
  | inl same ↦ ground (arith, same, same_key_older e x h.0 same, k)
  | inr other ↦ (other, All-imp (λ y r. other_key_follows e x y h.0 r other) xs hs.0)
]

-- Without a candidate, what the reader finds among the cleaned records is what it found before, or
-- it found a deletion and now finds nothing.
abbrev pub Cleaned : Option MemtableEntry → Option MemtableEntry → Type 0
Cleaned after before =
    (after ≡ before)
    ⊎ ((after ≡ none)
        × ((d : MemtableEntry) × (before ≡ some d) × (is_point_delete d.key.kind ≡ true)))

module _ (key : Bytes) (read : Sequence) where
  unseen_other :
      (e x : MemtableEntry)
      → is_seen key read e ≡ true
      → bytes_eq x.key.user_key e.key.user_key ≡ false
      → is_seen key read x ≡ false
  unseen_other e x seen other = ground (
    arith,
    seen,
    compare_bytes-IsOrder.eq_of_cmp e.key.user_key key,
    ap (λ k. bytes_eq x.key.user_key k)
        (compare_bytes-IsOrder.eq_of_cmp e.key.user_key key (ground (arith, seen))),
  )

  settled :
      (e : MemtableEntry) (es : List MemtableEntry)
      → All (KeyLeq e) es
      → keep_all (some e) (filter (is_seen key read) es) ≡ some e
  settled e es h =
      keep_all_settled e (filter (is_seen key read) es)
        (All-filter (KeyLeq e) (is_seen key read) es h)

  nothing :
      (es : List MemtableEntry)
      → All (λ x. is_seen key read x ≡ false) es
      → keep_all none (filter (is_seen key read) es) ≡ none
  nothing es h = ap (keep_all none) (filter-none (is_seen key read) es h)

  pub cleanup_point_tombstones-newest :
      (es : List MemtableEntry)
      → Pairwise KeyLeq es
      → Cleaned (newest key read (cleanup_point_tombstones es)) (newest key read es)
  unfolding cleanup_point_tombstones keep_newer_point_candidate
  cleanup_point_tombstones-newest [] h = inl refl
  cleanup_point_tombstones-newest (e ∷ es) (h, hs) =
      let rest = cleanup_point_tombstones-newest es hs in
      let gone = is_point_delete e.key.kind && not (has_older_point_record e (group_rest e es)) in
      elim (Bool-cases gone) [
        | inl t ↦ elim (Bool-cases (is_seen key read e)) [
          | inl seen ↦
              let others =
                All-imp (λ x. unseen_other e x seen) es
                  (last_of_group e es (h, hs) (ground (arith, t))) in
              let now : newest key read (cleanup_point_tombstones es) ≡ none =
                nothing (cleanup_point_tombstones es)
                  (All-cleanup_point_tombstones (λ x. is_seen key read x ≡ false) es others) in
              rw (t, seen) (inr (now, (e, settled e es h, ground (arith, t))))
          | inr unseen ↦ rw (t, unseen) rest
        ]
        | inr f ↦ elim (Bool-cases (is_seen key read e)) [
          | inl seen ↦
              rw (f, seen)
                (inl (
                  settled e (cleanup_point_tombstones es)
                    (All-cleanup_point_tombstones (KeyLeq e) es h)
                  ∙ sym (settled e es h)))
          | inr unseen ↦ rw (f, unseen) rest
        ]
      ]
