-- ===== src/Lsm/Compact/Versions.antt =====
-- A reader at or above the oldest snapshot finds the same newest record in the versions that a
-- compaction keeps (src/lsm/compact.rs).
use trine_kv.Prelude.{
  ◌≤◌, ◌≡◌, refl, sym, ap, ◌∙◌, Bool, true, false, not, ◌&&◌, ◌||◌, List, [], ◌∷◌, Option, none,
  some, All, Pairwise, All-imp, filter, ltb, if◌then◌else◌, arith, Bool-cases, inl, inr,
}
use trine_kv.Prelude.Order.{IsPreorder, compare_bytes-IsOrder, on-IsPreorder}
use trine_kv.Prelude.Sort.{is_le, insert_by, sort_by, sort_by-IsSorted}
use trine_kv.Keys.{Bytes, Sequence}
use trine_kv.Keys.Laws.{compare_keys-IsOrder}
use trine_kv.Lsm.{MemtableEntry}
use trine_kv.Lsm.Point.{keep_newer_point_candidate}
use trine_kv.Lsm.Candidate.{
  bytes_eq, is_seen, keep_all, KeyLeq, KeyLeq-trans, kept, keep_newer_bounds,
}
use trine_kv.Lsm.Compact.{
  compare_records, sort_records, is_current, compact_loop, compact_point_records,
}

keep_swap :
    (c : Option MemtableEntry) (x y : MemtableEntry)
    → is_le (compare_records x y) ≡ false
    → keep_newer_point_candidate (keep_newer_point_candidate c y) x
      ≡ keep_newer_point_candidate (keep_newer_point_candidate c x) y
unfolding keep_newer_point_candidate
keep_swap none x y h = ground (arith, compare_keys-IsOrder.preorder.cmp_swap x.key y.key)
keep_swap (some a) x y h = ground (
  arith,
  compare_keys-IsOrder.preorder.cmp_swap x.key y.key,
  compare_keys-IsOrder.preorder.lt_trans y.key x.key a.key,
)

module _ (key : Bytes) (read : Sequence) where
  keep_seen-insert_by :
      (c : Option MemtableEntry) (x : MemtableEntry) (ys : List MemtableEntry)
      → keep_all c (filter (is_seen key read) (insert_by compare_records x ys))
        ≡ keep_all c (filter (is_seen key read) (x ∷ ys))
  unfolding insert_by
  keep_seen-insert_by c x [] = refl
  keep_seen-insert_by c x (y ∷ ys) = elim (Bool-cases (is_le (compare_records x y))) [
    | inl e ↦ rw e
    | inr e ↦ elim (Bool-cases (is_seen key read y)) [
      | inr fy ↦ ground (arith, e, fy, keep_seen-insert_by c x ys)
      | inl sy ↦ elim (Bool-cases (is_seen key read x)) [
        | inr fx ↦
            ground (arith, e, sy, fx, keep_seen-insert_by (keep_newer_point_candidate c y) x ys)
        | inl sx ↦ ground (
          arith,
          e,
          sy,
          sx,
          keep_seen-insert_by (keep_newer_point_candidate c y) x ys,
          ap (λ k. keep_all k (filter (is_seen key read) ys)) (keep_swap c x y e),
        )
      ]
    ]
  ]

  pub keep_seen-sort_records :
      (c : Option MemtableEntry) (xs : List MemtableEntry)
      → keep_all c (filter (is_seen key read) (sort_records xs))
        ≡ keep_all c (filter (is_seen key read) xs)
  unfolding sort_by
  keep_seen-sort_records c [] = refl
  keep_seen-sort_records c (x ∷ xs) =
      keep_seen-insert_by c x (sort_records xs) ∙ (elim (Bool-cases (is_seen key read x)) [
        | inl s ↦ ground (arith, s, keep_seen-sort_records (keep_newer_point_candidate c x) xs)
        | inr f ↦ ground (arith, f, keep_seen-sort_records c xs)
      ])

  -- A kept version of the current key is the candidate, and nothing that follows is newer.
  abbrev Settled : Option Bytes → Bool → Option MemtableEntry → List MemtableEntry → Type 0
  Settled current kept_here c es =
      is_current current key ≡ true
      → kept_here ≡ true
      → (e : MemtableEntry) × (c ≡ some e) × All (KeyLeq e) es

  moved :
      (current : Option Bytes) (u : Bytes)
      → is_current current u ≡ true
      → bytes_eq u key ≡ true
      → is_current current key ≡ true
  moved none u h k = cc
  moved (some v) u h k = ground (arith, compare_bytes-IsOrder.preorder.eq_left v u key)

  -- A seen record that is kept settles the candidate.
  taken :
      (u : Bytes) (b : Bool) (c : Option MemtableEntry) (e : MemtableEntry)
      (es : List MemtableEntry)
      → All (KeyLeq e) es
      → Settled (some u) b (keep_newer_point_candidate c e) es
  taken u b c e es h is_key before =
      let (r, same, below, _) = keep_newer_bounds c e in
      (r, same, All-imp (λ y. KeyLeq-trans r e y below) es h)

  passed :
      (u : Bytes) (current : Option Bytes) (kept_before : Bool) (c : Option MemtableEntry)
      (e : MemtableEntry) (es : List MemtableEntry)
      → Settled current kept_before c (e ∷ es)
      → (is_current current u && kept_before) ≡ true
      → bytes_eq u key ≡ true
      → (x : MemtableEntry) × (c ≡ some x) × All (KeyLeq x) (e ∷ es)
  passed u current kept_before c e es s again is_key =
      s (moved current u (ground (arith, again)) is_key) (ground (arith, again))

  seen_old :
      (oldest : Sequence) (e : MemtableEntry)
      → oldest ≤ read
      → ltb oldest e.key.sequence ≡ false
      → bytes_eq e.key.user_key key ≡ true
      → is_seen key read e ≡ true
  seen_old oldest e r old is_key = ground (arith, r)

  seen-key : (e : MemtableEntry) → is_seen key read e ≡ true → bytes_eq e.key.user_key key ≡ true
  seen-key e h = ground (arith, h)

  compact_loop-newest :
      (oldest : Sequence) (current : Option Bytes) (kept_before : Bool) (c : Option MemtableEntry)
      (es : List MemtableEntry)
      → oldest ≤ read
      → Pairwise KeyLeq es
      → Settled current kept_before c es
      → keep_all c (filter (is_seen key read) (compact_loop oldest current kept_before es))
        ≡ keep_all c (filter (is_seen key read) es)
  unfolding compact_loop
  compact_loop-newest oldest current kept_before c [] r h s = refl
  compact_loop-newest oldest current kept_before c (e ∷ es) r (h, hs) s =
      let u = e.key.user_key in
      let here = is_current current u && kept_before in
      elim (Bool-cases (ltb oldest e.key.sequence)) [
        | inl newer ↦ elim (Bool-cases (is_seen key read e)) [
          | inl seen ↦
              rw (newer, seen)
                (compact_loop-newest oldest (some u) here (keep_newer_point_candidate c e) es r hs
                  (taken u here c e es h))
          | inr unseen ↦
              rw (newer, unseen)
                (compact_loop-newest oldest (some u) here c es r hs (λ is_key again.
                  let (x, same, all) = passed u current kept_before c e es s again is_key in
                  (x, same, all.1)))
        ]
        | inr old ↦ elim (Bool-cases here) [
          | inl again ↦ elim (Bool-cases (is_seen key read e)) [
            | inl seen ↦
                let (x, same, all) =
                  passed u current kept_before c e es s again (seen-key e seen) in
                rw (old, again, seen)
                  (compact_loop-newest oldest (some u) true c es r hs (λ is_key b. (x, same, all.1))
                    ∙ ap (λ k. keep_all k (filter (is_seen key read) es))
                        (same
                          ∙ sym (kept x e all.0)
                          ∙ ap (λ k. keep_newer_point_candidate k e) (sym same)))
            | inr unseen ↦
                rw (old, again, unseen)
                  (compact_loop-newest oldest (some u) true c es r hs
                    (λ is_key b. ground (arith, seen_old oldest e r old is_key, unseen)))
          ]
          | inr fresh ↦ elim (Bool-cases (is_seen key read e)) [
            | inl seen ↦
                rw (old, fresh, seen)
                  (compact_loop-newest oldest (some u) true (keep_newer_point_candidate c e) es r hs
                    (taken u true c e es h))
            | inr unseen ↦
                rw (old, fresh, unseen)
                  (compact_loop-newest oldest (some u) true c es r hs
                    (λ is_key b. ground (arith, seen_old oldest e r old is_key, unseen)))
          ]
        ]
      ]

pub compare_records-IsPreorder : IsPreorder compare_records
compare_records-IsPreorder =
    on-IsPreorder (λ (e : MemtableEntry). e.key) compare_keys-IsOrder.preorder

Pairwise-KeyLeq :
    (es : List MemtableEntry)
    → Pairwise (λ a b. is_le (compare_records a b) ≡ true) es
    → Pairwise KeyLeq es
Pairwise-KeyLeq [] h = tt
Pairwise-KeyLeq (e ∷ es) (h, hs) = (
  All-imp {P = λ y. is_le (compare_records e y) ≡ true} {Q = KeyLeq e} (λ y r. ground (arith, r)) es
      h,
  Pairwise-KeyLeq es hs,
)

pub sort_records-ascends : (es : List MemtableEntry) → Pairwise KeyLeq (sort_records es)
sort_records-ascends es =
    Pairwise-KeyLeq (sort_records es) (sort_by-IsSorted compare_records-IsPreorder es)

-- The versions that are kept are among the records.
pub All-compact_loop :
    (P : MemtableEntry → Type 0) (oldest : Sequence) (current : Option Bytes) (kept_before : Bool)
    (es : List MemtableEntry)
    → All P es
    → All P (compact_loop oldest current kept_before es)
unfolding compact_loop
All-compact_loop P oldest current kept_before [] h = tt
All-compact_loop P oldest current kept_before (e ∷ es) (h, hs) =
    let here = is_current current e.key.user_key && kept_before in
    let newer = ltb oldest e.key.sequence in
    let rest =
      All-compact_loop P oldest (some e.key.user_key) (if newer then here else true) es hs in
    elim (Bool-cases (newer || not here)) [ inl t ↦ rw t (h, rest) | inr f ↦ rw f rest ]

compact_loop-ascends :
    (oldest : Sequence) (current : Option Bytes) (kept_before : Bool) (es : List MemtableEntry)
    → Pairwise KeyLeq es
    → Pairwise KeyLeq (compact_loop oldest current kept_before es)
unfolding compact_loop
compact_loop-ascends oldest current kept_before [] h = tt
compact_loop-ascends oldest current kept_before (e ∷ es) (h, hs) =
    let here = is_current current e.key.user_key && kept_before in
    let newer = ltb oldest e.key.sequence in
    let next = if newer then here else true in
    let rest = compact_loop-ascends oldest (some e.key.user_key) next es hs in
    let above = All-compact_loop (KeyLeq e) oldest (some e.key.user_key) next es h in
    elim (Bool-cases (newer || not here)) [ inl t ↦ rw t (above, rest) | inr f ↦ rw f rest ]

pub compact_point_records-ascends :
    (oldest : Sequence) (es : List MemtableEntry)
    → Pairwise KeyLeq (compact_point_records oldest es)
unfolding compact_point_records
compact_point_records-ascends oldest es =
    compact_loop-ascends oldest none false (sort_records es) (sort_records-ascends es)

-- A reader at or above the oldest snapshot, with any candidate so far, finds the same newest record
-- in the versions that are kept as in all of them.
pub compact_point_records-newest :
    (key : Bytes) (read oldest : Sequence) (c : Option MemtableEntry) (es : List MemtableEntry)
    → oldest ≤ read
    → keep_all c (filter (is_seen key read) (compact_point_records oldest es))
      ≡ keep_all c (filter (is_seen key read) es)
unfolding compact_point_records
compact_point_records-newest key read oldest c es r =
    compact_loop-newest key read oldest none false c (sort_records es) r (sort_records-ascends es)
      (λ h k. cc)
    ∙ keep_seen-sort_records key read c es
