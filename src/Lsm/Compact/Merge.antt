-- ===== src/Lsm/Compact/Merge.antt =====
-- The merge of the input tables: each round takes the smallest user key (src/lsm/compact.rs).
use trine_kv.Prelude.{
  All-append, All-split, some-injective, ◌≤◌, ◌<◌, ◌≡◌, refl, sym, ap, ◌∙◌, subst, ◌⊎◌, true, false,
  List, [], ◌∷◌, ◌++◌, Option, none, some, All, Pairwise, filter, filter-append, filter-none,
  length, map, arith, Bool-cases, inl, inr,
}
use trine_kv.Prelude.Order.{compare_bytes-IsOrder}
use trine_kv.Keys.{Bytes, Sequence}
use trine_kv.RangeTombstone.{bytes_lt}
use trine_kv.Lsm.{MemtableEntry}
use trine_kv.Lsm.Candidate.{bytes_eq, is_seen}
use trine_kv.Lsm.Compact.{RecordGroup}
use trine_kv.Lsm.Compact.Sources.{
  Source, select_key, head_records, advance, take_records, group_count,
}

abbrev pub source_records : Source → List MemtableEntry
source_records [] = []
source_records (g ∷ gs) = g.records ++ source_records gs

abbrev pub all_records : List Source → List MemtableEntry
all_records [] = []
all_records (s ∷ ss) = source_records s ++ all_records ss

-- The groups of a table ascend, and hold records of their keys.
pub record IsSource (s : Source) : Type 0 where
  pub ascends : Pairwise (λ (a b : RecordGroup). bytes_lt a.user_key b.user_key ≡ true) s
  pub keyed : All (λ (g : RecordGroup). All (λ e. e.key.user_key ≡ g.user_key) g.records) s

pub IsSource-tail : (g : RecordGroup) (gs : Source) → IsSource (g ∷ gs) → IsSource gs
IsSource-tail g gs v = record { ascends = v.ascends.1; keyed = v.keyed.1 }

-- The head of a source is not below a key.
abbrev pub From : Bytes → Source → Type 0
From u [] = Unit {0}
From u (g ∷ gs) = bytes_lt g.user_key u ≡ false

lt_le : (a b c : Bytes) → bytes_lt a b ≡ true → bytes_lt a c ≡ false → bytes_lt b c ≡ false
lt_le a b c h k = ground (arith, compare_bytes-IsOrder.preorder.lt_trans a b c)

pub not_lt_trans :
    (a b c : Bytes) → bytes_lt a b ≡ false → bytes_lt b c ≡ false → bytes_lt a c ≡ false
not_lt_trans a b c h k = ground (
  arith,
  compare_bytes-IsOrder.preorder.lt_trans a c b,
  compare_bytes-IsOrder.preorder.cmp_swap b c,
  compare_bytes-IsOrder.preorder.eq_left b c a,
  compare_bytes-IsOrder.eq_of_cmp b c,
)

From-mono : (u v : Bytes) (s : Source) → bytes_lt u v ≡ false → From u s → From v s
From-mono u v [] h k = tt
From-mono u v (g ∷ gs) h k = not_lt_trans g.user_key u v k h

pub bytes_lt_irrefl : (a : Bytes) → bytes_lt a a ≡ false
bytes_lt_irrefl a = ground (arith, compare_bytes-IsOrder.preorder.cmp_refl a)

-- The selected key is at most every head, and at most the key that was selected before.
pub select_key-least :
    (selected : Option Bytes) (ss : List Source) (u : Bytes)
    → select_key selected ss ≡ some u
    → All (From u) ss × ((v : Bytes) → selected ≡ some v → bytes_lt v u ≡ false)
select_key-least selected [] u h = (
  tt,
  λ v k. subst (λ w. bytes_lt w u ≡ false) (some-injective u v (sym h ∙ k)) (bytes_lt_irrefl u),
)
select_key-least selected ([] ∷ ss) u h =
    let (all, before) = select_key-least selected ss u h in ((tt, all), before)
select_key-least none ((g ∷ gs) ∷ ss) u h =
    let (all, before) = select_key-least (some g.user_key) ss u h in
    ((before g.user_key refl, all), λ v k. cc)
select_key-least (some w) ((g ∷ gs) ∷ ss) u h = elim (Bool-cases (bytes_lt g.user_key w)) [
  | inl t ↦
      let (all, before) = select_key-least (some g.user_key) ss u (ground (arith, t, h)) in
      let from = before g.user_key refl in
      (
        (from, all),
        λ v k.
            subst (λ x. bytes_lt x u ≡ false) (some-injective w v k) (lt_le g.user_key w u t from),
      )
  | inr f ↦
      let (all, before) = select_key-least (some w) ss u (ground (arith, f, h)) in
      ((not_lt_trans g.user_key w u f (before w refl), all), λ v k. before v k)
]

pub select_key-none :
    (selected : Option Bytes) (ss : List Source)
    → select_key selected ss ≡ none
    → (selected ≡ none) × (all_records ss ≡ [])
select_key-none selected [] h = (h, refl)
select_key-none selected ([] ∷ ss) h = select_key-none selected ss h
select_key-none none ((g ∷ gs) ∷ ss) h =
    let (absent, _) = select_key-none (some g.user_key) ss h in cc
select_key-none (some w) ((g ∷ gs) ∷ ss) h = elim (Bool-cases (bytes_lt g.user_key w)) [
  | inl t ↦ let (absent, _) = select_key-none (some g.user_key) ss (ground (arith, t, h)) in cc
  | inr f ↦ let (absent, _) = select_key-none (some w) ss (ground (arith, f, h)) in cc
]

pub bytes_eq_refl : (a : Bytes) → bytes_eq a a ≡ true
bytes_eq_refl a = ground (arith, compare_bytes-IsOrder.preorder.cmp_refl a)

pub bytes_eq-eq : (a b : Bytes) → bytes_eq a b ≡ true → a ≡ b
bytes_eq-eq a b h = ground (arith, compare_bytes-IsOrder.eq_of_cmp a b)

length-advance : (u : Bytes) (s : Source) → length (advance u s) ≤ length s
length-advance u [] = omega arith
length-advance u (g ∷ gs) = elim (Bool-cases (bytes_eq g.user_key u)) [
  | inl t ↦ rw t (omega arith)
  | inr f ↦ rw f (omega arith)
]

group_count-advance :
    (u : Bytes) (ss : List Source) → group_count (map (advance u) ss) ≤ group_count ss
group_count-advance u [] = omega arith
group_count-advance u (s ∷ ss) = omega (arith, length-advance u s, group_count-advance u ss)

head_taken :
    (u : Bytes) (g : RecordGroup) (gs : Source) (ss : List Source)
    → g.user_key ≡ u
    → group_count (map (advance u) ((g ∷ gs) ∷ ss)) < group_count ((g ∷ gs) ∷ ss)
head_taken u g gs ss same =
    let t : bytes_eq g.user_key u ≡ true =
      ap (λ k. bytes_eq g.user_key k) (sym same) ∙ bytes_eq_refl g.user_key in
    rw t (omega (arith, group_count-advance u ss))

-- The selected key was selected before, or it is at a head, so that a group is taken.
pub select_key-taken :
    (selected : Option Bytes) (ss : List Source) (u : Bytes)
    → select_key selected ss ≡ some u
    → (selected ≡ some u) ⊎ (group_count (map (advance u) ss) < group_count ss)
select_key-taken selected [] u h = inl h
select_key-taken selected ([] ∷ ss) u h = elim (select_key-taken selected ss u h) [
  | inl e ↦ inl e
  | inr less ↦ inr (omega (arith, less))
]
select_key-taken none ((g ∷ gs) ∷ ss) u h = elim (select_key-taken (some g.user_key) ss u h) [
  | inl e ↦ inr (head_taken u g gs ss (some-injective g.user_key u e))
  | inr less ↦ inr (omega (arith, less, length-advance u (g ∷ gs)))
]
select_key-taken (some w) ((g ∷ gs) ∷ ss) u h = elim (Bool-cases (bytes_lt g.user_key w)) [
  | inl t ↦ elim (select_key-taken (some g.user_key) ss u (ground (arith, t, h))) [
    | inl e ↦ inr (head_taken u g gs ss (some-injective g.user_key u e))
    | inr less ↦ inr (omega (arith, less, length-advance u (g ∷ gs)))
  ]
  | inr f ↦ elim (select_key-taken (some w) ss u (ground (arith, f, h))) [
    | inl e ↦ inl e
    | inr less ↦ inr (omega (arith, less, length-advance u (g ∷ gs)))
  ]
]

-- What holds of the records of all sources holds of the records that are merged.
module _ (P : MemtableEntry → Type 0) where
  head_part :
      (u : Bytes) (s : Source)
      → All P (source_records s)
      → All P (head_records u s) × All P (source_records (advance u s))
  head_part u [] h = (tt, tt)
  head_part u (g ∷ gs) h =
      let (a, b) = All-split P g.records (source_records gs) h in
      elim (Bool-cases (bytes_eq g.user_key u)) [ inl t ↦ rw t (a, b) | inr f ↦ rw f (tt, h) ]

  pub taken_part :
      (u : Bytes) (ss : List Source)
      → All P (all_records ss)
      → All P (take_records u ss) × All P (all_records (map (advance u) ss))
  taken_part u [] h = (tt, tt)
  taken_part u (s ∷ ss) h =
      let (a, b) = All-split P (source_records s) (all_records ss) h in
      let (c, d) = head_part u s a in
      let (e, f) = taken_part u ss b in
      (
        All-append P (head_records u s) (take_records u ss) c e,
        All-append P (source_records (advance u s)) (all_records (map (advance u) ss)) d f,
      )

module _ (key : Bytes) (read : Sequence) where
  abbrev pub seen : List MemtableEntry → List MemtableEntry
  seen es = filter (is_seen key read) es

  abbrev pub Unseen : MemtableEntry → Type 0
  Unseen e = is_seen key read e ≡ false

  pub other_key :
      (u : Bytes) (es : List MemtableEntry)
      → bytes_eq u key ≡ false
      → All (λ e. e.key.user_key ≡ u) es
      → All Unseen es
  other_key u [] h k = tt
  other_key u (e ∷ es) h (k, ks) =
      (ground (arith, ap (λ v. bytes_eq v key) k, h), other_key u es h ks)

  -- Taking the groups of another key takes nothing that is seen.
  seen-advance :
      (u : Bytes) (s : Source)
      → bytes_eq u key ≡ false
      → IsSource s
      → seen (source_records (advance u s)) ≡ seen (source_records s)
  seen-advance u [] h v = refl
  seen-advance u (g ∷ gs) h v = elim (Bool-cases (bytes_eq g.user_key u)) [
    | inr f ↦ rw f
    | inl t ↦
        let none_seen : seen g.records ≡ [] = filter-none (is_seen key read) g.records (
          other_key g.user_key g.records (ap (λ k. bytes_eq k key) (bytes_eq-eq g.user_key u t) ∙ h)
            v.keyed.0) in
        rw t (
          sym (
            filter-append (is_seen key read) g.records (source_records gs)
            ∙ ap (λ xs. xs ++ seen (source_records gs)) none_seen))
  ]

  pub seen-advance_all :
      (u : Bytes) (ss : List Source)
      → bytes_eq u key ≡ false
      → All IsSource ss
      → seen (all_records (map (advance u) ss)) ≡ seen (all_records ss)
  seen-advance_all u [] h v = refl
  seen-advance_all u (s ∷ ss) h (v, vs) =
      filter-append (is_seen key read) (source_records (advance u s))
        (all_records (map (advance u) ss))
      ∙ ap (λ xs. xs ++ seen (all_records (map (advance u) ss))) (seen-advance u s h v)
      ∙ ap (λ xs. seen (source_records s) ++ xs) (seen-advance_all u ss h vs)
      ∙ sym (filter-append (is_seen key read) (source_records s) (all_records ss))
