-- ===== src/Lsm/Candidate.antt =====
-- The newest record of a key among many, whatever the order in which they are met.
use Prim.Native.Nat.Ordering.{eq}
use trine_kv.Prelude.{
  some-injective, ◌≡◌, refl, sym, ap, subst, ◌∙◌, Bool, true, false, ◌&&◌, List, [], ◌∷◌, ◌++◌,
  Option, none, some, All, Pairwise, All-imp, filter, head?, leb, arith, Bool-cases, inl, inr,
}
use trine_kv.Prelude.Order.{compare_bytes}
use trine_kv.Keys.{Bytes, Sequence}
use trine_kv.Keys.Laws.{compare_keys-IsOrder}
use trine_kv.Lsm.{MemtableEntry}
use trine_kv.Lsm.Point.{key_lt, key_le, keep_newer_point_candidate, keep_optional}

abbrev pub bytes_eq : Bytes → Bytes → Bool
bytes_eq a b = elim (compare_bytes a b) [ eq ↦ true | _ ↦ false ]

-- Whether a record is one of the key that a reader at a sequence sees.
abbrev pub is_seen : Bytes → Sequence → MemtableEntry → Bool
is_seen key read_sequence e = bytes_eq e.key.user_key key && leb e.key.sequence read_sequence

abbrev pub keep_all : Option MemtableEntry → List MemtableEntry → Option MemtableEntry
keep_all candidate [] = candidate
keep_all candidate (e ∷ es) = keep_all (keep_newer_point_candidate candidate e) es

-- The newest record that the reader sees among all of them.
abbrev pub newest : Bytes → Sequence → List MemtableEntry → Option MemtableEntry
newest key read_sequence es = keep_all none (filter (is_seen key read_sequence) es)

abbrev pub KeyLeq : MemtableEntry → MemtableEntry → Type 0
KeyLeq a b = key_le a.key b.key ≡ true

pub keep_all-append :
    (c : Option MemtableEntry) (xs ys : List MemtableEntry)
    → keep_all c (xs ++ ys) ≡ keep_all (keep_all c xs) ys
keep_all-append c [] ys = refl
keep_all-append c (x ∷ xs) ys = keep_all-append (keep_newer_point_candidate c x) xs ys

pub KeyLeq-trans : (a b c : MemtableEntry) → KeyLeq a b → KeyLeq b c → KeyLeq a c
KeyLeq-trans a b c h k = ground (
  arith,
  compare_keys-IsOrder.preorder.lt_trans a.key b.key c.key,
  compare_keys-IsOrder.eq_of_cmp a.key b.key,
  compare_keys-IsOrder.eq_of_cmp b.key c.key,
)

pub kept : (c e : MemtableEntry) → KeyLeq c e → keep_newer_point_candidate (some c) e ≡ some c
unfolding keep_newer_point_candidate
kept c e h = ground (arith, compare_keys-IsOrder.preorder.cmp_swap c.key e.key)

-- A candidate that is at least as new as everything that follows stays.
pub keep_all_settled :
    (c : MemtableEntry) (es : List MemtableEntry)
    → All (KeyLeq c) es
    → keep_all (some c) es ≡ some c
keep_all_settled c [] h = refl
keep_all_settled c (e ∷ es) (h, hs) =
    ap (λ r. keep_all r es) (kept c e h) ∙ keep_all_settled c es hs

pub KeyLeq-refl : (e : MemtableEntry) → KeyLeq e e
KeyLeq-refl e = ground (arith, compare_keys-IsOrder.preorder.cmp_refl e.key)

-- What is kept is at least as new as the record that came in, and as the candidate before.
pub keep_newer_bounds :
    (c : Option MemtableEntry) (e : MemtableEntry)
    → (r : MemtableEntry) × (keep_newer_point_candidate c e ≡ some r)
      × KeyLeq r e
      × ((c' : MemtableEntry) → c ≡ some c' → KeyLeq r c')
unfolding keep_newer_point_candidate
keep_newer_bounds none e = (e, refl, KeyLeq-refl e, λ c' h. cc)
keep_newer_bounds (some c) e = elim (Bool-cases (key_lt e.key c.key)) [
  | inl y ↦ (
    e,
    ground arith,
    KeyLeq-refl e,
    λ c' h. subst (KeyLeq e) (some-injective c c' h) (ground arith),
  )
  | inr n ↦ (
    c,
    ground arith,
    ground (arith, compare_keys-IsOrder.preorder.cmp_swap e.key c.key),
    λ c' h. subst (KeyLeq c) (some-injective c c' h) (KeyLeq-refl c),
  )
]

pub All-filter :
    (P : MemtableEntry → Type 0) (p : MemtableEntry → Bool) (es : List MemtableEntry)
    → All P es
    → All P (filter p es)
All-filter P p [] h = tt
All-filter P p (e ∷ es) (h, hs) = elim (Bool-cases (p e)) [
  | inl y ↦ rw y (h, All-filter P p es hs)
  | inr n ↦ rw n (All-filter P p es hs)
]

pub filter-Pairwise :
    (p : MemtableEntry → Bool) (es : List MemtableEntry)
    → Pairwise KeyLeq es
    → Pairwise KeyLeq (filter p es)
filter-Pairwise p [] h = tt
filter-Pairwise p (e ∷ es) (h, hs) = elim (Bool-cases (p e)) [
  | inl y ↦ rw y (All-filter (KeyLeq e) p es h, filter-Pairwise p es hs)
  | inr n ↦ rw n (filter-Pairwise p es hs)
]

-- Of records in ascending order the first one decides.
pub keep_all-sorted :
    (c : Option MemtableEntry) (es : List MemtableEntry)
    → Pairwise KeyLeq es
    → keep_all c es ≡ keep_optional c (head? es)
keep_all-sorted c [] h = refl
keep_all-sorted c (e ∷ es) (h, hs) =
    let (r, same, below, _) = keep_newer_bounds c e in
    ap (λ k. keep_all k es) same
    ∙ keep_all_settled r es (All-imp (λ y. KeyLeq-trans r e y below) es h)
    ∙ sym same
