-- ===== src/Lsm/Keeping.antt =====
-- Keeping the newest of several candidates (src/lsm/read.rs).
use trine_kv.Prelude.{
  ◌≡◌, refl, sym, ap, ◌∙◌, true, false, List, [], ◌∷◌, Option, none, some, All-imp, filter, arith,
  Bool-cases, inl, inr,
}
use trine_kv.Keys.{Bytes, Sequence}
use trine_kv.Keys.Laws.{compare_keys-IsOrder}
use trine_kv.Lsm.{MemtableEntry}
use trine_kv.Lsm.Point.{key_lt, keep_newer_point_candidate, keep_optional}
use trine_kv.Lsm.Candidate.{is_seen, keep_all, KeyLeq, KeyLeq-trans, keep_newer_bounds, kept}
use trine_kv.Lsm.Deltas.{seen_key, keep_all_from, filter-All}

-- Keeping is associative.
keep_twice :
    (c : Option MemtableEntry) (x e : MemtableEntry)
    → key_lt e.key x.key ≡ true
    → keep_newer_point_candidate (keep_newer_point_candidate c x) e ≡ keep_newer_point_candidate c e
unfolding keep_newer_point_candidate
keep_twice none x e h = ground arith
keep_twice (some a) x e h = ground (arith, compare_keys-IsOrder.preorder.lt_trans e.key x.key a.key)

keep_replaced :
    (x e : MemtableEntry)
    → key_lt e.key x.key ≡ true
    → keep_newer_point_candidate (some x) e ≡ some e
unfolding keep_newer_point_candidate
keep_replaced x e h = ground arith

not_lt : (x e : MemtableEntry) → key_lt e.key x.key ≡ false → KeyLeq x e
not_lt x e h = ground (arith, compare_keys-IsOrder.preorder.cmp_swap e.key x.key)

keep_all_assoc :
    (c : Option MemtableEntry) (x : MemtableEntry) (es : List MemtableEntry)
    → keep_all (keep_newer_point_candidate c x) es ≡ keep_optional c (keep_all (some x) es)
keep_all_assoc c x [] = refl
keep_all_assoc c x (e ∷ es) = elim (Bool-cases (key_lt e.key x.key)) [
  | inl y ↦
      ap (λ k. keep_all k es) (keep_twice c x e y)
      ∙ keep_all_assoc c e es
      ∙ sym (ap (λ k. keep_optional c (keep_all k es)) (keep_replaced x e y))
  | inr n ↦
      let (r, same, below, _) = keep_newer_bounds c x in
      let x≤e : KeyLeq x e = not_lt x e n in
      ap (λ k. keep_all k es)
        (ap (λ k. keep_newer_point_candidate k e) same
          ∙ kept r e (KeyLeq-trans r x e below x≤e)
          ∙ sym same)
      ∙ keep_all_assoc c x es
      ∙ sym (ap (λ k. keep_optional c (keep_all k es)) (kept x e x≤e))
]

pub keep_all_from_none :
    (c : Option MemtableEntry) (es : List MemtableEntry)
    → keep_all c es ≡ keep_optional c (keep_all none es)
unfolding keep_newer_point_candidate
keep_all_from_none c [] = refl
keep_all_from_none c (e ∷ es) = keep_all_assoc c e es

-- The candidate is a record of the key.
abbrev pub OfKey : Bytes → Option MemtableEntry → Type 0
OfKey key c = (e : MemtableEntry) → c ≡ some e → e.key.user_key ≡ key

pub OfKey-keep_all :
    (key : Bytes) (read : Sequence) (c : Option MemtableEntry) (es : List MemtableEntry)
    → OfKey key c
    → OfKey key (keep_all c (filter (is_seen key read) es))
OfKey-keep_all key read c es h e chosen =
    keep_all_from (λ r. r.key.user_key ≡ key) c (filter (is_seen key read) es) e h
      (All-imp (λ x. seen_key key read x) (filter (is_seen key read) es)
        (filter-All (is_seen key read) es))
      chosen
