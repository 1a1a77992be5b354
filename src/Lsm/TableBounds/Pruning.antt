-- ===== src/Lsm/TableBounds/Pruning.antt =====
-- Pruning by the bounds that a table was written with (src/table/metadata.rs, src/table/read.rs).
use trine_kv.Prelude.{
  ℕ, ◌≡◌, refl, sym, ap, ◌∙◌, subst, ◌⊎◌, inl, inr, Bool, true, false, not, ◌&&◌, List, [], ◌∷◌,
  Option, none, some, All, Pairwise, any, all, ◌==◌, arith, Bool-cases, Option-cases,
}
use trine_kv.Prelude.Order.{compare_bytes, compare_bytes-IsOrder}
use trine_kv.Keys.{Bytes}
use trine_kv.RangeTombstone.{bytes_le, key_is_in_range}
use trine_kv.Lsm.{MemtableEntry, Tombstone}
use trine_kv.Lsm.Point.{Table, has_key_bounds, key_bounds_may_contain_key, may_contain_key, last?}
use trine_kv.Lsm.Candidate.{KeyLeq, KeyLeq-refl, bytes_eq}
use trine_kv.Lsm.Memtables.{user_key_le, last-greatest}
use trine_kv.Lsm.TableBounds.{
  finite_bound_bytes, update_smallest, update_largest, first_user_key, last_user_key,
  tombstone_bounds, both_or_empty, table_key_bounds,
}
use trine_kv.Lsm.TableBounds.Updates.{chain_facts, concerns, holds, is_finite, tombstone_loop}

abbrev pub is_empty {ℓ} : {A : Type ℓ} → List A → Bool
is_empty [] = true
is_empty (x ∷ xs) = false

-- A table as it is written from its records and tombstones.
pub record IsBuilt (t : Table) (points : List MemtableEntry) (tombstones : List Tombstone)
    : Type 0 where
  pub smallest_ok : t.smallest_user_key ≡ (table_key_bounds points tombstones).0
  pub largest_ok : t.largest_user_key ≡ (table_key_bounds points tombstones).1
  pub blocks : (t.data_block_count == 0) ≡ is_empty points
  pub flag : t.may_have_range_tombstones ≡ not (is_empty tombstones)

any-All :
    {Q : Type 0} (p : MemtableEntry → Bool) (es : List MemtableEntry)
    → All (λ e. p e ≡ true → Q) es
    → any p es ≡ true
    → Q
any-All p [] h k = cc
any-All p (e ∷ es) (h, hs) k = elim (Bool-cases (p e)) [
  | inl y ↦ h y
  | inr n ↦ any-All p es hs (rw n at k)
]

between :
    (first last e : MemtableEntry) (key : Bytes)
    → KeyLeq first e
    → KeyLeq e last
    → bytes_eq e.key.user_key key ≡ true
    → holds (some first.key.user_key) (some last.key.user_key) key ≡ true
between first last e key h k same = ground (
  arith,
  user_key_le first e h,
  user_key_le e last k,
  compare_bytes-IsOrder.preorder.cmp_swap first.key.user_key e.key.user_key,
  compare_bytes-IsOrder.preorder.cmp_swap last.key.user_key e.key.user_key,
  chain_facts first.key.user_key e.key.user_key key,
  chain_facts e.key.user_key key last.key.user_key,
)

zip_All :
    (first last : MemtableEntry) (key : Bytes) (es : List MemtableEntry)
    → All (KeyLeq first) es
    → All (λ x. KeyLeq x last) es
    → All
        (λ e.
          bytes_eq e.key.user_key key ≡ true
          → holds (some first.key.user_key) (some last.key.user_key) key ≡ true)
        es
zip_All first last key [] h k = tt
zip_All first last key (e ∷ es) (h, hs) (k, ks) =
    (between first last e key h k, zip_All first last key es hs ks)

points_hold :
    (key : Bytes) (points : List MemtableEntry)
    → Pairwise KeyLeq points
    → any (λ e. bytes_eq e.key.user_key key) points ≡ true
    → holds (first_user_key points) (last_user_key points) key ≡ true
points_hold key [] h k = cc
points_hold key (e ∷ es) h k =
    any-All (λ x. bytes_eq x.key.user_key key) (e ∷ es)
      (zip_All e (last? e es) key (e ∷ es) (KeyLeq-refl e, h.0) (last-greatest e es h)) k

both_hold :
    (smallest largest : Option Bytes) (key : Bytes)
    → holds smallest largest key ≡ true
    → (bytes_le (both_or_empty smallest largest).0 key
        && bytes_le key (both_or_empty smallest largest).1)
      ≡ true
both_hold none largest key h = cc
both_hold (some s) none key h = cc
both_hold (some s) (some l) key h = h

bounds_of :
    (points : List MemtableEntry) (tombstones : List Tombstone) (s l : Option Bytes)
    → tombstone_bounds (first_user_key points) (last_user_key points) tombstones ≡ some (s, l)
    → table_key_bounds points tombstones ≡ both_or_empty s l
unfolding table_key_bounds
bounds_of points tombstones s l e = rw (e, table_key_bounds) refl

no_bounds :
    (points : List MemtableEntry) (tombstones : List Tombstone)
    → tombstone_bounds (first_user_key points) (last_user_key points) tombstones ≡ none
    → table_key_bounds points tombstones ≡ ([], [])
unfolding table_key_bounds
no_bounds points tombstones e = rw (e, table_key_bounds) refl

has_tombstones :
    (key : Bytes) (points : List MemtableEntry) (tombstones : List Tombstone)
    → concerns key points tombstones ≡ true
    → is_empty points ≡ true
    → is_empty tombstones ≡ false
has_tombstones key [] [] h k = cc
has_tombstones key [] (t ∷ ts) h k = refl
has_tombstones key (e ∷ es) ts h k = cc

-- A table whose range tombstones all have two finite ends is never pruned for a key that one of
-- its records has or that one of its tombstones covers. Its records are in ascending order.
pub finite_bounds_keep :
    (t : Table) (points : List MemtableEntry) (tombstones : List Tombstone) (key : Bytes)
    → IsBuilt t points tombstones
    → Pairwise KeyLeq points
    → all is_finite tombstones ≡ true
    → concerns key points tombstones ≡ true
    → key_bounds_may_contain_key t key ≡ true
unfolding key_bounds_may_contain_key has_key_bounds
finite_bounds_keep t points tombstones key built sorted finite h =
    let start : (holds (first_user_key points) (last_user_key points) key ≡ true)
        ⊎ (any (λ d. key_is_in_range key d.range) tombstones ≡ true) =
      elim (Bool-cases (any (λ e. bytes_eq e.key.user_key key) points)) [
        | inl y ↦ inl (points_hold key points sorted y)
        | inr n ↦ inr (rw n at h)
      ] in
    let (s, l, e, held) =
      tombstone_loop key (first_user_key points) (last_user_key points) tombstones finite start in
    let inside = both_hold s l key held in
    let bounds = bounds_of points tombstones s l e in
    let inside' =
      subst (λ (p : Bytes × Bytes). (bytes_le p.0 key && bytes_le key p.1) ≡ true) (sym bounds)
        inside in
    ground (
      arith,
      built.smallest_ok,
      built.largest_ok,
      built.blocks,
      built.flag,
      has_tombstones key points tombstones h,
      inside',
      ap (λ k. bytes_le k key) built.smallest_ok,
      ap (λ k. bytes_le key k) built.largest_ok,
    )

unbounded_loop :
    (smallest largest : Option Bytes) (ts : List Tombstone)
    → all is_finite ts ≡ false
    → tombstone_bounds smallest largest ts ≡ none
unfolding tombstone_bounds
unbounded_loop smallest largest [] h = cc
unbounded_loop smallest largest (t ∷ ts) h =
    elim (Option-cases (finite_bound_bytes t.range.start)) [
      | inl n ↦ ground (arith, n)
      | inr (a, e) ↦ elim (Option-cases (finite_bound_bytes t.range.end)) [
        | inl n ↦ ground (arith, n, e)
        | inr (b, e') ↦ ground (
          arith,
          e,
          e',
          unbounded_loop (update_smallest smallest a) (update_largest largest b) ts
              (rw (e', e) at h),
        )
      ]
    ]

-- A table with records and with a range tombstone that has an infinite end is pruned for every key
-- that is not empty, also for the keys that its own records have or its tombstones cover.
pub half_infinite_hides :
    (t : Table) (e : MemtableEntry) (es : List MemtableEntry) (tombstones : List Tombstone) (b : ℕ)
    (bs : Bytes)
    → IsBuilt t (e ∷ es) tombstones
    → all is_finite tombstones ≡ false
    → (key_bounds_may_contain_key t (b ∷ bs) ≡ false) × (may_contain_key t (b ∷ bs) ≡ false)
unfolding key_bounds_may_contain_key has_key_bounds may_contain_key compare_bytes
half_infinite_hides t e es tombstones b bs built h =
    let none_left =
      unbounded_loop (first_user_key (e ∷ es)) (last_user_key (e ∷ es)) tombstones h in
    let bounds = no_bounds (e ∷ es) tombstones none_left in
    let smallest : t.smallest_user_key ≡ [] = built.smallest_ok ∙ ap (λ p. p.0) bounds in
    let largest : t.largest_user_key ≡ [] = built.largest_ok ∙ ap (λ p. p.1) bounds in
    ground (arith, built.blocks, ap (λ k. bytes_le (b ∷ bs) k) largest)
