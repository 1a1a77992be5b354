-- ===== src/Lsm/TableBounds/Updates.antt =====
-- How a table's bounds grow as records and tombstones are added (src/table/metadata.rs).
use Prim.Native.Nat.Ordering.{lt, eq}
use trine_kv.Prelude.{
  ◌≡◌, refl, ap, ◌⊎◌, inl, inr, Bool, true, false, ◌&&◌, ◌||◌, List, [], ◌∷◌, Option, none, some,
  any, all, arith, Bool-cases, Option-cases,
}
use trine_kv.Prelude.Order.{compare_bytes, compare_bytes-IsOrder, eq_right, reverse_order}
use trine_kv.Keys.{Bytes, Bound, included, excluded, unbounded, KeyRange}
use trine_kv.RangeTombstone.{bytes_le, key_is_in_range, key_is_before_start, key_is_after_end}
use trine_kv.Lsm.{MemtableEntry, Tombstone}
use trine_kv.Lsm.Candidate.{bytes_eq}
use trine_kv.Lsm.TableBounds.{finite_bound_bytes, update_smallest, update_largest, tombstone_bounds}

abbrev is_some {ℓ} : {A : Type ℓ} → Option A → Bool
is_some none = false
is_some (some a) = true

abbrev pub is_finite : Tombstone → Bool
is_finite t = is_some (finite_bound_bytes t.range.start) && is_some (finite_bound_bytes t.range.end)

-- Whether a table has a record of the key or a tombstone over it.
abbrev pub concerns : Bytes → List MemtableEntry → List Tombstone → Bool
concerns key points tombstones =
    any (λ e. bytes_eq e.key.user_key key) points
    || any (λ t. key_is_in_range key t.range) tombstones

abbrev pub holds : Option Bytes → Option Bytes → Bytes → Bool
holds (some smallest) (some largest) key = bytes_le smallest key && bytes_le key largest
holds (some smallest) none key = false
holds none largest key = false

module _ (a b key : Bytes) where
  pub chain_facts :
      (compare_bytes a b ≡ lt → compare_bytes b key ≡ lt → compare_bytes a key ≡ lt)
      × (compare_bytes a b ≡ eq → compare_bytes a key ≡ compare_bytes b key)
      × (compare_bytes b key ≡ eq → compare_bytes a b ≡ compare_bytes a key)
  chain_facts = (
    compare_bytes-IsOrder.preorder.lt_trans a b key,
    compare_bytes-IsOrder.preorder.eq_left a b key,
    eq_right compare_bytes-IsOrder.preorder a b key,
  )

  swaps :
      (compare_bytes b a ≡ reverse_order (compare_bytes a b))
      × (compare_bytes key a ≡ reverse_order (compare_bytes a key))
      × (compare_bytes key b ≡ reverse_order (compare_bytes b key))
  swaps = (
    compare_bytes-IsOrder.preorder.cmp_swap a b,
    compare_bytes-IsOrder.preorder.cmp_swap a key,
    compare_bytes-IsOrder.preorder.cmp_swap b key,
  )

holds-update :
    (smallest largest : Option Bytes) (first last key : Bytes)
    → holds smallest largest key ≡ true
    → holds (update_smallest smallest first) (update_largest largest last) key ≡ true
unfolding update_smallest update_largest
holds-update none largest first last key h = cc
holds-update (some s) none first last key h = cc
holds-update (some s) (some l) first last key h =
    ground (
      arith,
      chain_facts first s key,
      chain_facts key l last,
      swaps first s key,
      swaps key l last,
      h,
    )

holds-range :
    (smallest largest : Option Bytes) (first last key : Bytes)
    → bytes_le first key ≡ true
    → bytes_le key last ≡ true
    → holds (update_smallest smallest first) (update_largest largest last) key ≡ true
unfolding update_smallest update_largest
holds-range none none first last key h k = ground arith
holds-range none (some l) first last key h k =
    ground (arith, chain_facts key last l, swaps key last l)
holds-range (some s) none first last key h k =
    ground (arith, chain_facts s first key, swaps s first key)
holds-range (some s) (some l) first last key h k =
    ground
      (arith, chain_facts s first key, swaps s first key, chain_facts key last l, swaps key last l)

within_start :
    (key start : Bytes) (b : Bound)
    → finite_bound_bytes b ≡ some start
    → key_is_before_start key b ≡ false
    → bytes_le start key ≡ true
unfolding finite_bound_bytes key_is_before_start
within_start key start (included a) h k = ground (
  arith,
  compare_bytes-IsOrder.preorder.cmp_swap a key,
  compare_bytes-IsOrder.preorder.cmp_swap start key,
)
within_start key start (excluded a) h k = ground (
  arith,
  compare_bytes-IsOrder.preorder.cmp_swap a key,
  compare_bytes-IsOrder.preorder.cmp_swap start key,
)
within_start key start unbounded h k = cc

within_end :
    (key end : Bytes) (b : Bound)
    → finite_bound_bytes b ≡ some end
    → key_is_after_end key b ≡ false
    → bytes_le key end ≡ true
unfolding finite_bound_bytes key_is_after_end
within_end key end (included a) h k = ground (
  arith,
  compare_bytes-IsOrder.preorder.cmp_swap a key,
  compare_bytes-IsOrder.preorder.cmp_swap end key,
)
within_end key end (excluded a) h k = ground (
  arith,
  compare_bytes-IsOrder.preorder.cmp_swap a key,
  compare_bytes-IsOrder.preorder.cmp_swap end key,
)
within_end key end unbounded h k = cc

in_range_parts :
    (key : Bytes) (range : KeyRange)
    → key_is_in_range key range ≡ true
    → (key_is_before_start key range.start ≡ false) × (key_is_after_end key range.end ≡ false)
unfolding key_is_in_range
in_range_parts key range h = ground arith

and_right : (a b : Bool) → (a && b) ≡ true → b ≡ true
and_right a b h = ground arith

and_left : (a b : Bool) → (a && b) ≡ true → a ≡ true
and_left a b h = ground arith

finite_start :
    (t : Tombstone) → is_finite t ≡ true → (a : Bytes) × (finite_bound_bytes t.range.start ≡ some a)
finite_start t h = elim (Option-cases (finite_bound_bytes t.range.start)) [
  | inl n ↦ cc (
    ap is_some n,
    and_left (is_some (finite_bound_bytes t.range.start)) (is_some (finite_bound_bytes t.range.end))
        h,
  )
  | inr (a, e) ↦ (a, e)
]

finite_end :
    (t : Tombstone) → is_finite t ≡ true → (a : Bytes) × (finite_bound_bytes t.range.end ≡ some a)
finite_end t h = elim (Option-cases (finite_bound_bytes t.range.end)) [
  | inl n ↦ cc (
    ap is_some n,
    and_right (is_some (finite_bound_bytes t.range.start))
        (is_some (finite_bound_bytes t.range.end)) h,
  )
  | inr (a, e) ↦ (a, e)
]

carry :
    (key : Bytes) (smallest largest : Option Bytes) (first last : Bytes) (t : Tombstone)
    (ts : List Tombstone)
    → finite_bound_bytes t.range.start ≡ some first
    → finite_bound_bytes t.range.end ≡ some last
    → (holds smallest largest key ≡ true) ⊎ (any (λ t. key_is_in_range key t.range) (t ∷ ts) ≡ true)
    → (holds (update_smallest smallest first) (update_largest largest last) key ≡ true)
      ⊎ (any (λ t. key_is_in_range key t.range) ts ≡ true)
carry key smallest largest first last t ts e1 e2 (inl h) =
    inl (holds-update smallest largest first last key h)
carry key smallest largest first last t ts e1 e2 (inr h) =
    elim (Bool-cases (key_is_in_range key t.range)) [
      | inl y ↦
          let (start_ok, end_ok) = in_range_parts key t.range y in
          inl (
            holds-range smallest largest first last key
              (within_start key first t.range.start e1 start_ok)
              (within_end key last t.range.end e2 end_ok))
      | inr n ↦ inr (rw n at h)
    ]

pub tombstone_loop :
    (key : Bytes) (smallest largest : Option Bytes) (ts : List Tombstone)
    → all is_finite ts ≡ true
    → (holds smallest largest key ≡ true) ⊎ (any (λ t. key_is_in_range key t.range) ts ≡ true)
    → (s : Option Bytes) × (l : Option Bytes) × (tombstone_bounds smallest largest ts ≡ some (s, l))
      × (holds s l key ≡ true)
unfolding tombstone_bounds
tombstone_loop key smallest largest [] fin (inl h) = (smallest, largest, refl, h)
tombstone_loop key smallest largest [] fin (inr h) = cc
tombstone_loop key smallest largest (t ∷ ts) fin now =
    let (first, e1) = finite_start t (ground (arith, fin)) in
    let (last, e2) = finite_end t (ground (arith, fin)) in
    let now' = carry key smallest largest first last t ts e1 e2 now in
    let (s, l, e, h) =
      tombstone_loop key (update_smallest smallest first) (update_largest largest last) ts
        (ground (arith, fin)) now' in
    (s, l, ground (arith, e1, e2, e), h)
