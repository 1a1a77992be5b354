-- ===== src/Lsm/Memtables.antt =====
-- The loops over memtables give the newest record of all their entries (src/lsm/read.rs).
use trine_kv.Prelude.{
  ◌≤◌, ◌≡◌, refl, sym, ap, ◌∙◌, Bool, true, false, ◌&&◌, List, [], ◌∷◌, ◌++◌, Option, All, Pairwise,
  All-imp, filter, head?, filter-append, filter-none, ◌==◌, arith, Bool-cases, inl, inr,
}
use trine_kv.Prelude.Order.{compare_bytes, compare_bytes-IsOrder}
use trine_kv.Keys.{
  Bytes, Sequence, u64_max, u32_max, compare_keys, first_internal_key_for_user,
  last_internal_key_for_user,
}
use trine_kv.Keys.Laws.{bracket_iff}
use trine_kv.RangeTombstone.{bytes_lt}
use trine_kv.Lsm.{MemtableEntry, Memtable, ImmutableMemtable}
use trine_kv.Lsm.Point.{
  key_le, keep_optional, first_visible, entries_of_key, is_outside, last?,
  keep_newest_visible_memtable_point_candidate, keep_immutables,
}
use trine_kv.Lsm.Candidate.{
  bytes_eq, is_seen, keep_all, KeyLeq, keep_all-append, keep_all-sorted, filter-Pairwise,
  KeyLeq-trans, KeyLeq-refl,
}

-- A memtable as the writers leave it: ascending entries with numbers of their types, and a byte
-- count that is not 0 when there are entries.
pub record IsMemtable (m : Memtable) : Type 0 where
  pub ascends : Pairwise KeyLeq m.entries
  pub in_range : All (λ e. (e.key.sequence ≤ u64_max) × (e.key.batch_index ≤ u32_max)) m.entries
  pub counted : m.estimated_bytes ≡ 0 → m.entries ≡ []

bytes_eq_iff : (a b : Bytes) → (bytes_eq a b ≡ true → a ≡ b) × (a ≡ b → bytes_eq a b ≡ true)
bytes_eq_iff a b = (
  λ h. ground (arith, compare_bytes-IsOrder.eq_of_cmp a b),
  λ h. ground (arith, ap (λ u. compare_bytes u b) h, compare_bytes-IsOrder.preorder.cmp_refl b),
)

and_iff :
    (a b c : Bool)
    → ((a ≡ true) × (b ≡ true) → c ≡ true)
    → (c ≡ true → (a ≡ true) × (b ≡ true))
    → (a && b) ≡ c
and_iff true true c h k = sym (h (refl, refl))
and_iff true false true h k = ground (arith, (k refl).1)
and_iff true false false h k = refl
and_iff false b true h k = ground (arith, (k refl).0)
and_iff false b false h k = refl

bracket_test :
    (key : Bytes) (e : MemtableEntry)
    → e.key.sequence ≤ u64_max
    → e.key.batch_index ≤ u32_max
    → (key_le (first_internal_key_for_user key) e.key
        && key_le e.key (last_internal_key_for_user key))
      ≡ bytes_eq e.key.user_key key
bracket_test key e hs hb =
    let (inside, outside) = bracket_iff key e.key hs hb in
    let (to_eq, of_eq) = bytes_eq_iff e.key.user_key key in
    and_iff (key_le (first_internal_key_for_user key) e.key)
      (key_le e.key (last_internal_key_for_user key)) (bytes_eq e.key.user_key key)
      (λ both. of_eq (inside both)) (λ same. outside (to_eq same))

first_visible-head :
    (key : Bytes) (read : Sequence) (es : List MemtableEntry)
    → All (λ e. (e.key.sequence ≤ u64_max) × (e.key.batch_index ≤ u32_max)) es
    → first_visible read (entries_of_key key es) ≡ head? (filter (is_seen key read) es)
unfolding entries_of_key first_visible
first_visible-head key read [] h = refl
first_visible-head key read (e ∷ es) (h, hs) =
    ground (arith, bracket_test key e h.0 h.1, first_visible-head key read es hs)

pub user_key_le :
    (a b : MemtableEntry) → KeyLeq a b → bytes_lt b.key.user_key a.key.user_key ≡ false
unfolding compare_keys
user_key_le a b h =
    ground (arith, compare_bytes-IsOrder.preorder.cmp_swap a.key.user_key b.key.user_key)

pub last-greatest :
    (e : MemtableEntry) (es : List MemtableEntry)
    → Pairwise KeyLeq (e ∷ es)
    → All (λ x. KeyLeq x (last? e es)) (e ∷ es)
last-greatest e [] h = (KeyLeq-refl e, tt)
last-greatest e (y ∷ ys) ((h, hs), k) =
    let rest = last-greatest y ys k in (KeyLeq-trans e y (last? y ys) h rest.0, rest)

abbrev pub Unseen : Bytes → Sequence → MemtableEntry → Type 0
Unseen key read e = is_seen key read e ≡ false

below-Unseen :
    (key : Bytes) (read : Sequence) (e x : MemtableEntry)
    → bytes_lt key e.key.user_key ≡ true
    → KeyLeq e x
    → Unseen key read x
below-Unseen key read e x h k = ground (
  arith,
  user_key_le e x k,
  compare_bytes-IsOrder.eq_of_cmp x.key.user_key key,
  compare_bytes-IsOrder.preorder.eq_left x.key.user_key key e.key.user_key,
)

above-Unseen :
    (key : Bytes) (read : Sequence) (l x : MemtableEntry)
    → bytes_lt l.key.user_key key ≡ true
    → KeyLeq x l
    → Unseen key read x
above-Unseen key read l x h k = ground (
  arith,
  user_key_le x l k,
  compare_bytes-IsOrder.preorder.eq_left x.key.user_key key l.key.user_key,
  compare_bytes-IsOrder.preorder.cmp_swap l.key.user_key key,
  compare_bytes-IsOrder.preorder.cmp_swap l.key.user_key x.key.user_key,
)

outside-Unseen :
    (key : Bytes) (read : Sequence) (es : List MemtableEntry)
    → Pairwise KeyLeq es
    → is_outside key es ≡ true
    → All (Unseen key read) es
unfolding is_outside
outside-Unseen key read [] h k = tt
outside-Unseen key read (e ∷ es) h k = elim (Bool-cases (bytes_lt key e.key.user_key)) [
  | inl low ↦ (
    below-Unseen key read e e low (KeyLeq-refl e),
    All-imp (λ x. below-Unseen key read e x low) es h.0,
  )
  | inr high ↦
      All-imp (λ x. above-Unseen key read (last? e es) x (ground (arith, k))) (e ∷ es)
        (last-greatest e es h)
]

-- The entry that the source keeps from one memtable, with its early returns, is the newest of the
-- candidate so far and all entries of the key that the reader sees.
pub memtable_candidate_lem :
    (c : Option MemtableEntry) (m : Memtable) (key : Bytes) (read : Sequence)
    → IsMemtable m
    → keep_newest_visible_memtable_point_candidate c m key read
      ≡ keep_all c (filter (is_seen key read) m.entries)
unfolding keep_newest_visible_memtable_point_candidate
memtable_candidate_lem c m key read v =
    let sorted =
      keep_all-sorted c (filter (is_seen key read) m.entries)
        (filter-Pairwise (is_seen key read) m.entries v.ascends) in
    elim (Bool-cases (m.estimated_bytes == 0)) [
      | inl e ↦
          let empty = v.counted (ground arith) in
          ground (arith, ap (λ es. keep_all c (filter (is_seen key read) es)) empty)
      | inr e ↦ elim (Bool-cases (is_outside key m.entries)) [
        | inl out ↦ ground (
          arith,
          ap (keep_all c) (
              filter-none (is_seen key read) m.entries
                (outside-Unseen key read m.entries v.ascends out)),
        )
        | inr inside ↦
            ground (
              arith,
              ap (keep_optional c) (first_visible-head key read m.entries v.in_range),
              sorted,
            )
      ]
    ]

abbrev pub immutable_entries : List ImmutableMemtable → List MemtableEntry
immutable_entries [] = []
immutable_entries (m ∷ ms) = m.memtable.entries ++ immutable_entries ms

-- A loop over two parts of the entries.
pub keep_seen-append :
    (key : Bytes) (read : Sequence) (c : Option MemtableEntry) (xs ys : List MemtableEntry)
    → keep_all c (filter (is_seen key read) (xs ++ ys))
      ≡ keep_all (keep_all c (filter (is_seen key read) xs)) (filter (is_seen key read) ys)
keep_seen-append key read c xs ys =
    ap (keep_all c) (filter-append (is_seen key read) xs ys)
    ∙ keep_all-append c (filter (is_seen key read) xs) (filter (is_seen key read) ys)

pub keep_immutables_lem :
    (key : Bytes) (read : Sequence) (c : Option MemtableEntry) (ms : List ImmutableMemtable)
    → All (λ m. IsMemtable m.memtable) ms
    → keep_immutables key read c ms ≡ keep_all c (filter (is_seen key read) (immutable_entries ms))
unfolding keep_immutables
keep_immutables_lem key read c [] h = refl
keep_immutables_lem key read c (m ∷ ms) (h, hs) =
    ap (λ k. keep_immutables key read k ms) (memtable_candidate_lem c m.memtable key read h)
    ∙ keep_immutables_lem key read (keep_all c (filter (is_seen key read) m.memtable.entries)) ms hs
    ∙ sym (keep_seen-append key read c m.memtable.entries (immutable_entries ms))
