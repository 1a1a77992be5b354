-- ===== src/Lsm/Probes.antt =====
-- The probe of one table, and which tables a search may pass over (src/lsm/version.rs,
-- src/table/read.rs).
use trine_kv.Prelude.{
  ℕ, ◌≤◌, ◌<◌, ◌≡◌, refl, sym, ap, ◌∙◌, Bool, true, false, ◌&&◌, List, [], ◌∷◌, Option, none, some,
  All, filter, filter-none, leb, arith, Bool-cases, inl, inr,
}
use trine_kv.Prelude.Order.{compare_bytes-IsOrder}
use trine_kv.Keys.{Bytes, Sequence}
use trine_kv.RangeTombstone.{bytes_lt}
use trine_kv.Lsm.{MemtableEntry}
use trine_kv.Lsm.Point.{
  Table, keep_optional, has_key_bounds, key_bounds_may_contain_key, may_contain_key,
  table_may_have_newer_point_record, table_for_key, probe_table,
}
use trine_kv.Lsm.Candidate.{is_seen, keep_all, newest, KeyLeq, keep_all_settled}
use trine_kv.Lsm.Memtables.{Unseen}
use trine_kv.Lsm.Deltas.{newer-KeyLeq, seen_key}
use trine_kv.Lsm.Keeping.{OfKey, keep_all_from_none}

-- What the search relies on in a table that holds the given records.
pub record IsTable (t : Table) (records : List MemtableEntry) : Type 0 where
  pub finds_newest :
      (key : Bytes) (read : Sequence)
      → t.newest_visible_point_value_record_for_key key read ≡ newest key read records
  pub bounded : All (λ e. e.key.sequence ≤ t.largest_sequence) records
  pub admitted : All (λ e. may_contain_key t e.key.user_key ≡ true) records

older-All :
    (key : Bytes) (read limit : Sequence) (c : MemtableEntry) (es : List MemtableEntry)
    → c.key.user_key ≡ key
    → limit < c.key.sequence
    → All (λ e. e.key.sequence ≤ limit) es
    → All (KeyLeq c) (filter (is_seen key read) es)
older-All key read limit c [] same newer h = tt
older-All key read limit c (e ∷ es) same newer (h, hs) = elim (Bool-cases (is_seen key read e)) [
  | inl y ↦ rw y (
    newer-KeyLeq c e (same ∙ sym (seen_key key read e y)) (omega (arith, h, newer)),
    older-All key read limit c es same newer hs,
  )
  | inr n ↦ rw n (older-All key read limit c es same newer hs)
]

pub refused-Unseen :
    (key : Bytes) (read : Sequence) (t : Table) (es : List MemtableEntry)
    → may_contain_key t key ≡ false
    → All (λ e. may_contain_key t e.key.user_key ≡ true) es
    → All (Unseen key read) es
refused-Unseen key read t [] denied h = tt
refused-Unseen key read t (e ∷ es) denied (h, hs) = (
  elim (Bool-cases (is_seen key read e)) [
    | inl y ↦ cc (denied, h, ap (may_contain_key t) (seen_key key read e y))
    | inr n ↦ n
  ],
  refused-Unseen key read t es denied hs,
)

pub refused :
    (key : Bytes) (read : Sequence) (t : Table) (es : List MemtableEntry) (c : Option MemtableEntry)
    → may_contain_key t key ≡ false
    → IsTable t es
    → keep_all c (filter (is_seen key read) es) ≡ c
refused key read t es c denied v =
    ap (keep_all c)
      (filter-none (is_seen key read) es (refused-Unseen key read t es denied v.admitted))

pub probe_table_lem :
    (key : Bytes) (read : Sequence) (t : Table) (es : List MemtableEntry) (c : Option MemtableEntry)
    → IsTable t es
    → OfKey key c
    → probe_table key read c t ≡ keep_all c (filter (is_seen key read) es)
unfolding probe_table table_may_have_newer_point_record
probe_table_lem key read t es none v of_key = elim (Bool-cases (may_contain_key t key)) [
  | inl y ↦ ground (
    arith,
    y,
    ap (keep_optional none) (v.finds_newest key read),
    keep_all_from_none none (filter (is_seen key read) es),
  )
  | inr n ↦ ground (arith, n, refused key read t es none n v)
]
probe_table_lem key read t es (some c) v of_key =
    elim (Bool-cases (leb c.key.sequence t.largest_sequence)) [
      | inl newer ↦ elim (Bool-cases (may_contain_key t key)) [
        | inl y ↦ ground (
          arith,
          newer,
          y,
          ap (keep_optional (some c)) (v.finds_newest key read),
          keep_all_from_none (some c) (filter (is_seen key read) es),
        )
        | inr n ↦ ground (arith, newer, n, refused key read t es (some c) n v)
      ]
      | inr older ↦ ground (
        arith,
        older,
        keep_all_settled c (filter (is_seen key read) es)
            (older-All key read t.largest_sequence c es (of_key c refl) (ground arith) v.bounded),
      )
    ]

pub outside-refused :
    (key : Bytes) (t : Table)
    → key_bounds_may_contain_key t key ≡ false
    → may_contain_key t key ≡ false
unfolding may_contain_key
outside-refused key t h = ground (arith, h)

-- A table that lies behind another lies behind a key that the other may hold.
pub before :
    (key : Bytes) (t u : Table)
    → bytes_lt t.largest_user_key key ≡ false
    → (has_key_bounds t ≡ true)
      × (has_key_bounds u ≡ true)
      × (bytes_lt t.largest_user_key u.smallest_user_key ≡ true)
    → key_bounds_may_contain_key u key ≡ false
unfolding key_bounds_may_contain_key
before key t u h (bt, bu, lower) = ground (
  arith,
  bu,
  compare_bytes-IsOrder.preorder.cmp_swap t.largest_user_key key,
  compare_bytes-IsOrder.preorder.cmp_swap u.smallest_user_key key,
  compare_bytes-IsOrder.preorder.lt_trans key t.largest_user_key u.smallest_user_key,
  compare_bytes-IsOrder.preorder.eq_left key t.largest_user_key u.smallest_user_key,
)

pub stopped : (a b : Bool) → (a && b) ≡ false → a ≡ true → b ≡ false
stopped a b h k = ground arith

pub passed_over :
    (n : ℕ) (t : Table) (ts : List Table) (key : Bytes)
    → (has_key_bounds t && bytes_lt t.largest_user_key key) ≡ true
    → table_for_key (record { level = n; tables = t ∷ ts }) key
      ≡ table_for_key (record { level = n; tables = ts }) key
unfolding table_for_key
passed_over n t ts key h = ground (arith, h)

pub stopped_at :
    (n : ℕ) (t : Table) (ts : List Table) (key : Bytes)
    → (has_key_bounds t && bytes_lt t.largest_user_key key) ≡ false
    → (key_bounds_may_contain_key t key ≡ true
        → table_for_key (record { level = n; tables = t ∷ ts }) key ≡ some t)
      × (key_bounds_may_contain_key t key ≡ false
          → table_for_key (record { level = n; tables = t ∷ ts }) key ≡ none)
unfolding table_for_key
stopped_at n t ts key h = (λ k. ground (arith, h, k), λ k. ground (arith, h, k))

pub passed-refused :
    (key : Bytes) (t : Table)
    → (has_key_bounds t && bytes_lt t.largest_user_key key) ≡ true
    → may_contain_key t key ≡ false
unfolding may_contain_key key_bounds_may_contain_key
passed-refused key t h =
    ground (arith, h, compare_bytes-IsOrder.preorder.cmp_swap t.largest_user_key key)
