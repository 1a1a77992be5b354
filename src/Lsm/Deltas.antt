-- ===== src/Lsm/Deltas.antt =====
-- Skipping a delta that is not newer than the candidate loses nothing (src/lsm/read.rs).
use Prim.Native.Nat.Ordering.{eq}
use trine_kv.Prelude.{
  some-injective, ◌≤◌, ◌<◌, ◌≡◌, refl, sym, ap, ◌∙◌, subst, Bool, true, false, ◌&&◌, List, [], ◌∷◌,
  ◌++◌, Option, none, some, All, any, filter, leb, ltb, arith, if◌then◌else◌, Bool-cases, inl, inr,
  leb→le,
}
use trine_kv.Prelude.Order.{compare_bytes, compare_bytes-IsOrder}
use trine_kv.Keys.{Bytes, Sequence, InternalKey, compare_keys}
use trine_kv.Keys.Laws.{compare_keys-IsOrder}
use trine_kv.Lsm.{MemtableEntry}
use trine_kv.Lsm.Point.{
  InMemoryDelta, LsmPointReadSnapshot, key_lt, key_le, keep_newer_point_candidate, is_not_newer,
  keep_deltas, keep_immutables, keep_newest_visible_memtable_point_candidate,
  newest_visible_memtable_point_candidate_in_snapshot,
}
use trine_kv.Lsm.Candidate.{
  bytes_eq, is_seen, keep_all, newest, KeyLeq, KeyLeq-trans, keep_all_settled, keep_newer_bounds,
  KeyLeq-refl, All-filter,
}
use trine_kv.Lsm.Memtables.{
  IsMemtable, memtable_candidate_lem, immutable_entries, keep_seen-append, keep_immutables_lem,
}

abbrev pub same_key : MemtableEntry → MemtableEntry → Bool
same_key a b = elim (compare_keys a.key b.key) [ eq ↦ true | _ ↦ false ]

-- A commit writes its records of a user key together: if the pool has a record of the user key and
-- the sequence of `e`, it has the record `e`.
abbrev pub IsWhole : List MemtableEntry → MemtableEntry → Type 0
IsWhole pool e =
    All
      (λ r.
        r.key.user_key ≡ e.key.user_key
        → r.key.sequence ≡ e.key.sequence
        → any (λ x. same_key x e) pool ≡ true)
      pool

-- A delta holds one commit, and what is in front of it is whole with regard to it.
abbrev pub AreDeltas : List MemtableEntry → List InMemoryDelta → Type 0
AreDeltas pool [] = Unit
AreDeltas pool (d ∷ ds) =
    IsMemtable d.memtable
    × All (λ e. (e.key.sequence ≤ d.sequence) × IsWhole pool e) d.memtable.entries
    × AreDeltas (pool ++ d.memtable.entries) ds

abbrev pub delta_entries : List InMemoryDelta → List MemtableEntry
delta_entries [] = []
delta_entries (d ∷ ds) = d.memtable.entries ++ delta_entries ds

newer_from :
    (P : MemtableEntry → Type 0) (c0 : Option MemtableEntry) (x c : MemtableEntry)
    → ((c' : MemtableEntry) → c0 ≡ some c' → P c')
    → P x
    → keep_newer_point_candidate c0 x ≡ some c
    → P c
unfolding keep_newer_point_candidate
newer_from P none x c h p e = subst P (some-injective x c e) p
newer_from P (some a) x c h p e = elim (Bool-cases (key_lt x.key a.key)) [
  | inl y ↦ subst P (some-injective x c (ground arith)) p
  | inr n ↦ h c (ground arith)
]

-- What is kept is one of the records.
pub keep_all_from :
    (P : MemtableEntry → Type 0) (c0 : Option MemtableEntry) (es : List MemtableEntry)
    (c : MemtableEntry)
    → ((c' : MemtableEntry) → c0 ≡ some c' → P c')
    → All P es
    → keep_all c0 es ≡ some c
    → P c
keep_all_from P c0 [] c h hs e = h c e
keep_all_from P c0 (x ∷ es) c h (p, hs) e =
    keep_all_from P (keep_newer_point_candidate c0 x) es c (λ c' k. newer_from P c0 x c' h p k) hs e

-- What is kept is at least as new as each of them.
pub keep_all_least :
    (c0 : Option MemtableEntry) (es : List MemtableEntry) (c : MemtableEntry)
    → keep_all c0 es ≡ some c
    → ((c' : MemtableEntry) → c0 ≡ some c' → KeyLeq c c') × All (KeyLeq c) es
keep_all_least c0 [] c e =
    (λ c' h. subst (KeyLeq c) (some-injective c c' (sym e ∙ h)) (KeyLeq-refl c), tt)
keep_all_least c0 (x ∷ es) c e =
    let (r, same, below, before) = keep_newer_bounds c0 x in
    let (first, rest) = keep_all_least (keep_newer_point_candidate c0 x) es c e in
    (
      λ c' h. KeyLeq-trans c r c' (first r same) (before c' h),
      (KeyLeq-trans c r x (first r same) below, rest),
    )

-- Records of one key compare by their sequences first.
pub newer-KeyLeq :
    (a b : MemtableEntry)
    → a.key.user_key ≡ b.key.user_key
    → b.key.sequence < a.key.sequence
    → KeyLeq a b
unfolding compare_keys
newer-KeyLeq a b e h = ground (
  arith,
  compare_bytes-IsOrder.preorder.cmp_refl b.key.user_key,
  ap (λ u. compare_bytes u b.key.user_key) e,
)

pub seen_key :
    (key : Bytes) (read : Sequence) (e : MemtableEntry)
    → is_seen key read e ≡ true
    → e.key.user_key ≡ key
seen_key key read e h = compare_bytes-IsOrder.eq_of_cmp e.key.user_key key (ground arith)

-- A bound of all records of the pool that are seen bounds each record that is in the pool.
found-KeyLeq :
    (key : Bytes) (read : Sequence) (c e : MemtableEntry) (pool : List MemtableEntry)
    → All (KeyLeq c) (filter (is_seen key read) pool)
    → any (λ x. same_key x e) pool ≡ true
    → is_seen key read e ≡ true
    → KeyLeq c e
found-KeyLeq key read c e [] h found seen = cc
found-KeyLeq key read c e (x ∷ pool) h found seen = elim (Bool-cases (same_key x e)) [
  | inl same ↦
      let x≡e : x.key ≡ e.key = compare_keys-IsOrder.eq_of_cmp x.key e.key (ground arith) in
      let x_seen : is_seen key read x ≡ true =
        subst (λ (k : InternalKey). (bytes_eq k.user_key key && leb k.sequence read) ≡ true)
          (sym x≡e) seen in
      let all' : All (KeyLeq c) (x ∷ filter (is_seen key read) pool) = rw x_seen at h in
      subst (λ (k : InternalKey). key_le c.key k ≡ true) x≡e all'.0
  | inr other ↦ elim (Bool-cases (is_seen key read x)) [
    | inl y ↦
        let all' : All (KeyLeq c) (x ∷ filter (is_seen key read) pool) = rw y at h in
        found-KeyLeq key read c e pool all'.1 (rw other at found) seen
    | inr n ↦
        let all' : All (KeyLeq c) (filter (is_seen key read) pool) = rw n at h in
        found-KeyLeq key read c e pool all' (rw other at found) seen
  ]
]

pub filter-All :
    (p : MemtableEntry → Bool) (es : List MemtableEntry) → All (λ e. p e ≡ true) (filter p es)
filter-All p [] = tt
filter-All p (e ∷ es) = elim (Bool-cases (p e)) [
  | inl y ↦ rw y (y, filter-All p es)
  | inr n ↦ rw n (filter-All p es)
]

-- The newest record of the pool, against a delta that is not newer than it.
module _ (key : Bytes) (read sequence : Sequence) (pool : List MemtableEntry) (c : MemtableEntry)
    (chosen : newest key read pool ≡ some c) (later : sequence ≤ c.key.sequence) where
  chosen_seen : is_seen key read c ≡ true
  chosen_seen =
      keep_all_from (λ r. is_seen key read r ≡ true) none (filter (is_seen key read) pool) c
        (λ r h. cc) (filter-All (is_seen key read) pool) chosen

  skipped-KeyLeq :
      (e : MemtableEntry)
      → e.key.sequence ≤ sequence
      → IsWhole pool e
      → is_seen key read e ≡ true
      → KeyLeq c e
  skipped-KeyLeq e below whole seen =
      let same_user : c.key.user_key ≡ e.key.user_key =
        seen_key key read c chosen_seen ∙ sym (seen_key key read e seen) in
      elim (Bool-cases (ltb e.key.sequence c.key.sequence)) [
        | inl older ↦ newer-KeyLeq c e same_user (ground arith)
        | inr not_older ↦
            let same_sequence : c.key.sequence ≡ e.key.sequence = ground (arith, below, later) in
            let found =
              keep_all_from
                (λ r.
                  r.key.user_key ≡ e.key.user_key
                  → r.key.sequence ≡ e.key.sequence
                  → any (λ x. same_key x e) pool ≡ true)
                none (filter (is_seen key read) pool) c (λ r h. cc)
                (All-filter
                  (λ r.
                    r.key.user_key ≡ e.key.user_key
                    → r.key.sequence ≡ e.key.sequence
                    → any (λ x. same_key x e) pool ≡ true)
                  (is_seen key read) pool whole)
                chosen in
            found-KeyLeq key read c e pool
              (keep_all_least none (filter (is_seen key read) pool) c chosen).1
              (found same_user same_sequence) seen
      ]

  skipped-All :
      (es : List MemtableEntry)
      → All (λ e. (e.key.sequence ≤ sequence) × IsWhole pool e) es
      → All (KeyLeq c) (filter (is_seen key read) es)
  skipped-All [] h = tt
  skipped-All (e ∷ es) (h, hs) = elim (Bool-cases (is_seen key read e)) [
    | inl y ↦ rw y (skipped-KeyLeq e h.0 h.1 y, skipped-All es hs)
    | inr n ↦ rw n (skipped-All es hs)
  ]

delta_step :
    (key : Bytes) (read : Sequence) (pool : List MemtableEntry) (d : InMemoryDelta)
    (c : Option MemtableEntry)
    → newest key read pool ≡ c
    → IsMemtable d.memtable
    → All (λ e. (e.key.sequence ≤ d.sequence) × IsWhole pool e) d.memtable.entries
    → (if is_not_newer c d.sequence
        then c
        else keep_newest_visible_memtable_point_candidate c d.memtable key read)
      ≡ keep_all c (filter (is_seen key read) d.memtable.entries)
delta_step key read pool d none chosen v h = memtable_candidate_lem none d.memtable key read v
delta_step key read pool d (some c) chosen v h = elim (Bool-cases (leb d.sequence c.key.sequence)) [
  | inl skip ↦ rw skip (
      sym (
        keep_all_settled c (filter (is_seen key read) d.memtable.entries) (
          skipped-All key read d.sequence pool c chosen (leb→le d.sequence c.key.sequence skip)
            d.memtable.entries h)))
  | inr read_it ↦ rw read_it (memtable_candidate_lem (some c) d.memtable key read v)
]

keep_deltas_lem :
    (key : Bytes) (read : Sequence) (ds : List InMemoryDelta) (pool : List MemtableEntry)
    (c : Option MemtableEntry)
    → newest key read pool ≡ c
    → AreDeltas pool ds
    → keep_deltas key read c ds ≡ keep_all c (filter (is_seen key read) (delta_entries ds))
unfolding keep_deltas
keep_deltas_lem key read [] pool c chosen h = refl
keep_deltas_lem key read (d ∷ ds) pool c chosen h =
    let step = delta_step key read pool d c chosen h.0 h.1 in
    let chosen' =
      keep_seen-append key read none pool d.memtable.entries
      ∙ ap (λ k. keep_all k (filter (is_seen key read) d.memtable.entries)) chosen in
    ap (λ k. keep_deltas key read k ds) step
    ∙ keep_deltas_lem key read ds (pool ++ d.memtable.entries)
        (keep_all c (filter (is_seen key read) d.memtable.entries)) chosen' h.2
    ∙ sym (keep_seen-append key read c d.memtable.entries (delta_entries ds))

-- All records in memory, in the order of the search.
abbrev pub memory_entries : LsmPointReadSnapshot → List MemtableEntry
memory_entries s =
    (s.active_memtable.entries ++ immutable_entries s.immutable_memtables) ++ delta_entries s.deltas

pub record IsMemorySnapshot (s : LsmPointReadSnapshot) : Type 0 where
  pub active_ok : IsMemtable s.active_memtable
  pub immutables_ok : All (λ m. IsMemtable m.memtable) s.immutable_memtables
  pub deltas_ok :
      AreDeltas (s.active_memtable.entries ++ immutable_entries s.immutable_memtables) s.deltas

-- The search of the memtables, with its skipped memtables, its early returns and its skipped
-- deltas, finds the newest record of the key that the reader sees among all records in memory. The
-- memtables ascend and have a byte count, a delta holds no record above its sequence, and whatever
-- stands in front of a delta that has records of one of its keys and commits has all of them.
pub memory_candidate_lem :
    (s : LsmPointReadSnapshot) (key : Bytes) (read : Sequence)
    → IsMemorySnapshot s
    → newest_visible_memtable_point_candidate_in_snapshot s key read
      ≡ newest key read (memory_entries s)
unfolding newest_visible_memtable_point_candidate_in_snapshot
memory_candidate_lem s key read v =
    let front = s.active_memtable.entries ++ immutable_entries s.immutable_memtables in
    let fronted : keep_immutables key read
          (keep_newest_visible_memtable_point_candidate none s.active_memtable key read)
          s.immutable_memtables
        ≡ newest key read front =
      ap (λ k. keep_immutables key read k s.immutable_memtables)
        (memtable_candidate_lem none s.active_memtable key read v.active_ok)
      ∙ keep_immutables_lem key read (newest key read s.active_memtable.entries)
          s.immutable_memtables v.immutables_ok
      ∙ sym (
          keep_seen-append key read none s.active_memtable.entries
            (immutable_entries s.immutable_memtables)) in
    ap (λ k. keep_deltas key read k s.deltas) fronted
    ∙ keep_deltas_lem key read s.deltas front (newest key read front) refl v.deltas_ok
    ∙ sym (keep_seen-append key read none front (delta_entries s.deltas))
