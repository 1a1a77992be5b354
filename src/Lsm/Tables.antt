-- ===== src/Lsm/Tables.antt =====
-- The search over the levels of tables (src/lsm/version.rs, src/lsm/read.rs).
use trine_kv.Prelude.{
  All-append, ℕ, ◌≡◌, refl, sym, ap, ◌∙◌, true, false, not, ◌&&◌, List, [], ◌∷◌, ◌++◌, Option, none,
  some, All, Pairwise, filter, filter-none, ◌==◌, arith, if◌then◌else◌, Bool-cases, inl, inr,
}
use trine_kv.Keys.{Bytes, Sequence}
use trine_kv.RangeTombstone.{bytes_lt}
use trine_kv.Lsm.{MemtableEntry}
use trine_kv.Lsm.Point.{
  Table, Level, has_key_bounds, key_bounds_may_contain_key, table_for_key, probe_table,
  probe_level_zero, for_each_point_lookup_table,
}
use trine_kv.Lsm.Candidate.{is_seen, keep_all}
use trine_kv.Lsm.Memtables.{Unseen, keep_seen-append}
use trine_kv.Lsm.Keeping.{OfKey, OfKey-keep_all}
use trine_kv.Lsm.Probes.{
  IsTable, refused-Unseen, refused, probe_table_lem, outside-refused, before, stopped, passed_over,
  stopped_at, passed-refused,
}

-- The order that a level above 0 is checked for: bounded tables with ascending, disjoint keys, or
-- one table alone.
abbrev pub Precedes : Table → Table → Type 0
Precedes a b =
    (has_key_bounds a ≡ true)
    × (has_key_bounds b ≡ true)
    × (bytes_lt a.largest_user_key b.smallest_user_key ≡ true)

module _ (records : Table → List MemtableEntry) where
  abbrev pub table_entries : List Table → List MemtableEntry
  table_entries [] = []
  table_entries (t ∷ ts) = records t ++ table_entries ts

  abbrev pub level_entries : List Level → List MemtableEntry
  level_entries [] = []
  level_entries (l ∷ ls) = table_entries l.tables ++ level_entries ls

  abbrev pub IsLevel : Level → Type 0
  IsLevel l =
      All (λ t. IsTable t (records t)) l.tables
      × ((l.level == 0) ≡ false → Pairwise Precedes l.tables)

  probe_level_zero_lem :
      (key : Bytes) (read : Sequence) (ts : List Table) (c : Option MemtableEntry)
      → All (λ t. IsTable t (records t)) ts
      → OfKey key c
      → probe_level_zero key read c ts ≡ keep_all c (filter (is_seen key read) (table_entries ts))
  unfolding probe_level_zero
  probe_level_zero_lem key read [] c v h = refl
  probe_level_zero_lem key read (t ∷ ts) c (v, vs) h =
      let one : (if not (key_bounds_may_contain_key t key) then c else probe_table key read c t)
          ≡ keep_all c (filter (is_seen key read) (records t)) =
        elim (Bool-cases (key_bounds_may_contain_key t key)) [
          | inl y ↦ ground (arith, y, probe_table_lem key read t (records t) c v h)
          | inr n ↦ ground (arith, n, refused key read t (records t) c (outside-refused key t n) v)
        ] in
      ap (λ k. probe_level_zero key read k ts) one
      ∙ probe_level_zero_lem key read ts (keep_all c (filter (is_seen key read) (records t))) vs
          (OfKey-keep_all key read c (records t) h)
      ∙ sym (keep_seen-append key read c (records t) (table_entries ts))

  -- Tables behind one whose keys reach up to the key do not hold the key.
  behind-Unseen :
      (key : Bytes) (read : Sequence) (t : Table) (ts : List Table)
      → (has_key_bounds t && bytes_lt t.largest_user_key key) ≡ false
      → All (Precedes t) ts
      → All (λ u. IsTable u (records u)) ts
      → All (Unseen key read) (table_entries ts)
  behind-Unseen key read t [] h p v = tt
  behind-Unseen key read t (u ∷ us) h (p, ps) (v, vs) =
      All-append (Unseen key read) (records u) (table_entries us)
        (refused-Unseen key read u (records u)
          (outside-refused key u
            (before key t u (stopped (has_key_bounds t) (bytes_lt t.largest_user_key key) h p.0) p))
          v.admitted)
        (behind-Unseen key read t us h ps vs)

  probe_found : Bytes → Sequence → Option MemtableEntry → Option Table → Option MemtableEntry
  probe_found key read c none = c
  probe_found key read c (some t) = probe_table key read c t

  sorted_level_lem :
      (key : Bytes) (read : Sequence) (n : ℕ) (ts : List Table) (c : Option MemtableEntry)
      → All (λ t. IsTable t (records t)) ts
      → Pairwise Precedes ts
      → OfKey key c
      → probe_found key read c (table_for_key (record { level = n; tables = ts }) key)
        ≡ keep_all c (filter (is_seen key read) (table_entries ts))
  unfolding table_for_key probe_found
  sorted_level_lem key read n [] c v p h = refl
  sorted_level_lem key read n (t ∷ ts) c (v, vs) (p, ps) h =
      let split = keep_seen-append key read c (records t) (table_entries ts) in
      elim (Bool-cases (has_key_bounds t && bytes_lt t.largest_user_key key)) [
        | inl passed ↦
            ap (probe_found key read c) (passed_over n t ts key passed)
            ∙ sorted_level_lem key read n ts c vs ps h
            ∙ sym (
                split
                ∙ ap (λ k. keep_all k (filter (is_seen key read) (table_entries ts)))
                    (refused key read t (records t) c (passed-refused key t passed) v))
        | inr stop ↦
            let here_only =
              split
              ∙ ap (keep_all (keep_all c (filter (is_seen key read) (records t)))) (
                  filter-none (is_seen key read) (table_entries ts)
                    (behind-Unseen key read t ts stop p vs)) in
            elim (Bool-cases (key_bounds_may_contain_key t key)) [
              | inl y ↦
                  ap (probe_found key read c) ((stopped_at n t ts key stop).0 y)
                  ∙ probe_table_lem key read t (records t) c v h
                  ∙ sym here_only
              | inr n' ↦
                  ap (probe_found key read c) ((stopped_at n t ts key stop).1 n')
                  ∙ sym (here_only ∙ refused key read t (records t) c (outside-refused key t n') v)
            ]
      ]

  -- From a candidate of the key, the search over the levels keeps the newest record that the
  -- reader sees among the candidate and the records of all tables, though it skips tables by their
  -- bounds, filters and largest sequences and looks into one table of each level above 0. Filters
  -- and bounds admit the keys of a table's own records, and the levels above 0 are in order.
  pub levels_candidate_lem :
      (key : Bytes) (read : Sequence) (ls : List Level) (c : Option MemtableEntry)
      → All IsLevel ls
      → OfKey key c
      → for_each_point_lookup_table key read c ls
        ≡ keep_all c (filter (is_seen key read) (level_entries ls))
  unfolding for_each_point_lookup_table probe_found
  levels_candidate_lem key read [] c v h = refl
  levels_candidate_lem key read (l ∷ ls) c (v, vs) h =
      let one : (if l.level == 0
            then probe_level_zero key read c l.tables
            else probe_found key read c (table_for_key l key))
          ≡ keep_all c (filter (is_seen key read) (table_entries l.tables)) =
        elim (Bool-cases (l.level == 0)) [
          | inl y ↦ ground (arith, y, probe_level_zero_lem key read l.tables c v.0 h)
          | inr n ↦ ground (arith, n, sorted_level_lem key read l.level l.tables c v.0 (v.1 n) h)
        ] in
      ap (λ k. for_each_point_lookup_table key read k ls) one
      ∙ levels_candidate_lem key read ls
          (keep_all c (filter (is_seen key read) (table_entries l.tables))) vs
          (OfKey-keep_all key read c (table_entries l.tables) h)
      ∙ sym (keep_seen-append key read c (table_entries l.tables) (level_entries ls))
