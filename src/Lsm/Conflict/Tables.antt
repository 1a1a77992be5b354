-- ===== src/Lsm/Conflict/Tables.antt =====
-- The records in tables that modify a key after a read (src/lsm/conflict.rs).
use trine_kv.Prelude.{
  any-filter_and, ℕ, ◌≡◌, refl, ap, ◌∙◌, Bool, true, false, ◌&&◌, ◌||◌, List, [], ◌∷◌, ◌++◌, some,
  All, Pairwise, any, any-append, filter, ◌==◌, arith, Bool-cases, inl, inr,
}
use trine_kv.Keys.{Bytes, Sequence, KeyRange}
use trine_kv.RangeTombstone.{bytes_lt, key_is_in_range}
use trine_kv.Lsm.{MemtableEntry, Tombstone-like}
use trine_kv.Lsm.Point.{
  Table, Level, has_key_bounds, key_bounds_may_contain_key, may_contain_key, table_for_key,
}
use trine_kv.Lsm.Candidate.{bytes_eq}
use trine_kv.Lsm.Probes.{
  outside-refused, passed-refused, IsTable, before, stopped, passed_over, stopped_at,
}
use trine_kv.Lsm.Tables.{IsLevel, Precedes, table_entries, level_entries}
use trine_kv.Lsm.Compact.Merge.{bytes_eq-eq}
use trine_kv.Lsm.Conflict.{admits, found_table, point_lookup_tables, of_tables}
use trine_kv.Lsm.Conflict.Memory.{modifies, newer_record}

no_modifies :
    (key : Bytes) (read : Sequence) (t : Table) (es : List MemtableEntry)
    → may_contain_key t key ≡ false
    → All (λ e. may_contain_key t e.key.user_key ≡ true) es
    → any (modifies key read) es ≡ false
no_modifies key read t [] denied h = refl
no_modifies key read t (e ∷ es) denied (h, hs) =
    let rest = no_modifies key read t es denied hs in
    elim (Bool-cases (bytes_eq e.key.user_key key)) [
      | inl y ↦ cc (denied, h, ap (may_contain_key t) (bytes_eq-eq e.key.user_key key y))
      | inr n ↦ ground (arith, n, rest)
    ]

module _ (records_for_key : Table → Bytes → List MemtableEntry)
    (records_in_range : Table → KeyRange → List MemtableEntry)
    (records : Table → List MemtableEntry) where
  -- A table finds the records of a key and of a range among those that it holds.
  pub record Finds (t : Table) : Type 0 where
    pub for_key :
        (key : Bytes)
        → records_for_key t key ≡ filter (λ e. bytes_eq e.key.user_key key) (records t)
    pub in_range :
        (range : KeyRange)
        → records_in_range t range ≡ filter (λ e. key_is_in_range e.key.user_key range) (records t)

  module _ (key : Bytes) (read : Sequence) where
    abbrev for_key_newer : List Table → Bool
    for_key_newer ts = any (newer_record read) (of_tables (λ t. records_for_key t key) ts)

    table-Gives :
        (t : Table)
        → Finds t
        → any (newer_record read) (records_for_key t key) ≡ any (modifies key read) (records t)
    table-Gives t f =
        ap (any (newer_record read)) (f.for_key key)
        ∙ any-filter_and (newer_record read) (λ e. bytes_eq e.key.user_key key) (records t)

    level_zero-Gives :
        (ts : List Table)
        → All (λ t. IsTable t (records t)) ts
        → All Finds ts
        → for_key_newer (filter (admits key) ts)
          ≡ any (modifies key read) (table_entries records ts)
    level_zero-Gives [] v f = refl
    level_zero-Gives (t ∷ ts) (v, vs) (f, fs) =
        let split = any-append (modifies key read) (records t) (table_entries records ts) in
        let rest = level_zero-Gives ts vs fs in
        let given =
          any-append (newer_record read) (records_for_key t key)
            (of_tables (λ t. records_for_key t key) (filter (admits key) ts)) in
        elim (Bool-cases (admits key t)) [
          | inl y ↦ ground (arith, y, split, rest, given, table-Gives t f)
          | inr n ↦
              let denied : may_contain_key t key ≡ false = admits-refused t n in
              ground (arith, n, split, rest, no_modifies key read t (records t) denied v.admitted)
        ]
      where
        admits-refused : (t : Table) → admits key t ≡ false → may_contain_key t key ≡ false
        admits-refused t n = elim (Bool-cases (key_bounds_may_contain_key t key)) [
          | inl y ↦ ground (arith, y, n)
          | inr k ↦ outside-refused key t k
        ]

    behind-Gives :
        (t : Table) (ts : List Table)
        → (has_key_bounds t && bytes_lt t.largest_user_key key) ≡ false
        → All (Precedes t) ts
        → All (λ u. IsTable u (records u)) ts
        → any (modifies key read) (table_entries records ts) ≡ false
    behind-Gives t [] h p v = refl
    behind-Gives t (u ∷ us) h (p, ps) (v, vs) =
        let out =
          before key t u (stopped (has_key_bounds t) (bytes_lt t.largest_user_key key) h p.0) p in
        ground (
          arith,
          any-append (modifies key read) (records u) (table_entries records us),
          no_modifies key read u (records u) (outside-refused key u out) v.admitted,
          behind-Gives t us h ps vs,
        )

    found-Gives :
        (t : Table)
        → IsTable t (records t)
        → Finds t
        → for_key_newer (found_table key (some t)) ≡ any (modifies key read) (records t)
    found-Gives t v f = elim (Bool-cases (may_contain_key t key)) [
      | inl y ↦
          ground
            (arith, y, table-Gives t f, any-append (newer_record read) (records_for_key t key) [])
      | inr n ↦ ground (arith, n, no_modifies key read t (records t) n v.admitted)
    ]

    sorted_level-Gives :
        (n : ℕ) (ts : List Table)
        → All (λ t. IsTable t (records t)) ts
        → All Finds ts
        → Pairwise Precedes ts
        → for_key_newer (found_table key (table_for_key (record { level = n; tables = ts }) key))
          ≡ any (modifies key read) (table_entries records ts)
    unfolding table_for_key
    sorted_level-Gives n [] v f p = refl
    sorted_level-Gives n (t ∷ ts) (v, vs) (f, fs) (p, ps) =
        let split = any-append (modifies key read) (records t) (table_entries records ts) in
        elim (Bool-cases (has_key_bounds t && bytes_lt t.largest_user_key key)) [
          | inl passed ↦
              ap (λ o. for_key_newer (found_table key o)) (passed_over n t ts key passed)
              ∙ sorted_level-Gives n ts vs fs ps
              ∙ ground (
                arith,
                split,
                no_modifies key read t (records t) (passed-refused key t passed) v.admitted,
              )
          | inr stop ↦
              let rest = behind-Gives t ts stop p vs in
              elim (Bool-cases (key_bounds_may_contain_key t key)) [
                | inl y ↦
                    ap (λ o. for_key_newer (found_table key o)) ((stopped_at n t ts key stop).0 y)
                    ∙ found-Gives t v f
                    ∙ ground (arith, split, rest)
                | inr out ↦
                    ap (λ o. for_key_newer (found_table key o)) ((stopped_at n t ts key stop).1 out)
                    ∙ ground (
                      arith,
                      split,
                      rest,
                      no_modifies key read t (records t) (outside-refused key t out) v.admitted,
                    )
              ]
        ]

    tables-append :
        (ts us : List Table) → for_key_newer (ts ++ us) ≡ (for_key_newer ts || for_key_newer us)
    tables-append [] us = refl
    tables-append (t ∷ ts) us = ground (
      arith,
      tables-append ts us,
      any-append (newer_record read) (records_for_key t key)
          (of_tables (λ t. records_for_key t key) (ts ++ us)),
      any-append (newer_record read) (records_for_key t key)
          (of_tables (λ t. records_for_key t key) ts),
    )

    pub levels-Gives :
        (ls : List Level)
        → All (IsLevel records) ls
        → All (λ l. All Finds l.tables) ls
        → for_key_newer (point_lookup_tables ls key)
          ≡ any (modifies key read) (level_entries records ls)
    unfolding point_lookup_tables
    levels-Gives [] v f = refl
    levels-Gives (l ∷ ls) (v, vs) (f, fs) =
        let split =
          any-append (modifies key read) (table_entries records l.tables)
            (level_entries records ls) in
        let rest = levels-Gives ls vs fs in
        elim (Bool-cases (l.level == 0)) [
          | inl y ↦ ground (
            arith,
            y,
            split,
            rest,
            tables-append (filter (admits key) l.tables) (point_lookup_tables ls key),
            level_zero-Gives l.tables v.0 f,
          )
          | inr n ↦ ground (
            arith,
            n,
            split,
            rest,
            tables-append (found_table key (table_for_key l key)) (point_lookup_tables ls key),
            sorted_level-Gives l.level l.tables v.0 f (v.1 n),
          )
        ]
