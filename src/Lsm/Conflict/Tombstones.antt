-- ===== src/Lsm/Conflict/Tombstones.antt =====
-- The tombstones that delete a key or from a range after a read (src/lsm/conflict.rs).
use trine_kv.Prelude.{
  any-filter_and, ◌≡◌, refl, ap, ◌∙◌, Bool, ◌&&◌, List, [], ◌∷◌, ◌++◌, All, All-imp, any,
  any-append, ltb, arith,
}
use trine_kv.Keys.{Bytes, Sequence, KeyRange}
use trine_kv.RangeTombstone.{
  new_index, covering_key, overlapping_range, key_is_in_range, ranges_overlap,
}
use trine_kv.RangeTombstone.Index.{covering-eq-filter, overlapping-eq-filter, new_index-IsSorted}
use trine_kv.Lsm.{Tombstone, Tombstone-like}
use trine_kv.Lsm.Point.{Table, Level, LsmPointReadSnapshot, memory_tombstones}
use trine_kv.Lsm.Cover.{HoldsTombstones, level_tombstones, table_tombstones, any-new_index}
use trine_kv.Lsm.Conflict.{
  table_handles, conflict_memtable_range_tombstones, is_newer, range_tombstone_modified_after_key,
  range_tombstone_modified_after_range,
}

-- A tombstone that deletes a key after a read, and one that deletes from a range.
abbrev pub deletes : Bytes → Sequence → Tombstone → Bool
deletes key read t = key_is_in_range key t.range && ltb read t.sequence

abbrev pub deletes_from : KeyRange → Sequence → Tombstone → Bool
deletes_from range read t = ranges_overlap range t.range && ltb read t.sequence

index-deletes :
    (key : Bytes) (read : Sequence) (ts : List Tombstone)
    → any (is_newer read) (covering_key (new_index ts) key) ≡ any (deletes key read) ts
unfolding Tombstone-like
index-deletes key read ts =
    ap (any (is_newer read)) (covering-eq-filter (new_index ts) key (new_index-IsSorted ts))
    ∙ any-filter_and (is_newer read) (λ t. key_is_in_range key t.range) (new_index ts).tombstones
    ∙ any-new_index (deletes key read) ts

index-deletes_from :
    (range : KeyRange) (read : Sequence) (ts : List Tombstone)
    → any (is_newer read) (overlapping_range (new_index ts) range)
      ≡ any (deletes_from range read) ts
unfolding Tombstone-like
index-deletes_from range read ts =
    ap (any (is_newer read)) (overlapping-eq-filter (new_index ts) range (new_index-IsSorted ts))
    ∙ any-filter_and (is_newer read) (λ t. ranges_overlap range t.range) (new_index ts).tombstones
    ∙ any-new_index (deletes_from range read) ts

module _ (tombstones : Table → List Tombstone) (looks : Table → Bool) (p : Tombstone → Bool) where
  table_list-deletes :
      (ts : List Table)
      → All (λ t. looks t ≡ any p (tombstones t)) ts
      → any looks ts ≡ any p (table_tombstones tombstones ts)
  table_list-deletes [] h = refl
  table_list-deletes (t ∷ ts) (h, hs) = ground (
    arith,
    h,
    table_list-deletes ts hs,
    any-append p (tombstones t) (table_tombstones tombstones ts),
  )

  levels-deletes :
      (ls : List Level)
      → All (λ l. All (λ t. looks t ≡ any p (tombstones t)) l.tables) ls
      → any looks (table_handles ls) ≡ any p (level_tombstones tombstones ls)
  levels-deletes [] h = refl
  levels-deletes (l ∷ ls) (h, hs) = ground (
    arith,
    table_list-deletes l.tables h,
    levels-deletes ls hs,
    any-append looks l.tables (table_handles ls),
    any-append p (table_tombstones tombstones l.tables) (level_tombstones tombstones ls),
  )

All_levels :
    (P Q : Table → Type 0) (ls : List Level)
    → ((t : Table) → P t → Q t)
    → All (λ l. All P l.tables) ls
    → All (λ l. All Q l.tables) ls
All_levels P Q [] f h = tt
All_levels P Q (l ∷ ls) f (h, hs) = (All-imp {P = P} {Q = Q} f l.tables h, All_levels P Q ls f hs)

abbrev pub all_tombstones : (Table → List Tombstone) → LsmPointReadSnapshot → List Tombstone
all_tombstones tombstones s = memory_tombstones s ++ level_tombstones tombstones s.levels

module _ (tombstones : Table → List Tombstone) (s : LsmPointReadSnapshot)
    (held : All (λ l. All (λ t. HoldsTombstones t (tombstones t)) l.tables) s.levels) where
  pub key-deletes :
      (key : Bytes) (read : Sequence)
      → range_tombstone_modified_after_key s key read
        ≡ any (deletes key read) (all_tombstones tombstones s)
  unfolding range_tombstone_modified_after_key conflict_memtable_range_tombstones
  key-deletes key read =
      let looks : Table → Bool = λ t. any (is_newer read) (covering_key t.range_tombstones key) in
      ground (
        arith,
        index-deletes key read (memory_tombstones s),
        levels-deletes tombstones looks (deletes key read) s.levels (
            All_levels (λ t. HoldsTombstones t (tombstones t))
              (λ t. looks t ≡ any (deletes key read) (tombstones t)) s.levels
              (λ t v.
                ap (λ index. any (is_newer read) (covering_key index key)) v.indexed
                ∙ index-deletes key read (tombstones t))
              held),
        any-append (deletes key read) (memory_tombstones s) (level_tombstones tombstones s.levels),
      )

  pub range-deletes_from :
      (range : KeyRange) (read : Sequence)
      → range_tombstone_modified_after_range s range read
        ≡ any (deletes_from range read) (all_tombstones tombstones s)
  unfolding range_tombstone_modified_after_range conflict_memtable_range_tombstones
  range-deletes_from range read =
      let looks : Table → Bool =
        λ t. any (is_newer read) (overlapping_range t.range_tombstones range) in
      ground (
        arith,
        index-deletes_from range read (memory_tombstones s),
        levels-deletes tombstones looks (deletes_from range read) s.levels (
            All_levels (λ t. HoldsTombstones t (tombstones t))
              (λ t. looks t ≡ any (deletes_from range read) (tombstones t)) s.levels
              (λ t v.
                ap (λ index. any (is_newer read) (overlapping_range index range)) v.indexed
                ∙ index-deletes_from range read (tombstones t))
              held),
        any-append (deletes_from range read) (memory_tombstones s)
            (level_tombstones tombstones s.levels),
      )
