-- ===== src/Lsm/Conflict/Stable.antt =====
-- A key that has not been modified after a read still reads the same (src/lsm/conflict.rs,
-- src/lsm/read.rs).
use trine_kv.Prelude.{
  ℕ, ◌≤◌, ◌≡◌, refl, sym, ap, ◌∙◌, false, List, [], ◌∷◌, Option, none, some, any, filter, arith,
  Bool-cases, inl, inr,
}
use trine_kv.Keys.{Bytes, Sequence, KeyRange}
use trine_kv.Lsm.{MemtableEntry, Tombstone, covers_visible_point}
use trine_kv.Lsm.Point.{Table, LsmPointReadSnapshot, read_visible_point_value_in_snapshot}
use trine_kv.Lsm.Candidate.{is_seen, newest, keep_all}
use trine_kv.Lsm.Cover.{covers}
use trine_kv.Lsm.Reads.{value_of, read_visible_lem}
use trine_kv.Lsm.Conflict.{point_key_modified_after_in_snapshot}
use trine_kv.Lsm.Conflict.Memory.{modifies}
use trine_kv.Lsm.Conflict.Tombstones.{deletes, all_tombstones}
use trine_kv.Lsm.Conflict.Exact.{IsSource, all_records, point_modified_lem}

seen_same :
    (key : Bytes) (read later : Sequence) (es : List MemtableEntry)
    → read ≤ later
    → any (modifies key read) es ≡ false
    → filter (is_seen key later) es ≡ filter (is_seen key read) es
seen_same key read later [] le h = refl
seen_same key read later (e ∷ es) le h =
    let rest = seen_same key read later es le (ground (arith, h)) in
    let here : is_seen key later e ≡ is_seen key read e = ground (arith, le, h) in
    elim (Bool-cases (is_seen key read e)) [
      | inl y ↦ ground (arith, here, y, rest)
      | inr n ↦ ground (arith, here, n, rest)
    ]

covers_same :
    (key : Bytes) (read later point_sequence : Sequence) (batch_index : ℕ) (ts : List Tombstone)
    → read ≤ later
    → any (deletes key read) ts ≡ false
    → any (covers key point_sequence batch_index later) ts
      ≡ any (covers key point_sequence batch_index read) ts
unfolding covers_visible_point
covers_same key read later point_sequence batch_index [] le h = refl
covers_same key read later point_sequence batch_index (t ∷ ts) le h =
    let rest = covers_same key read later point_sequence batch_index ts le (ground (arith, h)) in
    let here : covers key point_sequence batch_index later t
        ≡ covers key point_sequence batch_index read t =
      ground (arith, le, h) in
    ground (arith, here, rest)

value_same :
    (key : Bytes) (read later : Sequence) (ts : List Tombstone) (c : Option MemtableEntry)
    → read ≤ later
    → any (deletes key read) ts ≡ false
    → value_of key later ts c ≡ value_of key read ts c
value_same key read later ts none le h = refl
value_same key read later ts (some e) le h =
    ground (arith, covers_same key read later e.key.sequence e.key.batch_index ts le h)

module _ (records_for_key : Table → Bytes → List MemtableEntry)
    (records_in_range : Table → KeyRange → List MemtableEntry)
    (records : Table → List MemtableEntry) (tombstones : Table → List Tombstone) where
  -- A key that does not count as modified after a read has the same value at every later sequence as
  -- at that of the read. The sources are as they were written, and the tables find their records.
  pub unmodified_reads_same :
      (s : LsmPointReadSnapshot) (key : Bytes) (read later : Sequence)
      → IsSource records_for_key records_in_range records tombstones s
      → read ≤ later
      → point_key_modified_after_in_snapshot records_for_key records_in_range s key read ≡ false
      → read_visible_point_value_in_snapshot s key later
        ≡ read_visible_point_value_in_snapshot s key read
  unmodified_reads_same s key read later v le h =
      let exact =
        point_modified_lem records_for_key records_in_range records tombstones s key read v in
      let pool = all_records records_for_key records_in_range records tombstones s in
      let ts = all_tombstones tombstones s in
      let fresh : any (modifies key read) pool ≡ false = ground (arith, exact, h) in
      let uncovered : any (deletes key read) ts ≡ false = ground (arith, exact, h) in
      read_visible_lem records tombstones s key later v.snapshot
      ∙ ap (λ es. value_of key later ts (keep_all none es)) (seen_same key read later pool le fresh)
      ∙ value_same key read later ts (newest key read pool) le uncovered
      ∙ sym (read_visible_lem records tombstones s key read v.snapshot)
