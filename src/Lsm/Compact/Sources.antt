-- ===== src/Lsm/Compact/Sources.antt =====
-- src/lsm/compact.rs: the sources of a compaction and their merge.
use trine_kv.Prelude.{
  ℕ, zero, suc, ◌+◌, List, [], ◌∷◌, ◌++◌, Option, none, some, length, map, if◌then◌else◌,
}
use trine_kv.Keys.{Bytes}
use trine_kv.RangeTombstone.{bytes_lt}
use trine_kv.Lsm.{MemtableEntry}
use trine_kv.Lsm.Candidate.{bytes_eq}
use trine_kv.Lsm.Compact.{RecordGroup}

-- A source is the groups that its cursor has left, the current one first.
abbrev pub Source : Type 0
Source = List RecordGroup

abbrev pub smaller_key : Option Bytes → Source → Option Bytes
smaller_key selected [] = selected
smaller_key none (g ∷ gs) = some g.user_key
smaller_key (some key) (g ∷ gs) = if bytes_lt g.user_key key then some g.user_key else some key

abbrev pub select_key : Option Bytes → List Source → Option Bytes
select_key selected [] = selected
select_key selected (s ∷ ss) = select_key (smaller_key selected s) ss

unfoldable pub next_compaction_user_key : List Source → Option Bytes
next_compaction_user_key sources = select_key none sources

-- What the sources hold under the key at their heads, and the sources without it.
abbrev pub head_records : Bytes → Source → List MemtableEntry
head_records key [] = []
head_records key (g ∷ gs) = if bytes_eq g.user_key key then g.records else []

abbrev pub advance : Bytes → Source → Source
advance key [] = []
advance key (g ∷ gs) = if bytes_eq g.user_key key then gs else g ∷ gs

abbrev pub take_records : Bytes → List Source → List MemtableEntry
take_records key [] = []
take_records key (s ∷ ss) = head_records key s ++ take_records key ss

-- The `while let` loop over the sources; each round takes a group, so as many rounds as there are
-- groups suffice.
unfoldable pub merge_groups : ℕ → List Source → List RecordGroup
unfolding next_compaction_user_key
merge_groups zero sources = []
merge_groups (suc rounds) sources = elim (next_compaction_user_key sources) [
  | none ↦ []
  | some key ↦
      record { user_key = key; records = take_records key sources }
      ∷ merge_groups rounds (map (advance key) sources)
]

abbrev pub group_count : List Source → ℕ
group_count [] = 0
group_count (s ∷ ss) = length s + group_count ss
