-- ===== src/Branch/Create.antt =====
-- The creation of a durable branch with the checkpoint that pins its fork, and the row that a write
-- on a branch updates (src/branch/transitions.rs, src/branch/handle.rs).
use Prim.Native.Nat.Ordering.{lt, eq, gt}
use trine_kv.Prelude.{List, [], ◌∷◌, Option, none, some, ◌==◌, if◌then◌else◌}
use trine_kv.Prelude.Order.{compare_bytes}
use trine_kv.Error.{Result, ok, err, ◌>>=◌, ◌>>◌, invalid_options}
use trine_kv.Keys.{Bytes, Sequence}
use trine_kv.Branch.{
  RegistryEntry, Rows, Registry, get_row, delete_row, put_row, validate_branch_name, require_parent,
  require_identity, resolve_existing_create, new_entry,
}

-- What the database keeps of its branches: the registry, and the fork checkpoints by branch name.
pub record Durable : Type 0 where
  pub registry : Registry
  pub checkpoints : Rows Sequence

-- What the checkpoint calls of one creation answer, but for the name of a checkpoint that is there or
-- missing: the first `create_internal_checkpoint_at`, the deletion of a stale checkpoint, and the
-- second `create_internal_checkpoint_at`.
pub record Answers : Type 0 where
  pub first : Result (Unit {0})
  pub deleted : Result (Unit {0})
  pub second : Result (Unit {0})

-- A checkpoint is created where there is none of the name, and one of the same version serves.
unfoldable pub ensure_fork_checkpoint :
    Result (Unit {0}) → Bytes → Sequence → Rows Sequence → Result (Rows Sequence)
ensure_fork_checkpoint created branch from checkpoints = do
  created
  elim (get_row branch checkpoints) [
    | none ↦ ok (put_row branch from checkpoints)
    | some pinned ↦ if pinned == from then ok checkpoints else err invalid_options
  ]

unfoldable pub ensure_authoritative_fork_checkpoint :
    Answers → Bytes → RegistryEntry → Rows Sequence → Result (Rows Sequence)
ensure_authoritative_fork_checkpoint answers branch entry checkpoints =
    elim (ensure_fork_checkpoint answers.first branch entry.fork checkpoints) [
      | ok pinned ↦ ok pinned
      | err invalid_options ↦
          answers.deleted
          >> ensure_fork_checkpoint answers.second branch entry.fork (delete_row branch checkpoints)
      | err error ↦ err error
    ]

abbrev pub validate_parent : Option Bytes → Result (Unit {0})
validate_parent none = ok tt
validate_parent (some parent) = validate_branch_name parent

-- What follows once the registry has been asked for an entry of the name.
abbrev pub create_entry :
    Answers
    → Bytes
    → RegistryEntry
    → Durable
    → Option RegistryEntry
    → Result (RegistryEntry × Durable)
create_entry answers name entry s (some existing) = do
  checkpoints ← ensure_authoritative_fork_checkpoint answers name existing s.checkpoints
  ok (existing, record s { checkpoints = checkpoints })
create_entry answers name entry s none = do
  checkpoints ← ensure_authoritative_fork_checkpoint answers name entry s.checkpoints
  ok (entry, record { registry = put_row name entry s.registry; checkpoints = checkpoints })

-- `snapshot` is the answer of `snapshot_at`, `generation` the drawn identity of a new entry.
unfoldable pub prepare_branch_create :
    Answers
    → Bytes
    → Sequence
    → Option Bytes
    → Result (Unit {0})
    → Bytes
    → Durable
    → Result (RegistryEntry × Durable)
prepare_branch_create answers name from parent snapshot generation s = do
  validate_branch_name name
  validate_parent parent
  snapshot
  require_parent parent s.registry
  existing ← resolve_existing_create (get_row name s.registry) from parent
  create_entry answers name (new_entry from parent generation) s existing

-- `BTreeSet::insert` of a bucket's name.
unfoldable pub insert_bucket : Bytes → List Bytes → List Bytes
insert_bucket bucket [] = bucket ∷ []
insert_bucket bucket (b ∷ buckets) =
    let rest = insert_bucket bucket buckets in
    elim (compare_bytes bucket b) [ lt ↦ bucket ∷ b ∷ buckets | eq ↦ b ∷ buckets | gt ↦ b ∷ rest ]

abbrev pub with_bucket : Bytes → RegistryEntry → RegistryEntry
with_bucket bucket entry = record entry {
  written_buckets = insert_bucket bucket entry.written_buckets;
}

-- The registry's part of a write through a handle, which knows its branch's identity.
unfoldable pub record_written_bucket :
    Bytes → Bytes → Sequence → Option Bytes → Bytes → Registry → Result Registry
record_written_bucket name generation fork parent bucket rows = elim (get_row name rows) [
  | none ↦ err invalid_options
  | some current ↦
      require_identity current generation fork parent
      >> ok (put_row name (with_bucket bucket current) rows)
]
