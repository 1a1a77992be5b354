-- ===== src/Branch/Lineage.antt =====
-- The reachable registries keep the lineage of live branches (src/branch/transitions.rs).
use trine_kv.Prelude.{◌≡◌, [], Option}
use trine_kv.Error.{Result, ok}
use trine_kv.Keys.{Bytes, Sequence}
use trine_kv.Branch.{
  RegistryEntry, Registry, Rows, get_row, delete_row, begin_branch_delete, finish_branch_delete,
  activate_prepared_branch,
}
use trine_kv.Branch.Rows.{IsLineage}
use trine_kv.Branch.Create.{
  Answers, Durable, ensure_authoritative_fork_checkpoint, prepare_branch_create,
  record_written_bucket,
}
use trine_kv.Branch.Changes.{
  prepare_branch_create-IsLineage, activate_prepared_branch-IsLineage,
  record_written_bucket-IsLineage,
}
use trine_kv.Branch.Deletion.{begin_branch_delete-IsLineage, finish_branch_delete-IsLineage}

-- A committed transaction or a checkpoint call of the branch interface, in any order and by any
-- caller.
pub data Step (s : Durable) : Durable → Type 0 where
  create :
      {t : Durable} (answers : Answers) (name : Bytes) (from : Sequence) (parent : Option Bytes)
      (snapshot : Result (Unit {0})) (generation : Bytes) (entry : RegistryEntry)
      → prepare_branch_create answers name from parent snapshot generation s ≡ ok (entry, t)
      → Step s t
  -- A creation that does not commit, since it found the entry earlier or is in conflict, may still
  -- have ensured the checkpoint.
  ensure_checkpoint :
      (answers : Answers) (name : Bytes) (entry : RegistryEntry) (checkpoints : Rows Sequence)
      → ensure_authoritative_fork_checkpoint answers name entry s.checkpoints ≡ ok checkpoints
      → Step s (record s { checkpoints = checkpoints })
  activate :
      (name : Bytes) (prepared : RegistryEntry) (rows : Registry)
      → activate_prepared_branch name prepared s.registry ≡ ok rows
      → Step s (record s { registry = rows })
  write :
      (name generation : Bytes) (fork : Sequence) (parent : Option Bytes) (bucket : Bytes)
      (rows : Registry)
      → record_written_bucket name generation fork parent bucket s.registry ≡ ok rows
      → Step s (record s { registry = rows })
  begin_deletion :
      (name : Bytes) (target : Option RegistryEntry) (rows : Registry)
      → begin_branch_delete name s.registry ≡ ok (target, rows)
      → Step s (record s { registry = rows })
  delete_checkpoint :
      (name : Bytes) → Step s (record s { checkpoints = delete_row name s.checkpoints })
  finish_deletion :
      (name generation : Bytes) (rows : Registry)
      → finish_branch_delete name generation s.registry ≡ ok rows
      → Step s (record s { registry = rows })

abbrev pub empty_durable : Durable
empty_durable = record { registry = []; checkpoints = [] }

pub data Reach : Durable → Type 0 where
  start : Reach empty_durable
  next : {s t : Durable} → Reach s → Step s t → Reach t

-- Whatever transactions commit and checkpoint calls run, and in whatever order, a branch that is not
-- being deleted has a parent in the registry, which is active, unless it was forked from the root.
pub Reach-IsLineage : {s : Durable} → Reach s → IsLineage s.registry
unfolding get_row
Reach-IsLineage start = λ name entry parent found live p. cc
Reach-IsLineage (next {s} {t} r (create answers name from parent snapshot generation entry h)) =
    prepare_branch_create-IsLineage answers name from parent snapshot generation entry s t h
      (Reach-IsLineage r)
Reach-IsLineage (next {s} r (activate name prepared rows h)) =
    activate_prepared_branch-IsLineage name prepared s.registry rows h (Reach-IsLineage r)
Reach-IsLineage (next {s} r (write name generation fork parent bucket rows h)) =
    record_written_bucket-IsLineage name generation fork parent bucket s.registry rows h
      (Reach-IsLineage r)
Reach-IsLineage (next {s} r (begin_deletion name target rows h)) =
    begin_branch_delete-IsLineage name target s.registry rows h (Reach-IsLineage r)
Reach-IsLineage (next r (ensure_checkpoint answers name entry checkpoints h)) = Reach-IsLineage r
Reach-IsLineage (next r (delete_checkpoint name)) = Reach-IsLineage r
Reach-IsLineage (next {s} r (finish_deletion name generation rows h)) =
    finish_branch_delete-IsLineage name generation s.registry rows h (Reach-IsLineage r)
