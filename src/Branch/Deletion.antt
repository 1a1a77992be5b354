-- ===== src/Branch/Deletion.antt =====
-- Both ends of a deletion keep the lineage (src/branch/transitions.rs).
use trine_kv.Prelude.{
  ◌≡◌, refl, ap, subst, inl, inr, true, false, Bool-cases, Option-cases, Option, none, some, arith,
}
use trine_kv.Error.{ok, ◌>>◌, bind-ok}
use trine_kv.Keys.{Bytes}
use trine_kv.Branch.{
  deleting, RegistryEntry, Registry, same_parent, is_deleting, get_row, delete_row, begin_delete,
  observe_rows, begin_target, begin_branch_delete, require_delete_completion, finish_branch_delete,
}
use trine_kv.Branch.Rows.{
  same_name_eq, IsLineage, lifecycle_cases, observe_rows-no_child, delete_row-IsLineage,
  put_deleting-IsLineage,
}

begin_target-IsLineage :
    (name : Bytes) (rows : Registry) (target : Option RegistryEntry)
    → IsLineage rows
    → IsLineage (delete_row name rows)
    → IsLineage (begin_target name rows target).1
unfolding begin_delete
begin_target-IsLineage name rows none lineage without = lineage
begin_target-IsLineage name rows (some target) lineage without =
    elim (lifecycle_cases target.lifecycle) [
      | inl e ↦
          rw e
            (put_deleting-IsLineage name (record target { lifecycle = deleting }) rows refl without)
      | inr (inl e) ↦
          rw e
            (put_deleting-IsLineage name (record target { lifecycle = deleting }) rows refl without)
      | inr (inr e) ↦ rw e lineage
    ]

pub begin_branch_delete-IsLineage :
    (name : Bytes) (target : Option RegistryEntry) (rows after : Registry)
    → begin_branch_delete name rows ≡ ok (target, after)
    → IsLineage rows
    → IsLineage after
unfolding begin_branch_delete
begin_branch_delete-IsLineage name target rows after h lineage =
    let (scanned, observed, g) = bind-ok (observe_rows name none rows) _ h in
    let same : (begin_target name rows scanned).1 ≡ after = ground (arith, g) in
    subst IsLineage same (
      begin_target-IsLineage name rows scanned lineage (
        delete_row-IsLineage name rows lineage
          (observe_rows-no_child name none scanned rows observed)))

same_parent_eq :
    (parent : Option Bytes) (name : Bytes)
    → same_parent parent (some name) ≡ true
    → parent ≡ some name
same_parent_eq none name h = cc
same_parent_eq (some p) name h = ap some (same_name_eq p name h)

-- A row under deletion has no live children.
deleting_childless :
    (name : Bytes) (rows : Registry) (row : RegistryEntry)
    → IsLineage rows
    → get_row name rows ≡ some row
    → is_deleting row.lifecycle ≡ true
    → (child : Bytes) (entry : RegistryEntry) → get_row child rows ≡ some entry
    → is_deleting entry.lifecycle ≡ false
    → same_parent entry.parent (some name) ≡ false
deleting_childless name rows row lineage there dead child entry found live =
    elim (Bool-cases (same_parent entry.parent (some name))) [
      | inr f ↦ f
      | inl t ↦
          let (old, again, is_active) =
            lineage child entry name found live (same_parent_eq entry.parent name t) in
          let e : row ≡ old = ground (arith, there, again) in
          ground (arith, ap (λ x. is_deleting x.lifecycle) e, dead, ap is_deleting is_active)
    ]

pub finish_branch_delete-IsLineage :
    (name generation : Bytes) (rows after : Registry)
    → finish_branch_delete name generation rows ≡ ok after
    → IsLineage rows
    → IsLineage after
unfolding finish_branch_delete require_delete_completion
finish_branch_delete-IsLineage name generation rows after h lineage =
    elim (Option-cases (get_row name rows)) [
      | inl missing ↦
          let same : rows ≡ after = ground (arith, missing, h) in subst IsLineage same lineage
      | inr (row, found) ↦
          let checked : require_delete_completion row generation >> ok (delete_row name rows)
              ≡ ok after =
            ground (arith, found, h) in
          let (u, complete, g) = bind-ok (require_delete_completion row generation) _ checked in
          let dead : is_deleting row.lifecycle ≡ true = ground (arith, complete) in
          let same : delete_row name rows ≡ after = ground (arith, g) in
          subst IsLineage same (
            delete_row-IsLineage name rows lineage
              (deleting_childless name rows row lineage found dead))
    ]
