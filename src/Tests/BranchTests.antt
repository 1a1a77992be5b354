-- ===== src/Tests/BranchTests.antt =====
-- A branch and its child, created, activated and written (src/branch/transitions.rs).
use trine_kv.Prelude.{ℕ, ◌≡◌, refl, List, [], ◌∷◌, Option, none, some, arith}
use trine_kv.Error.{ok, err, invalid_options}
use trine_kv.Keys.{Bytes}
use trine_kv.Branch.{
  active, RegistryEntry, same_name, get_row, delete_row, validate_branch_name, require_active,
  require_parent, resolve_existing_create, plan_branch_activation, activate_prepared_branch,
  begin_branch_delete, reject_active_child, observe_rows, new_entry,
}
use trine_kv.Branch.Rows.{HasActive}
use trine_kv.Branch.Create.{
  Answers, Durable, prepare_branch_create, ensure_fork_checkpoint,
  ensure_authoritative_fork_checkpoint,
}
use trine_kv.Branch.Pins.{IsPrepared, prepare_branch_create-IsPrepared}
use trine_kv.Branch.Lineage.{create, activate, empty_durable, Reach, start, next, Reach-IsLineage}

abbrev all_done : Answers
all_done = record { first = ok tt; deleted = ok tt; second = ok tt }

abbrev main_name : Bytes
main_name = 109 ∷ []

abbrev child_name : Bytes
child_name = 99 ∷ []

abbrev main_entry : RegistryEntry
main_entry = new_entry 5 none (1 ∷ [])

abbrev main_active : RegistryEntry
main_active = record main_entry { lifecycle = active }

abbrev child_entry : RegistryEntry
child_entry = new_entry 7 (some main_name) (2 ∷ [])

abbrev main_created : Durable
main_created = record { registry = (main_name, main_entry) ∷ []; checkpoints = (main_name, 5) ∷ [] }

abbrev main_activated : Durable
main_activated = record main_created { registry = (main_name, main_active) ∷ [] }

abbrev child_created : Durable
child_created = record {
  registry = (child_name, child_entry) ∷ (main_name, main_active) ∷ [];
  checkpoints = (child_name, 7) ∷ (main_name, 5) ∷ [];
}

main_create :
    prepare_branch_create all_done main_name 5 none (ok tt) (1 ∷ []) empty_durable
    ≡ ok (main_entry, main_created)
unfolding prepare_branch_create validate_branch_name require_parent resolve_existing_create get_row
    ensure_authoritative_fork_checkpoint ensure_fork_checkpoint delete_row
main_create = refl

main_activate :
    activate_prepared_branch main_name main_entry main_created.registry ≡ ok main_activated.registry
unfolding activate_prepared_branch get_row same_name trine_kv.Prelude.Order.compare_bytes
    plan_branch_activation delete_row
main_activate = refl

child_create :
    prepare_branch_create all_done child_name 7 (some main_name) (ok tt) (2 ∷ []) main_activated
    ≡ ok (child_entry, child_created)
unfolding prepare_branch_create validate_branch_name require_parent get_row same_name
    trine_kv.Prelude.Order.compare_bytes require_active resolve_existing_create
    ensure_authoritative_fork_checkpoint ensure_fork_checkpoint delete_row
child_create = refl

child_created-Reach : Reach child_created
child_created-Reach =
    next
      (next (next start (create all_done main_name 5 none (ok tt) (1 ∷ []) main_entry main_create))
        (activate main_name main_entry main_activated.registry main_activate))
      (create all_done child_name 7 (some main_name) (ok tt) (2 ∷ []) child_entry child_create)

parent_keeps_child : begin_branch_delete main_name child_created.registry ≡ err invalid_options
unfolding begin_branch_delete observe_rows reject_active_child same_name
    trine_kv.Prelude.Order.compare_bytes
parent_keeps_child = refl

child_found : get_row child_name child_created.registry ≡ some child_entry
unfolding get_row same_name trine_kv.Prelude.Order.compare_bytes
child_found = refl

Reach-IsLineage_example : HasActive main_name child_created.registry
Reach-IsLineage_example =
    Reach-IsLineage child_created-Reach child_name child_entry main_name child_found refl refl

prepare_branch_create-IsPrepared_example :
    IsPrepared child_name 7 (some main_name) child_entry child_created
prepare_branch_create-IsPrepared_example =
    prepare_branch_create-IsPrepared all_done child_name 7 (some main_name) (ok tt) (2 ∷ [])
      child_entry main_activated child_created child_create
