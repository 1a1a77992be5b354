-- ===== src/Branch.antt =====
-- Durable branches: the lifecycle of a registry entry, and the transactions on the registry's rows
-- (src/branch/registry.rs, src/branch/transitions.rs, src/state_transition.rs). A row holds the
-- decoded entry, and a transaction is one step: the store rejects it on a conflict.
pub mod Create
pub mod Rows
pub mod Pins
pub mod Changes
pub mod Deletion
pub mod Lineage
use Prim.Native.Nat.Ordering.{eq}
use trine_kv.Prelude.{
  ℕ, Bool, true, false, not, ◌&&◌, List, [], ◌∷◌, Option, none, some, length, leb, ◌==◌,
  if◌then◌else◌,
}
use trine_kv.Prelude.Order.{compare_bytes}
use trine_kv.Error.{Result, ok, err, ◌>>=◌, ◌>>◌, guard, corruption, invalid_options, runtime_busy}
use trine_kv.Keys.{Bytes, Sequence}

pub data DurableTransition (Stored : Type 0) : Type 0 where
  apply : Stored → DurableTransition Stored
  already_applied : Stored → DurableTransition Stored

pub data BranchLifecycle : Type 0 where
  creating active deleting : BranchLifecycle

pub record RegistryEntry : Type 0 where
  pub fork : Sequence
  pub parent : Option Bytes
  pub written_buckets : List Bytes
  pub lifecycle : BranchLifecycle
  pub generation : Bytes

unfoldable pub same_name : Bytes → Bytes → Bool
same_name a b = elim (compare_bytes a b) [ eq ↦ true | _ ↦ false ]

abbrev pub same_parent : Option Bytes → Option Bytes → Bool
same_parent none none = true
same_parent none (some b) = false
same_parent (some a) none = false
same_parent (some a) (some b) = same_name a b

abbrev pub is_deleting : BranchLifecycle → Bool
is_deleting deleting = true
is_deleting active = false
is_deleting creating = false

abbrev pub max_branch_name_bytes : ℕ
max_branch_name_bytes = 1024

unfoldable pub validate_branch_name : Bytes → Result (Unit {0})
validate_branch_name name = do
  guard (not (length name == 0)) invalid_options
  guard (leb (length name) max_branch_name_bytes) invalid_options

unfoldable pub require_active : BranchLifecycle → Result (Unit {0})
require_active active = ok tt
require_active creating = err runtime_busy
require_active deleting = err invalid_options

unfoldable pub begin_delete : BranchLifecycle → DurableTransition BranchLifecycle
begin_delete creating = apply deleting
begin_delete active = apply deleting
begin_delete deleting = already_applied deleting

unfoldable pub require_identity :
    RegistryEntry → Bytes → Sequence → Option Bytes → Result (Unit {0})
require_identity entry generation fork parent = do
  require_active entry.lifecycle
  guard
      (same_name entry.generation generation
        && (entry.fork == fork && same_parent entry.parent parent))
      invalid_options

unfoldable pub reject_active_child : Bytes → RegistryEntry → Result (Unit {0})
reject_active_child parent entry =
    if not (is_deleting entry.lifecycle) && same_parent entry.parent (some parent)
    then err invalid_options
    else ok tt

unfoldable pub resolve_existing_create :
    Option RegistryEntry → Sequence → Option Bytes → Result (Option RegistryEntry)
resolve_existing_create none from parent = ok none
resolve_existing_create (some existing) from parent = do
  guard (existing.fork == from && same_parent existing.parent parent) invalid_options
  guard (not (is_deleting existing.lifecycle)) invalid_options
  ok (some existing)

unfoldable pub plan_branch_activation :
    RegistryEntry → RegistryEntry → Result (DurableTransition RegistryEntry)
plan_branch_activation current prepared = do
  guard
      (same_name current.generation prepared.generation
        && (current.fork == prepared.fork && same_parent current.parent prepared.parent))
      corruption
  elim current.lifecycle [
    | active ↦ ok (already_applied current)
    | creating ↦ ok (apply (record current { lifecycle = active }))
    | deleting ↦ err invalid_options
  ]

unfoldable pub require_delete_completion : RegistryEntry → Bytes → Result (Unit {0})
require_delete_completion entry generation =
    guard (is_deleting entry.lifecycle && same_name entry.generation generation) corruption

-- Rows under names: those of the registry bucket, and the internal checkpoints.
abbrev pub Rows : Type 0 → Type 0
Rows Stored = List (Bytes × Stored)

module _ {Stored : Type 0} where
  unfoldable pub get_row : Bytes → Rows Stored → Option Stored
  get_row name [] = none
  get_row name ((key, stored) ∷ rows) =
      if same_name key name then some stored else get_row name rows

  unfoldable pub delete_row : Bytes → Rows Stored → Rows Stored
  delete_row name [] = []
  delete_row name ((key, stored) ∷ rows) =
      let rest = delete_row name rows in if same_name key name then rest else (key, stored) ∷ rest

  abbrev pub put_row : Bytes → Stored → Rows Stored → Rows Stored
  put_row name stored rows = (name, stored) ∷ delete_row name rows

abbrev pub Registry : Type 0
Registry = Rows RegistryEntry

-- `BranchDeleteScan::observe` over the rows that are left, and `finish`.
unfoldable pub observe_rows :
    Bytes → Option RegistryEntry → Registry → Result (Option RegistryEntry)
observe_rows name target [] = ok target
observe_rows name target ((key, entry) ∷ rows) =
    reject_active_child name entry
    >> observe_rows name (if same_name key name then some entry else target) rows

-- What `begin_branch_delete` does with the target that the scan has found.
abbrev pub begin_target : Bytes → Registry → Option RegistryEntry → Option RegistryEntry × Registry
begin_target name rows none = (none, rows)
begin_target name rows (some target) = elim (begin_delete target.lifecycle) [
  | already_applied lifecycle ↦ (some target, rows)
  | apply next ↦ (
    some (record target { lifecycle = next }),
    put_row name (record target { lifecycle = next }) rows,
  )
]

unfoldable pub begin_branch_delete : Bytes → Registry → Result (Option RegistryEntry × Registry)
begin_branch_delete name rows =
    observe_rows name none rows >>= λ target. ok (begin_target name rows target)

unfoldable pub finish_branch_delete : Bytes → Bytes → Registry → Result Registry
finish_branch_delete name generation rows = elim (get_row name rows) [
  | none ↦ ok rows
  | some entry ↦ require_delete_completion entry generation >> ok (delete_row name rows)
]

abbrev pub activated : Bytes → Registry → DurableTransition RegistryEntry → Registry
activated name rows (already_applied current) = rows
activated name rows (apply next) = put_row name next rows

unfoldable pub activate_prepared_branch : Bytes → RegistryEntry → Registry → Result Registry
activate_prepared_branch name prepared rows = elim (get_row name rows) [
  | none ↦ err corruption
  | some current ↦
      plan_branch_activation current prepared >>= λ transition. ok (activated name rows transition)
]

-- `BranchCreateRequest::new_entry` with the generation that the operating system's entropy gives.
abbrev pub new_entry : Sequence → Option Bytes → Bytes → RegistryEntry
new_entry from parent generation = record {
  fork = from;
  parent = parent;
  written_buckets = [];
  lifecycle = creating;
  generation = generation;
}

unfoldable pub require_parent : Option Bytes → Registry → Result (Unit {0})
require_parent none rows = ok tt
require_parent (some parent) rows = elim (get_row parent rows) [
  | none ↦ err invalid_options
  | some entry ↦ require_active entry.lifecycle
]
