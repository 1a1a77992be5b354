-- ===== src/Branch/Changes.antt =====
-- Creation, activation and writes keep the lineage (src/branch/transitions.rs, src/branch/handle.rs).
use trine_kv.Prelude.{
  ◌≡◌, refl, ap, ◌∙◌, subst, ◌⊎◌, inl, inr, Option-cases, Option, none, some, arith,
}
use trine_kv.Error.{Result, ok, ◌>>=◌, ◌>>◌, bind-ok}
use trine_kv.Keys.{Bytes, Sequence}
use trine_kv.Branch.{
  creating, active, RegistryEntry, Registry, is_deleting, get_row, put_row, DurableTransition,
  apply, already_applied, require_active, require_identity, resolve_existing_create,
  plan_branch_activation, validate_branch_name, activated, activate_prepared_branch, require_parent,
  new_entry,
}
use trine_kv.Branch.Rows.{
  HasActive, IsLineage, lifecycle_cases, put_row-IsLineage, require_active-active,
  require_parent-HasActive,
}
use trine_kv.Branch.Create.{
  Answers, Durable, create_entry, validate_parent, prepare_branch_create, with_bucket,
  record_written_bucket, ensure_authoritative_fork_checkpoint,
}

create_entry-IsLineage :
    (answers : Answers) (name : Bytes) (entry result : RegistryEntry) (s t : Durable)
    (existing : Option RegistryEntry)
    → create_entry answers name entry s existing ≡ ok (result, t)
    → IsLineage s.registry
    → (existing ≡ none → get_row name s.registry ≡ none)
    → ((parent : Bytes) → entry.parent ≡ some parent → HasActive parent s.registry)
    → IsLineage t.registry
create_entry-IsLineage answers name entry result s t (some e) h lineage absent own =
    let (checkpoints, pinned, g) =
      bind-ok (ensure_authoritative_fork_checkpoint answers name e s.checkpoints) _ h in
    let same : s.registry ≡ t.registry = ground (arith, g) in subst IsLineage same lineage
create_entry-IsLineage answers name entry result s t none h lineage absent own =
    let (checkpoints, pinned, g) =
      bind-ok (ensure_authoritative_fork_checkpoint answers name entry s.checkpoints) _ h in
    let same : put_row name entry s.registry ≡ t.registry = ground (arith, g) in
    subst IsLineage same (
      put_row-IsLineage name entry s.registry lineage
        (λ old found is_active. ground (arith, absent refl, found)) (λ live. own))

resolve_existing_create-none :
    (existing : Option RegistryEntry) (from : Sequence) (parent : Option Bytes)
    → resolve_existing_create existing from parent ≡ ok none
    → existing ≡ none
unfolding resolve_existing_create
resolve_existing_create-none none from parent h = refl
resolve_existing_create-none (some e) from parent h = ground (arith, h)

pub prepare_branch_create-IsLineage :
    (answers : Answers) (name : Bytes) (from : Sequence) (parent : Option Bytes)
    (snapshot : Result (Unit {0})) (generation : Bytes) (entry : RegistryEntry) (s t : Durable)
    → prepare_branch_create answers name from parent snapshot generation s ≡ ok (entry, t)
    → IsLineage s.registry
    → IsLineage t.registry
unfolding prepare_branch_create
prepare_branch_create-IsLineage answers name from parent snapshot generation entry s t h lineage =
    let (u1, named, h1) = bind-ok (validate_branch_name name) _ h in
    let (u2, parented, h2) = bind-ok (validate_parent parent) _ h1 in
    let (u3, pinned, h3) = bind-ok snapshot _ h2 in
    let (u4, present, h4) = bind-ok (require_parent parent s.registry) _ h3 in
    let (existing, resolved, h5) =
      bind-ok (resolve_existing_create (get_row name s.registry) from parent) _ h4 in
    create_entry-IsLineage answers name (new_entry from parent generation) entry s t existing h5
      lineage
      (λ e. resolve_existing_create-none (get_row name s.registry) from parent (resolved ∙ ap ok e))
      (λ p e.
        require_parent-HasActive p s.registry
          (subst (λ o. require_parent o s.registry ≡ ok tt) e present))

-- An activation leaves the row, or makes a row in creation active.
plan_branch_activation-cases :
    (current prepared : RegistryEntry) (transition : DurableTransition RegistryEntry)
    → plan_branch_activation current prepared ≡ ok transition
    → (transition ≡ already_applied current)
      ⊎ ((transition ≡ apply (record current { lifecycle = active }))
          × (current.lifecycle ≡ creating))
unfolding plan_branch_activation
plan_branch_activation-cases current prepared transition h =
    elim (lifecycle_cases current.lifecycle) [
      | inl e ↦ inl (ground (arith, e, h))
      | inr (inl e) ↦ inr (ground (arith, e, h), e)
      | inr (inr e) ↦ ground (arith, e, h)
    ]

pub activate_prepared_branch-IsLineage :
    (name : Bytes) (prepared : RegistryEntry) (rows after : Registry)
    → activate_prepared_branch name prepared rows ≡ ok after
    → IsLineage rows
    → IsLineage after
unfolding activate_prepared_branch
activate_prepared_branch-IsLineage name prepared rows after h lineage =
    elim (Option-cases (get_row name rows)) [
      | inl missing ↦ ground (arith, missing, h)
      | inr (current, found) ↦
          let plan : plan_branch_activation current prepared
                >>= (λ transition. ok (activated name rows transition))
              ≡ ok after =
            ground (arith, found, h) in
          let (transition, planned, g) = bind-ok (plan_branch_activation current prepared) _ plan in
          elim (plan_branch_activation-cases current prepared transition planned) [
            | inl e ↦
                let same : rows ≡ after = ground (arith, ap (activated name rows) e, g) in
                subst IsLineage same lineage
            | inr (e, fresh) ↦
                let same : put_row name (record current { lifecycle = active }) rows ≡ after =
                  ground (arith, ap (activated name rows) e, g) in
                subst IsLineage same (
                  put_row-IsLineage name (record current { lifecycle = active }) rows lineage
                    (λ old there is_active. refl)
                    (λ live parent p. lineage name current parent found (ap is_deleting fresh) p))
          ]
    ]

pub record_written_bucket-IsLineage :
    (name generation : Bytes) (fork : Sequence) (parent : Option Bytes) (bucket : Bytes)
    (rows after : Registry)
    → record_written_bucket name generation fork parent bucket rows ≡ ok after
    → IsLineage rows
    → IsLineage after
unfolding record_written_bucket require_identity
record_written_bucket-IsLineage name generation fork parent bucket rows after h lineage =
    elim (Option-cases (get_row name rows)) [
      | inl missing ↦ ground (arith, missing, h)
      | inr (current, found) ↦
          let checked : require_identity current generation fork parent
                >> ok (put_row name (with_bucket bucket current) rows)
              ≡ ok after =
            ground (arith, found, h) in
          let (u, identity, g) =
            bind-ok (require_identity current generation fork parent) _ checked in
          let (u2, is_active, rest) = bind-ok (require_active current.lifecycle) _ identity in
          let same : put_row name (with_bucket bucket current) rows ≡ after = ground (arith, g) in
          let e : current.lifecycle ≡ active = require_active-active current.lifecycle is_active in
          subst IsLineage same (
            put_row-IsLineage name (with_bucket bucket current) rows lineage (λ old there before. e)
              (λ live p q. lineage name current p found live q))
    ]
