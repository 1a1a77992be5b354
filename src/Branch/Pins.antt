-- ===== src/Branch/Pins.antt =====
-- What a prepared branch finds in the database (src/branch/transitions.rs).
use trine_kv.Prelude.{
  ◌≡◌, refl, sym, ap, ◌∙◌, subst, ◌⊎◌, inl, inr, true, Bool-cases, Option-cases, Option, none, some,
  ◌==◌, arith,
}
use trine_kv.Error.{Error, Result, ok, err, ◌>>◌, bind-ok, invalid_options}
use trine_kv.Keys.{Bytes, Sequence}
use trine_kv.Branch.{
  RegistryEntry, Rows, same_parent, get_row, delete_row, put_row, validate_branch_name,
  require_parent, resolve_existing_create, new_entry,
}
use trine_kv.Branch.Rows.{same_name_refl, same_name_eq, get_row-put_row}
use trine_kv.Branch.Create.{
  Answers, Durable, create_entry, validate_parent, prepare_branch_create, ensure_fork_checkpoint,
  ensure_authoritative_fork_checkpoint,
}

ensure_fork_checkpoint-pins :
    (created : Result (Unit {0})) (branch : Bytes) (from : Sequence) (before after : Rows Sequence)
    → ensure_fork_checkpoint created branch from before ≡ ok after
    → get_row branch after ≡ some from
unfolding ensure_fork_checkpoint
ensure_fork_checkpoint-pins (err e) branch from before after h = cc
ensure_fork_checkpoint-pins (ok u) branch from before after h =
    elim (Option-cases (get_row branch before)) [
      | inl missing ↦
          let same : put_row branch from before ≡ after = ground (arith, missing, h) in
          subst (λ rows. get_row branch rows ≡ some from) same
            (ground (arith, get_row-put_row branch branch from before, same_name_refl branch))
      | inr (pinned, found) ↦ elim (Bool-cases (pinned == from)) [
        | inl t ↦
            let same : before ≡ after = ground (arith, found, t, h) in
            subst (λ rows. get_row branch rows ≡ some from) same
              (found ∙ ap some (ground (arith, t)))
        | inr f ↦ ground (arith, found, f, h)
      ]
    ]

Result-cases : {A : Type 0} (r : Result A) → ((a : A) × (r ≡ ok a)) ⊎ ((e : Error) × (r ≡ err e))
Result-cases (ok a) = inl (a, refl)
Result-cases (err e) = inr (e, refl)

-- An error that the second attempt does not answer is handed on.
retried :
    (answers : Answers) (error : Error) (again : Result (Rows Sequence)) (after : Rows Sequence)
    → elim error as (λ e. Result (Rows Sequence)) [
      | invalid_options ↦ answers.deleted >> again
      | other ↦ err other
    ]
      ≡ ok after
    → answers.deleted >> again ≡ ok after
retried answers error again after h = ground arith

ensure_authoritative_fork_checkpoint-pins :
    (answers : Answers) (branch : Bytes) (entry : RegistryEntry) (before after : Rows Sequence)
    → ensure_authoritative_fork_checkpoint answers branch entry before ≡ ok after
    → get_row branch after ≡ some entry.fork
unfolding ensure_authoritative_fork_checkpoint
ensure_authoritative_fork_checkpoint-pins answers branch entry before after h =
    elim (Result-cases (ensure_fork_checkpoint answers.first branch entry.fork before)) [
      | inl (pinned, e) ↦
          let same : pinned ≡ after = ground (arith, e, h) in
          ensure_fork_checkpoint-pins answers.first branch entry.fork before after (e ∙ ap ok same)
      | inr (error, e) ↦
          let again : answers.deleted
                >> ensure_fork_checkpoint answers.second branch entry.fork
                    (delete_row branch before)
              ≡ ok after =
            retried answers error
              (ensure_fork_checkpoint answers.second branch entry.fork (delete_row branch before))
              after (rw (ensure_authoritative_fork_checkpoint, e) at h) in
          let (done, deleted, g) = bind-ok answers.deleted _ again in
          ensure_fork_checkpoint-pins answers.second branch entry.fork (delete_row branch before)
            after g
    ]

same_parent_eq : (a b : Option Bytes) → same_parent a b ≡ true → a ≡ b
same_parent_eq none none h = refl
same_parent_eq none (some b) h = cc
same_parent_eq (some a) none h = cc
same_parent_eq (some a) (some b) h = ap some (same_name_eq a b h)

resolve_existing_create-some :
    (existing : Option RegistryEntry) (from : Sequence) (parent : Option Bytes)
    (entry : RegistryEntry)
    → resolve_existing_create existing from parent ≡ ok (some entry)
    → (existing ≡ some entry) × (entry.fork ≡ from) × (entry.parent ≡ parent)
unfolding resolve_existing_create
resolve_existing_create-some none from parent entry h = cc
resolve_existing_create-some (some e) from parent entry h =
    let same : e ≡ entry = ground (arith, h) in
    let forks : (e.fork == from) ≡ true = ground (arith, h) in
    let parents : same_parent e.parent parent ≡ true = ground (arith, h) in
    (
      ap some same,
      ap (λ x. x.fork) (sym same) ∙ ground (arith, forks),
      ap (λ x. x.parent) (sym same) ∙ same_parent_eq e.parent parent parents,
    )

-- The entry is in the registry, pinned by its checkpoint, and has the lineage that was asked for.
abbrev pub IsPrepared : Bytes → Sequence → Option Bytes → RegistryEntry → Durable → Type 0
IsPrepared name from parent entry t =
    (get_row name t.registry ≡ some entry)
    × (get_row name t.checkpoints ≡ some entry.fork)
    × (entry.fork ≡ from)
    × (entry.parent ≡ parent)

create_entry-IsPrepared :
    (answers : Answers) (name : Bytes) (from : Sequence) (parent : Option Bytes)
    (generation : Bytes) (entry : RegistryEntry) (s t : Durable) (existing : Option RegistryEntry)
    → create_entry answers name (new_entry from parent generation) s existing ≡ ok (entry, t)
    → resolve_existing_create (get_row name s.registry) from parent ≡ ok existing
    → IsPrepared name from parent entry t
create_entry-IsPrepared answers name from parent generation entry s t (some e) h resolved =
    let (checkpoints, pinned, g) =
      bind-ok (ensure_authoritative_fork_checkpoint answers name e s.checkpoints) _ h in
    let (found, forks, parents) =
      resolve_existing_create-some (get_row name s.registry) from parent e resolved in
    let kept : RegistryEntry × Durable = (e, record s { checkpoints = checkpoints }) in
    let wanted : RegistryEntry × Durable = (entry, t) in
    let same : kept ≡ wanted = ground (arith, g) in
    subst (λ r. IsPrepared name from parent r.0 r.1) same
      (
        found,
        ensure_authoritative_fork_checkpoint-pins answers name e s.checkpoints checkpoints pinned,
        forks,
        parents,
      )
create_entry-IsPrepared answers name from parent generation entry s t none h resolved =
    let fresh = new_entry from parent generation in
    let (checkpoints, pinned, g) =
      bind-ok (ensure_authoritative_fork_checkpoint answers name fresh s.checkpoints) _ h in
    let made : RegistryEntry × Durable =
      (fresh, record { registry = put_row name fresh s.registry; checkpoints = checkpoints }) in
    let wanted : RegistryEntry × Durable = (entry, t) in
    let same : made ≡ wanted = ground (arith, g) in
    subst (λ r. IsPrepared name from parent r.0 r.1) same
      (
        ground (arith, get_row-put_row name name fresh s.registry, same_name_refl name),
        ensure_authoritative_fork_checkpoint-pins answers name fresh s.checkpoints checkpoints
            pinned,
        refl,
        refl,
      )

-- A branch that has been prepared, anew or once more, is in the registry with the fork and the
-- parent that were asked for, and the checkpoint of its name pins that fork, whichever checkpoint
-- calls failed on the way. The creation runs as one step.
pub prepare_branch_create-IsPrepared :
    (answers : Answers) (name : Bytes) (from : Sequence) (parent : Option Bytes)
    (snapshot : Result (Unit {0})) (generation : Bytes) (entry : RegistryEntry) (s t : Durable)
    → prepare_branch_create answers name from parent snapshot generation s ≡ ok (entry, t)
    → IsPrepared name from parent entry t
unfolding prepare_branch_create
prepare_branch_create-IsPrepared answers name from parent snapshot generation entry s t h =
    let (u1, named, h1) = bind-ok (validate_branch_name name) _ h in
    let (u2, parented, h2) = bind-ok (validate_parent parent) _ h1 in
    let (u3, pinned, h3) = bind-ok snapshot _ h2 in
    let (u4, present, h4) = bind-ok (require_parent parent s.registry) _ h3 in
    let (existing, resolved, h5) =
      bind-ok (resolve_existing_create (get_row name s.registry) from parent) _ h4 in
    create_entry-IsPrepared answers name from parent generation entry s t existing h5 resolved
