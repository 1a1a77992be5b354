-- ===== src/Branch/Rows.antt =====
-- Rows of the registry, and the writes that keep the lineage of its live branches
-- (src/branch/transitions.rs).
use trine_kv.Prelude.{
  ◌≡◌, refl, sym, ap, ◌∙◌, subst, ◌⊎◌, inl, inr, true, false, Bool-cases, Option-cases, [], ◌∷◌,
  Option, none, some, if◌then◌else◌, arith,
}
use trine_kv.Prelude.Order.{compare_bytes-IsOrder}
use trine_kv.Error.{ok, bind-ok}
use trine_kv.Keys.{Bytes}
use trine_kv.Branch.{
  creating, active, deleting, BranchLifecycle, RegistryEntry, Rows, Registry, same_name,
  same_parent, is_deleting, get_row, delete_row, put_row, require_active, reject_active_child,
  observe_rows, require_parent,
}

pub same_name_refl : (a : Bytes) → same_name a a ≡ true
unfolding same_name
same_name_refl a = ground (arith, compare_bytes-IsOrder.preorder.cmp_refl a)

pub same_name_eq : (a b : Bytes) → same_name a b ≡ true → a ≡ b
unfolding same_name
same_name_eq a b h = compare_bytes-IsOrder.eq_of_cmp a b (ground (arith, h))

module _ {Stored : Type 0} where
  pub get_row-delete_row :
      (name asked : Bytes) (rows : Rows Stored)
      → get_row asked (delete_row name rows)
        ≡ (if same_name name asked then none else get_row asked rows)
  unfolding get_row delete_row
  get_row-delete_row name asked [] = ground arith
  get_row-delete_row name asked ((key, stored) ∷ rows) = elim (Bool-cases (same_name key name)) [
    | inl t ↦ ground (
      arith,
      get_row-delete_row name asked rows,
      t,
      ap (λ k. same_name k asked) (same_name_eq key name t),
    )
    | inr f ↦ elim (Bool-cases (same_name name asked)) [
      | inl g ↦ ground (
        arith,
        get_row-delete_row name asked rows,
        f,
        g,
        ap (λ k. same_name key k) (same_name_eq name asked g),
      )
      | inr g ↦ ground (arith, get_row-delete_row name asked rows, f, g)
    ]
  ]

  pub get_row-put_row :
      (name asked : Bytes) (stored : Stored) (rows : Rows Stored)
      → get_row asked (put_row name stored rows)
        ≡ (if same_name name asked then some stored else get_row asked rows)
  unfolding get_row
  get_row-put_row name asked stored rows = ground (arith, get_row-delete_row name asked rows)

-- The registry has an active entry of the name.
abbrev pub HasActive : Bytes → Registry → Type 0
HasActive name rows =
    (entry : RegistryEntry) × (get_row name rows ≡ some entry) × (entry.lifecycle ≡ active)

-- A live entry's parent is there, and active.
abbrev pub IsLineage : Registry → Type 0
IsLineage rows =
    (name : Bytes) (entry : RegistryEntry) (parent : Bytes)
    → get_row name rows ≡ some entry
    → is_deleting entry.lifecycle ≡ false
    → entry.parent ≡ some parent
    → HasActive parent rows

-- An active entry survives a row that does not make it inactive.
pub HasActive-put_row :
    (name asked : Bytes) (entry : RegistryEntry) (rows : Registry)
    → ((old : RegistryEntry)
        → get_row name rows ≡ some old
        → old.lifecycle ≡ active
        → entry.lifecycle ≡ active)
    → HasActive asked rows
    → HasActive asked (put_row name entry rows)
HasActive-put_row name asked entry rows keeps (old, found, is_active) =
    elim (Bool-cases (same_name name asked)) [
      | inl t ↦ (
        entry,
        ground (arith, get_row-put_row name asked entry rows, t),
        keeps old (subst (λ n. get_row n rows ≡ some old) (sym (same_name_eq name asked t)) found)
            is_active,
      )
      | inr f ↦ (old, ground (arith, get_row-put_row name asked entry rows, f, found), is_active)
    ]

-- A written row with an active parent keeps the lineage, if it leaves an active entry active.
pub put_row-IsLineage :
    (name : Bytes) (entry : RegistryEntry) (rows : Registry)
    → IsLineage rows
    → ((old : RegistryEntry)
        → get_row name rows ≡ some old
        → old.lifecycle ≡ active
        → entry.lifecycle ≡ active)
    → (is_deleting entry.lifecycle ≡ false
        → (parent : Bytes) → entry.parent ≡ some parent
        → HasActive parent rows)
    → IsLineage (put_row name entry rows)
put_row-IsLineage name entry rows lineage keeps own asked found parent h live p =
    HasActive-put_row name parent entry rows keeps (elim (Bool-cases (same_name name asked)) [
      | inl t ↦
          let e : entry ≡ found = ground (arith, get_row-put_row name asked entry rows, t, h) in
          own (ap (λ x. is_deleting x.lifecycle) e ∙ live) parent (ap (λ x. x.parent) e ∙ p)
      | inr f ↦
          lineage asked found parent (ground (arith, get_row-put_row name asked entry rows, f, h))
            live p
    ])

pub require_active-active :
    (lifecycle : BranchLifecycle) → require_active lifecycle ≡ ok tt → lifecycle ≡ active
unfolding require_active
require_active-active active h = refl
require_active-active creating h = cc
require_active-active deleting h = cc

pub require_parent-HasActive :
    (parent : Bytes) (rows : Registry)
    → require_parent (some parent) rows ≡ ok tt
    → HasActive parent rows
unfolding require_parent
require_parent-HasActive parent rows h = elim (Option-cases (get_row parent rows)) [
  | inl missing ↦ ground (arith, missing, h)
  | inr (entry, found) ↦
      let g : require_active entry.lifecycle ≡ ok tt = ground (arith, found, h) in
      (entry, found, require_active-active entry.lifecycle g)
]

reject_active_child-ok :
    (name : Bytes) (entry : RegistryEntry)
    → reject_active_child name entry ≡ ok tt
    → is_deleting entry.lifecycle ≡ false
    → same_parent entry.parent (some name) ≡ false
unfolding reject_active_child
reject_active_child-ok name entry h live = ground (arith, h, live)

-- No live row has the parent that the scan has passed.
pub observe_rows-no_child :
    (name : Bytes) (target result : Option RegistryEntry) (rows : Registry)
    → observe_rows name target rows ≡ ok result
    → (child : Bytes) (entry : RegistryEntry) → get_row child rows ≡ some entry
    → is_deleting entry.lifecycle ≡ false
    → same_parent entry.parent (some name) ≡ false
unfolding observe_rows get_row
observe_rows-no_child name target result [] h child entry found live = cc
observe_rows-no_child name target result ((key, e) ∷ rows) h child entry found live =
    let (done, passed, rest) = bind-ok (reject_active_child name e) _ h in
    elim (Bool-cases (same_name key child)) [
      | inl t ↦
          let same : e ≡ entry = ground (arith, found, t) in
          subst (λ x. same_parent x.parent (some name) ≡ false) same
            (reject_active_child-ok name e passed (ap (λ x. is_deleting x.lifecycle) same ∙ live))
      | inr f ↦
          observe_rows-no_child name (if same_name key name then some e else target) result rows
            rest child entry (ground (arith, found, f)) live
    ]

-- Where no live row has the parent, its own row may be put to deletion.
pub delete_row-IsLineage :
    (name : Bytes) (rows : Registry)
    → IsLineage rows
    → ((child : Bytes) (entry : RegistryEntry)
        → get_row child rows ≡ some entry
        → is_deleting entry.lifecycle ≡ false
        → same_parent entry.parent (some name) ≡ false)
    → IsLineage (delete_row name rows)
delete_row-IsLineage name rows lineage childless asked entry parent found live p =
    elim (Bool-cases (same_name name asked)) [
      | inl t ↦ ground (arith, get_row-delete_row name asked rows, t, found)
      | inr f ↦
          let before : get_row asked rows ≡ some entry =
            ground (arith, get_row-delete_row name asked rows, f, found) in
          let (old, there, is_active) = lineage asked entry parent before live p in
          elim (Bool-cases (same_name name parent)) [
            | inl t ↦
                let same : same_parent entry.parent (some name) ≡ true =
                  ap (λ o. same_parent o (some name)) p
                  ∙ ap (λ n. same_name n name) (sym (same_name_eq name parent t))
                  ∙ same_name_refl name in
                ground (arith, same, childless asked entry before live)
            | inr g ↦
                (old, ground (arith, get_row-delete_row name parent rows, g, there), is_active)
          ]
    ]

pub put_deleting-IsLineage :
    (name : Bytes) (entry : RegistryEntry) (rows : Registry)
    → is_deleting entry.lifecycle ≡ true
    → IsLineage (delete_row name rows)
    → IsLineage (put_row name entry rows)
unfolding get_row
put_deleting-IsLineage name entry rows dead lineage asked found parent h live p =
    elim (Bool-cases (same_name name asked)) [
      | inl t ↦
          let e : entry ≡ found = ground (arith, t, h) in
          ground (arith, ap (λ x. is_deleting x.lifecycle) e, dead, live)
      | inr f ↦
          let (old, there, is_active) = lineage asked found parent (ground (arith, f, h)) live p in
          elim (Bool-cases (same_name name parent)) [
            | inl t ↦ ground (arith, get_row-delete_row name parent rows, t, there)
            | inr g ↦ (old, ground (arith, g, there), is_active)
          ]
    ]

pub lifecycle_cases :
    (lifecycle : BranchLifecycle)
    → (lifecycle ≡ active) ⊎ ((lifecycle ≡ creating) ⊎ (lifecycle ≡ deleting))
lifecycle_cases active = inl refl
lifecycle_cases creating = inr (inl refl)
lifecycle_cases deleting = inr (inr refl)
