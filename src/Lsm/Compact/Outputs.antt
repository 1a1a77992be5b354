-- ===== src/Lsm/Compact/Outputs.antt =====
-- All output tables together cover what the tombstones cover (src/lsm/compact.rs).
use trine_kv.Prelude.{
  ℕ, ◌≡◌, refl, sym, ap, ◌∙◌, subst, ◌⊎◌, Bool, true, false, not, ◌&&◌, List, [], ◌∷◌, ◌++◌,
  append_assoc, Option, none, some, any, ltb, arith, Bool-cases, Option-cases, inl, inr,
}
use trine_kv.Keys.{Bytes, Sequence, KeyRange}
use trine_kv.RangeTombstone.{key_is_in_range}
use trine_kv.Lsm.{Tombstone, saturating_add, range_tombstone_bytes}
use trine_kv.Lsm.Compact.Payloads.{
  tombstone_for_output_span, assign, unassigned, none_assigned, tombstone_only_payloads, give,
  is_empty_list,
}
use trine_kv.Lsm.Compact.Spread.{payload_tombstones, cov, span_complete}

-- As many marks as tombstones.
abbrev pub Fits : List Tombstone → List Bool → Type 0
Fits [] [] = Unit
Fits [] (m ∷ ms) = ⊥
Fits (t ∷ ts) [] = ⊥
Fits (t ∷ ts) (m ∷ ms) = Fits ts ms

pub none_assigned-Fits : (ts : List Tombstone) → Fits ts (none_assigned ts)
none_assigned-Fits [] = tt
none_assigned-Fits (t ∷ ts) = none_assigned-Fits ts

give-Fits :
    (o : Option Tombstone) (m : Bool) (t : Tombstone) (ts : List Tombstone)
    (r : List Tombstone × List Bool)
    → Fits ts r.1
    → Fits (t ∷ ts) (give o m r).1
give-Fits none m t ts (given, marks) h = h
give-Fits (some out) m t ts (given, marks) h = h

pub assign-Fits :
    (full : Bool) (span : KeyRange) (ts : List Tombstone) (ms : List Bool)
    → Fits ts ms
    → Fits ts (assign full span ts ms).1
assign-Fits full span [] [] h = tt
assign-Fits full span [] (m ∷ ms) h = absurd h
assign-Fits full span (t ∷ ts) [] h = absurd h
assign-Fits full span (t ∷ ts) (m ∷ ms) h =
    give-Fits (tombstone_for_output_span full span t) m t ts (assign full span ts ms)
      (assign-Fits full span ts ms h)

pub unassigned-none : (ts : List Tombstone) → unassigned ts (none_assigned ts) ≡ ts
unassigned-none [] = refl
unassigned-none (t ∷ ts) = ap (λ r. t ∷ r) (unassigned-none ts)

-- The tables without records take over all tombstones that are left.
pub tombstone_only_payloads-all :
    (target : ℕ) (pending : List Tombstone) (bytes : ℕ) (ts : List Tombstone)
    → payload_tombstones (tombstone_only_payloads target pending bytes ts) ≡ pending ++ ts
unfolding tombstone_only_payloads
tombstone_only_payloads-all target [] bytes [] = refl
tombstone_only_payloads-all target (p ∷ ps) bytes [] = refl
tombstone_only_payloads-all target pending bytes (t ∷ ts) =
    let size = range_tombstone_bytes t.range in
    let flush = not (is_empty_list pending) && ltb target (saturating_add bytes size) in
    elim (Bool-cases flush) [
      | inl y ↦ rw y (
          ap (λ r. pending ++ r)
            (tombstone_only_payloads-all target (t ∷ []) (saturating_add 0 size) ts))
      | inr n ↦ rw n (
          tombstone_only_payloads-all target (pending ++ t ∷ []) (saturating_add bytes size) ts
          ∙ append_assoc pending (t ∷ []) ts)
    ]

module _ (key : Bytes) (point_sequence : Sequence) (point_batch_index : ℕ) (read : Sequence) where
  abbrev pub has_cover : List Tombstone → Bool
  has_cover ts = any (cov key point_sequence point_batch_index read) ts

  pub unassigned_sound :
      (ts : List Tombstone) (ms : List Bool)
      → has_cover (unassigned ts ms) ≡ true
      → has_cover ts ≡ true
  unassigned_sound [] ms h = h
  unassigned_sound (t ∷ ts) [] h = h
  unassigned_sound (t ∷ ts) (true ∷ ms) h = ground (arith, unassigned_sound ts ms h)
  unassigned_sound (t ∷ ts) (false ∷ ms) h =
      elim (Bool-cases (cov key point_sequence point_batch_index read t)) [
        | inl y ↦ ground (arith, y)
        | inr n ↦ ground (arith, n, unassigned_sound ts ms (ground (arith, n, h)))
      ]

  pub assign_complete :
      (full : Bool) (span : KeyRange) (ts : List Tombstone) (ms : List Bool)
      → Fits ts ms
      → key_is_in_range key span ≡ true
      → has_cover ts ≡ true
      → has_cover (assign full span ts ms).0 ≡ true
  assign_complete full span [] ms f h k = cc
  assign_complete full span (t ∷ ts) [] f h k = absurd f
  assign_complete full span (t ∷ ts) (m ∷ ms) f h k =
      elim (Bool-cases (cov key point_sequence point_batch_index read t)) [
        | inl y ↦
            let (out, given, here) =
              span_complete key point_sequence point_batch_index read full span t h y in
            ground (arith, given, here)
        | inr n ↦
            let rest = assign_complete full span ts ms f h (ground (arith, n, k)) in
            elim (Option-cases (tombstone_for_output_span full span t)) [
              | inl e ↦ ground (arith, e, rest)
              | inr (out, e) ↦ ground (arith, e, rest)
            ]
      ]

  kept_whole :
      (span : KeyRange) (t out : Tombstone)
      → tombstone_for_output_span false span t ≡ some out
      → t ≡ out
  unfolding tombstone_for_output_span
  kept_whole span t out h = ground (arith, h)

  abbrev pub Conserved : List Tombstone → List Tombstone × List Bool → Type 0
  Conserved ts (given, marks) = (has_cover given ≡ true) ⊎ (has_cover (unassigned ts marks) ≡ true)

  give-none :
      (m : Bool) (t : Tombstone) (ts : List Tombstone) (ms : List Bool)
      (r : List Tombstone × List Bool)
      → (has_cover (unassigned ts ms) ≡ true → Conserved ts r)
      → has_cover (unassigned (t ∷ ts) (m ∷ ms)) ≡ true
      → Conserved (t ∷ ts) (give none m r)
  give-none true t ts ms (given, marks) rest h = rest h
  give-none false t ts ms (given, marks) rest h =
      elim (Bool-cases (cov key point_sequence point_batch_index read t)) [
        | inl y ↦ inr (ground (arith, y))
        | inr n ↦ elim (rest (ground (arith, n, h))) [
          | inl a ↦ inl a
          | inr b ↦ inr (ground (arith, n, b))
        ]
      ]

  give-some :
      (m : Bool) (t : Tombstone) (ts : List Tombstone) (ms : List Bool)
      (r : List Tombstone × List Bool)
      → (has_cover (unassigned ts ms) ≡ true → Conserved ts r)
      → has_cover (unassigned (t ∷ ts) (m ∷ ms)) ≡ true
      → Conserved (t ∷ ts) (give (some t) m r)
  give-some m t ts ms (given, marks) rest h =
      elim (Bool-cases (cov key point_sequence point_batch_index read t)) [
        | inl y ↦ inl (ground (arith, y))
        | inr n ↦ elim (rest (left_over m t ts ms n h)) [
          | inl a ↦ inl (ground (arith, a))
          | inr b ↦ inr b
        ]
      ]
    where
      left_over :
          (m : Bool) (t : Tombstone) (ts : List Tombstone) (ms : List Bool)
          → cov key point_sequence point_batch_index read t ≡ false
          → has_cover (unassigned (t ∷ ts) (m ∷ ms)) ≡ true
          → has_cover (unassigned ts ms) ≡ true
      left_over true t ts ms n h = h
      left_over false t ts ms n h = ground (arith, n, h)

  -- A partial compaction hands a tombstone on whole, or leaves it unassigned.
  pub assign_conserves :
      (span : KeyRange) (ts : List Tombstone) (ms : List Bool)
      → Fits ts ms
      → has_cover (unassigned ts ms) ≡ true
      → Conserved ts (assign false span ts ms)
  assign_conserves span [] ms f h = cc
  assign_conserves span (t ∷ ts) [] f h = absurd f
  assign_conserves span (t ∷ ts) (m ∷ ms) f h =
      let rest = assign_conserves span ts ms f in
      elim (Option-cases (tombstone_for_output_span false span t)) [
        | inl e ↦
            subst (λ o. Conserved (t ∷ ts) (give o m (assign false span ts ms))) (sym e)
              (give-none m t ts ms (assign false span ts ms) rest h)
        | inr (out, e) ↦
            subst (λ o. Conserved (t ∷ ts) (give o m (assign false span ts ms)))
              (ap some (kept_whole span t out e) ∙ sym e)
              (give-some m t ts ms (assign false span ts ms) rest h)
      ]
