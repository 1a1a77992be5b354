-- ===== src/Compaction/Passes.antt =====
-- The passes over the tables that push those that are wanted (src/compaction.rs).
use trine_kv.Prelude.{
  ℕ, suc, ◌+◌, ◌≤◌, ◌<◌, ◌≡◌, refl, sym, subst, ◌⊎◌, Bool, true, false, not, ◌&&◌, List, [], ◌∷◌,
  ◌++◌, All, any-append, length, length-append, ◌==◌, if◌then◌else◌, arith, Bool-cases, inl, inr,
}
use trine_kv.Compaction.{CompactionTable, contains, push_wanted}

-- The tables that are not yet inputs.
abbrev pub missing : List CompactionTable → List ℕ → ℕ
missing [] inputs = 0
missing (t ∷ ts) inputs = (if contains inputs t.id then 0 else 1) + missing ts inputs

abbrev pub Grows : List ℕ → List ℕ → Type 0
Grows inputs after = (i : ℕ) → contains inputs i ≡ true → contains after i ≡ true

pub missing-Grows :
    (ts : List CompactionTable) (inputs after : List ℕ)
    → Grows inputs after
    → missing ts after ≤ missing ts inputs
missing-Grows [] inputs after g = omega arith
missing-Grows (t ∷ ts) inputs after g =
    let rest = missing-Grows ts inputs after g in
    elim (Bool-cases (contains inputs t.id)) [
      | inl y ↦ ground (arith, y, g t.id y, rest)
      | inr n ↦ elim (Bool-cases (contains after t.id)) [
        | inl k ↦ ground (arith, n, k, rest)
        | inr k ↦ ground (arith, n, k, rest)
      ]
    ]

pushed-Grows : (inputs : List ℕ) (id : ℕ) → Grows inputs (inputs ++ id ∷ [])
pushed-Grows inputs id i h = ground (arith, any-append (λ j. j == i) inputs (id ∷ []), h)

pushed-contains : (inputs : List ℕ) (id : ℕ) → contains (inputs ++ id ∷ []) id ≡ true
pushed-contains inputs id = ground (arith, any-append (λ j. j == id) inputs (id ∷ []))

length-pushed : (inputs : List ℕ) (id : ℕ) → length (inputs ++ id ∷ []) ≡ suc (length inputs)
length-pushed inputs id = ground (arith, length-append inputs (id ∷ []))

pub missing-length : (ts : List CompactionTable) → missing ts [] ≤ length ts
missing-length [] = omega arith
missing-length (t ∷ ts) = ground (arith, missing-length ts)

module _ (wanted : CompactionTable → Bool) where
  pub push-Grows :
      (ts : List CompactionTable) (inputs : List ℕ) → Grows inputs (push_wanted wanted ts inputs)
  push-Grows [] inputs i h = h
  push-Grows (t ∷ ts) inputs i h = elim (Bool-cases (wanted t && not (contains inputs t.id))) [
    | inl y ↦ rw y (push-Grows ts (inputs ++ t.id ∷ []) i (pushed-Grows inputs t.id i h))
    | inr n ↦ rw n (push-Grows ts inputs i h)
  ]

  pushed :
      (t : CompactionTable) (ts : List CompactionTable) (inputs : List ℕ)
      → (wanted t && not (contains inputs t.id)) ≡ true
      → push_wanted wanted (t ∷ ts) inputs ≡ push_wanted wanted ts (inputs ++ t.id ∷ [])
  pushed t ts inputs y = rw y refl

  passed :
      (t : CompactionTable) (ts : List CompactionTable) (inputs : List ℕ)
      → (wanted t && not (contains inputs t.id)) ≡ false
      → push_wanted wanted (t ∷ ts) inputs ≡ push_wanted wanted ts inputs
  passed t ts inputs n = rw n refl

  abbrev pub Taken : List CompactionTable → List ℕ → Type 0
  Taken ts inputs = All (λ t. wanted t ≡ true → contains inputs t.id ≡ true) ts

  -- After a pass all wanted tables are inputs.
  pub push-wanted :
      (ts : List CompactionTable) (inputs : List ℕ) → Taken ts (push_wanted wanted ts inputs)
  push-wanted [] inputs = tt
  push-wanted (t ∷ ts) inputs = elim (Bool-cases (wanted t && not (contains inputs t.id))) [
    | inl y ↦ subst (Taken (t ∷ ts)) (sym (pushed t ts inputs y)) (
      λ w. push-Grows ts (inputs ++ t.id ∷ []) t.id (pushed-contains inputs t.id),
      push-wanted ts (inputs ++ t.id ∷ []),
    )
    | inr n ↦
        subst (Taken (t ∷ ts)) (sym (passed t ts inputs n))
          (λ w. push-Grows ts inputs t.id (ground (arith, n, w)), push-wanted ts inputs)
  ]

  length-push :
      (ts : List CompactionTable) (inputs : List ℕ)
      → length inputs ≤ length (push_wanted wanted ts inputs)
  length-push [] inputs = omega arith
  length-push (t ∷ ts) inputs = elim (Bool-cases (wanted t && not (contains inputs t.id))) [
    | inl y ↦ rw y (omega (arith, length-push ts (inputs ++ t.id ∷ []), length-pushed inputs t.id))
    | inr n ↦ rw n (length-push ts inputs)
  ]

  -- A pass changes nothing, or fewer tables are missing after it.
  pub push-missing :
      (ts : List CompactionTable) (inputs : List ℕ)
      → (push_wanted wanted ts inputs ≡ inputs)
        ⊎ ((length inputs < length (push_wanted wanted ts inputs))
            × (missing ts (push_wanted wanted ts inputs) < missing ts inputs))
  push-missing [] inputs = inl refl
  push-missing (t ∷ ts) inputs = elim (Bool-cases (wanted t && not (contains inputs t.id))) [
    | inl y ↦
        let next = inputs ++ t.id ∷ [] in
        let here : contains (push_wanted wanted ts next) t.id ≡ true =
          push-Grows ts next t.id (pushed-contains inputs t.id) in
        let fewer : missing ts (push_wanted wanted ts next) ≤ missing ts inputs =
          missing-Grows ts inputs (push_wanted wanted ts next)
            (λ i h. push-Grows ts next i (pushed-Grows inputs t.id i h)) in
        let longer = length-push ts next in
        let absent : contains inputs t.id ≡ false = ground (arith, y) in
        rw y (
          inr (
            omega (arith, longer, length-pushed inputs t.id),
            rw (here, absent) (omega (arith, fewer)),
          ))
    | inr n ↦ rw n (elim (push-missing ts inputs) [
      | inl same ↦ inl same
      | inr (longer, fewer) ↦
          let still =
            missing-Grows (t ∷ []) inputs (push_wanted wanted ts inputs) (push-Grows ts inputs) in
          inr (longer, omega (arith, fewer, still))
    ])
  ]
