-- ===== src/Search/Partition.antt =====
-- Every policy finds a partition point, and a monotone predicate has one only (src/search.rs).
use trine_kv.Prelude.{
  ℕ, zero, suc, ◌+◌, ◌-◌, ◌≤◌, ◌<◌, ◌≡◌, refl, sym, subst, ◌↔◌, Bool, true, false, Bool-cases, inl,
  inr, ltb, leb, arith,
}
use trine_kv.Search.{
  IndexSearchPolicy, linear, binary, auto, linear_loop, linear_partition_point, middle_of,
  binary_loop, binary_partition_point, partition_point_by,
}

-- The predicate holds right in front of `point` and fails at it, where there are such indices.
abbrev pub IsPoint : ℕ → (ℕ → Bool) → ℕ → Type 0
IsPoint len predicate point =
    (point ≤ len)
    × ((i : ℕ) → suc i ≡ point → predicate i ≡ true)
    × (point < len → predicate point ≡ false)

-- Where the predicate holds at an index, it holds at the smaller ones.
abbrev pub IsMonotone : ℕ → (ℕ → Bool) → Type 0
IsMonotone len predicate = (i j : ℕ) → i ≤ j → j < len → predicate j ≡ true → predicate i ≡ true

linear_loop-IsPoint :
    (len : ℕ) (predicate : ℕ → Bool) (count index : ℕ)
    → index + count ≡ len
    → ((i : ℕ) → suc i ≡ index → predicate i ≡ true)
    → IsPoint len predicate (linear_loop count index predicate)
unfolding linear_loop
linear_loop-IsPoint len predicate zero index e before =
    (omega arith, before, λ h. ground (arith, h, e))
linear_loop-IsPoint len predicate (suc count) index e before = elim (Bool-cases (predicate index)) [
  | inl t ↦ rw t (
      linear_loop-IsPoint len predicate count (suc index) (omega (arith, e))
        (λ i h. subst (λ n. predicate n ≡ true) (sym (omega (arith, h))) t))
  | inr f ↦ rw f (omega (arith, e), before, λ _. f)
]

binary_loop-IsPoint :
    (len : ℕ) (predicate : ℕ → Bool) (fuel left right : ℕ)
    → left ≤ right
    → right ≤ len
    → right - left ≤ fuel
    → ((i : ℕ) → suc i ≡ left → predicate i ≡ true)
    → (right < len → predicate right ≡ false)
    → IsPoint len predicate (binary_loop fuel left right predicate)
unfolding binary_loop
binary_loop-IsPoint len predicate zero left right l r f before after =
    let e : right ≡ left = omega (arith, l, f) in
    (omega (arith, l, r), before, subst (λ n. n < len → predicate n ≡ false) e after)
binary_loop-IsPoint len predicate (suc fuel) left right l r f before after =
    elim (Bool-cases (ltb left right)) [
      | inr shut ↦
          let e : right ≡ left = ground (arith, l, shut) in
          rw shut (omega (arith, l, r), before, subst (λ n. n < len → predicate n ≡ false) e after)
      | inl apart ↦
          let below : left < right = ground (arith, apart) in
          elim (Bool-cases (predicate (middle_of left right))) [
            | inl t ↦
                rw (apart, t)
                  (binary_loop-IsPoint len predicate fuel (middle_of left right + 1) right
                    (omega (arith, below)) r (omega (arith, below, f))
                    (λ i h. subst (λ n. predicate n ≡ true) (sym (omega (arith, h))) t) after)
            | inr g ↦
                rw (apart, g)
                  (binary_loop-IsPoint len predicate fuel left (middle_of left right)
                    (omega (arith, below)) (omega (arith, below, r)) (omega (arith, below, f))
                    before (λ _. g))
          ]
    ]

-- Under every policy the search ends at a partition point: an index at which the predicate fails,
-- or the length, with the predicate true at the index before it, if there is one.
pub partition_point_by-IsPoint :
    (len : ℕ) (policy : IndexSearchPolicy) (predicate : ℕ → Bool)
    → IsPoint len predicate (partition_point_by len policy predicate)
unfolding partition_point_by linear_partition_point binary_partition_point
partition_point_by-IsPoint len linear predicate =
    linear_loop-IsPoint len predicate len 0 (omega arith) (λ i h. ground (arith, h))
partition_point_by-IsPoint len binary predicate =
    binary_loop-IsPoint len predicate len 0 len (omega arith) (omega arith) (omega arith)
      (λ i h. ground (arith, h)) (λ h. ground (arith, h))
partition_point_by-IsPoint len auto predicate = elim (Bool-cases (leb len 8)) [
  | inl t ↦ rw t (linear_loop-IsPoint len predicate len 0 (omega arith) (λ i h. ground (arith, h)))
  | inr f ↦ rw f (
      binary_loop-IsPoint len predicate len 0 len (omega arith) (omega arith) (omega arith)
        (λ i h. ground (arith, h)) (λ h. ground (arith, h)))
]

-- A partition point of a monotone predicate splits the indices in two.
point_splits :
    (len : ℕ) (predicate : ℕ → Bool) (point : ℕ)
    → IsMonotone len predicate
    → IsPoint len predicate point
    → (i : ℕ) → i < len
    → (predicate i ≡ true) ↔ (i < point)
point_splits len predicate zero mono (b, h, f) i below = (
  λ t. ground (arith, mono 0 i (omega arith) below t, f (omega (arith, below))),
  λ c. ground (arith, c),
)
point_splits len predicate (suc k) mono (b, h, f) i below = (
  λ t. elim (Bool-cases (leb i k)) [
    | inl le ↦ ground (arith, le)
    | inr gt ↦
        let beyond : suc k ≤ i = ground (arith, gt) in
        ground (arith, mono (suc k) i beyond below t, f (omega (arith, beyond, below)))
  ],
  λ c. mono i k (omega (arith, c)) (omega (arith, b)) (h k refl),
)

point_least :
    (len : ℕ) (predicate : ℕ → Bool) (point other : ℕ)
    → IsMonotone len predicate
    → IsPoint len predicate point
    → IsPoint len predicate other
    → point ≤ other
point_least len predicate point other mono p (b, h, f) = elim (Bool-cases (leb point other)) [
  | inl le ↦ ground (arith, le)
  | inr gt ↦
      let beyond : other < point = ground (arith, gt) in
      let inside : other < len = omega (arith, beyond, p.0) in
      ground (arith, (point_splits len predicate point mono p other inside).1 beyond, f inside)
]

-- For a predicate that is monotone on the indices, the search returns, under every policy, the
-- point in front of which the predicate holds everywhere and from which it holds nowhere.
pub partition_point_by_splits :
    (len : ℕ) (policy : IndexSearchPolicy) (predicate : ℕ → Bool)
    → IsMonotone len predicate
    → (i : ℕ) → i < len
    → (predicate i ≡ true) ↔ (i < partition_point_by len policy predicate)
partition_point_by_splits len policy predicate mono i below =
    point_splits len predicate (partition_point_by len policy predicate) mono
      (partition_point_by-IsPoint len policy predicate) i below

-- The policies agree on a predicate that is monotone on the indices.
pub policies_agree :
    (len : ℕ) (policy other : IndexSearchPolicy) (predicate : ℕ → Bool)
    → IsMonotone len predicate
    → partition_point_by len policy predicate ≡ partition_point_by len other predicate
policies_agree len policy other predicate mono =
    let a = partition_point_by-IsPoint len policy predicate in
    let b = partition_point_by-IsPoint len other predicate in
    let up = point_least len predicate _ _ mono a b in
    let down = point_least len predicate _ _ mono b a in omega (arith, up, down)
