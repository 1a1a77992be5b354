-- ===== src/Compaction/Targets.antt =====
-- The target sizes of the levels (src/compaction.rs).
use native.Mathlib.Nat.{
  mul_assoc, pow-zero, pow-succ', one-le-pow, mul-le-mul_left, mul-le-mul_right,
  le-mul_of_pos_right, pow-le-pow_right,
}
use trine_kv.Prelude.{
  ℕ, zero, suc, ◌-◌, ◌*◌, ◌^◌, ◌≤◌, ◌≡◌, sym, ap, ◌∙◌, min, max, leb, Bool-cases, arith, inl, inr,
}
use trine_kv.Keys.{u64_max}
use trine_kv.Compaction.{CompactionOptions}
use trine_kv.Compaction.Levels.{grow_target, level_target_bytes}

-- A product that stops at a bound loses nothing below it.
saturates : (x p bound : ℕ) → 1 ≤ p → min (min x bound * p) bound ≡ min (x * p) bound
saturates x p bound pos = elim (Bool-cases (leb x bound)) [
  | inl y ↦ let same : min x bound ≡ x = ground (arith, y) in ap (λ u. min (u * p) bound) same
  | inr n ↦
      let same : min x bound ≡ bound = ground (arith, n) in
      let above : bound ≤ x = ground (arith, n) in
      let wide : bound ≤ bound * p = le-mul_of_pos_right bound pos in
      let wider : bound * p ≤ x * p = mul-le-mul_right p above in
      ap (λ u. min (u * p) bound) same ∙ omega (arith, wide, wider)
]

grow_target-saturates :
    (exponent multiplier target : ℕ)
    → 1 ≤ multiplier
    → target ≤ u64_max
    → grow_target exponent multiplier target ≡ min (target * multiplier ^ exponent) u64_max
grow_target-saturates zero multiplier target pos small =
    sym (ap (λ p. min (target * p) u64_max) (pow-zero multiplier) ∙ omega (arith, small))
grow_target-saturates (suc exponent) multiplier target pos small =
    grow_target-saturates exponent multiplier (min (target * multiplier) u64_max) pos (omega arith)
    ∙ saturates (target * multiplier) (multiplier ^ exponent) u64_max
        (one-le-pow exponent multiplier pos)
    ∙ ap (λ u. min u u64_max)
        (mul_assoc target multiplier (multiplier ^ exponent)
          ∙ ap (λ u. target * u) (sym (pow-succ' multiplier exponent)))

-- The target of a level is the target of a table times the multiplier for each level below the first
-- one, cut off at the greatest `u64`, with at least 1 for the table and at least 2 for the multiplier.
-- It never decreases with the level, and it is never 0.
pub level_target_bytes-saturates :
    (options : CompactionOptions) (level deeper : ℕ)
    → options.target_table_bytes ≤ u64_max
    → level ≤ deeper
    → (level_target_bytes level options
        ≡ min
            (max options.target_table_bytes 1 * max options.level_size_multiplier 2 ^ (level - 1))
            u64_max)
      × (level_target_bytes level options ≤ level_target_bytes deeper options)
      × (1 ≤ level_target_bytes level options)
unfolding level_target_bytes
level_target_bytes-saturates options level deeper small le =
    let table = max options.target_table_bytes 1 in
    let multiplier = max options.level_size_multiplier 2 in
    let pos : 1 ≤ multiplier = omega arith in
    let here = grow_target-saturates (level - 1) multiplier table pos (omega (arith, small)) in
    let there = grow_target-saturates (deeper - 1) multiplier table pos (omega (arith, small)) in
    let powers : multiplier ^ (level - 1) ≤ multiplier ^ (deeper - 1) =
      pow-le-pow_right pos (omega (arith, le)) in
    let products = mul-le-mul_left table powers in
    let positive : table ≤ table * multiplier ^ (level - 1) =
      le-mul_of_pos_right table (one-le-pow (level - 1) multiplier pos) in
    (here, omega (arith, here, there, products), omega (arith, here, positive))
