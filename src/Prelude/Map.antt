-- ===== src/Prelude/Map.antt =====
-- `std::collections::BTreeMap` with integer keys, as the list of its entries in ascending order.
use trine_kv.Prelude.Tests.{◌==◌, if◌then◌else◌}
use Prim.Native.Nat.{ℕ, ◌≤◌, ◌<◌, compare}
use Prim.Native.Nat.Ordering.{lt, eq, gt}
use mathlib.Core.Path.{◌≡◌, refl}
use mathlib.Core.List.{List, [], ◌∷◌}
use mathlib.Core.Option.{Option, none, some}
use mathlib.Core.Logic.{◌⊎◌, inl, inr}
use native.Mathlib.Omega.{arith}
use trine_kv.Prelude.Lists.{length, All, All-imp, Pairwise}

compare_cases : (a b : ℕ) → (compare a b ≡ lt) ⊎ ((compare a b ≡ eq) ⊎ (compare a b ≡ gt))
compare_cases a b = ground arith

abbrev pub NatMap {ℓ} : Type ℓ → Type ℓ
NatMap V = List (ℕ × V)

module _ {ℓ} {V : Type ℓ} where
  unfoldable pub lookup : ℕ → NatMap V → Option V
  lookup asked [] = none
  lookup asked ((key, value) ∷ entries) = if key == asked then some value else lookup asked entries

  unfoldable pub insert : ℕ → V → NatMap V → NatMap V
  insert k v [] = (k, v) ∷ []
  insert k v ((j, w) ∷ m) =
      let rest = insert k v m in
      elim (compare k j) [ lt ↦ (k, v) ∷ (j, w) ∷ m | eq ↦ (k, v) ∷ m | gt ↦ (j, w) ∷ rest ]

  unfoldable pub remove : ℕ → NatMap V → NatMap V
  remove k [] = []
  remove k ((j, v) ∷ m) = let rest = remove k m in if j == k then rest else (j, v) ∷ rest

  -- `keys().next()`
  unfoldable pub first_key : NatMap V → Option ℕ
  first_key [] = none
  first_key ((k, v) ∷ m) = some k

  -- `keys().next_back()`
  unfoldable pub last_key : NatMap V → Option ℕ
  last_key [] = none
  last_key ((k, v) ∷ []) = some k
  last_key (e ∷ f ∷ m) = last_key (f ∷ m)

  abbrev pub Ascends : NatMap V → Type 0
  Ascends m = Pairwise (λ (e f : ℕ × V). e.0 < f.0) m

  pub lookup-insert :
      (key asked : ℕ) (value : V) (entries : NatMap V)
      → lookup asked (insert key value entries)
        ≡ (if key == asked then some value else lookup asked entries)
  unfolding insert lookup
  lookup-insert key asked value [] = refl
  lookup-insert key asked value (e ∷ entries) =
      ground (arith, lookup-insert key asked value entries)

  pub lookup-remove :
      (k j : ℕ) (m : NatMap V) → lookup j (remove k m) ≡ (if k == j then none else lookup j m)
  unfolding lookup remove
  lookup-remove k j [] = ground arith
  lookup-remove k j ((i, w) ∷ m) = ground (arith, lookup-remove k j m)

  pub length-remove-le : (k : ℕ) (m : NatMap V) → length (remove k m) ≤ length m
  unfolding remove
  length-remove-le k [] = omega arith
  length-remove-le k ((i, w) ∷ m) = ground (arith, length-remove-le k m)

  pub length-remove-lt :
      (k : ℕ) (m : NatMap V) (v : V) → lookup k m ≡ some v → length (remove k m) < length m
  unfolding lookup remove
  length-remove-lt k [] v h = cc
  length-remove-lt k ((i, w) ∷ m) v h = ground (arith, length-remove-lt k m v, length-remove-le k m)

  -- In an ascending map the first key is the least, the last key the greatest.
  All-insert {κ} :
      (P : ℕ × V → Type κ) (k : ℕ) (v : V) (m : NatMap V)
      → P (k, v)
      → All P m
      → All P (insert k v m)
  unfolding insert
  All-insert P k v [] p h = (p, tt)
  All-insert P k v ((j, w) ∷ m) p h = ground (arith, All-insert P k v m p h.1)

  All-remove {κ} : (P : ℕ × V → Type κ) (k : ℕ) (m : NatMap V) → All P m → All P (remove k m)
  unfolding remove
  All-remove P k [] h = tt
  All-remove P k ((j, w) ∷ m) h = ground (arith, All-remove P k m h.1)

  pub insert-Ascends : (k : ℕ) (v : V) (m : NatMap V) → Ascends m → Ascends (insert k v m)
  unfolding insert
  insert-Ascends k v [] h = (tt, tt)
  insert-Ascends k v ((j, w) ∷ m) h = elim (compare_cases k j) [
    | inl e ↦
        rw (e, insert) ((ground arith, All-imp {P = λ x. j < x.0} (λ x l. ground arith) m h.0), h)
    | inr (inl e) ↦ rw (e, insert) (All-imp {P = λ x. j < x.0} (λ x l. ground arith) m h.0, h.1)
    | inr (inr e) ↦
        rw (e, insert)
          (All-insert (λ x. j < x.0) k v m (ground arith) h.0, insert-Ascends k v m h.1)
  ]

  pub remove-Ascends : (k : ℕ) (m : NatMap V) → Ascends m → Ascends (remove k m)
  unfolding remove
  remove-Ascends k [] h = tt
  remove-Ascends k ((j, w) ∷ m) h =
      ground (arith, remove-Ascends k m h.1, All-remove (λ e. j < e.0) k m h.0)

  above-All : (b k : ℕ) (m : NatMap V) (v : V) → All (λ e. b < e.0) m → lookup k m ≡ some v → b < k
  unfolding lookup
  above-All b k [] v h e = cc
  above-All b k ((j, w) ∷ m) v h e = ground (arith, above-All b k m v h.1)

  pub first_key_least :
      (m : NatMap V) (f k : ℕ) (v : V)
      → Ascends m
      → first_key m ≡ some f
      → lookup k m ≡ some v
      → f ≤ k
  unfolding lookup first_key
  first_key_least [] f k v h e g = cc
  first_key_least ((j, w) ∷ m) f k v h e g = ground (arith, above-All j k m v h.0)

  pub last_key_greatest :
      (m : NatMap V) (l k : ℕ) (v : V)
      → Ascends m
      → last_key m ≡ some l
      → lookup k m ≡ some v
      → k ≤ l
  unfolding lookup last_key
  last_key_greatest [] l k v h e g = cc
  last_key_greatest ((j, w) ∷ []) l k v h e g = ground arith
  last_key_greatest ((j, w) ∷ (i, u) ∷ m) l k v h e g = ground (
    arith,
    last_key_greatest ((i, u) ∷ m) l k v h.1 e,
    last_key_greatest ((i, u) ∷ m) l i u h.1 e (ground arith),
    h.0,
  )

  below-All : (b k : ℕ) (m : NatMap V) → All (λ e. b < e.0) m → last_key m ≡ some k → b < k
  unfolding last_key
  below-All b k [] h e = cc
  below-All b k (f ∷ []) h e = ground arith
  below-All b k (f ∷ g ∷ m) h e = below-All b k (g ∷ m) h.1 e

  pub last_key_is_entry :
      (m : NatMap V) (l : ℕ) → Ascends m → last_key m ≡ some l → (v : V) × (lookup l m ≡ some v)
  unfolding lookup last_key
  last_key_is_entry [] l h e = cc
  last_key_is_entry ((j, w) ∷ []) l h e = (w, ground arith)
  last_key_is_entry ((j, w) ∷ (i, u) ∷ m) l h e =
      let (v, found) = last_key_is_entry ((i, u) ∷ m) l h.1 e in
      (v, ground (arith, found, below-All j l ((i, u) ∷ m) h.0 e))

  pub first_key-none : (m : NatMap V) (k : ℕ) → first_key m ≡ none → lookup k m ≡ none
  unfolding lookup first_key
  first_key-none [] k h = refl
  first_key-none (e ∷ m) k h = cc

  pub last_key-none : (m : NatMap V) (k : ℕ) → last_key m ≡ none → lookup k m ≡ none
  unfolding lookup last_key
  last_key-none [] k h = refl
  last_key-none (e ∷ []) k h = cc
  last_key-none (e ∷ f ∷ m) k h = absurd (never f m h)
    where
      never : (f : ℕ × V) (m : NatMap V) → ¬ (last_key (f ∷ m) ≡ none)
      never f [] h = cc
      never f (g ∷ m) h = never g m h
