-- ===== src/Prelude/Sort.antt =====
-- The stable `sort_by` of `std`: its result is sorted, and a permutation.
use Prim.Native.Nat.{Ordering}
use Prim.Native.Nat.Ordering.{lt, eq, gt}
use mathlib.Core.Path.{◌≡◌, refl, ap, ◌∙◌}
use mathlib.Core.Bool.{Bool, true, false, ◌||◌}
use mathlib.Core.List.{List, [], ◌∷◌, Perm}
use mathlib.Core.List.Perm
use native.Mathlib.Omega.{arith}
use trine_kv.Prelude.Tests.{if◌then◌else◌, Bool-cases}
use trine_kv.Prelude.Lists.{All, All-imp, Pairwise, filter, any}
use trine_kv.Prelude.Order.{IsPreorder, eq_right}
use mathlib.Core.Logic.{inl, inr}

abbrev pub is_le : Ordering → Bool
is_le gt = false
is_le lt = true
is_le eq = true

module _ {ℓ} {A : Type ℓ} (cmp : A → A → Ordering) where
  -- In front of the first element that is not smaller: equal elements keep their order.
  unfoldable pub insert_by : A → List A → List A
  insert_by x [] = x ∷ []
  insert_by x (y ∷ ys) =
      let rest = insert_by x ys in if is_le (cmp x y) then x ∷ y ∷ ys else y ∷ rest

  unfoldable pub sort_by : List A → List A
  unfolding insert_by
  sort_by [] = []
  sort_by (x ∷ xs) = insert_by x (sort_by xs)

  abbrev pub Leq : A → A → Type 0
  Leq x y = is_le (cmp x y) ≡ true

  abbrev pub IsSorted : List A → Type 0
  IsSorted = Pairwise Leq

module _ {ℓ} {A : Type ℓ} {cmp : A → A → Ordering} (o : IsPreorder cmp) where
  pub Leq-trans : (x y z : A) → Leq cmp x y → Leq cmp y z → Leq cmp x z
  Leq-trans x y z h k = ground (arith, o.lt_trans x y z, o.eq_left x y z, eq_right o x y z)

  pub Leq-total : (x y : A) → is_le (cmp x y) ≡ false → Leq cmp y x
  Leq-total x y h = ground (arith, o.cmp_swap x y)

  pub All-insert_by {κ} :
      (P : A → Type κ) (x : A) (ys : List A) → P x → All P ys → All P (insert_by cmp x ys)
  unfolding insert_by
  All-insert_by P x [] p h = (p, tt)
  All-insert_by P x (y ∷ ys) p h = ground (arith, All-insert_by P x ys p h.1)

  pub insert_by-IsSorted :
      (x : A) (ys : List A) → IsSorted cmp ys → IsSorted cmp (insert_by cmp x ys)
  unfolding insert_by
  insert_by-IsSorted x [] h = (tt, tt)
  insert_by-IsSorted x (y ∷ ys) h = elim (Bool-cases (is_le (cmp x y))) [
    | inl e ↦ rw e ((e, All-imp {P = Leq cmp y} (λ z. Leq-trans x y z e) ys h.0), h)
    | inr e ↦
        rw e (All-insert_by (Leq cmp y) x ys (Leq-total x y e) h.0, insert_by-IsSorted x ys h.1)
  ]

  pub sort_by-IsSorted : (xs : List A) → IsSorted cmp (sort_by cmp xs)
  unfolding sort_by
  sort_by-IsSorted [] = tt
  sort_by-IsSorted (x ∷ xs) = insert_by-IsSorted x (sort_by cmp xs) (sort_by-IsSorted xs)

module _ {ℓ} {A : Type ℓ} (cmp : A → A → Ordering) (q : A → Bool) where
  filter-insert_by :
      (x : A) (ys : List A) → Perm (filter q (insert_by cmp x ys)) (filter q (x ∷ ys))
  unfolding insert_by
  filter-insert_by x [] = Perm.refl (filter q (x ∷ []))
  filter-insert_by x (y ∷ ys) = elim (Bool-cases (is_le (cmp x y))) [
    | inl e ↦ rw e (Perm.refl (filter q (x ∷ y ∷ ys)))
    | inr e ↦ rw e (past (filter-insert_by x ys))
  ]
    where
      past :
          Perm (filter q (insert_by cmp x ys)) (filter q (x ∷ ys))
          → Perm (filter q (y ∷ insert_by cmp x ys)) (filter q (x ∷ y ∷ ys))
      past h = elim (Bool-cases (q y)) [
        | inl ey ↦ elim (Bool-cases (q x)) [
          | inl ex ↦
              rw (ey, ex) (Perm.trans (Perm.cons y (rw ex at h)) (Perm.swap x y (filter q ys)))
          | inr ex ↦ rw (ey, ex) (Perm.cons y (rw ex at h))
        ]
        | inr ey ↦ rw ey h
      ]

  -- Filtering after the sort gives what filtering the unsorted list gives, in some order.
  pub filter-sort_by : (xs : List A) → Perm (filter q (sort_by cmp xs)) (filter q xs)
  unfolding sort_by
  filter-sort_by [] = Perm.refl []
  filter-sort_by (x ∷ xs) =
      Perm.trans (filter-insert_by x (sort_by cmp xs)) (step (filter-sort_by xs))
    where
      step :
          Perm (filter q (sort_by cmp xs)) (filter q xs)
          → Perm (filter q (x ∷ sort_by cmp xs)) (filter q (x ∷ xs))
      step h = elim (Bool-cases (q x)) [ inl e ↦ rw e (Perm.cons x h) | inr e ↦ rw e h ]

-- Whether a test holds of some element does not depend on the order.
module _ {ℓ} {A : Type ℓ} (cmp : A → A → Ordering) (p : A → Bool) where
  any-insert_by : (x : A) (ys : List A) → any p (insert_by cmp x ys) ≡ (p x || any p ys)
  unfolding insert_by
  any-insert_by x [] = refl
  any-insert_by x (y ∷ ys) = ground (arith, any-insert_by x ys)

  pub any-sort_by : (xs : List A) → any p (sort_by cmp xs) ≡ any p xs
  unfolding sort_by
  any-sort_by [] = refl
  any-sort_by (x ∷ xs) = any-insert_by x (sort_by cmp xs) ∙ ap (λ b. p x || b) (any-sort_by xs)
