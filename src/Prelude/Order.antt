-- ===== src/Prelude/Order.antt =====
-- `std::cmp::Ordering`, its `then_with` and `reverse`, and comparisons that are total preorders.
use Prim.Native.Nat.{ℕ, compare, Ordering}
use Prim.Native.Nat.Ordering.{lt, eq, gt}
use mathlib.Core.Path.{◌≡◌, refl}
use mathlib.Core.List.{List, [], ◌∷◌}
use native.Mathlib.Omega.{arith}

abbrev pub then_with : Ordering → Ordering → Ordering
then_with eq second = second
then_with lt second = lt
then_with gt second = gt

abbrev pub reverse_order : Ordering → Ordering
reverse_order lt = gt
reverse_order eq = eq
reverse_order gt = lt

-- The laws that `Ord` asks of `cmp`, less that equal things are identical.
pub record IsPreorder {ℓ} {A : Type ℓ} (cmp : A → A → Ordering) : Type ℓ where
  pub cmp_refl : (a : A) → cmp a a ≡ eq
  pub cmp_swap : (a b : A) → cmp b a ≡ reverse_order (cmp a b)
  pub lt_trans : (a b c : A) → cmp a b ≡ lt → cmp b c ≡ lt → cmp a c ≡ lt
  pub eq_left : (a b c : A) → cmp a b ≡ eq → cmp a c ≡ cmp b c

pub record IsOrder {ℓ} {A : Type ℓ} (cmp : A → A → Ordering) : Type ℓ where
  pub preorder : IsPreorder cmp
  pub open preorder use *
  pub eq_of_cmp : (a b : A) → cmp a b ≡ eq → a ≡ b

pub compare-IsOrder : IsOrder compare
compare-IsOrder = record {
  preorder = record {
    cmp_refl = λ a. ground arith;
    cmp_swap = λ a b. ground arith;
    lt_trans = λ a b c h k. ground arith;
    eq_left = λ a b c h. ground arith;
  };
  eq_of_cmp = λ a b h. ground arith;
}

module _ {ℓ} {A : Type ℓ} {cmp : A → A → Ordering} (o : IsPreorder cmp) where
  pub eq_right : (a b c : A) → cmp b c ≡ eq → cmp a b ≡ cmp a c
  eq_right a b c h =
      ground
        (arith, o.cmp_swap b a, o.cmp_swap c a, o.cmp_swap a b, o.cmp_swap a c, o.eq_left b c a h)

-- The lexicographic order of two preorders on one type.
module _ {ℓ} {A : Type ℓ} {c d : A → A → Ordering} (oc : IsPreorder c) (od : IsPreorder d) where
  lex_trans :
      (x y z : A)
      → then_with (c x y) (d x y) ≡ lt
      → then_with (c y z) (d y z) ≡ lt
      → then_with (c x z) (d x z) ≡ lt
  lex_trans x y z h k =
      ground (arith, oc.lt_trans x y z, od.lt_trans x y z, oc.eq_left x y z, eq_right oc x y z)

  pub lex-IsPreorder : IsPreorder (λ x y. then_with (c x y) (d x y))
  lex-IsPreorder = record {
    cmp_refl = λ a. ground (arith, oc.cmp_refl a, od.cmp_refl a);
    cmp_swap = λ a b. ground (arith, oc.cmp_swap a b, od.cmp_swap a b);
    lt_trans = lex_trans;
    eq_left = λ a b z h. ground (arith, oc.eq_left a b z, od.eq_left a b z);
  }

-- Comparing by a field, and comparing backwards.
pub on-IsPreorder {ℓ κ} :
    {A : Type ℓ} {B : Type κ} {cmp : B → B → Ordering} (f : A → B)
    → IsPreorder cmp
    → IsPreorder (λ (x y : A). cmp (f x) (f y))
on-IsPreorder f o = record {
  cmp_refl = λ a. o.cmp_refl (f a);
  cmp_swap = λ a b. o.cmp_swap (f a) (f b);
  lt_trans = λ a b c. o.lt_trans (f a) (f b) (f c);
  eq_left = λ a b c. o.eq_left (f a) (f b) (f c);
}

pub flip-IsPreorder {ℓ} :
    {A : Type ℓ} {cmp : A → A → Ordering} → IsPreorder cmp → IsPreorder (λ (x y : A). cmp y x)
flip-IsPreorder o = record {
  cmp_refl = λ a. o.cmp_refl a;
  cmp_swap = λ a b. o.cmp_swap b a;
  lt_trans = λ a b c h k. o.lt_trans c b a k h;
  eq_left = λ a b c h. eq_right o c a b (ground (arith, o.cmp_swap a b, h));
}

-- `[u8]::cmp`: lexicographic, a proper prefix first.
unfoldable pub compare_bytes : List ℕ → List ℕ → Ordering
compare_bytes [] [] = eq
compare_bytes [] (y ∷ ys) = lt
compare_bytes (x ∷ xs) [] = gt
compare_bytes (x ∷ xs) (y ∷ ys) = then_with (compare x y) (compare_bytes xs ys)

bytes_refl : (a : List ℕ) → compare_bytes a a ≡ eq
unfolding compare_bytes
bytes_refl [] = refl
bytes_refl (x ∷ xs) = ground (arith, bytes_refl xs)

bytes_swap : (a b : List ℕ) → compare_bytes b a ≡ reverse_order (compare_bytes a b)
unfolding compare_bytes
bytes_swap [] [] = refl
bytes_swap [] (y ∷ ys) = refl
bytes_swap (x ∷ xs) [] = refl
bytes_swap (x ∷ xs) (y ∷ ys) = ground (arith, bytes_swap xs ys)

bytes_eq : (a b : List ℕ) → compare_bytes a b ≡ eq → a ≡ b
unfolding compare_bytes
bytes_eq [] [] h = refl
bytes_eq [] (y ∷ ys) h = cc
bytes_eq (x ∷ xs) [] h = cc
bytes_eq (x ∷ xs) (y ∷ ys) h = ground (arith, bytes_eq xs ys)

bytes_trans :
    (a b c : List ℕ) → compare_bytes a b ≡ lt → compare_bytes b c ≡ lt → compare_bytes a c ≡ lt
unfolding compare_bytes
bytes_trans [] [] c h k = cc
bytes_trans [] (y ∷ ys) [] h k = cc
bytes_trans [] (y ∷ ys) (z ∷ zs) h k = refl
bytes_trans (x ∷ xs) [] c h k = cc
bytes_trans (x ∷ xs) (y ∷ ys) [] h k = cc
bytes_trans (x ∷ xs) (y ∷ ys) (z ∷ zs) h k = ground (arith, bytes_trans xs ys zs)

-- The order of user keys.
pub compare_bytes-IsOrder : IsOrder compare_bytes
compare_bytes-IsOrder = record {
  preorder = record {
    cmp_refl = bytes_refl;
    cmp_swap = bytes_swap;
    lt_trans = bytes_trans;
    eq_left = λ a b c h. ground (arith, bytes_eq a b h);
  };
  eq_of_cmp = bytes_eq;
}
