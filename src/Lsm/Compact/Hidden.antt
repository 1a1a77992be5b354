-- ===== src/Lsm/Compact/Hidden.antt =====
-- A record that a retention-safe range tombstone hides may go (src/lsm/compact.rs).
use trine_kv.Prelude.{
  some-injective, ◌≤◌, ◌≡◌, refl, sym, ap, ◌∙◌, subst, ◌⊎◌, Bool, true, ◌&&◌, List, [], ◌∷◌, Option,
  none, some, any, ltb, leb, arith, Bool-cases, inl, inr,
}
use trine_kv.Prelude.Order.{compare_bytes, compare_bytes-IsOrder}
use trine_kv.Keys.{Bytes, Sequence, compare_keys}
use trine_kv.Keys.Laws.{compare_keys-IsOrder}
use trine_kv.RangeTombstone.{key_is_in_range}
use trine_kv.Lsm.{MemtableEntry, Tombstone}
use trine_kv.Lsm.Point.{key_lt, keep_newer_point_candidate}
use trine_kv.Lsm.Candidate.{KeyLeq}
use trine_kv.Lsm.Keeping.{OfKey}

pub any_imp :
    {A : Type 0} (p q : A → Bool) (xs : List A)
    → ((x : A) → p x ≡ true → q x ≡ true)
    → any p xs ≡ true
    → any q xs ≡ true
any_imp p q [] h k = cc
any_imp p q (x ∷ xs) h k = elim (Bool-cases (p x)) [
  | inl t ↦ ground (arith, h x t)
  | inr f ↦ ground (arith, any_imp p q xs h (ground (arith, f, k)))
]

-- The newer of a candidate and a record.
keep_cases :
    (c : Option MemtableEntry) (e : MemtableEntry)
    → ((keep_newer_point_candidate c e ≡ some e) × ((x : MemtableEntry) → c ≡ some x → KeyLeq e x))
      ⊎ ((x : MemtableEntry) × (c ≡ some x)
          × (keep_newer_point_candidate c e ≡ some x)
          × KeyLeq x e)
unfolding keep_newer_point_candidate
keep_cases none e = inl (refl, λ x h. cc)
keep_cases (some a) e = elim (Bool-cases (key_lt e.key a.key)) [
  | inl t ↦ inl (rw t, λ x h. subst (KeyLeq e) (some-injective a x h) (ground (arith, t)))
  | inr f ↦
      inr (a, refl, rw f, ground (arith, f, compare_keys-IsOrder.preorder.cmp_swap e.key a.key))
]

-- Of two records of one user key the one in front is at least as new.
pub older_sequence :
    (e x : MemtableEntry)
    → KeyLeq e x
    → e.key.user_key ≡ x.key.user_key
    → x.key.sequence ≤ e.key.sequence
unfolding compare_keys
older_sequence e x h same = ground (
  arith,
  ap (λ k. compare_bytes k x.key.user_key) same,
  compare_bytes-IsOrder.preorder.cmp_refl x.key.user_key,
  h,
)

module _ (key : Bytes) (oldest : Sequence) (tombstones : List Tombstone) where
  -- Whether a retention-safe tombstone is above a record of the key at a sequence.
  abbrev pub hides : Sequence → Bool
  hides sequence =
      any (λ t. leb t.sequence oldest && (ltb sequence t.sequence && key_is_in_range key t.range))
        tombstones

  hides_mono : (s s' : Sequence) → s ≤ s' → hides s' ≡ true → hides s ≡ true
  hides_mono s s' le h =
      any_imp (λ t. leb t.sequence oldest && (ltb s' t.sequence && key_is_in_range key t.range))
        (λ t. leb t.sequence oldest && (ltb s t.sequence && key_is_in_range key t.range)) tombstones
        (λ t k. ground (arith, k, le)) h

  -- A record of the key that is hidden.
  abbrev pub Buried : MemtableEntry → Type 0
  Buried e = (e.key.user_key ≡ key) × (hides e.key.sequence ≡ true)

  -- Nothing, or a record that is hidden.
  abbrev pub Dead : Option MemtableEntry → Type 0
  Dead c = (e : MemtableEntry) → c ≡ some e → Buried e

  -- Two candidates that a reader cannot tell apart.
  abbrev pub Alike : Option MemtableEntry → Option MemtableEntry → Type 0
  Alike c c' = (c ≡ c') ⊎ (Dead c × Dead c')

  -- What is behind a hidden record is hidden.
  behind : (e x : MemtableEntry) → Buried e → KeyLeq e x → x.key.user_key ≡ key → Buried x
  behind e x (same, h) le same' =
      (same', hides_mono x.key.sequence e.key.sequence (older_sequence e x le (same ∙ sym same')) h)

  Dead-of : (c : Option MemtableEntry) (e : MemtableEntry) → c ≡ some e → Buried e → Dead c
  Dead-of c e same b x found = subst Buried (some-injective e x (sym same ∙ found)) b

  pub Alike-keep :
      (c c' : Option MemtableEntry) (e : MemtableEntry)
      → e.key.user_key ≡ key
      → Alike c c'
      → Alike (keep_newer_point_candidate c e) (keep_newer_point_candidate c' e)
  Alike-keep c c' e same (inl h) = inl (ap (λ k. keep_newer_point_candidate k e) h)
  Alike-keep c c' e same (inr (d, d')) = elim (keep_cases c e) [
    | inl (now, _) ↦ elim (keep_cases c' e) [
      | inl (now', _) ↦ inl (now ∙ sym now')
      | inr (x, found, now', le) ↦ inr (
        Dead-of (keep_newer_point_candidate c e) e now (behind x e (d' x found) le same),
        Dead-of (keep_newer_point_candidate c' e) x now' (d' x found),
      )
    ]
    | inr (x, found, now, le) ↦ elim (keep_cases c' e) [
      | inl (now', _) ↦ inr (
        Dead-of (keep_newer_point_candidate c e) x now (d x found),
        Dead-of (keep_newer_point_candidate c' e) e now' (behind x e (d x found) le same),
      )
      | inr (y, found', now', le') ↦ inr (
        Dead-of (keep_newer_point_candidate c e) x now (d x found),
        Dead-of (keep_newer_point_candidate c' e) y now' (d' y found'),
      )
    ]
  ]

  -- A hidden record may be left out.
  pub Alike-drop :
      (c c' : Option MemtableEntry) (e : MemtableEntry)
      → Buried e
      → OfKey key c'
      → Alike c c'
      → Alike c (keep_newer_point_candidate c' e)
  Alike-drop c c' e b of_key (inl h) = elim (keep_cases c' e) [
    | inl (now, above) ↦ inr (
      λ x found. behind e x b (above x (sym h ∙ found)) (of_key x (sym h ∙ found)),
      Dead-of (keep_newer_point_candidate c' e) e now b,
    )
    | inr (x, found, now, le) ↦ inl (h ∙ found ∙ sym now)
  ]
  Alike-drop c c' e b of_key (inr (d, d')) = elim (keep_cases c' e) [
    | inl (now, above) ↦ inr (d, Dead-of (keep_newer_point_candidate c' e) e now b)
    | inr (x, found, now, le) ↦
        inr (d, Dead-of (keep_newer_point_candidate c' e) x now (d' x found))
  ]

  pub OfKey-keep :
      (c : Option MemtableEntry) (e : MemtableEntry)
      → e.key.user_key ≡ key
      → OfKey key c
      → OfKey key (keep_newer_point_candidate c e)
  OfKey-keep c e same of_key x found = elim (keep_cases c e) [
    | inl (now, above) ↦
        subst (λ r. r.key.user_key ≡ key) (some-injective e x (sym now ∙ found)) same
    | inr (y, found', now, le) ↦
        subst (λ r. r.key.user_key ≡ key) (some-injective y x (sym now ∙ found)) (of_key y found')
  ]
