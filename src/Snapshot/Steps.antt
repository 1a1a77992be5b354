-- ===== src/Snapshot/Steps.antt =====
-- The sections of the snapshot tracker's locks as steps, and what each keeps (src/snapshot.rs).
use trine_kv.Prelude.{
  ℕ, ◌+◌, ◌≤◌, ◌<◌, min, ◌-◌, ap, sym, ◌≡◌, inl, inr, Bool, false, not, ◌&&◌, ◌||◌, List, [], ◌∷◌,
  any, Option, none, some, arith, Option-cases, Bool-cases, ltb, leb, ◌==◌, if◌then◌else◌,
}
use trine_kv.Prelude.Map.{
  lookup, first_key, lookup-insert, lookup-remove, Ascends, insert-Ascends, remove-Ascends,
  first_key_least, first_key-none,
}
use trine_kv.Error.{ok}
use trine_kv.Keys.{Sequence}
use trine_kv.Snapshot.{
  SnapshotTracker, new_tracker, or_default, increment, pin, unpin, oldest_active_or,
  pinned_retained_snapshot, begin_compaction, drop_compaction_guard,
}

abbrev pub IsPinned : SnapshotTracker → Sequence → Type 0
IsPinned t s = (n : ℕ) × (lookup s t.active ≡ some n)

abbrev pub IsFloor : SnapshotTracker → Sequence → Type 0
IsFloor t f = (n : ℕ) × (lookup f t.compaction_floors ≡ some n)

-- The tracker, and the versions that hold a plain pin taken below a floor, which the code does not
-- record.
pub record Tracked : Type 0 where
  pub tracker : SnapshotTracker
  pub unchecked : Sequence → Bool

abbrev pub new_tracked : Tracked
new_tracked = record { tracker = new_tracker; unchecked = λ s. false }

-- Whether an admitted compaction works above the version.
abbrev pub is_passed : Sequence → List (Sequence × ℕ) → Bool
is_passed read floors = any (λ e. ltb read e.0) floors

-- A plain pin is noted if its version is passed, and the note goes with the version's last handle.
abbrev pub note_pin : Sequence → Tracked → Sequence → Bool
note_pin read h k = (read == k && is_passed read h.tracker.compaction_floors) || h.unchecked k

abbrev pub note_drop : Sequence → Tracked → Sequence → Bool
note_drop s h k = not (s == k && leb (or_default (lookup s h.tracker.active)) 1) && h.unchecked k

pub record IsSafe (h : Tracked) : Type 0 where
  pub pins_ascend : Ascends h.tracker.active
  pub floors_ascend : Ascends h.tracker.compaction_floors
  pub pins_positive : (s n : ℕ) → lookup s h.tracker.active ≡ some n → 0 < n
  pub floors_below_pins :
      (f s m n : ℕ)
      → lookup f h.tracker.compaction_floors ≡ some m
      → lookup s h.tracker.active ≡ some n
      → h.unchecked s ≡ false
      → f ≤ s

-- A section of the tracker's locks, as the callers make them: admissions and plain pins of any
-- version, clones of handles to a version that is pinned, drops of handles, and the start and the end
-- of compactions.
pub data Step : Tracked → Tracked → Type 0 where
  admit :
      (h : Tracked) (u : SnapshotTracker) (read latest retained : Sequence)
      → pinned_retained_snapshot read latest retained h.tracker ≡ ok u
      → Step h (record h { tracker = u })
  pin_current :
      (h : Tracked) (read : Sequence)
      → Step h (record { tracker = pin read h.tracker; unchecked = note_pin read h })
  clone :
      (h : Tracked) (s : Sequence)
      → IsPinned h.tracker s
      → Step h (record h { tracker = pin s h.tracker })
  drop :
      (h : Tracked) (s : Sequence)
      → Step h (record { tracker = unpin s h.tracker; unchecked = note_drop s h })
  begin_compact :
      (h : Tracked) (retained : Sequence)
      → Step h (record h { tracker = (begin_compaction retained h.tracker).1 })
  end_compact :
      (h : Tracked) (f : Sequence)
      → Step h (record h { tracker = drop_compaction_guard f h.tracker })

pub data Reach : Tracked → Type 0 where
  here : Reach new_tracked
  next : {h k : Tracked} → Reach h → Step h k → Reach k

pub is_passed_lem :
    (read f m : Sequence) (floors : List (Sequence × ℕ))
    → is_passed read floors ≡ false
    → lookup f floors ≡ some m
    → f ≤ read
unfolding lookup
is_passed_lem read f m [] h e = cc
is_passed_lem read f m (x ∷ floors) h e = ground (arith, is_passed_lem read f m floors)

-- A pin of a version that is noted, or that no floor is above.
pub pin-IsSafe :
    (h : Tracked) (s : Sequence) (unchecked : Sequence → Bool)
    → IsSafe h
    → ((k : Sequence) → unchecked k ≡ false → h.unchecked k ≡ false)
    → (unchecked s ≡ false → (f m : ℕ) → lookup f h.tracker.compaction_floors ≡ some m → f ≤ s)
    → IsSafe (record { tracker = pin s h.tracker; unchecked = unchecked })
unfolding pin increment
pin-IsSafe h s unchecked v kept above =
    let t = h.tracker in
    record {
      pins_ascend = insert-Ascends s _ t.active v.pins_ascend;
      floors_ascend = v.floors_ascend;
      pins_positive = λ k n e. ground (
        arith,
        v.pins_positive k n,
        lookup-insert s k (or_default (lookup s t.active) + 1) t.active,
      );
      floors_below_pins = λ f k m n e g c. elim (Bool-cases (s == k)) [
        | inl y ↦ let same : s ≡ k = ground (arith, y) in rw (sym same) (above (rw same c) f m e)
        | inr z ↦
            v.floors_below_pins f k m n e
              (ground
                (arith, z, g, lookup-insert s k (or_default (lookup s t.active) + 1) t.active))
              (kept k c)
      ];
    }

-- One handle fewer.
abbrev lower : Option ℕ → Option ℕ
lower none = none
lower (some c) = if leb c 1 then none else some (c - 1)

module _ (t : SnapshotTracker) (s : Sequence) where
  pub lookup-unpin :
      (k : Sequence)
      → lookup k (unpin s t).active
        ≡ (if s == k then lower (lookup s t.active) else lookup k t.active)
  unfolding unpin
  lookup-unpin k = ground (
    arith,
    lookup-remove s k t.active,
    lookup-insert s k (or_default (lookup s t.active) - 1) t.active,
  )

  unpin-Ascends : Ascends t.active → Ascends (unpin s t).active
  unfolding unpin
  unpin-Ascends h = ground (
    arith,
    remove-Ascends s t.active h,
    insert-Ascends s (or_default (lookup s t.active) - 1) t.active h,
  )

  unpin_floors : (unpin s t).compaction_floors ≡ t.compaction_floors
  unfolding unpin
  unpin_floors = ground arith

  lookup-drop_guard :
      (k : Sequence)
      → lookup k (drop_compaction_guard s t).compaction_floors
        ≡ (if s == k then lower (lookup s t.compaction_floors) else lookup k t.compaction_floors)
  unfolding drop_compaction_guard
  lookup-drop_guard k = ground (
    arith,
    lookup-remove s k t.compaction_floors,
    lookup-insert s k (or_default (lookup s t.compaction_floors) - 1) t.compaction_floors,
  )

  drop_guard-Ascends :
      Ascends t.compaction_floors → Ascends (drop_compaction_guard s t).compaction_floors
  unfolding drop_compaction_guard
  drop_guard-Ascends h = ground (
    arith,
    remove-Ascends s t.compaction_floors h,
    insert-Ascends s (or_default (lookup s t.compaction_floors) - 1) t.compaction_floors h,
  )

  drop_guard_active : (drop_compaction_guard s t).active ≡ t.active
  unfolding drop_compaction_guard
  drop_guard_active = ground arith

module _ (h : Tracked) (s : Sequence) where
  pub unpin-IsSafe :
      IsSafe h → IsSafe (record { tracker = unpin s h.tracker; unchecked = note_drop s h })
  unpin-IsSafe v =
      let t = h.tracker in
      record {
        pins_ascend = unpin-Ascends t s v.pins_ascend;
        floors_ascend = rw (unpin_floors t s) v.floors_ascend;
        pins_positive = λ k n e. ground (arith, lookup-unpin t s k, v.pins_positive k n);
        floors_below_pins = λ f k m n e g c. ground (
          arith,
          lookup-unpin t s k,
          v.floors_below_pins f k m n,
          v.floors_below_pins f s m (or_default (lookup s t.active)),
          ap (lookup f) (unpin_floors t s),
        );
      }

  pub drop_guard-IsSafe :
      IsSafe h → IsSafe (record h { tracker = drop_compaction_guard s h.tracker })
  drop_guard-IsSafe v =
      let t = h.tracker in
      record {
        pins_ascend = rw (drop_guard_active t s) v.pins_ascend;
        floors_ascend = drop_guard-Ascends t s v.floors_ascend;
        pins_positive = λ k n e. v.pins_positive k n (rw (drop_guard_active t s) at e);
        floors_below_pins = λ f k m n e g c. ground (
          arith,
          lookup-drop_guard t s f,
          ap (lookup k) (drop_guard_active t s),
          v.floors_below_pins f k m n,
          v.floors_below_pins f k (or_default (lookup f t.compaction_floors)) n,
        );
      }

  pub begin-IsSafe : IsSafe h → IsSafe (record h { tracker = (begin_compaction s h.tracker).1 })
  unfolding begin_compaction oldest_active_or increment
  begin-IsSafe v =
      let t = h.tracker in
      record {
        pins_ascend = v.pins_ascend;
        floors_ascend = insert-Ascends _ _ t.compaction_floors v.floors_ascend;
        pins_positive = v.pins_positive;
        floors_below_pins = λ f k m n e g c. elim (Option-cases (first_key t.active)) [
          | inl none_pinned ↦ cc (first_key-none t.active k none_pinned)
          | inr (least, is_least) ↦ ground (
            arith,
            v.floors_below_pins f k m n,
            first_key_least t.active least k n v.pins_ascend is_least g,
            lookup-insert (min least s) f
                (or_default (lookup (min least s) t.compaction_floors) + 1) t.compaction_floors,
          )
        ];
      }
