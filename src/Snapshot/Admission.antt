-- ===== src/Snapshot/Admission.antt =====
-- No admitted compaction works above a pinned read version (src/snapshot.rs).
use trine_kv.Prelude.{◌+◌, ◌≤◌, min, subst, ◌≡◌, ◌↔◌, inl, inr, false, some, arith, Option-cases}
use trine_kv.Prelude.Map.{
  lookup, last_key, lookup-insert, last_key_greatest, last_key-none, last_key_is_entry,
}
use trine_kv.Error.{ok}
use trine_kv.Keys.{Sequence}
use trine_kv.Snapshot.{
  SnapshotTracker, or_default, increment, pin, unpin, oldest_active_or, is_below,
  pinned_retained_snapshot, classify_snapshot_reachability,
}
use trine_kv.Snapshot.Steps.{
  IsPinned, IsFloor, IsSafe, Tracked, note_pin, is_passed_lem, Step, admit, pin_current, clone,
  drop, begin_compact, end_compact, Reach, here, next, pin-IsSafe, lookup-unpin, unpin-IsSafe,
  drop_guard-IsSafe, begin-IsSafe,
}

-- The admission test compares with the greatest floor, so it is a test against all of them.
not_below_floors :
    (h : Tracked) (read f m : Sequence)
    → IsSafe h
    → is_below read (last_key h.tracker.compaction_floors) ≡ false
    → lookup f h.tracker.compaction_floors ≡ some m
    → f ≤ read
not_below_floors h read f m v b e =
    let floors = h.tracker.compaction_floors in
    elim (Option-cases (last_key floors)) [
      | inl n ↦ cc (last_key-none floors f n)
      | inr (last, is_last) ↦
          ground (arith, last_key_greatest floors last f m v.floors_ascend is_last e)
    ]

admit_inversion :
    (t u : SnapshotTracker) (read latest retained : Sequence)
    → pinned_retained_snapshot read latest retained t ≡ ok u
    → (is_below read (last_key t.compaction_floors) ≡ false) × (pin read t ≡ u)
unfolding pinned_retained_snapshot
admit_inversion t u read latest retained h = ground arith

Step-IsSafe : {h k : Tracked} → Step h k → IsSafe h → IsSafe k
Step-IsSafe (admit h u read latest retained e) v =
    let (above, pinned) = admit_inversion h.tracker u read latest retained e in
    subst (λ t. IsSafe (record h { tracker = t })) pinned
      (pin-IsSafe h read h.unchecked v (λ k c. c) (λ c f m. not_below_floors h read f m v above))
Step-IsSafe (pin_current h read) v =
    pin-IsSafe h read (note_pin read h) v (λ k c. ground (arith, c))
      (λ c f m. is_passed_lem read f m h.tracker.compaction_floors (ground (arith, c)))
Step-IsSafe (clone h s (n, e)) v =
    pin-IsSafe h s h.unchecked v (λ k c. c) (λ c f m g. v.floors_below_pins f s m n g e c)
Step-IsSafe (drop h s) v = unpin-IsSafe h s v
Step-IsSafe (begin_compact h retained) v = begin-IsSafe h retained v
Step-IsSafe (end_compact h f) v = drop_guard-IsSafe h f v

Reach-IsSafe : {h : Tracked} → Reach h → IsSafe h
unfolding lookup
Reach-IsSafe here = record {
  pins_ascend = tt;
  floors_ascend = tt;
  pins_positive = λ s n e. cc;
  floors_below_pins = λ f s m n e g c. cc;
}
Reach-IsSafe (next r st) = Step-IsSafe st (Reach-IsSafe r)

-- In every state that the tracker reaches, whatever the order of admissions, plain pins of any
-- version, clones, drops and compactions, no admitted compaction has a floor above a pinned read
-- version, unless a plain pin was taken for that version when a floor was above it and a handle to the
-- version has been held ever since.
pub floor_below_every_pin :
    (h : Tracked) (f s : Sequence)
    → Reach h
    → IsFloor h.tracker f
    → IsPinned h.tracker s
    → h.unchecked s ≡ false
    → f ≤ s
floor_below_every_pin h f s r (m, e) (n, g) c = (Reach-IsSafe r).floors_below_pins f s m n e g c

-- A retained snapshot is admitted exactly when its version is not above the latest, not below the
-- oldest retained version and not below any admitted compaction's floor; then it is pinned.
pub admitted_iff :
    (h : Tracked) (read latest retained : Sequence)
    → Reach h
    → (pinned_retained_snapshot read latest retained h.tracker ≡ ok (pin read h.tracker)) ↔ (
        ((f : Sequence) → IsFloor h.tracker f → f ≤ read)
        × (read ≤ latest)
        × (min (oldest_active_or latest h.tracker) retained ≤ read))
unfolding pinned_retained_snapshot classify_snapshot_reachability
admitted_iff h read latest retained r =
    let t = h.tracker in
    let v = Reach-IsSafe r in
    (
      λ a. (
        λ f (m, e).
            not_below_floors h read f m v (admit_inversion t (pin read t) read latest retained a).0
              e,
        ground arith,
        ground arith,
      ),
      λ (floors, new, old). elim (Option-cases (last_key t.compaction_floors)) [
        | inl n ↦ ground arith
        | inr (last, is_last) ↦ ground (
          arith,
          floors last (last_key_is_entry t.compaction_floors last v.floors_ascend is_last),
        )
      ],
    )

-- Dropping a handle undoes its pin for every version.
pub unpin-pin :
    (h : Tracked) (s k : Sequence)
    → Reach h
    → lookup k (unpin s (pin s h.tracker)).active ≡ lookup k h.tracker.active
unfolding pin increment
unpin-pin h s k r =
    let t = h.tracker in
    ground (
      arith,
      lookup-unpin (pin s t) s k,
      lookup-insert s k (or_default (lookup s t.active) + 1) t.active,
      lookup-insert s s (or_default (lookup s t.active) + 1) t.active,
      (Reach-IsSafe r).pins_positive s (or_default (lookup s t.active)),
    )
