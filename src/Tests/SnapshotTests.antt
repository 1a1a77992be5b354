-- ===== src/Tests/SnapshotTests.antt =====
-- Pinned snapshots and compactions (src/snapshot.rs).
use trine_kv.Prelude.{
  ℕ, ◌+◌, ◌-◌, ◌≤◌, ◌<◌, min, ◌≡◌, refl, ◌↔◌, Bool, true, false, List, [], ◌∷◌, Option, none, some,
  arith,
}
use trine_kv.Prelude.Map.{lookup}
use trine_kv.Error.{ok, err, runtime_busy}
use trine_kv.Keys.{Sequence}
use trine_kv.Snapshot.{
  SnapshotTracker, pin, oldest_active_or, pinned_retained_snapshot, begin_compaction,
}
use trine_kv.Snapshot.Steps.{
  IsPinned, IsFloor, Tracked, new_tracked, note_pin, Reach, here, next, begin_compact, pin_current,
}
use trine_kv.Snapshot.Admission.{floor_below_every_pin, admitted_iff}

-- A compaction at 10, then a read version 12.
abbrev compacting : SnapshotTracker
compacting = record { active = []; compaction_floors = (10, 1) ∷ [] }

abbrev reading : SnapshotTracker
reading = record { active = (12, 1) ∷ []; compaction_floors = (10, 1) ∷ [] }

compacting-Reach : Reach (record { tracker = compacting; unchecked = λ s. false })
unfolding begin_compaction trine_kv.Prelude.Map.insert trine_kv.Prelude.Map.first_key lookup
compacting-Reach = next here (begin_compact new_tracked 10)

abbrev tracked : Tracked
tracked = record {
  tracker = reading;
  unchecked = note_pin 12 (record { tracker = compacting; unchecked = λ s. false });
}

tracked-Reach : Reach tracked
unfolding pin trine_kv.Prelude.Map.insert lookup
tracked-Reach =
    next compacting-Reach (pin_current (record { tracker = compacting; unchecked = λ s. false }) 12)

-- A plain pin of a version that the compaction has passed goes through, and is noted.
stale_pin : IsFloor (pin 9 reading) 10 × IsPinned (pin 9 reading) 9 × (note_pin 9 tracked 9 ≡ true)
unfolding pin trine_kv.Prelude.Map.insert lookup
stale_pin = ((1, refl), (1, refl), refl)

has_floor : lookup 10 reading.compaction_floors ≡ some 1
unfolding lookup
has_floor = refl

has_pin : lookup 12 reading.active ≡ some 1
unfolding lookup
has_pin = refl

busy : pinned_retained_snapshot 9 12 8 reading ≡ err runtime_busy
unfolding pinned_retained_snapshot trine_kv.Prelude.Map.last_key
busy = refl

floor_below_every_pin_example : 10 ≤ 12
floor_below_every_pin_example =
    floor_below_every_pin tracked 10 12 tracked-Reach (1, has_floor) (1, has_pin) refl

admitted_iff_example : (pinned_retained_snapshot 11 14 11 reading ≡ ok (pin 11 reading)) ↔ (
    ((f : Sequence) → IsFloor reading f → f ≤ 11)
    × (11 ≤ 14)
    × (min (oldest_active_or 14 reading) 11 ≤ 11))
admitted_iff_example = admitted_iff tracked 11 14 11 tracked-Reach
