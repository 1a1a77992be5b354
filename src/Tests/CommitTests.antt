-- ===== src/Tests/CommitTests.antt =====
-- Commit slots and the publication barrier (src/db/commit_tracker.rs).
use trine_kv.Prelude.{
  ℕ, ◌+◌, ◌-◌, ◌≤◌, ◌<◌, ◌≡◌, refl, ◌↔◌, Bool, true, false, List, [], ◌∷◌, Option, none, some,
  length, arith,
}
use trine_kv.Prelude.Map.{lookup}
use trine_kv.Error.{ok, err, corruption, closed}
use trine_kv.Keys.{Sequence, u64_max}
use trine_kv.Commit.{
  slot_open, visible, skipped, new_tracker, reserve_sequence, insert_slot, mark_terminal,
  next_terminal, advance_loop, begin_activity, drop_activity, close_returns,
}
use trine_kv.Commit.Advance.{advance_loop_settles}
use trine_kv.Commit.Visibility.{
  World, set_at, initial, Step, reserve, open_reserved, mark, Reach, here, next, IsValid,
}
use trine_kv.Commit.Visibility.Preserved.{
  Reach-IsValid, visible_iff_prefix, all_marked_visible, slots_used_once, Step_monotone,
}
use trine_kv.Commit.Barrier.{
  Gate, new_gate, GateReach, Counted, admit as enter_gate, leave, close, here as gate_here,
  next as gate_next, closed_stays_idle,
}

-- A writer takes 6 and publishes it.

abbrev reserved_6 : World
reserved_6 = record (initial 5) {
  tracker = record {
    last_reserved_sequence = 6;
    visible_sequence = 5;
    skipped_slots = 0;
    slots = [];
  };
  pending = set_at 6 true (λ _. false);
}

abbrev opened_6 : World
opened_6 = record reserved_6 {
  tracker = (insert_slot 6 reserved_6.tracker).1;
  pending = set_at 6 false reserved_6.pending;
}

abbrev published_6 : World
published_6 = record opened_6 {
  tracker = record {
    last_reserved_sequence = 6;
    visible_sequence = 6;
    skipped_slots = 0;
    slots = [];
  };
  marked = set_at 6 true (λ _. false);
}

published_6-Reach : Reach 5 published_6
unfolding new_tracker reserve_sequence insert_slot mark_terminal lookup trine_kv.Prelude.Map.insert
    next_terminal trine_kv.Prelude.Map.remove
published_6-Reach =
    next
      (next (next here (reserve (initial 5) 6 reserved_6.tracker refl))
        (open_reserved reserved_6 6 refl))
      (mark opened_6 6 visible published_6.tracker refl refl)

-- Then two writers take 7 and 8, and 8 is finished first.

abbrev reserved_7 : World
reserved_7 = record published_6 {
  tracker = record {
    last_reserved_sequence = 7;
    visible_sequence = 6;
    skipped_slots = 0;
    slots = [];
  };
  pending = set_at 7 true published_6.pending;
}

abbrev reserved_8 : World
reserved_8 = record reserved_7 {
  tracker = record {
    last_reserved_sequence = 8;
    visible_sequence = 6;
    skipped_slots = 0;
    slots = [];
  };
  pending = set_at 8 true reserved_7.pending;
}

abbrev opened_8 : World
opened_8 = record reserved_8 {
  tracker = (insert_slot 8 reserved_8.tracker).1;
  pending = set_at 8 false reserved_8.pending;
}

abbrev published_8 : World
published_8 = record opened_8 {
  tracker = record {
    last_reserved_sequence = 8;
    visible_sequence = 6;
    skipped_slots = 0;
    slots = (8, visible) ∷ [];
  };
  marked = set_at 8 true opened_8.marked;
}

published_8-Reach : Reach 5 published_8
unfolding reserve_sequence insert_slot mark_terminal lookup trine_kv.Prelude.Map.insert
    next_terminal
published_8-Reach =
    next
      (next
        (next (next published_6-Reach (reserve published_6 7 reserved_7.tracker refl))
          (reserve reserved_7 8 reserved_8.tracker refl))
        (open_reserved reserved_8 8 refl))
      (mark opened_8 8 visible published_8.tracker refl refl)

Reach-IsValid_example : IsValid 5 published_8
Reach-IsValid_example = Reach-IsValid 5 (omega arith) published_8-Reach

visible_iff_prefix_example :
    (8 ≤ published_8.tracker.visible_sequence)
    ↔ ((j : Sequence) → 5 < j → j ≤ 8 → published_8.marked j ≡ true)
visible_iff_prefix_example =
    visible_iff_prefix 5 published_8 (omega arith) published_8-Reach 8 (omega arith)

all_marked_visible_example :
    published_6.tracker.visible_sequence ≡ published_6.tracker.last_reserved_sequence
all_marked_visible_example =
    all_marked_visible 5 published_6 (omega arith) published_6-Reach (λ k a b. ground arith)

slots_used_once_example :
    (published_8.pending 7 ≡ true → (insert_slot 7 published_8.tracker).0 ≡ ok tt)
    × (((mark_terminal 7 skipped published_8.tracker).0 ≡ ok tt)
        ↔ (lookup 7 published_8.tracker.slots ≡ some slot_open))
    × (published_8.marked 7 ≡ true
        → (mark_terminal 7 skipped published_8.tracker).0 ≡ err corruption)
slots_used_once_example = slots_used_once 5 published_8 (omega arith) published_8-Reach 7 skipped

step_8 : Step opened_8 published_8
unfolding insert_slot mark_terminal lookup trine_kv.Prelude.Map.insert next_terminal
step_8 = mark opened_8 8 visible published_8.tracker refl refl

opened_8-Reach : Reach 5 opened_8
unfolding reserve_sequence insert_slot
opened_8-Reach =
    next
      (next (next published_6-Reach (reserve published_6 7 reserved_7.tracker refl))
        (reserve reserved_7 8 reserved_8.tracker refl))
      (open_reserved reserved_8 8 refl)

Step_monotone_example :
    (opened_8.tracker.visible_sequence ≤ published_8.tracker.visible_sequence)
    × (opened_8.tracker.last_reserved_sequence ≤ published_8.tracker.last_reserved_sequence)
Step_monotone_example =
    Step_monotone 5 opened_8 published_8 (Reach-IsValid 5 (omega arith) opened_8-Reach) step_8

advance_loop_settles_example :
    next_terminal (advance_loop 2 (record published_8.tracker { visible_sequence = 7 })) ≡ none
advance_loop_settles_example =
    advance_loop_settles 2 (record published_8.tracker { visible_sequence = 7 }) (omega arith)

abbrev closing_gate : Gate
closing_gate = record { activity = record { active = 1; closing = true }; guards = 1 }

abbrev drained_gate : Gate
drained_gate = record { activity = record { active = 0; closing = true }; guards = 0 }

-- One activity is admitted, and then the barrier closes.
closing_gate-Reach : GateReach u64_max new_gate closing_gate
unfolding trine_kv.Commit.begin_activity trine_kv.Commit.close_begin
closing_gate-Reach =
    gate_next
      (gate_next gate_here (enter_gate new_gate (record { active = 1; closing = false }) refl))
      (close (record { activity = record { active = 1; closing = false }; guards = 1 }))

drained_gate-Reach : GateReach u64_max closing_gate drained_gate
unfolding drop_activity
drained_gate-Reach = gate_next gate_here (leave closing_gate (omega arith))

closed_stays_idle_example :
    Counted closing_gate
    × Counted drained_gate
    × (drained_gate.activity.closing ≡ true)
    × (drained_gate.guards ≤ closing_gate.guards)
    × ((close_returns closing_gate.activity ≡ true) ↔ (closing_gate.guards ≡ 0))
    × (close_returns closing_gate.activity ≡ true
        → (drained_gate.guards ≡ 0) × (close_returns drained_gate.activity ≡ true))
    × (begin_activity u64_max drained_gate.activity ≡ err closed)
closed_stays_idle_example =
    closed_stays_idle u64_max closing_gate drained_gate closing_gate-Reach refl drained_gate-Reach
