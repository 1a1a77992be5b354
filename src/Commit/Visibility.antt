-- ===== src/Commit/Visibility.antt =====
-- Writers reserve, open and finish commit slots in any interleaving (src/db/commit_tracker.rs).
pub mod Preserved
use trine_kv.Prelude.{
  ℕ, ◌+◌, ◌≤◌, ◌<◌, ◌≡◌, ◌≢◌, ◌⊎◌, Bool, true, false, Option, none, some, ◌==◌, if◌then◌else◌,
}
use trine_kv.Prelude.Map.{lookup}
use trine_kv.Error.{ok}
use trine_kv.Keys.{Sequence, u64_max}
use trine_kv.Commit.{
  CommitSlotState, slot_open, is_open, CommitTracker, new_tracker, reserve_sequence, insert_slot,
  mark_terminal,
}
use trine_kv.Commit.Advance.{IsTerminal}

-- The tracker, with what the threads know: which sequences are reserved and not yet in the map,
-- and which were marked visible or skipped.
pub record World : Type 0 where
  pub tracker : CommitTracker
  pub pending : Sequence → Bool
  pub marked : Sequence → Bool

abbrev pub set_at : ℕ → Bool → (ℕ → Bool) → ℕ → Bool
set_at k b f j = if k == j then b else f j

abbrev pub initial : Sequence → World
initial start = record { tracker = new_tracker start; pending = λ _. false; marked = λ _. false }

-- One locked or atomic section of some thread. A section that fails leaves the tracker as it is
-- and is no step.
pub data Step : World → World → Type 0 where
  reserve :
      (w : World) (reserved : Sequence) (t : CommitTracker)
      → reserve_sequence w.tracker ≡ ok (reserved, t)
      → Step w (record w { tracker = t; pending = set_at reserved true w.pending })
  open_reserved :
      (w : World) (reserved : Sequence)
      → w.pending reserved ≡ true
      → Step w (record w {
        tracker = (insert_slot reserved w.tracker).1;
        pending = set_at reserved false w.pending;
      })
  mark :
      (w : World) (sequence : Sequence) (state : CommitSlotState) (t : CommitTracker)
      → is_open state ≡ false
      → mark_terminal sequence state w.tracker ≡ (ok tt, t)
      → Step w (record w { tracker = t; marked = set_at sequence true w.marked })

pub data Reach (start : Sequence) : World → Type 0 where
  here : Reach start (initial start)
  next : {v w : World} → Reach start v → Step v w → Reach start w

pub record IsValid (start : Sequence) (w : World) : Type 0 where
  pub from_start : start ≤ w.tracker.visible_sequence
  pub visible_reserved : w.tracker.visible_sequence ≤ w.tracker.last_reserved_sequence
  pub in_u64 : w.tracker.last_reserved_sequence ≤ u64_max
  pub visible_marked :
      (k : Sequence) → start < k → k ≤ w.tracker.visible_sequence → w.marked k ≡ true
  pub visible_gone :
      (k : Sequence) → k ≤ w.tracker.visible_sequence → lookup k w.tracker.slots ≡ none
  pub unreserved :
      (k : Sequence)
      → w.tracker.last_reserved_sequence < k
      → (lookup k w.tracker.slots ≡ none) × (w.pending k ≡ false) × (w.marked k ≡ false)
  pub waiting :
      (k : Sequence)
      → w.pending k ≡ true
      → (w.tracker.visible_sequence < k) × (lookup k w.tracker.slots ≡ none) × (w.marked k ≡ false)
  pub open_unmarked :
      (k : Sequence) → lookup k w.tracker.slots ≡ some slot_open → w.marked k ≡ false
  pub accounted :
      (k : Sequence)
      → w.tracker.visible_sequence < k
      → k ≤ w.tracker.last_reserved_sequence
      → lookup k w.tracker.slots ≡ none
      → w.pending k ≡ true
  pub terminal_marked : (k : Sequence) → IsTerminal (lookup k w.tracker.slots) → w.marked k ≡ true
  pub settled :
      w.tracker.visible_sequence < u64_max
      → ¬ IsTerminal (lookup (w.tracker.visible_sequence + 1) w.tracker.slots)
