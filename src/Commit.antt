-- ===== src/Commit.antt =====
-- src/db/commit_tracker.rs: commit slots, the visible sequence and the publication barrier.
-- Each locked section is one function on the tracker's state. Poisoned locks, condition variables
-- and wakers have no counterpart: a wait returns when the visible sequence has reached its target.
pub mod Advance
pub mod Visibility
pub mod Barrier
use trine_kv.Prelude.{
  ℕ, zero, suc, ◌+◌, ◌%◌, ◌^◌, Bool, true, false, not, List, [], ◌∷◌, Option, none, some, length,
  filter, leb, ◌==◌, if◌then◌else◌,
}
use trine_kv.Prelude.Map.{NatMap, lookup, insert, remove}
use trine_kv.Error.{Error, Result, ok, err, corruption, closed}
use trine_kv.Keys.{Sequence, checked_sequence_successor}

pub data CommitSlotState : Type 0 where
  slot_open visible skipped : CommitSlotState

pub record CommitTracker : Type 0 where
  pub last_reserved_sequence : Sequence
  pub visible_sequence : Sequence
  pub skipped_slots : ℕ
  pub slots : NatMap CommitSlotState

unfoldable pub new_tracker : Sequence → CommitTracker
new_tracker visible_sequence = record {
  last_reserved_sequence = visible_sequence;
  visible_sequence = visible_sequence;
  skipped_slots = 0;
  slots = [];
}

unfoldable pub reset_visible_boundary : Sequence → CommitTracker → CommitTracker
reset_visible_boundary visible_sequence t = record t {
  last_reserved_sequence = visible_sequence;
  visible_sequence = visible_sequence;
  skipped_slots = 0;
  slots = [];
}

abbrev pub is_open : CommitSlotState → Bool
is_open slot_open = true
is_open visible = false
is_open skipped = false

unfoldable pub open_slot_count : CommitTracker → ℕ
open_slot_count t = length (filter (λ e. is_open e.1) t.slots)

-- The two atomic parts of `reserve_slot`: the counter, then the map under its lock. Other threads
-- may run between them.
unfoldable pub reserve_sequence : CommitTracker → Result (Sequence × CommitTracker)
unfolding checked_sequence_successor
reserve_sequence t = elim (checked_sequence_successor t.last_reserved_sequence) [
  | none ↦ err corruption
  | some reserved ↦ ok (reserved, record t { last_reserved_sequence = reserved })
]

unfoldable pub insert_slot : Sequence → CommitTracker → Result (Unit {0}) × CommitTracker
insert_slot reserved t =
    let t' : CommitTracker = record t { slots = insert reserved slot_open t.slots } in
    elim (lookup reserved t.slots) [ none ↦ (ok tt, t') | some _ ↦ (err corruption, t') ]

-- `reserve_slot` with nothing in between.
unfoldable pub reserve_slot : CommitTracker → Result Sequence × CommitTracker
unfolding reserve_sequence insert_slot
reserve_slot t = elim (reserve_sequence t) [
  | err e ↦ (err e, t)
  | ok (reserved, t') ↦ elim (lookup reserved t'.slots) [
    | none ↦ (ok reserved, (insert_slot reserved t').1)
    | some _ ↦ (err corruption, (insert_slot reserved t').1)
  ]
]

-- One round of the loop in `advance_visible_sequence`: the next sequence, if its slot is terminal.
unfoldable pub next_terminal : CommitTracker → Option Sequence
unfolding checked_sequence_successor
next_terminal t = elim (checked_sequence_successor t.visible_sequence) [
  | none ↦ none
  | some next ↦ elim (lookup next t.slots) [
    | none ↦ none
    | some slot_open ↦ none
    | some visible ↦ some next
    | some skipped ↦ some next
  ]
]

unfoldable pub advance_loop : ℕ → CommitTracker → CommitTracker
advance_loop zero t = t
advance_loop (suc fuel) t = elim (next_terminal t) [
  | none ↦ t
  | some next ↦
      advance_loop fuel (record t { visible_sequence = next; slots = remove next t.slots })
]

-- Every round removes a slot, so one more round than there are slots is enough.
unfoldable pub advance_visible_sequence : CommitTracker → CommitTracker × Bool
unfolding advance_loop
advance_visible_sequence t =
    let t' = advance_loop (suc (length t.slots)) t in
    (t', not (t'.visible_sequence == t.visible_sequence))

abbrev pub count_skipped : CommitSlotState → ℕ → ℕ
count_skipped skipped n = (n + 1) % 2 ^ 64
count_skipped visible n = n
count_skipped slot_open n = n

unfoldable pub mark_terminal :
    Sequence → CommitSlotState → CommitTracker → Result (Unit {0}) × CommitTracker
unfolding advance_visible_sequence
mark_terminal sequence terminal_state t = elim (lookup sequence t.slots) [
  | none ↦ (err corruption, t)
  | some slot_open ↦ (
    ok tt,
    (advance_visible_sequence (record t {
      slots = insert sequence terminal_state t.slots;
      skipped_slots = count_skipped terminal_state t.skipped_slots;
    })).0,
  )
  | some visible ↦ (err corruption, t)
  | some skipped ↦ (err corruption, t)
]

unfoldable pub mark_visible : Sequence → CommitTracker → Result (Unit {0}) × CommitTracker
unfolding mark_terminal
mark_visible sequence t = mark_terminal sequence visible t

unfoldable pub mark_skipped : Sequence → CommitTracker → Result (Unit {0}) × CommitTracker
unfolding mark_terminal
mark_skipped sequence t = mark_terminal sequence skipped t

-- The test under which `wait_until_visible` and `poll_until_visible` return.
unfoldable pub is_visible : Sequence → CommitTracker → Bool
is_visible sequence t = leb sequence t.visible_sequence

pub record PublishBarrierActivity : Type 0 where
  pub active : ℕ
  pub closing : Bool

unfoldable pub begin_activity : ℕ → PublishBarrierActivity → Result PublishBarrierActivity
begin_activity usize_max a =
    if a.closing
    then err closed
    else if leb usize_max a.active
    then err corruption
    else ok (record a { active = a.active + 1 })

-- `Drop for PublishActivityGuard`
unfoldable pub drop_activity : PublishBarrierActivity → PublishBarrierActivity
drop_activity a = elim a.active [ zero ↦ a | suc n ↦ record a { active = n } ]

-- `close` up to its wait, and the test that ends the wait.
unfoldable pub close_begin : PublishBarrierActivity → PublishBarrierActivity
close_begin a = record a { closing = true }

unfoldable pub close_returns : PublishBarrierActivity → Bool
close_returns a = a.active == 0
