-- ===== src/Commit/Visibility/Preserved.antt =====
-- Every step keeps the invariant; what it says of the visible sequence.
use trine_kv.Prelude.{
  suc, ◌+◌, ◌≤◌, ◌<◌, ◌≡◌, refl, sym, subst, inl, inr, true, false, ◌&&◌, none, some, length, arith,
  Option-cases, Bool-cases, ◌==◌, ltb, leb, if◌then◌else◌, ◌↔◌,
}
use trine_kv.Prelude.Map.{lookup, insert, lookup-insert}
use trine_kv.Error.{ok, err, corruption}
use trine_kv.Keys.{Sequence, u64_max, checked_sequence_successor}
use trine_kv.Commit.{
  CommitSlotState, slot_open, visible, skipped, is_open, count_skipped, CommitTracker, new_tracker,
  reserve_sequence, insert_slot, mark_terminal, advance_visible_sequence, advance_loop,
  next_terminal,
}
use trine_kv.Commit.Advance.{
  IsTerminal, Advanced, advance_loop-Advanced, advance_loop_settles, next_terminal-none,
}
use trine_kv.Commit.Visibility.{World, set_at, initial, Step, Reach, IsValid}
use trine_kv.Commit.Visibility.Step.{reserve, open_reserved, mark}
use trine_kv.Commit.Visibility.Reach.{here, next}

initial-IsValid : (start : Sequence) → start ≤ u64_max → IsValid start (initial start)
unfolding new_tracker lookup
initial-IsValid start h = record {
  from_start = omega arith;
  visible_reserved = omega arith;
  in_u64 = h;
  visible_marked = λ k a b. absurd (omega arith);
  visible_gone = λ k a. refl;
  unreserved = λ k a. (refl, refl, refl);
  waiting = λ k e. cc;
  open_unmarked = λ k e. refl;
  accounted = λ k a b e. absurd (omega arith);
  terminal_marked = λ k t. absurd t;
  settled = λ l t. t;
}

module _ (start : Sequence) (w : World) (v : IsValid start w) where
  reserve-IsValid :
      (r : Sequence) (t : CommitTracker)
      → reserve_sequence w.tracker ≡ ok (r, t)
      → IsValid start (record w { tracker = t; pending = set_at r true w.pending })
  unfolding reserve_sequence checked_sequence_successor
  reserve-IsValid r t e = record {
    from_start = ground (arith, v.from_start);
    visible_reserved = ground (arith, v.visible_reserved);
    in_u64 = ground arith;
    visible_marked = λ k a b. ground (arith, v.visible_marked k);
    visible_gone = λ k a. ground (arith, v.visible_gone k);
    unreserved = λ k a. ground (arith, v.unreserved k);
    waiting = λ k p. ground (arith, v.waiting k, v.unreserved k, v.visible_reserved);
    open_unmarked = λ k p. ground (arith, v.open_unmarked k);
    accounted = λ k a b p. ground (arith, v.accounted k);
    terminal_marked = λ k p. ground (arith, v.terminal_marked k);
    settled = λ l p. ground (arith, v.settled);
  }

  open-IsValid :
      (r : Sequence)
      → w.pending r ≡ true
      → IsValid start
          (record w { tracker = (insert_slot r w.tracker).1; pending = set_at r false w.pending })
  unfolding insert_slot
  open-IsValid r e = record {
    from_start = ground (arith, v.from_start, v.waiting r e);
    visible_reserved = ground (arith, v.visible_reserved, v.waiting r e);
    in_u64 = ground (arith, v.in_u64, v.waiting r e);
    visible_marked = λ k a b. ground (arith, v.visible_marked k, v.waiting r e);
    visible_gone = λ k a.
        ground
          (arith, v.visible_gone k, v.waiting r e, lookup-insert r k slot_open w.tracker.slots);
    unreserved = λ k a.
        ground (arith, v.unreserved k, v.waiting r e, lookup-insert r k slot_open w.tracker.slots);
    waiting = λ k p.
        ground (arith, v.waiting k, v.waiting r e, lookup-insert r k slot_open w.tracker.slots);
    open_unmarked = λ k p.
        ground
          (arith, v.open_unmarked k, v.waiting r e, lookup-insert r k slot_open w.tracker.slots);
    accounted = λ k a b p.
        ground (arith, v.accounted k, v.waiting r e, lookup-insert r k slot_open w.tracker.slots);
    terminal_marked = λ k p.
        ground
          (arith, v.terminal_marked k, v.waiting r e, lookup-insert r k slot_open w.tracker.slots);
    settled = λ l p. ground (
      arith,
      v.settled,
      v.waiting r e,
      lookup-insert r (w.tracker.visible_sequence + 1) slot_open w.tracker.slots,
    );
  }

abbrev finished : Sequence → CommitSlotState → CommitTracker → CommitTracker
finished k s t = record t {
  slots = insert k s t.slots;
  skipped_slots = count_skipped s t.skipped_slots;
}

mark_inversion :
    (k : Sequence) (s : CommitSlotState) (t t' : CommitTracker)
    → mark_terminal k s t ≡ (ok tt, t')
    → (lookup k t.slots ≡ some slot_open)
      × (advance_loop (suc (length (insert k s t.slots))) (finished k s t) ≡ t')
unfolding mark_terminal advance_visible_sequence
mark_inversion k s t t' h = ground arith

module _ (start : Sequence) (w : World) (v : IsValid start w) (n : Sequence) (s : CommitSlotState)
    (terminal : is_open s ≡ false) (was_open : lookup n w.tracker.slots ≡ some slot_open)
    (t : CommitTracker) (adv : Advanced (finished n s w.tracker) t)
    (stopped : next_terminal t ≡ none) where
  slots_now :
      (k : Sequence)
      → lookup k t.slots ≡ (
          if ltb w.tracker.visible_sequence k && leb k t.visible_sequence
          then none
          else if n == k
          then some s
          else lookup k w.tracker.slots)
  slots_now k = ground (arith, adv.slots_after k, lookup-insert n k s w.tracker.slots)

  passed_marked :
      (k : Sequence)
      → w.tracker.visible_sequence < k
      → k ≤ t.visible_sequence
      → set_at n true w.marked k ≡ true
  passed_marked k a b =
      ground
        (arith, v.terminal_marked k, adv.were_terminal k a b, lookup-insert n k s w.tracker.slots)

  reserved_bound : t.visible_sequence ≤ w.tracker.last_reserved_sequence
  reserved_bound = elim (Bool-cases (leb t.visible_sequence w.tracker.last_reserved_sequence)) [
    | inl e ↦ ground arith
    | inr e ↦ ground (
      arith,
      passed_marked t.visible_sequence,
      v.unreserved t.visible_sequence,
      v.visible_reserved,
      v.unreserved n,
    )
  ]

  mark-IsValid : IsValid start (record w { tracker = t; marked = set_at n true w.marked })
  mark-IsValid = record {
    from_start = omega (arith, v.from_start, adv.grows);
    visible_reserved = ground (arith, reserved_bound, adv.same_last);
    in_u64 = ground (arith, v.in_u64, adv.same_last);
    visible_marked = λ k a b. ground (arith, v.visible_marked k, passed_marked k);
    visible_gone = λ k a. ground (arith, slots_now k, v.visible_gone k, v.visible_gone n);
    unreserved = λ k a.
        ground (arith, slots_now k, v.unreserved k, v.unreserved n, adv.same_last, reserved_bound);
    waiting = λ k p. ground (arith, slots_now k, v.waiting k, passed_marked k);
    open_unmarked = λ k p. ground (arith, slots_now k, v.open_unmarked k);
    accounted = λ k a b p. ground (arith, slots_now k, v.accounted k, adv.same_last, adv.grows);
    terminal_marked = λ k p. ground (arith, slots_now k, v.terminal_marked k);
    settled = λ l. next_terminal-none t stopped l;
  }

Step-IsValid : (start : Sequence) {v w : World} → Step v w → IsValid start v → IsValid start w
Step-IsValid start (reserve w r t e) v = reserve-IsValid start w v r t e
Step-IsValid start (open_reserved w r e) v = open-IsValid start w v r e
Step-IsValid start (mark w n s t term e) v =
    let (was_open, stepped) = mark_inversion n s w.tracker t e in
    mark-IsValid start w v n s term was_open t
      (subst (λ u. Advanced (finished n s w.tracker) u) stepped
        (advance_loop-Advanced _ (finished n s w.tracker)))
      (subst (λ u. next_terminal u ≡ none) stepped
        (advance_loop_settles _ (finished n s w.tracker) (omega arith)))

-- In every state that the writers reach from a visible sequence that fits in a `u64`, the tracker is
-- valid: the visible sequence is at most the reserved one, all up to it are marked and out of the
-- map, every reserved one above it is in the map or about to be entered, open slots are unmarked,
-- terminal ones are marked, and the slot behind the visible sequence is not terminal.
pub Reach-IsValid :
    (start : Sequence) {w : World} → start ≤ u64_max → Reach start w → IsValid start w
Reach-IsValid start h here = initial-IsValid start h
Reach-IsValid start h (next r st) = Step-IsValid start st (Reach-IsValid start h r)

module _ (start : Sequence) (w : World) (fits : start ≤ u64_max) (reached : Reach start w) where
  next_unmarked : IsValid start w → w.marked (w.tracker.visible_sequence + 1) ≡ false
  next_unmarked v = elim (Option-cases (lookup (w.tracker.visible_sequence + 1) w.tracker.slots)) [
    | inl e ↦ ground (
      arith,
      v.accounted (w.tracker.visible_sequence + 1),
      v.unreserved (w.tracker.visible_sequence + 1),
      v.waiting (w.tracker.visible_sequence + 1),
    )
    | inr (slot_open, e) ↦ v.open_unmarked (w.tracker.visible_sequence + 1) e
    | inr (visible, e) ↦ finish (subst IsTerminal (sym e) tt)
    | inr (skipped, e) ↦ finish (subst IsTerminal (sym e) tt)
  ]
    where
      finish :
          IsTerminal (lookup (w.tracker.visible_sequence + 1) w.tracker.slots)
          → w.marked (w.tracker.visible_sequence + 1) ≡ false
      finish t = elim (Bool-cases (ltb w.tracker.visible_sequence u64_max)) [
        | inl l ↦ absurd (v.settled (ground arith) t)
        | inr g ↦
            ground
              (arith, v.unreserved (w.tracker.visible_sequence + 1), v.in_u64, v.visible_reserved)
      ]

  -- In every state that writers reach from a fresh tracker, in any interleaving, a later sequence
  -- is visible exactly when it and all sequences between the start and it were marked visible or
  -- skipped: the visible sequence is the end of the longest finished run.
  pub visible_iff_prefix :
      (k : Sequence)
      → start < k
      → (k ≤ w.tracker.visible_sequence) ↔ ((j : Sequence) → start < j → j ≤ k → w.marked j ≡ true)
  visible_iff_prefix k above =
      let v = Reach-IsValid start fits reached in
      (
        λ below j a b. v.visible_marked j a (omega arith),
        λ all. elim (Bool-cases (leb k w.tracker.visible_sequence)) [
          | inl e ↦ ground arith
          | inr e ↦
              ground (arith, all (w.tracker.visible_sequence + 1), next_unmarked v, v.from_start)
        ],
      )

  -- When every sequence reserved since the start has been marked, all of them are visible.
  pub all_marked_visible :
      ((k : Sequence) → start < k → k ≤ w.tracker.last_reserved_sequence → w.marked k ≡ true)
      → w.tracker.visible_sequence ≡ w.tracker.last_reserved_sequence
  all_marked_visible all =
      let v = Reach-IsValid start fits reached in
      ground (
        arith,
        all (w.tracker.visible_sequence + 1),
        next_unmarked v,
        v.from_start,
        v.visible_reserved,
      )

  -- A reserved sequence that is not yet in the map is entered without the double-reservation
  -- error, and a slot can be marked exactly while it is open.
  pub slots_used_once :
      (k : Sequence) (s : CommitSlotState)
      → (w.pending k ≡ true → (insert_slot k w.tracker).0 ≡ ok tt)
        × (((mark_terminal k s w.tracker).0 ≡ ok tt) ↔ (lookup k w.tracker.slots ≡ some slot_open))
        × (w.marked k ≡ true → (mark_terminal k s w.tracker).0 ≡ err corruption)
  unfolding insert_slot mark_terminal
  slots_used_once k s =
      let v = Reach-IsValid start fits reached in
      (
        λ p. ground (arith, v.waiting k p),
        (λ e. ground arith, λ e. ground arith),
        λ m. ground (arith, v.open_unmarked k),
      )

-- No step of any thread moves the visible or the reserved sequence back.
pub Step_monotone :
    (start : Sequence) (v w : World)
    → IsValid start v
    → Step v w
    → (v.tracker.visible_sequence ≤ w.tracker.visible_sequence)
      × (v.tracker.last_reserved_sequence ≤ w.tracker.last_reserved_sequence)
unfolding reserve_sequence checked_sequence_successor insert_slot
Step_monotone start v w valid (reserve _ r t e) = ground arith
Step_monotone start v w valid (open_reserved _ r e) = ground arith
Step_monotone start v w valid (mark _ n s t term e) =
    let (was_open, stepped) = mark_inversion n s v.tracker t e in
    let adv =
      subst (λ u. Advanced (finished n s v.tracker) u) stepped
        (advance_loop-Advanced _ (finished n s v.tracker)) in
    (adv.grows, omega (arith, adv.same_last))
