-- ===== src/Commit/Advance.antt =====
-- What `advance_visible_sequence` does to the slots, whatever they are.
use trine_kv.Prelude.{
  ℕ, zero, suc, ◌+◌, ◌≤◌, ◌<◌, ◌≡◌, refl, inl, inr, Option, none, some, length, arith, Option-cases,
  leb, ltb, ◌&&◌, if◌then◌else◌,
}
use trine_kv.Prelude.Map.{lookup, remove, lookup-remove, length-remove-lt}
use trine_kv.Keys.{Sequence, u64_max, checked_sequence_successor}
use trine_kv.Commit.{
  CommitSlotState, slot_open, visible, skipped, CommitTracker, next_terminal, advance_loop,
}

abbrev pub IsTerminal : Option CommitSlotState → Type 0
IsTerminal none = ⊥
IsTerminal (some slot_open) = ⊥
IsTerminal (some visible) = Unit
IsTerminal (some skipped) = Unit

abbrev step_to : CommitTracker → Sequence → CommitTracker
step_to t next = record t { visible_sequence = next; slots = remove next t.slots }

next_terminal-some :
    (t : CommitTracker) (next : Sequence)
    → next_terminal t ≡ some next
    → (next ≡ t.visible_sequence + 1) × IsTerminal (lookup next t.slots)
unfolding next_terminal checked_sequence_successor
next_terminal-some t next h = ground arith

pub next_terminal-none :
    (t : CommitTracker)
    → next_terminal t ≡ none
    → t.visible_sequence < u64_max
    → ¬ IsTerminal (lookup (t.visible_sequence + 1) t.slots)
unfolding next_terminal checked_sequence_successor
next_terminal-none t h l = ground arith

-- The slots between the old and the new visible sequence were terminal and are gone; all other
-- slots, and the other fields, are as before.
pub record Advanced (t t' : CommitTracker) : Type 0 where
  pub grows : t.visible_sequence ≤ t'.visible_sequence
  pub same_last : t'.last_reserved_sequence ≡ t.last_reserved_sequence
  pub same_skipped : t'.skipped_slots ≡ t.skipped_slots
  pub were_terminal :
      (k : ℕ) → t.visible_sequence < k → k ≤ t'.visible_sequence → IsTerminal (lookup k t.slots)
  pub slots_after :
      (k : ℕ)
      → lookup k t'.slots
        ≡ (if ltb t.visible_sequence k && leb k t'.visible_sequence then none else lookup k t.slots)

Advanced-refl : (t : CommitTracker) → Advanced t t
Advanced-refl t = record {
  grows = omega arith;
  same_last = refl;
  same_skipped = refl;
  were_terminal = λ k a b. absurd (omega arith);
  slots_after = λ k. ground arith;
}

Advanced-step :
    (t t' : CommitTracker) (next : Sequence)
    → next_terminal t ≡ some next
    → Advanced (step_to t next) t'
    → Advanced t t'
Advanced-step t t' next e a = record {
  grows = ground (arith, a.grows, next_terminal-some t next e);
  same_last = a.same_last;
  same_skipped = a.same_skipped;
  were_terminal = λ k l u.
      ground (arith, next_terminal-some t next e, a.were_terminal k, lookup-remove next k t.slots);
  slots_after = λ k.
      ground (
        arith,
        a.grows,
        next_terminal-some t next e,
        a.slots_after k,
        lookup-remove next k t.slots,
      );
}

pub advance_loop-Advanced : (fuel : ℕ) (t : CommitTracker) → Advanced t (advance_loop fuel t)
unfolding advance_loop
advance_loop-Advanced zero t = Advanced-refl t
advance_loop-Advanced (suc fuel) t = elim (Option-cases (next_terminal t)) [
  | inl e ↦ rw (e, advance_loop) (Advanced-refl t)
  | inr (next, e) ↦
      rw (e, advance_loop) (Advanced-step t _ next e (advance_loop-Advanced fuel (step_to t next)))
]

terminal_some : (o : Option CommitSlotState) → IsTerminal o → (s : CommitSlotState) × (o ≡ some s)
terminal_some none h = absurd h
terminal_some (some s) h = (s, refl)

fewer_slots :
    (t : CommitTracker) (next : Sequence)
    → next_terminal t ≡ some next
    → length (remove next t.slots) < length t.slots
fewer_slots t next e =
    let (s, f) = terminal_some (lookup next t.slots) (next_terminal-some t next e).1 in
    length-remove-lt next t.slots s f

-- With more rounds than slots the loop stops by its own test.
pub advance_loop_settles :
    (fuel : ℕ) (t : CommitTracker)
    → length t.slots < fuel
    → next_terminal (advance_loop fuel t) ≡ none
unfolding advance_loop
advance_loop_settles zero t h = absurd (omega arith)
advance_loop_settles (suc fuel) t h = elim (Option-cases (next_terminal t)) [
  | inl e ↦ rw (e, advance_loop) e
  | inr (next, e) ↦
      rw (e, advance_loop)
        (advance_loop_settles fuel (step_to t next) (omega (arith, fewer_slots t next e)))
]
