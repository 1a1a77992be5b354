-- ===== src/Commit/Barrier.antt =====
-- The publication barrier: activities against `close` (src/db/commit_tracker.rs).
use trine_kv.Prelude.{ℕ, ◌+◌, ◌-◌, ◌≤◌, ◌<◌, ◌≡◌, refl, ◌↔◌, true, false, arith}
use trine_kv.Error.{ok, err, closed}
use trine_kv.Commit.{
  PublishBarrierActivity, begin_activity, drop_activity, close_begin, close_returns,
}

-- The barrier, and the guards that threads hold.
pub record Gate : Type 0 where
  pub activity : PublishBarrierActivity
  pub guards : ℕ

-- A new barrier: the default activity, and no guard.
abbrev pub new_gate : Gate
new_gate = record { activity = record { active = 0; closing = false }; guards = 0 }

-- One locked section of some thread, on a machine whose `usize` ends at `usize_max`.
pub data GateStep (usize_max : ℕ) : Gate → Gate → Type 0 where
  admit :
      (g : Gate) (a : PublishBarrierActivity)
      → begin_activity usize_max g.activity ≡ ok a
      → GateStep usize_max g (record g { activity = a; guards = g.guards + 1 })
  leave :
      (g : Gate)
      → 0 < g.guards
      → GateStep usize_max g
          (record g { activity = drop_activity g.activity; guards = g.guards - 1 })
  close : (g : Gate) → GateStep usize_max g (record g { activity = close_begin g.activity })

pub data GateReach (usize_max : ℕ) (g : Gate) : Gate → Type 0 where
  here : GateReach usize_max g g
  next : {h k : Gate} → GateReach usize_max g h → GateStep usize_max h k → GateReach usize_max g k

abbrev pub Counted : Gate → Type 0
Counted g = g.activity.active ≡ g.guards

GateStep-Counted : (usize_max : ℕ) {g h : Gate} → GateStep usize_max g h → Counted g → Counted h
unfolding begin_activity drop_activity close_begin
GateStep-Counted usize_max (admit g a e) c = ground arith
GateStep-Counted usize_max (leave g l) c = ground arith
GateStep-Counted usize_max (close g) c = c

GateReach-Counted : (usize_max : ℕ) {g : Gate} → GateReach usize_max new_gate g → Counted g
GateReach-Counted usize_max here = refl
GateReach-Counted usize_max (next r st) =
    GateStep-Counted usize_max st (GateReach-Counted usize_max r)

GateStep-closing :
    (usize_max : ℕ) {g h : Gate}
    → GateStep usize_max g h
    → g.activity.closing ≡ true
    → (h.activity.closing ≡ true) × (h.guards ≤ g.guards)
unfolding begin_activity drop_activity close_begin
GateStep-closing usize_max (admit g a e) c = ground arith
GateStep-closing usize_max (leave g l) c = ground arith
GateStep-closing usize_max (close g) c = ground arith

GateReach-closing :
    (usize_max : ℕ) (g h : Gate)
    → GateReach usize_max g h
    → g.activity.closing ≡ true
    → (h.activity.closing ≡ true) × (h.guards ≤ g.guards)
GateReach-closing usize_max g _ here c = (c, omega arith)
GateReach-closing usize_max g h (next {h = m} r st) c =
    let before = GateReach-closing usize_max g m r c in
    let (closing, fewer) = GateStep-closing usize_max st before.0 in
    (closing, omega (arith, fewer, before.1))

GateReach-trans :
    (usize_max : ℕ) {a b c : Gate}
    → GateReach usize_max a b
    → GateReach usize_max b c
    → GateReach usize_max a c
GateReach-trans usize_max r here = r
GateReach-trans usize_max r (next q st) = next (GateReach-trans usize_max r q) st

-- In every state that a new barrier reaches, whatever the threads do, the activity count is the
-- number of guards held. Once a close has begun no guard is added, nobody is admitted, and its wait
-- may return exactly when no guard is held, which then stays so in every later state.
pub closed_stays_idle :
    (usize_max : ℕ) (g h : Gate)
    → GateReach usize_max new_gate g
    → g.activity.closing ≡ true
    → GateReach usize_max g h
    → Counted g
      × Counted h
      × (h.activity.closing ≡ true)
      × (h.guards ≤ g.guards)
      × ((close_returns g.activity ≡ true) ↔ (g.guards ≡ 0))
      × (close_returns g.activity ≡ true → (h.guards ≡ 0) × (close_returns h.activity ≡ true))
      × (begin_activity usize_max h.activity ≡ err closed)
unfolding close_returns begin_activity
closed_stays_idle usize_max g h r c q =
    let now = GateReach-Counted usize_max r in
    let later = GateReach-Counted usize_max (GateReach-trans usize_max r q) in
    let (closing, fewer) = GateReach-closing usize_max g h q c in
    (
      now,
      later,
      closing,
      fewer,
      (λ e. ground (arith, now), λ e. ground (arith, now)),
      λ e. (ground (arith, now, fewer), ground (arith, now, later, fewer)),
      ground (arith, closing),
    )
