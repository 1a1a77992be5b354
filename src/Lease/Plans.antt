-- ===== src/Lease/Plans.antt =====
-- What a chain of planned transitions of one owner keeps
-- (src/substrate/object_store/lease_state.rs).
use trine_kv.Prelude.{
  ℕ, ◌≤◌, ◌<◌, ◌≡◌, refl, ◌↔◌, ap, ◌∙◌, inl, inr, true, Option, some, Option-cases, arith,
}
use trine_kv.Prelude.Order.{compare_bytes-IsOrder}
use trine_kv.Error.{ok, err, corruption}
use trine_kv.Keys.{Bytes, Sequence}
use trine_kv.Lease.{
  ObjectLeaseState, publish, already_applied, current_owner, fenced, same_bytes, observe_owner,
  plan_renew, plan_release, plan_commit_head, plan_rewrite_head,
}

-- A state that the holder of the lease writes over another.
pub data Step : ObjectLeaseState → ObjectLeaseState → Type 0 where
  renew : (s : ObjectLeaseState) (expires : ℕ) → Step s (plan_renew s expires)
  release : (s : ObjectLeaseState) → Step s (plan_release s)
  commit_head :
      (s t : ObjectLeaseState) (sequence : Sequence) (wal_key : Bytes) (expires : ℕ)
      → plan_commit_head s sequence wal_key expires ≡ ok (publish t)
      → Step s t
  rewrite_head :
      (s : ObjectLeaseState) (wal_key : Option Bytes) (expires : ℕ)
      → Step s (plan_rewrite_head s wal_key expires)

pub data Steps (s : ObjectLeaseState) : ObjectLeaseState → Type 0 where
  here : Steps s s
  next : {t u : ObjectLeaseState} → Steps s t → Step t u → Steps s u

-- The owner of `s` still holds the lease in `t`, which is not behind `s`.
abbrev Follows : ObjectLeaseState → ObjectLeaseState → Type 0
Follows s t =
    (t.epoch ≡ s.epoch) × (t.owner_id ≡ s.owner_id) × (s.committed_sequence ≤ t.committed_sequence)

published :
    (s t : ObjectLeaseState) (sequence : Sequence) (wal_key : Bytes) (expires : ℕ)
    → plan_commit_head s sequence wal_key expires ≡ ok (publish t)
    → (s.committed_sequence < sequence)
      × (t ≡ record s {
        committed_sequence = sequence;
        current_wal_key = some wal_key;
        lease_expires_at_ms = expires;
      })
unfolding plan_commit_head
published s t sequence wal_key expires h = ground arith

Step-Follows : {s t : ObjectLeaseState} → Step s t → Follows s t
unfolding plan_renew plan_release plan_rewrite_head
Step-Follows (renew s expires) = (refl, refl, omega arith)
Step-Follows (release s) = (refl, refl, omega arith)
Step-Follows (commit_head s t sequence wal_key expires h) =
    let (below, e) = published s t sequence wal_key expires h in
    (
      ap (λ u. u.epoch) e,
      ap (λ u. u.owner_id) e,
      omega (arith, below, ap (λ u. u.committed_sequence) e),
    )
Step-Follows (rewrite_head s wal_key expires) = (refl, refl, omega arith)

Steps-Follows : {s t : ObjectLeaseState} → Steps s t → Follows s t
Steps-Follows here = (refl, refl, omega arith)
Steps-Follows (next r st) =
    let (e, o, c) = Steps-Follows r in
    let (e', o', c') = Step-Follows st in (e' ∙ e, o' ∙ o, omega (arith, c, c'))

same_bytes_refl : (a : Bytes) → same_bytes a a ≡ true
same_bytes_refl a = ground (arith, compare_bytes-IsOrder.preorder.cmp_refl a)

-- Whatever the holder of a lease writes, in any number of renewals, releases, commit heads and
-- rewritten heads, it is still observed as the current owner, and the committed sequence has not
-- gone back; a holder of a smaller epoch is observed as fenced.
pub chain_keeps_owner :
    (s t : ObjectLeaseState)
    → Steps s t
    → (observe_owner s t ≡ current_owner)
      × (s.committed_sequence ≤ t.committed_sequence)
      × ((old : ObjectLeaseState) → old.epoch < s.epoch → observe_owner old t ≡ fenced t.epoch)
unfolding observe_owner
chain_keeps_owner s t r =
    let (e, o, c) = Steps-Follows r in
    (
      ground (arith, e, same_bytes_refl s.owner_id, ap (λ k. same_bytes k s.owner_id) o),
      c,
      λ old h. ground (arith, e, h),
    )

same_bytes-eq : (a b : Bytes) → same_bytes a b ≡ true → a ≡ b
same_bytes-eq a b h = compare_bytes-IsOrder.eq_of_cmp a b (ground (arith, h))

-- The state with the head that a commit publishes.
abbrev pub with_head : ObjectLeaseState → Sequence → Bytes → ℕ → ObjectLeaseState
with_head s sequence wal_key expires = record s {
  committed_sequence = sequence;
  current_wal_key = some wal_key;
  lease_expires_at_ms = expires;
}

-- Whether the state has this head already.
abbrev pub HasHead : ObjectLeaseState → Sequence → Bytes → Type 0
HasHead s sequence wal_key = (s.committed_sequence ≡ sequence) × (s.current_wal_key ≡ some wal_key)

already_applied_iff :
    (s : ObjectLeaseState) (sequence : Sequence) (wal_key : Bytes) (expires : ℕ)
    → (plan_commit_head s sequence wal_key expires ≡ ok already_applied)
      ↔ HasHead s sequence wal_key
unfolding plan_commit_head
already_applied_iff s sequence wal_key expires = elim (Option-cases s.current_wal_key) [
  | inl n ↦ (λ h. ground (arith, n, h), λ h. ground (arith, n, h))
  | inr (current, e) ↦ (
    λ h. (ground (arith, e, h), e ∙ ap some (same_bytes-eq current wal_key (ground (arith, e, h)))),
    λ h. ground (arith, e, h, same_bytes_refl wal_key),
  )
]

-- Planning a commit head moves forward only and is idempotent. From every state it publishes exactly
-- for a sequence later than the committed one, and then the state with the new head; it finds the head
-- applied exactly if the state has this sequence with this key; in every other case it is corruption.
-- From the state with the new head, whoever plans the same head again finds it applied, and another
-- key for the same sequence and every earlier sequence are corruption.
pub commit_head_lem :
    (s : ObjectLeaseState) (sequence : Sequence) (wal_key : Bytes) (expires : ℕ)
    → ((t : ObjectLeaseState)
        → (plan_commit_head s sequence wal_key expires ≡ ok (publish t))
          ↔ ((s.committed_sequence < sequence) × (t ≡ with_head s sequence wal_key expires)))
      × ((plan_commit_head s sequence wal_key expires ≡ ok already_applied)
          ↔ HasHead s sequence wal_key)
      × (sequence ≤ s.committed_sequence
          → ¬ HasHead s sequence wal_key
          → plan_commit_head s sequence wal_key expires ≡ err corruption)
      × ((other : Bytes) (later : ℕ)
          → (plan_commit_head (with_head s sequence wal_key expires) sequence other later
              ≡ ok already_applied)
            ↔ (wal_key ≡ other))
      × ((earlier : Sequence) (key : Bytes) (later : ℕ)
          → earlier < sequence
          → plan_commit_head (with_head s sequence wal_key expires) earlier key later
            ≡ err corruption)
unfolding plan_commit_head
commit_head_lem s sequence wal_key expires = (
  λ t. (λ h. published s t sequence wal_key expires h, λ (below, e). ground (arith, below, e)),
  already_applied_iff s sequence wal_key expires,
  λ old new. ground (arith, already_applied_iff s sequence wal_key expires, new),
  λ other later.
      let (there, back) =
        already_applied_iff (with_head s sequence wal_key expires) sequence other later in
      (λ h. ground (arith, there h), λ e. back (refl, ap some e)),
  λ earlier key later e. ground (arith, e),
)
