-- ===== src/Tests/LeaseTests.antt =====
-- A writer lease (src/substrate/object_store/lease_state.rs).
use trine_kv.Prelude.{
  ℕ, ◌≤◌, ◌<◌, ◌≡◌, refl, ◌↔◌, Bool, true, false, List, [], ◌∷◌, Option, none, some, length, arith,
}
use trine_kv.Prelude.LittleEndian.{is_utf8}
use trine_kv.Error.{ok, err, corruption}
use trine_kv.Keys.{Bytes, Sequence}
use trine_kv.Lease.{
  ObjectLeaseState, empty_state, publish, already_applied, current_owner, fenced, observe_owner,
  plan_renew, plan_commit_head, encode_lease_state, decode_lease_state,
}
use trine_kv.Lease.Plans.{
  Steps, here, next, renew, commit_head, chain_keeps_owner, with_head, HasHead, commit_head_lem,
}
use trine_kv.Lease.RoundTrip.{decode-encode}

abbrev held : ObjectLeaseState
held = record empty_state { epoch = 2; lease_expires_at_ms = 500 }

abbrev committed : ObjectLeaseState
committed = record held {
  committed_sequence = 7;
  current_wal_key = some (97 ∷ 98 ∷ []);
  lease_expires_at_ms = 900;
}

held-Steps : Steps held committed
unfolding plan_renew plan_commit_head
held-Steps =
    next (next here (renew held 600))
      (commit_head (plan_renew held 600) committed 7 (97 ∷ 98 ∷ []) 900 refl)

chain_keeps_owner_example :
    (observe_owner held committed ≡ current_owner)
    × (held.committed_sequence ≤ committed.committed_sequence)
    × ((old : ObjectLeaseState)
        → old.epoch < held.epoch
        → observe_owner old committed ≡ fenced committed.epoch)
chain_keeps_owner_example = chain_keeps_owner held committed held-Steps

commit_head_lem_example :
    ((t : ObjectLeaseState)
      → (plan_commit_head held 7 (97 ∷ []) 900 ≡ ok (publish t))
        ↔ ((held.committed_sequence < 7) × (t ≡ with_head held 7 (97 ∷ []) 900)))
    × ((plan_commit_head held 7 (97 ∷ []) 900 ≡ ok already_applied) ↔ HasHead held 7 (97 ∷ []))
    × (7 ≤ held.committed_sequence
        → ¬ HasHead held 7 (97 ∷ [])
        → plan_commit_head held 7 (97 ∷ []) 900 ≡ err corruption)
    × ((other : Bytes) (later : ℕ)
        → (plan_commit_head (with_head held 7 (97 ∷ []) 900) 7 other later ≡ ok already_applied)
          ↔ (97 ∷ [] ≡ other))
    × ((earlier : Sequence) (key : Bytes) (later : ℕ)
        → earlier < 7
        → plan_commit_head (with_head held 7 (97 ∷ []) 900) earlier key later ≡ err corruption)
commit_head_lem_example = commit_head_lem held 7 (97 ∷ []) 900

-- A sequence of 0 with no key published yet is not the head that is there.
no_head : plan_commit_head held 0 (97 ∷ []) 900 ≡ err corruption
unfolding plan_commit_head
no_head = refl

abbrev encoded : Bytes
encoded =
    83 ∷ 76 ∷ 82 ∷ 84 ∷ 3 ∷ 0 ∷ 2 ∷ 0 ∷ 0 ∷ 0 ∷ 0 ∷ 0 ∷ 0 ∷ 0 ∷ 0 ∷ 0 ∷ 0 ∷ 0 ∷ 0 ∷ 0 ∷ 0 ∷ 0 ∷ 0
    ∷ 0 ∷ 0 ∷ 0 ∷ 0 ∷ 0 ∷ 0 ∷ 0 ∷ 7 ∷ 0 ∷ 0 ∷ 0 ∷ 0 ∷ 0 ∷ 0 ∷ 0 ∷ 132 ∷ 3 ∷ 0 ∷ 0 ∷ 0 ∷ 0 ∷ 0 ∷ 0
    ∷ 2 ∷ 0 ∷ 0 ∷ 0 ∷ 97 ∷ 98 ∷ []

committed-encoded : encode_lease_state committed ≡ ok encoded
unfolding encode_lease_state trine_kv.Prelude.LittleEndian.to_le_bytes
committed-encoded = refl

key_utf8 : is_utf8 (97 ∷ 98 ∷ []) ≡ true
unfolding is_utf8
key_utf8 = refl

decode-encode_example : decode_lease_state encoded ≡ ok committed
decode-encode_example =
    decode-encode committed encoded committed-encoded (omega arith) (omega arith) (omega arith) refl
      (key_utf8, omega arith)
