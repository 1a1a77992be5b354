-- ===== src/Lease.antt =====
-- src/substrate/object_store/lease_state.rs: the writer lease of a database in an object store, as
-- a state with its planned transitions, and its bytes. Conditional writes are made elsewhere.
pub mod Plans
pub mod RoundTrip
use Prim.Native.Nat.Ordering.{lt, eq, gt}
use trine_kv.Prelude.{
  ℕ, ◌+◌, ◌-◌, ◌*◌, min, compare, Bool, true, false, not, List, [], ◌∷◌, ◌++◌, Option, none, some,
  length, take, drop, leb, ◌==◌, if◌then◌else◌,
}
use trine_kv.Prelude.Order.{compare_bytes}
use trine_kv.Prelude.LittleEndian.{to_le_bytes, from_le_bytes, slice?, is_utf8}
use trine_kv.Error.{Error, Result, ok, err, ◌>>=◌, ◌>>◌, guard, corruption, invalid_options}
use trine_kv.Keys.{Bytes, Sequence, u32_max, u64_max}

pub record ObjectLeaseState : Type 0 where
  pub epoch : ℕ
  pub owner_id : Bytes
  pub committed_sequence : Sequence
  pub current_wal_key : Option Bytes
  pub lease_expires_at_ms : ℕ

pub data LeaseStatePublish : Type 0 where
  publish : ObjectLeaseState → LeaseStatePublish
  already_applied : LeaseStatePublish

pub data LeaseOwnerObservation : Type 0 where
  current_owner : LeaseOwnerObservation
  fenced epoch_regression : ℕ → LeaseOwnerObservation

abbrev pub object_lease_magic : ℕ
object_lease_magic = 1414679635

abbrev pub object_lease_version : ℕ
object_lease_version = 3

abbrev pub header_len : ℕ
header_len = 50

abbrev pub object_lease_max_bytes : ℕ
object_lease_max_bytes = 64 * 1024

abbrev pub object_lease_ttl_ms : ℕ
object_lease_ttl_ms = 30000

abbrev zero_bytes : Bytes
zero_bytes = 0 ∷ 0 ∷ 0 ∷ 0 ∷ 0 ∷ 0 ∷ 0 ∷ 0 ∷ 0 ∷ 0 ∷ 0 ∷ 0 ∷ 0 ∷ 0 ∷ 0 ∷ 0 ∷ []

-- `ObjectLeaseState::empty`
abbrev pub empty_state : ObjectLeaseState
empty_state = record {
  epoch = 0;
  owner_id = zero_bytes;
  committed_sequence = 0;
  current_wal_key = none;
  lease_expires_at_ms = 0;
}

unfoldable pub is_expired_at : ObjectLeaseState → ℕ → Bool
is_expired_at s now_ms = leb s.lease_expires_at_ms now_ms

-- Equality of byte strings.
abbrev pub same_bytes : Bytes → Bytes → Bool
same_bytes a b = elim (compare_bytes a b) [ eq ↦ true | _ ↦ false ]

unfoldable pub observe_owner : ObjectLeaseState → ObjectLeaseState → LeaseOwnerObservation
observe_owner mine current = elim (compare current.epoch mine.epoch) [
  | gt ↦ fenced current.epoch
  | lt ↦ epoch_regression current.epoch
  | eq ↦ if same_bytes current.owner_id mine.owner_id then current_owner else fenced current.epoch
]

unfoldable pub plan_renew : ObjectLeaseState → ℕ → ObjectLeaseState
plan_renew s expires = record s { lease_expires_at_ms = expires }

unfoldable pub plan_release : ObjectLeaseState → ObjectLeaseState
plan_release s = record s { lease_expires_at_ms = 0 }

abbrev is_key : Option Bytes → Bytes → Bool
is_key none wal_key = false
is_key (some current) wal_key = same_bytes current wal_key

unfoldable pub plan_commit_head : ObjectLeaseState → Sequence → Bytes → ℕ → Result LeaseStatePublish
plan_commit_head s sequence wal_key expires = elim (compare s.committed_sequence sequence) [
  | gt ↦ err corruption
  | eq ↦ if is_key s.current_wal_key wal_key then ok already_applied else err corruption
  | lt ↦ ok (
      publish (record s {
        committed_sequence = sequence;
        current_wal_key = some wal_key;
        lease_expires_at_ms = expires;
      }))
]

unfoldable pub plan_rewrite_head : ObjectLeaseState → Option Bytes → ℕ → ObjectLeaseState
plan_rewrite_head s current_wal_key expires = record s {
  current_wal_key = current_wal_key;
  lease_expires_at_ms = expires;
}

-- `saturating_add` of the lease's time to live.
unfoldable pub object_lease_deadline_ms : ℕ → ℕ
object_lease_deadline_ms now_ms = min (now_ms + object_lease_ttl_ms) u64_max

abbrev pub key_bytes : Option Bytes → Bytes
key_bytes none = []
key_bytes (some key) = key

unfoldable pub encode_lease_state : ObjectLeaseState → Result Bytes
encode_lease_state s = do
  guard (leb (length (key_bytes s.current_wal_key)) u32_max) invalid_options
  let bytes =
      to_le_bytes 4 object_lease_magic
      ++ (to_le_bytes 2 object_lease_version
          ++ (to_le_bytes 8 s.epoch
              ++ (s.owner_id
                  ++ (to_le_bytes 8 s.committed_sequence
                      ++ (to_le_bytes 8 s.lease_expires_at_ms
                          ++ (to_le_bytes 4 (length (key_bytes s.current_wal_key))
                              ++ key_bytes s.current_wal_key))))))
  guard (leb (length bytes) object_lease_max_bytes) invalid_options
  ok bytes

-- `&bytes[start..end]`, where the length has been tested.
abbrev pub slice : Bytes → ℕ → ℕ → Bytes
slice bytes start end = take (end - start) (drop start bytes)

-- `read_u16_le`, `read_u32_le` and `decode_u64` are this reader at 2, 4 and 8 bytes.
unfoldable pub read_array : ℕ → Bytes → Result ℕ
read_array width bytes = if length bytes == width then ok (from_le_bytes bytes) else err corruption

unfoldable pub decode_lease_state_with_key :
    Bytes → ℕ → ℕ → ObjectLeaseState → Result ObjectLeaseState
decode_lease_state_with_key bytes key_offset key_len state = do
  guard (leb (key_offset + key_len) u64_max) corruption
  guard ((key_offset + key_len) == length bytes) corruption
  if key_len == 0
      then ok (record state { current_wal_key = none })
      else elim (slice? bytes key_offset (key_offset + key_len)) [
        | none ↦ err corruption
        | some key ↦
            guard (is_utf8 key) corruption >> ok (record state { current_wal_key = some key })
      ]

unfoldable pub decode_lease_state : Bytes → Result ObjectLeaseState
unfolding read_array decode_lease_state_with_key
decode_lease_state bytes = do
  guard (leb header_len (length bytes)) corruption
  magic ← read_array 4 (slice bytes 0 4)
  guard (magic == object_lease_magic) corruption
  version ← read_array 2 (slice bytes 4 6)
  guard (version == object_lease_version) corruption
  epoch ← read_array 8 (slice bytes 6 14)
  guard (length (slice bytes 14 30) == 16) corruption
  committed_sequence ← read_array 8 (slice bytes 30 38)
  lease_expires_at_ms ← read_array 8 (slice bytes 38 46)
  key_len ← read_array 4 (slice bytes 46 50)
  decode_lease_state_with_key bytes header_len key_len (record {
    epoch = epoch;
    owner_id = slice bytes 14 30;
    committed_sequence = committed_sequence;
    current_wal_key = none;
    lease_expires_at_ms = lease_expires_at_ms;
  })
