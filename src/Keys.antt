-- ===== src/Keys.antt =====
-- src/types.rs and src/internal_key.rs: sequences, key ranges and internal keys.
pub mod Laws
use trine_kv.Prelude.{
  ℕ, ◌+◌, ◌-◌, ◌^◌, compare, Ordering, ◌≡◌, Bool, Option, none, some, List, ltb, leb, if◌then◌else◌,
}
use trine_kv.Prelude.Order.{then_with, compare_bytes}

-- User keys and values are byte strings, a `Sequence` is a `u64`.
abbrev pub Bytes : Type 0
Bytes = List ℕ

abbrev pub Sequence : Type 0
Sequence = ℕ

abbrev pub u32_max : ℕ
u32_max = 2 ^ 32 - 1

abbrev pub u64_max : ℕ
u64_max = 2 ^ 64 - 1

-- `u64::checked_add(1)`, under its two names in the source.
unfoldable pub checked_sequence_successor : ℕ → Option ℕ
checked_sequence_successor current = if ltb current u64_max then some (current + 1) else none

unfoldable pub checked_next : Sequence → Option Sequence
unfolding checked_sequence_successor
checked_next sequence = checked_sequence_successor sequence

pub data Bound : Type 0 where
  included excluded : Bytes → Bound
  unbounded : Bound

pub record KeyRange : Type 0 where
  pub start : Bound
  pub end : Bound

abbrev pub all_keys : KeyRange
all_keys = record { start = unbounded; end = unbounded }

abbrev pub half_open : Bytes → Bytes → KeyRange
half_open first last = record { start = included first; end = excluded last }

pub data ValueKind : Type 0 where
  put point_delete range_delete : ValueKind

-- The derived `Ord` goes by the position of the variant.
abbrev pub kind_rank : ValueKind → ℕ
kind_rank put = 0
kind_rank point_delete = 1
kind_rank range_delete = 2

pub record InternalKey : Type 0 where
  pub user_key : Bytes
  pub sequence : Sequence
  pub kind : ValueKind
  pub batch_index : ℕ

-- `Ord for InternalKey`: user keys ascending, newest record of a key first.
unfoldable pub compare_keys : InternalKey → InternalKey → Ordering
compare_keys a b = then_with (compare_bytes a.user_key b.user_key) (
    then_with (compare b.sequence a.sequence) (
      then_with (compare b.batch_index a.batch_index)
        (compare (kind_rank a.kind) (kind_rank b.kind))))

unfoldable pub first_internal_key_for_user : Bytes → InternalKey
first_internal_key_for_user user_key = record {
  user_key = user_key;
  sequence = u64_max;
  kind = put;
  batch_index = u32_max;
}

unfoldable pub last_internal_key_for_user : Bytes → InternalKey
last_internal_key_for_user user_key = record {
  user_key = user_key;
  sequence = 0;
  kind = range_delete;
  batch_index = 0;
}

-- src/mvcc.rs
unfoldable pub can_see : Sequence → Sequence → Bool
can_see read_sequence sequence = leb sequence read_sequence
