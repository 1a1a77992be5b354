-- ===== src/Limits.antt =====
-- src/limits.rs: size limits and the checked addition of sizes. A `usize` has 64 bits.
use trine_kv.Prelude.{ℕ, ◌+◌, ◌*◌, leb, if◌then◌else◌}
use trine_kv.Error.{Result, ok, err, invalid_format}
use trine_kv.Keys.{u64_max}

abbrev pub max_wal_frame_payload_bytes : ℕ
max_wal_frame_payload_bytes = 64 * 1024 * 1024

unfoldable pub ensure_invalid_format_len : ℕ → ℕ → Result (Unit {0})
ensure_invalid_format_len len max = if leb len max then ok tt else err invalid_format

unfoldable pub checked_add_invalid_format : ℕ → ℕ → Result ℕ
checked_add_invalid_format left right =
    if leb (left + right) u64_max then ok (left + right) else err invalid_format
