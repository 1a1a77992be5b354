-- ===== src/Prelude/LittleEndian.antt =====
-- Little-endian numbers, slices and UTF-8 strings, as `std` has them.
use Prim.Native.Nat.{ℕ, zero, suc, ◌+◌, ◌-◌, ◌*◌, ◌/◌, ◌%◌, ◌≤◌, ◌<◌}
use mathlib.Core.Path.{◌≡◌, refl, sym, ap, ◌∙◌}
use mathlib.Core.Bool.{Bool, true, false, ◌&&◌}
use mathlib.Core.List.{List, [], ◌∷◌, ◌++◌}
use mathlib.Core.Option.{Option, none, some}
use native.Mathlib.Omega.{arith}
use trine_kv.Prelude.Tests.{leb, ◌==◌, if◌then◌else◌}
use trine_kv.Prelude.Lists.{
  length, take, drop, length-drop, length-append, take-append, drop-append, drop-drop,
}

abbrev pub pow256 : ℕ → ℕ
pow256 zero = 1
pow256 (suc w) = 256 * pow256 w

-- `to_le_bytes` and `from_le_bytes` of an unsigned integer of `w` bytes.
unfoldable pub to_le_bytes : ℕ → ℕ → List ℕ
to_le_bytes zero n = []
to_le_bytes (suc w) n = (n % 256) ∷ to_le_bytes w (n / 256)

unfoldable pub from_le_bytes : List ℕ → ℕ
from_le_bytes [] = 0
from_le_bytes (b ∷ bs) = b + 256 * from_le_bytes bs

-- `bytes.get(start..end)`
unfoldable pub slice? : List ℕ → ℕ → ℕ → Option (List ℕ)
slice? bytes start end =
    if leb start end && leb end (length bytes)
    then some (take (end - start) (drop start bytes))
    else none

-- The states between the bytes of a string: `tail n` expects n continuation bytes.
pub data Utf8State : Type 0 where
  boundary : Utf8State
  tail : ℕ → Utf8State
  -- the next byte lies between two bounds, and n continuation bytes follow it
  second : ℕ → ℕ → ℕ → Utf8State
  invalid : Utf8State

abbrev within : ℕ → ℕ → ℕ → Bool
within first last b = leb first b && leb b last

abbrev utf8_lead : ℕ → Utf8State
utf8_lead b =
    if leb b 127
    then boundary
    else if within 194 223 b
    then tail 1
    else if b == 224
    then second 160 191 1
    else if within 225 236 b
    then tail 2
    else if b == 237
    then second 128 159 1
    else if within 238 239 b
    then tail 2
    else if b == 240
    then second 144 191 2
    else if within 241 243 b
    then tail 3
    else if b == 244
    then second 128 143 2
    else invalid

abbrev utf8_step : Utf8State → ℕ → Utf8State
utf8_step boundary b = utf8_lead b
utf8_step (tail zero) b = utf8_lead b
utf8_step (tail (suc n)) b =
    if within 128 191 b then (if n == 0 then boundary else tail n) else invalid
utf8_step (second first last n) b = if within first last b then tail n else invalid
utf8_step invalid b = invalid

abbrev is_utf8_from : Utf8State → List ℕ → Bool
is_utf8_from boundary [] = true
is_utf8_from (tail n) [] = n == 0
is_utf8_from (second first last n) [] = false
is_utf8_from invalid [] = false
is_utf8_from s (b ∷ bs) = is_utf8_from (utf8_step s b) bs

-- `from_utf8(bytes).is_ok()`
unfoldable pub is_utf8 : List ℕ → Bool
is_utf8 bytes = is_utf8_from boundary bytes

pub length-to_le_bytes : (w n : ℕ) → length (to_le_bytes w n) ≡ w
unfolding to_le_bytes
length-to_le_bytes zero n = refl
length-to_le_bytes (suc w) n = omega (arith, length-to_le_bytes w (n / 256))

pub from_le_bytes-to_le_bytes : (w n : ℕ) → n < pow256 w → from_le_bytes (to_le_bytes w n) ≡ n
unfolding to_le_bytes from_le_bytes
from_le_bytes-to_le_bytes zero n h = omega arith
from_le_bytes-to_le_bytes (suc w) n h =
    omega (arith, from_le_bytes-to_le_bytes w (n / 256) (omega arith))

-- A slice that holds exactly one part of a list.
pub slice?-part :
    (bytes part rest : List ℕ) (start : ℕ)
    → start ≤ length bytes
    → drop start bytes ≡ part ++ rest
    → slice? bytes start (start + length part) ≡ some part
unfolding slice?
slice?-part bytes part rest start h e =
    let size : length bytes - start ≡ length part + length rest =
      sym (length-drop start bytes) ∙ ap length e ∙ length-append part rest in
    let shown : take (start + length part - start) (drop start bytes) ≡ part =
      ap (λ k. take k (drop start bytes)) (omega arith)
      ∙ ap (take (length part)) e
      ∙ take-append part rest in
    ground (arith, size, shown)

-- What is left behind a part.
pub drop-part :
    (bytes part rest : List ℕ) (start : ℕ)
    → drop start bytes ≡ part ++ rest
    → drop (start + length part) bytes ≡ rest
drop-part bytes part rest start e =
    drop-drop start (length part) bytes ∙ ap (drop (length part)) e ∙ drop-append part rest
