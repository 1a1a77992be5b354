-- ===== src/Wal/Fields.antt =====
-- Reading back numbers and byte fields (src/wal/codec.rs).
use trine_kv.Prelude.{
  ℕ, zero, suc, ◌+◌, ◌-◌, ◌≤◌, ◌<◌, ◌≡◌, ap, sym, ◌∙◌, subst, [], ◌∷◌, ◌++◌, some, length, drop,
  get_elem?, length-append, append_assoc, length-drop, arith,
}
use trine_kv.Prelude.LittleEndian.{
  to_le_bytes, from_le_bytes-to_le_bytes, length-to_le_bytes, pow256, slice?, slice?-part,
  drop-part,
}
use trine_kv.Error.{Result, ok, ◌>>=◌}
use trine_kv.Keys.{Bytes, u64_max}
use trine_kv.Limits.{checked_add_invalid_format}
use trine_kv.Wal.Read.{Cursor, read_at, read_u8, read_number, read_bytes}
use trine_kv.Wal.Format.{field, Fits}

-- What is left to read at a cursor.
abbrev pub At : Cursor → Bytes → Type 0
At c xs =
    (drop c.offset c.payload ≡ xs) × (c.offset ≤ length c.payload) × (length c.payload ≤ u64_max)

-- A reader gives a value and leaves the rest.
abbrev pub Reads {ℓ} : {A : Type ℓ} → Result (A × Cursor) → A → Bytes → Type ℓ
Reads r a rest = (c : Cursor) × (r ≡ ok (a, c)) × At c rest

pub Reads-bind {ℓ κ} :
    {A : Type ℓ} {B : Type κ} {m : Result (A × Cursor)} {a : A} {b : B} {rest rest' : Bytes}
    (f : A × Cursor → Result (B × Cursor))
    → Reads m a rest
    → ((c : Cursor) → At c rest → Reads (f (a, c)) b rest')
    → Reads (m >>= f) b rest'
Reads-bind {a = a} {b = b} {rest' = rest'} f (c, e, at) k =
    subst (λ r. Reads (r >>= f) b rest') (sym e) (k c at)

pub left :
    (c : Cursor) (part rest : Bytes)
    → At c (part ++ rest)
    → length c.payload - c.offset ≡ length part + length rest
left c part rest (e, _, _) =
    sym (length-drop c.offset c.payload) ∙ ap length e ∙ length-append part rest

pub skip :
    (c : Cursor) (part rest : Bytes)
    → At c (part ++ rest)
    → At (record c { offset = c.offset + length part }) rest
skip c part rest at =
    (drop-part c.payload part rest c.offset at.0, omega (arith, left c part rest at, at.1), at.2)

pub read_at-Reads :
    (w n : ℕ) (c : Cursor) (rest : Bytes)
    → n < pow256 w
    → At c (to_le_bytes w n ++ rest)
    → read_at w c.payload c.offset ≡ ok n
unfolding read_at checked_add_invalid_format
read_at-Reads w n c rest h at =
    let part : slice? c.payload c.offset (c.offset + w) ≡ some (to_le_bytes w n) =
      ap (λ k. slice? c.payload c.offset (c.offset + k)) (sym (length-to_le_bytes w n))
      ∙ slice?-part c.payload (to_le_bytes w n) rest c.offset at.1 at.0 in
    ground (
      arith,
      part,
      from_le_bytes-to_le_bytes w n h,
      left c (to_le_bytes w n) rest at,
      length-to_le_bytes w n,
      at.1,
      at.2,
    )

pub read_number-Reads :
    (w n : ℕ) (c : Cursor) (rest : Bytes)
    → n < pow256 w
    → At c (to_le_bytes w n ++ rest)
    → Reads (read_number w c) n rest
unfolding read_number
read_number-Reads w n c rest h at = (
  record c { offset = c.offset + w },
  ap (λ r. r >>= λ value. ok (value, record c { offset = c.offset + w }))
      (read_at-Reads w n c rest h at),
  subst (λ k. At (record c { offset = c.offset + k }) rest) (length-to_le_bytes w n)
      (skip c (to_le_bytes w n) rest at),
)

get_elem?-drop : (n : ℕ) (xs rest : Bytes) (x : ℕ) → drop n xs ≡ x ∷ rest → get_elem? xs n ≡ some x
get_elem?-drop zero [] rest x h = cc
get_elem?-drop zero (y ∷ ys) rest x h = cc
get_elem?-drop (suc n) [] rest x h = cc
get_elem?-drop (suc n) (y ∷ ys) rest x h = get_elem?-drop n ys rest x h

pub read_u8-Reads : (c : Cursor) (x : ℕ) (rest : Bytes) → At c (x ∷ rest) → Reads (read_u8 c) x rest
unfolding read_u8
read_u8-Reads c x rest at = (
  record c { offset = c.offset + 1 },
  ground (arith, get_elem?-drop c.offset c.payload rest x at.0),
  skip c (x ∷ []) rest at,
)

pub read_bytes-Reads :
    (c : Cursor) (value rest : Bytes)
    → Fits value
    → At c (field value ++ rest)
    → Reads (read_bytes c) value rest
unfolding read_bytes checked_add_invalid_format
read_bytes-Reads c value rest fit at =
    Reads-bind _
      (read_number-Reads 4 (length value) c (value ++ rest) (omega (arith, fit))
        (subst (At c) (append_assoc (to_le_bytes 4 (length value)) value rest) at))
      (λ c1 at1. (
        record c1 { offset = c1.offset + length value },
        ground (
          arith,
          slice?-part c1.payload value rest c1.offset at1.1 at1.0,
          left c1 value rest at1,
          at1.1,
          at1.2,
        ),
        skip c1 value rest at1,
      ))
