-- ===== src/Ints.antt =====
-- The integer readers of runtime/read_bytes.go.
pub mod RoundTrip
pub mod Paths
use cbor.Base.{
  ℕ, ◌+◌, ◌-◌, ◌^◌, List, [], ◌∷◌, Bool, true, false, ◌&&◌, ◌||◌, Bytes, ℤ, pos, negsuc, to_int64,
  ltb, leb, ◌==◌, if◌then◌else◌,
}
use cbor.Result.{Result, ok, err, ◌>>=◌, short_bytes, bad_prefix, int_overflow, uint_overflow}
use cbor.Wire.{get_major_type, take_uint, read_uint_core, major_uint}

-- `u := be.UintN(b[1:])`, taken to an int64 when it fits.
abbrev narrow_pos : ℕ × Bytes → Result (ℤ × Bytes)
narrow_pos (u, o) = if ltb (2 ^ 63 - 1) u then err (int_overflow (to_int64 u) 64) else ok (pos u, o)

-- `-1 - int64(u)`
abbrev narrow_neg : ℕ × Bytes → Result (ℤ × Bytes)
narrow_neg (u, o) =
    if ltb (2 ^ 63 - 1) u then err (int_overflow (negsuc 0) 64) else ok (negsuc u, o)

-- Major type 1 (negative): 0x20-0x3b, and the error for any other type.
read_negative : ℕ → Bytes → Result (ℤ × Bytes)
read_negative lead t =
    if leb 0x20 lead && leb lead 0x37
    then ok (negsuc (lead - 0x20), t)
    else if lead == 0x38
    then (take_uint 1 t >>= λ (u, o). ok (negsuc u, o))
    else if lead == 0x39
    then (take_uint 2 t >>= λ (u, o). ok (negsuc u, o))
    else if lead == 0x3a
    then (take_uint 4 t >>= λ (u, o). ok (negsuc u, o))
    else if lead == 0x3b
    then (take_uint 8 t >>= narrow_neg)
    else err (bad_prefix (get_major_type lead) major_uint)

-- Major type 0 (positive): 0x00-0x1b.
unfoldable pub read_int64 : Bytes → Result (ℤ × Bytes)
unfolding read_negative
read_int64 [] = err short_bytes
read_int64 (lead ∷ t) =
    if leb lead 0x17
    then ok (pos lead, t)
    else if lead == 0x18
    then (take_uint 1 t >>= λ (u, o). ok (pos u, o))
    else if lead == 0x19
    then (take_uint 2 t >>= λ (u, o). ok (pos u, o))
    else if lead == 0x1a
    then (take_uint 4 t >>= λ (u, o). ok (pos u, o))
    else if lead == 0x1b
    then (take_uint 8 t >>= narrow_pos)
    else read_negative lead t

-- `i64 > math.MaxIntN || i64 < math.MinIntN`
int_exceeds : ℕ → ℤ → Bool
int_exceeds w (pos n) = ltb (2 ^ (w - 1) - 1) n
int_exceeds w (negsuc n) = ltb (2 ^ (w - 1) - 1) n

-- `ReadInt8Bytes`, `ReadInt16Bytes`, `ReadInt32Bytes` for w = 8, 16, 32.
narrow_int : ℕ → Bytes → Result (ℤ × Bytes)
narrow_int w b =
    read_int64 b >>= λ (i, o). if int_exceeds w i then err (int_overflow i w) else ok (i, o)

unfoldable pub read_int32 : Bytes → Result (ℤ × Bytes)
unfolding narrow_int int_exceeds
read_int32 b = narrow_int 32 b

unfoldable pub read_int16 : Bytes → Result (ℤ × Bytes)
unfolding narrow_int int_exceeds
read_int16 b = narrow_int 16 b

unfoldable pub read_int8 : Bytes → Result (ℤ × Bytes)
unfolding narrow_int int_exceeds
read_int8 b = narrow_int 8 b

-- An `int` has 64 bits here.
unfoldable pub read_int : Bytes → Result (ℤ × Bytes)
read_int b = read_int64 b >>= λ (i, o). ok (i, o)

unfoldable pub read_uint64 : Bytes → Result (ℕ × Bytes)
read_uint64 b = read_uint_core b major_uint

-- `ReadUint8Bytes`, `ReadUint16Bytes`, `ReadUint32Bytes` for w = 8, 16, 32.
narrow_uint : ℕ → Bytes → Result (ℕ × Bytes)
narrow_uint w b = read_uint_core b major_uint >>= λ (u, o).
    if ltb (2 ^ w - 1) u then err (uint_overflow u w) else ok (u, o)

unfoldable pub read_uint32 : Bytes → Result (ℕ × Bytes)
unfolding narrow_uint
read_uint32 b = narrow_uint 32 b

unfoldable pub read_uint16 : Bytes → Result (ℕ × Bytes)
unfolding narrow_uint
read_uint16 b = narrow_uint 16 b

unfoldable pub read_uint8 : Bytes → Result (ℕ × Bytes)
unfolding narrow_uint
read_uint8 b = narrow_uint 8 b
