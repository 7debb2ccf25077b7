-- ===== src/Floats.antt =====
-- Half floats and canonical floats: `float32ToFloat16Bits`, `AppendFloat16`, `AppendFloat` and
-- `AppendFloatCanonical` of runtime/write_bytes.go, `float16BitsToFloat32` and `ReadFloat16Bytes` of
-- runtime/read_bytes.go, and the float methods of `Reader`. A float is its bit pattern. A shift is a
-- power of two; the operands of each `|` have no bit in common, so it is a sum.
use cbor.Base.{
  ℕ, ◌+◌, ◌-◌, ◌*◌, ◌/◌, ◌%◌, ◌^◌, List, [], ◌∷◌, ◌++◌, Bool, true, false, ◌&&◌, ◌||◌, ltb, leb,
  ◌==◌, ◌!=◌, if◌then◌else◌, Bytes, length, take,
}
use cbor.Result.{Result, ok, err, ◌>>=◌, short_bytes, bad_prefix, non_canonical_float}
use cbor.Wire.{make_byte, get_major_type, put_uint, take_uint, major_simple}
use cbor.Append.{simple_float16, append_float32, append_float64}
use cbor.Headers.{read_float32, read_float64}
use cbor.Maps.{bytes_equal}
use cbor.Reader.{Reader, advance}
pub mod Halves
pub mod RoundTrip
pub mod Strict

-- The case of NaN: `h` keeps a payload.
unfoldable pub nan_half : ℕ → ℕ
nan_half h = if h % 2 ^ 10 == 0 then h + 1 else h

-- `e16 <= 0`: the significand with its leading bit, rounded to even and shifted. `shift` is 14 - e32.
unfoldable pub small_half : ℕ → ℕ → ℕ
small_half shift mant =
    if ltb 24 shift
    then 0
    else let val = mant + 2 ^ 23 in
      (val + (2 ^ (shift - 1) - 1 + val / 2 ^ shift % 2)) % 2 ^ 32 / 2 ^ shift % 2 ^ 16 % 2 ^ 10

-- A normal half with the exponent `e16` and the mantissa `frac`, which may carry.
unfoldable pub normal_half : ℕ → ℕ → ℕ
normal_half e16 frac =
    if frac / 2 ^ 10 != 0
    then if leb 0x1f (e16 + 1) then 0x1f * 2 ^ 10 else (e16 + 1) * 2 ^ 10
    else e16 * 2 ^ 10 + frac % 2 ^ 10

-- The switch. `e16` is exp - 112, where that is positive.
unfoldable pub half_at : ℕ → ℕ → ℕ
unfolding nan_half small_half normal_half
half_at exp mant =
    if exp == 0xff
    then if mant == 0 then 0x1f * 2 ^ 10 else nan_half (0x1f * 2 ^ 10 + mant / 2 ^ 13)
    else if exp == 0
    then 0
    else if leb (0x1f + 112) exp
    then 0x1f * 2 ^ 10
    else if leb exp 112
    then small_half (141 - exp) mant
    else normal_half (exp - 112) ((mant + (2 ^ 12 - 1) + mant / 2 ^ 13 % 2) / 2 ^ 13)

unfoldable pub float32_to_float16_bits : ℕ → ℕ
unfolding half_at
float32_to_float16_bits bits =
    bits / 2 ^ 31 % 2 * 2 ^ 15 + half_at (bits / 2 ^ 23 % 2 ^ 8) (bits % 2 ^ 23)

unfoldable pub append_float16 : Bytes → ℕ → Bytes
append_float16 b f =
    b ++ make_byte major_simple simple_float16 ∷ put_uint 2 (float32_to_float16_bits f)

-- `ldexp sign mant` is the float32 of math.Ldexp(mant, -24), negated if `sign` is 1.
module _ (ldexp : ℕ → ℕ → ℕ) where
  unfoldable pub float32_at : ℕ → ℕ → ℕ → ℕ
  float32_at sign exp mant =
      if exp == 0
      then if mant == 0 then sign * 2 ^ 31 else ldexp sign mant
      else if exp == 0x1f
      then if mant != 0
        then sign * 2 ^ 31 + 0xff * 2 ^ 23 + mant * 2 ^ 13
        else sign * 2 ^ 31 + 0xff * 2 ^ 23
      else sign * 2 ^ 31 + (exp + 127 - 15) * 2 ^ 23 + mant * 2 ^ 13

  unfoldable pub float16_bits_to_float32 : ℕ → ℕ
  unfolding float32_at
  float16_bits_to_float32 h = float32_at (h / 2 ^ 15 % 2) (h / 2 ^ 10 % 2 ^ 5) (h % 2 ^ 10)

  unfoldable pub read_float16 : Bytes → Result (ℕ × Bytes)
  read_float16 [] = err short_bytes
  read_float16 (lead ∷ t) = take_uint 2 t >>= λ (h, o).
      if lead != 0xf9
      then err (bad_prefix (get_major_type lead) major_simple)
      else ok (float16_bits_to_float32 h, o)

-- `math.IsNaN`, and `==` on float64.
unfoldable pub is_nan : ℕ → Bool
is_nan f = (f / 2 ^ 52 % 2 ^ 11 == 2 ^ 11 - 1) && (f % 2 ^ 52 != 0)

unfoldable pub is_zero : ℕ → Bool
is_zero f = f % 2 ^ 63 == 0

unfoldable pub float_equal : ℕ → ℕ → Bool
unfolding is_nan is_zero
float_equal x y =
    if is_nan x || is_nan y then false else if is_zero x && is_zero y then true else x == y

-- The conversions of Go: `to_float32` narrows a float64, `to_float64` widens a float32.
module _ (to_float32 to_float64 : ℕ → ℕ) where
  unfoldable pub append_float : Bytes → ℕ → Bytes
  append_float b f =
      if float_equal (to_float64 (to_float32 f)) f
      then append_float32 b (to_float32 f)
      else append_float64 b f

  module _ (ldexp : ℕ → ℕ → ℕ) where
    -- Behind the first test, which makes 0 of -0.
    unfoldable pub append_canonical : Bytes → ℕ → Bytes
    append_canonical b f =
        if is_nan f
        then append_float16 b (to_float32 f)
        else if float_equal
            (to_float64 (float16_bits_to_float32 ldexp (float32_to_float16_bits (to_float32 f)))) f
        then append_float16 b (to_float32 f)
        else append_float b f

    unfoldable pub append_float_canonical : Bytes → ℕ → Bytes
    unfolding append_canonical
    append_float_canonical b f = append_canonical b (if is_zero f then 0 else f)

    -- `if r.strict { … }`; `v` is the float64 that is read, and `orig` and `rest` are the buffers.
    unfoldable pub check_float : Bool → Bytes → ℕ → Bytes → Result (Unit {0})
    check_float strict orig v rest =
        let canon = append_float_canonical [] v in
        let enc_len = length orig - length rest in
        if strict
        then if (length canon == enc_len) && bytes_equal (take enc_len orig) canon
          then ok tt
          else err non_canonical_float
        else ok tt

    unfoldable pub reader_float32 : Reader → Result ℕ × Reader
    unfolding advance check_float
    reader_float32 r = advance r (
        read_float32 r.buf >>= λ (v, rest).
        check_float r.strict r.buf (to_float64 v) rest >>= λ _. ok (v, rest))

    unfoldable pub reader_float64 : Reader → Result ℕ × Reader
    unfolding advance check_float
    reader_float64 r = advance r (
        read_float64 r.buf >>= λ (v, rest). check_float r.strict r.buf v rest >>= λ _. ok (v, rest))
