-- ===== src/Number.antt =====
-- `Number` of runtime/number.go: a number as 64 bits and the type that they are read at. The
-- conversions to a float, and the text of a number, are not modelled.
pub mod Codec
pub mod Shifts
pub mod Exact
pub mod Coerce
use cbor.Base.{
  ℕ, zero, suc, ◌+◌, ◌-◌, ◌*◌, ◌/◌, ◌%◌, ◌^◌, [], ◌∷◌, Bool, true, false, not, ◌&&◌, ◌||◌, Bytes, ℤ,
  pos, negsuc, to_int64, ltb, leb, ◌==◌, if◌then◌else◌,
}
use cbor.Result.{
  Result, ok, err, ◌>>=◌, unsupported_type, CborType, invalid_type, int_type, uint_type,
  float32_type, float64_type,
}
use cbor.Append.{append_int64, append_uint64, append_float64, append_float32}
use cbor.Ints.{read_int64, read_uint64}
use cbor.Headers.{next_type, read_float64, read_float32}

pub record Number : Type 0 where
  pub bits : ℕ
  pub typ : CborType

-- `uint64(i)`
unfoldable pub of_int64 : ℤ → ℕ
of_int64 (pos n) = n
of_int64 (negsuc n) = 2 ^ 64 - 1 - n

unfoldable pub as_int : ℤ → Number
unfolding of_int64
as_int (pos zero) = record { bits = 0; typ = invalid_type }
as_int (pos (suc n)) = record { bits = of_int64 (pos (suc n)); typ = int_type }
as_int (negsuc n) = record { bits = of_int64 (negsuc n); typ = int_type }

unfoldable pub as_uint : ℕ → Number
as_uint u = record { bits = u; typ = uint_type }

unfoldable pub as_float32 : ℕ → Number
as_float32 f = record { bits = f; typ = float32_type }

unfoldable pub as_float64 : ℕ → Number
as_float64 f = record { bits = f; typ = float64_type }

is_int_type : CborType → Bool
is_int_type int_type = true
is_int_type invalid_type = true
is_int_type t = false

unfoldable pub int : Number → ℤ × Bool
unfolding is_int_type
int n = (to_int64 n.bits, is_int_type n.typ)

is_uint_type : CborType → Bool
is_uint_type uint_type = true
is_uint_type t = false

unfoldable pub uint : Number → ℕ × Bool
unfolding is_uint_type
uint n = (n.bits, is_uint_type n.typ)

type_at : CborType → CborType
type_at invalid_type = int_type
type_at t = t

unfoldable pub type_of : Number → CborType
unfolding type_at
type_of n = type_at n.typ

marshal_at : CborType → ℕ → Bytes → Bytes
marshal_at int_type bits b = append_int64 b (to_int64 bits)
marshal_at uint_type bits b = append_uint64 b bits
marshal_at float64_type bits b = append_float64 b bits
marshal_at float32_type bits b = append_float32 b (bits % 2 ^ 32)
marshal_at t bits b = append_int64 b (pos 0)

unfoldable pub marshal : Number → Bytes → Bytes
unfolding marshal_at
marshal n b = marshal_at n.typ n.bits b

-- The cases of `switch typ`.
unmarshal_at : CborType → Bytes → Result (Number × Bytes)
unmarshal_at int_type b = read_int64 b >>= λ (i, o). ok (as_int i, o)
unmarshal_at uint_type b = read_uint64 b >>= λ (u, o). ok (as_uint u, o)
unmarshal_at float64_type b = read_float64 b >>= λ (f, o). ok (as_float64 f, o)
unmarshal_at float32_type b = read_float32 b >>= λ (f, o). ok (as_float32 f, o)
unmarshal_at t b = err unsupported_type

unfoldable pub unmarshal : Bytes → Result (Number × Bytes)
unfolding unmarshal_at
unmarshal b = unmarshal_at (next_type b) b

-- `bits.TrailingZeros64(x)`: of the bits from `k` places below the top on.
pub trailing_zeros_from : ℕ → ℕ → ℕ
trailing_zeros_from zero x = 0
trailing_zeros_from (suc k) x =
    let upper = trailing_zeros_from k (x / 2) in if x % 2 == 1 then 0 else suc upper

unfoldable pub trailing_zeros : ℕ → ℕ
unfolding trailing_zeros_from
trailing_zeros x = trailing_zeros_from 64 x

-- `isExactInt` for a float of `e` exponent bits and `m` mantissa bits.
pub is_exact_at : ℕ → ℕ → ℕ → Bool
unfolding trailing_zeros
is_exact_at e m bits =
    let exp = bits / 2 ^ m % 2 ^ e in
    let mant = bits % 2 ^ m in
    let bias = 2 ^ (e - 1) - 1 in
    if exp == 0 && mant == 0
    then true
    else if ltb exp bias || exp == bias + 2 ^ (e - 1)
    then false
    else if leb m (exp - bias)
    then true
    else leb (m - (exp - bias)) (trailing_zeros mant)

exact_at : CborType → ℕ → Bool
unfolding is_exact_at
exact_at invalid_type bits = true
exact_at int_type bits = true
exact_at uint_type bits = true
exact_at float32_type bits = is_exact_at 8 23 bits
exact_at float64_type bits = is_exact_at 11 52 bits
exact_at t bits = false

unfoldable pub is_exact_int : Number → Bool
unfolding exact_at
is_exact_int n = exact_at n.typ n.bits

-- The integer that a float stands for which is exact: its sign, and its significand shifted.
pub float_magnitude : ℕ → ℕ → ℕ → ℕ
float_magnitude e m bits =
    let exp = bits / 2 ^ m % 2 ^ e in
    let mant = bits % 2 ^ m in
    let k = exp - (2 ^ (e - 1) - 1) in
    if exp == 0 && mant == 0
    then 0
    else if leb m k
    then (2 ^ m + mant) * 2 ^ (k - m)
    else (2 ^ m + mant) / 2 ^ (m - k)

pub signed : ℕ → ℕ → ℤ
signed sign zero = pos 0
signed zero (suc n) = pos (suc n)
signed (suc s) (suc n) = negsuc n

unfoldable pub float_int : ℕ → ℕ → ℕ → ℤ
unfolding float_magnitude signed
float_int e m bits = signed (bits / 2 ^ (e + m) % 2) (float_magnitude e m bits)

-- `f <= math.MaxInt64 && f >= math.MinInt64`: the constants are rounded to 2^63 and -2^63.
within_int64 : ℤ → Bool
within_int64 (pos n) = leb n (2 ^ 63)
within_int64 (negsuc n) = ltb n (2 ^ 63)

-- `f >= 0 && f <= math.MaxUint64`: the constant is rounded to 2^64.
within_uint64 : ℤ → Bool
within_uint64 (pos n) = leb n (2 ^ 64)
within_uint64 (negsuc n) = false

-- What a conversion gives that does not fit depends on the implementation of Go: `overflow63` is
-- `int64(f)` for the float 2^63, and `overflow64` is `uint64(f)` for the float 2^64.
module _ (overflow63 : ℤ) (overflow64 : ℕ) where
  convert_int64 : ℤ → ℤ
  convert_int64 (pos n) = if ltb n (2 ^ 63) then pos n else overflow63
  convert_int64 (negsuc n) = negsuc n

  convert_uint64 : ℤ → ℕ
  convert_uint64 (pos n) = if ltb n (2 ^ 64) then n else overflow64
  convert_uint64 (negsuc n) = 0

  coerce_int_float : ℕ → ℕ → ℕ → ℤ × Bool
  unfolding is_exact_at float_int within_int64 convert_int64
  coerce_int_float e m bits =
      if is_exact_at e m bits && within_int64 (float_int e m bits)
      then (convert_int64 (float_int e m bits), true)
      else (pos 0, bits == 0 || bits == 2 ^ (e + m))

  coerce_int_at : CborType → ℕ → ℤ × Bool
  unfolding coerce_int_float
  coerce_int_at invalid_type bits = (to_int64 bits, true)
  coerce_int_at int_type bits = (to_int64 bits, true)
  coerce_int_at uint_type bits = (to_int64 bits, leb bits (2 ^ 63 - 1))
  coerce_int_at float32_type bits = coerce_int_float 8 23 bits
  coerce_int_at float64_type bits = coerce_int_float 11 52 bits
  coerce_int_at t bits = (pos 0, false)

  unfoldable pub coerce_int : Number → ℤ × Bool
  unfolding coerce_int_at
  coerce_int n = coerce_int_at n.typ n.bits

  coerce_uint_float : ℕ → ℕ → ℕ → ℕ × Bool
  unfolding is_exact_at float_int within_uint64 convert_uint64
  coerce_uint_float e m bits =
      if within_uint64 (float_int e m bits) && is_exact_at e m bits
      then (convert_uint64 (float_int e m bits), true)
      else (0, bits == 0 || bits == 2 ^ (e + m))

  coerce_uint_at : CborType → ℕ → ℕ × Bool
  unfolding coerce_uint_float
  coerce_uint_at invalid_type bits = if ltb bits (2 ^ 63) then (bits, true) else (0, false)
  coerce_uint_at int_type bits = if ltb bits (2 ^ 63) then (bits, true) else (0, false)
  coerce_uint_at uint_type bits = (bits, true)
  coerce_uint_at float32_type bits = coerce_uint_float 8 23 bits
  coerce_uint_at float64_type bits = coerce_uint_float 11 52 bits
  coerce_uint_at t bits = (0, false)

  unfoldable pub coerce_uint : Number → ℕ × Bool
  unfolding coerce_uint_at
  coerce_uint n = coerce_uint_at n.typ n.bits
