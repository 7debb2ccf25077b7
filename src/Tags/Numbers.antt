-- ===== src/Tags/Numbers.antt =====
-- Bignums (tags 2 and 3) and fractions (tags 4 and 5) of runtime/write_bytes.go and
-- runtime/read_bytes.go. A `*big.Int` is an optional integer: none is the nil pointer.
pub mod Bignums
pub mod Fractions
use cbor.Base.{
  ℕ, zero, suc, ◌+◌, ◌/◌, ◌%◌, ◌^◌, [], ◌∷◌, ◌++◌, Bool, true, false, ◌&&◌, Bytes, ℤ, pos, negsuc,
  ltb, ◌==◌, ◌!=◌, if◌then◌else◌, Option, none, some,
}
use cbor.Result.{Result, ok, err, ◌>>=◌, short_bytes, bad_prefix, unsupported_type, array_error}
use cbor.Wire.{
  make_byte, get_major_type, be_uint, read_uint_core, major_uint, major_neg_int, major_tag,
  major_array, major_simple, add_info_indefinite,
}
use cbor.Append.{
  append_tag, append_bytes, append_nil, append_uint64, append_int64, append_array_header,
  simple_break,
}
use cbor.Ints.{read_int64}
use cbor.Headers.{read_tag, read_array_header}
use cbor.Strings.{read_bytes}
use cbor.Tags.{tag_pos_bignum, tag_neg_bignum, tag_decimal_frac, tag_bigfloat}

-- `z.Bytes()` of math/big for a natural number: big-endian, with no leading zero.
magnitude_from : ℕ → ℕ → Bytes
magnitude_from zero n = []
magnitude_from (suc k) n =
    let upper = magnitude_from k (n / 256) in if n == 0 then [] else upper ++ (n % 256) ∷ []

unfoldable pub magnitude : ℕ → Bytes
unfolding magnitude_from
magnitude n = magnitude_from n n

-- For a negative number the magnitude is that of -1 - z.
unfoldable pub append_big_int : Bytes → Option ℤ → Bytes
append_big_int b none = append_nil b
append_big_int b (some (pos n)) = append_bytes (append_tag b tag_pos_bignum) (magnitude n)
append_big_int b (some (negsuc n)) = append_bytes (append_tag b tag_neg_bignum) (magnitude n)

-- `z.BitLen() <= 64` is |z| < 2^64, and |negsuc n| is n + 1.
unfoldable pub append_cbor_integer : Bytes → Option ℤ → Bytes
append_cbor_integer b none = append_nil b
append_cbor_integer b (some (pos n)) =
    if ltb n (2 ^ 64) then append_uint64 b n else append_big_int b (some (pos n))
append_cbor_integer b (some (negsuc n)) =
    if ltb (n + 1) (2 ^ 63) then append_int64 b (negsuc n) else append_big_int b (some (negsuc n))

unfoldable pub append_decimal_fraction : Bytes → ℤ → Option ℤ → Bytes
append_decimal_fraction b exponent mantissa =
    append_cbor_integer
      (append_int64 (append_array_header (append_tag b tag_decimal_frac) 2) exponent) mantissa

unfoldable pub append_bigfloat : Bytes → ℤ → Option ℤ → Bytes
append_bigfloat b exponent mantissa =
    append_cbor_integer (append_int64 (append_array_header (append_tag b tag_bigfloat) 2) exponent)
      mantissa

unfoldable pub read_big_int : Bytes → Result (ℤ × Bytes)
read_big_int b = read_tag b >>= λ (tag, o). read_bytes o >>= λ (bs, o2).
    if tag == tag_pos_bignum
    then ok (pos (be_uint bs), o2)
    else if tag == tag_neg_bignum
    then ok (negsuc (be_uint bs), o2)
    else err (bad_prefix major_tag major_tag)

-- The case of a tag.
read_tagged_integer : Bytes → Result (ℤ × Bytes)
read_tagged_integer b = read_tag b >>= λ (tag, o).
    if tag != tag_pos_bignum && tag != tag_neg_bignum
    then err unsupported_type
    else (read_bytes o >>= λ (bs, o2).
        if tag == tag_neg_bignum then ok (negsuc (be_uint bs), o2) else ok (pos (be_uint bs), o2))

unfoldable pub read_cbor_integer : Bytes → Result (ℤ × Bytes)
unfolding read_tagged_integer
read_cbor_integer [] = err short_bytes
read_cbor_integer (lead ∷ t) =
    let major = get_major_type lead in
    if major == major_uint
    then (read_uint_core (lead ∷ t) major_uint >>= λ (u, o). ok (pos u, o))
    else if major == major_neg_int
    then read_int64 (lead ∷ t)
    else if major == major_tag
    then read_tagged_integer (lead ∷ t)
    else err unsupported_type

-- `len(p) < 1 || p[0] != …`, the break behind the two numbers of an indefinite array.
expect_break : ℤ → ℤ → Bytes → Result (ℤ × ℤ × Bytes)
expect_break exp mant [] = err unsupported_type
expect_break exp mant (x ∷ p) =
    if x != make_byte major_simple simple_break then err unsupported_type else ok (exp, mant, p)

-- Behind the tag, in both functions.
read_pair : Bytes → Result (ℤ × ℤ × Bytes)
unfolding expect_break
read_pair [] = err short_bytes
read_pair (lead ∷ t) =
    if lead == make_byte major_array add_info_indefinite
    then (read_int64 t >>= λ (exp, p). read_cbor_integer p >>= λ (mant, q). expect_break exp mant q)
    else (read_array_header (lead ∷ t) >>= λ (sz, p).
        if sz != 2
        then err (array_error 2 sz)
        else (read_int64 p >>= λ (exp, q). read_cbor_integer q >>= λ (mant, r). ok (exp, mant, r)))

unfoldable pub read_decimal_fraction : Bytes → Result (ℤ × ℤ × Bytes)
unfolding read_pair
read_decimal_fraction b =
    read_tag b >>= λ (tag, o). if tag != tag_decimal_frac then err unsupported_type else read_pair o

unfoldable pub read_bigfloat : Bytes → Result (ℤ × ℤ × Bytes)
unfolding read_pair
read_bigfloat b =
    read_tag b >>= λ (tag, o). if tag != tag_bigfloat then err unsupported_type else read_pair o
