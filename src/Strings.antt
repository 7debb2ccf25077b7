-- ===== src/Strings.antt =====
-- The byte and text string readers of runtime/read_bytes.go. Slices are values: whether a result
-- shares memory with the input (`ReadStringZC`, `UnsafeString`, `scratch`) is not modelled.
-- An `int` has 64 bits.
pub mod Safe
pub mod RoundTrip
use cbor.Base.{
  ℕ, suc, ◌+◌, ◌-◌, ◌%◌, ◌^◌, ◌≤◌, List, [], ◌∷◌, Bool, true, false, not, ◌&&◌, Bytes, ltb, leb,
  ◌==◌, ◌!=◌, if◌then◌else◌, length,
}
use cbor.Result.{
  Result, ok, err, panic, ◌>>=◌, short_bytes, invalid_utf8, bad_prefix, uint_overflow, type_error,
  str_type,
}
use cbor.Wire.{
  make_byte, get_major_type, take_uint, read_uint_core, major_bytes, major_text,
  add_info_indefinite,
}
use cbor.Headers.{get_type}
use cbor.Loops.{cut, read_chunk, collect}

unfoldable pub read_string_zc : Bytes → Result (Bytes × Bytes)
read_string_zc [] = err short_bytes
read_string_zc (lead ∷ t) =
    if leb 0x60 lead && leb lead 0x77
    then cut (lead % 32) t
    else if lead == 0x78
    then (take_uint 1 t >>= λ (sz, o). cut sz o)
    else if lead == 0x79
    then (take_uint 2 t >>= λ (sz, o). cut sz o)
    else if lead == 0x7a
    then (take_uint 4 t >>= λ (sz, o). cut sz o)
    else if lead == 0x7b
    then (take_uint 8 t >>= λ (u, o).
        if ltb (2 ^ 63 - 1) u then err (uint_overflow u 64) else cut u o)
    else err (bad_prefix (get_major_type lead) major_text)

-- `if len(b) < start+sz { short }`, then `b[start : start+sz]`, where `o` is `b[start:]`. From
-- 2^63 on the sum is negative: the test fails and the slice expression panics.
payload : ℕ → ℕ → Bytes → Result (Bytes × Bytes)
payload start sz o = if leb (2 ^ 63) (start + sz) then panic else cut sz o

-- The definite-length forms of `ReadBytesBytes`.
read_definite_bytes : ℕ → Bytes → Result (Bytes × Bytes)
unfolding payload
read_definite_bytes lead t =
    if leb 0x40 lead && leb lead 0x57
    then payload 1 (lead % 32) t
    else if lead == 0x58
    then (take_uint 1 t >>= λ (sz, o). payload 2 sz o)
    else if lead == 0x59
    then (take_uint 2 t >>= λ (sz, o). payload 3 sz o)
    else if lead == 0x5a
    then (take_uint 4 t >>= λ (sz, o). payload 5 sz o)
    else if lead == 0x5b
    then (take_uint 8 t >>= λ (u, o).
        if ltb (2 ^ 63 - 1) u then err (uint_overflow u 64) else payload 9 u o)
    else read_chunk major_bytes (lead ∷ t)

unfoldable pub read_bytes : Bytes → Result (Bytes × Bytes)
unfolding read_definite_bytes
read_bytes [] = err short_bytes
read_bytes (lead ∷ t) =
    if lead == make_byte major_bytes add_info_indefinite
    then collect (read_chunk major_bytes) t
    else read_definite_bytes lead t

unfoldable pub read_map_key_zc : Bytes → Result (Bytes × Bytes)
read_map_key_zc [] = err short_bytes
read_map_key_zc (lead ∷ t) =
    if get_major_type lead != major_text
    then err (type_error str_type (get_type lead))
    else read_string_zc (lead ∷ t)

-- `validate_utf8` is the variable ValidateUTF8OnDecode, `is_utf8_valid` the variable isUTF8Valid
-- of runtime/utf8_validate.go, which a build may replace.
module _ (validate_utf8 : Bool) (is_utf8_valid : Bytes → Bool) where
  -- `if ValidateUTF8OnDecode && !isUTF8Valid(v)`
  check_text : Bytes × Bytes → Result (Bytes × Bytes)
  check_text (v, o) =
      if validate_utf8 then (if is_utf8_valid v then ok (v, o) else err invalid_utf8) else ok (v, o)

  unfoldable pub read_string : Bytes → Result (Bytes × Bytes)
  unfolding check_text
  read_string [] = err short_bytes
  read_string (lead ∷ t) =
      if lead == make_byte major_text add_info_indefinite
      then (collect read_string_zc t >>= check_text)
      else (read_string_zc (lead ∷ t) >>= check_text)
