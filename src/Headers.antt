-- ===== src/Headers.antt =====
-- The array and map headers and the one-byte items of runtime/read_bytes.go.
pub mod Paths
use cbor.Base.{
  ℕ, ◌+◌, ◌-◌, ◌^◌, List, [], ◌∷◌, Bool, true, false, ◌&&◌, Bytes, ltb, leb, ◌==◌, ◌!=◌,
  if◌then◌else◌,
}
use cbor.Result.{
  Result, ok, err, ◌>>=◌, short_bytes, not_nil, bad_prefix, uint_overflow, type_error,
  unsupported_type, bool_type,
}
use cbor.Result.{
  CborType, invalid_type, str_type, bin_type, map_type, array_type, float64_type, int_type,
  uint_type, nil_type, extension_type,
}
use cbor.Wire.{
  make_byte, get_major_type, get_add_info, take_uint, read_uint_core, major_array, major_map,
  major_simple, major_tag, add_info_indefinite, add_info_direct, add_info_uint8,
}
use cbor.Append.{
  simple_null, simple_break, simple_true, simple_false, simple_float16, simple_float32,
  simple_float64,
}

-- The last case of both header readers: `if u > math.MaxUint32`.
abbrev narrow_size : ℕ × Bytes → Result (ℕ × Bytes)
narrow_size (u, o) = if ltb (2 ^ 32 - 1) u then err (uint_overflow u 32) else ok (u, o)

unfoldable pub read_map_header : Bytes → Result (ℕ × Bytes)
read_map_header [] = err short_bytes
read_map_header (lead ∷ t) =
    if leb 0xa0 lead && leb lead 0xb7
    then ok (lead - 0xa0, t)
    else if lead == 0xb8
    then take_uint 1 t
    else if lead == 0xb9
    then take_uint 2 t
    else if lead == 0xba
    then take_uint 4 t
    else if lead == 0xbb
    then (take_uint 8 t >>= narrow_size)
    else err (bad_prefix (get_major_type lead) major_map)

unfoldable pub read_array_header : Bytes → Result (ℕ × Bytes)
read_array_header [] = err short_bytes
read_array_header (lead ∷ t) =
    if leb 0x80 lead && leb lead 0x97
    then ok (lead - 0x80, t)
    else if lead == 0x98
    then take_uint 1 t
    else if lead == 0x99
    then take_uint 2 t
    else if lead == 0x9a
    then take_uint 4 t
    else if lead == 0x9b
    then (take_uint 8 t >>= narrow_size)
    else err (bad_prefix (get_major_type lead) major_array)

-- The size, whether the length is indefinite, and the rest.
unfoldable pub read_map_start : Bytes → Result (ℕ × Bool × Bytes)
read_map_start [] = err short_bytes
read_map_start (lead ∷ t) =
    if lead == make_byte major_map add_info_indefinite
    then ok (0, true, t)
    else (read_map_header (lead ∷ t) >>= λ (s, o). ok (s, false, o))

unfoldable pub read_array_start : Bytes → Result (ℕ × Bool × Bytes)
read_array_start [] = err short_bytes
read_array_start (lead ∷ t) =
    if lead == make_byte major_array add_info_indefinite
    then ok (0, true, t)
    else (read_array_header (lead ∷ t) >>= λ (s, o). ok (s, false, o))

unfoldable pub read_break : Bytes → Result (Bytes × Bool)
read_break [] = err short_bytes
read_break (lead ∷ t) =
    if lead == make_byte major_simple simple_break then ok (t, true) else ok (lead ∷ t, false)

unfoldable pub read_nil : Bytes → Result Bytes
read_nil [] = err short_bytes
read_nil (lead ∷ t) = if lead != make_byte major_simple simple_null then err not_nil else ok t

-- helpers.go: `getType`
unfoldable pub get_type : ℕ → CborType
get_type b =
    let major = get_major_type b in
    let add_info = get_add_info b in
    if major == 0
    then uint_type
    else if major == 1
    then int_type
    else if major == 2
    then bin_type
    else if major == 3
    then str_type
    else if major == 4
    then array_type
    else if major == 5
    then map_type
    else if major == 6
    then extension_type
    else if add_info == simple_true
    then bool_type
    else if add_info == simple_false
    then bool_type
    else if add_info == simple_null
    then nil_type
    else if add_info == simple_float32
    then float64_type
    else if add_info == simple_float64
    then float64_type
    else invalid_type

unfoldable pub next_type : Bytes → CborType
unfolding get_type
next_type [] = invalid_type
next_type (b ∷ t) = get_type b

unfoldable pub read_bool : Bytes → Result (Bool × Bytes)
read_bool [] = err short_bytes
read_bool (lead ∷ t) =
    if lead == 0xf5
    then ok (true, t)
    else if lead == 0xf4
    then ok (false, t)
    else err (type_error bool_type (get_type lead))

unfoldable pub read_simple_value : Bytes → Result (ℕ × Bytes)
read_simple_value [] = err short_bytes
read_simple_value (lead ∷ t) =
    let major = get_major_type lead in
    let add_info = get_add_info lead in
    if major != major_simple
    then err (bad_prefix major major_simple)
    else if add_info == simple_float16
    then err unsupported_type
    else if add_info == simple_float32
    then err unsupported_type
    else if add_info == simple_float64
    then err unsupported_type
    else if add_info == add_info_uint8
    then take_uint 1 t
    else if leb add_info add_info_direct
    then ok (add_info, t)
    else err unsupported_type

-- The length of the whole item is tested before its initial byte.
unfoldable pub read_float64 : Bytes → Result (ℕ × Bytes)
read_float64 [] = err short_bytes
read_float64 (lead ∷ t) = take_uint 8 t >>= λ (bits, o).
    if lead != 0xfb then err (bad_prefix (get_major_type lead) major_simple) else ok (bits, o)

unfoldable pub read_float32 : Bytes → Result (ℕ × Bytes)
read_float32 [] = err short_bytes
read_float32 (lead ∷ t) = take_uint 4 t >>= λ (bits, o).
    if lead != 0xfa then err (bad_prefix (get_major_type lead) major_simple) else ok (bits, o)

unfoldable pub read_tag : Bytes → Result (ℕ × Bytes)
read_tag b = read_uint_core b major_tag
