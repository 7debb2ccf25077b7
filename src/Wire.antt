-- ===== src/Wire.antt =====
-- The initial byte and the big-endian argument behind it (runtime/defs.go), with the two
-- functions that all headers go through: `appendUintCore` (runtime/write_bytes.go) and
-- `readUintCore` (runtime/read_bytes.go).
use cbor.Base.{
  ℕ, zero, suc, ◌+◌, ◌-◌, ◌*◌, ◌/◌, ◌%◌, ◌^◌, bit_or, List, [], ◌∷◌, ◌++◌, Bytes, ltb, leb, ◌==◌,
  ◌!=◌, if◌then◌else◌, length, take, drop,
}
use cbor.Result.{Result, ok, err, short_bytes, unsupported_type, bad_prefix}
pub mod Bits
pub mod Endian
pub mod Exact
pub mod Core

-- `makeByte`: `byte((majorType << 5) | addInfo)` on two uint8.
unfoldable pub make_byte : ℕ → ℕ → ℕ
make_byte major_type add_info = bit_or (major_type * 32 % 256) add_info

-- `(b >> 5) & 0x07`
unfoldable pub get_major_type : ℕ → ℕ
get_major_type b = b / 32 % 8

-- `b & 0x1f`
unfoldable pub get_add_info : ℕ → ℕ
get_add_info b = b % 32

-- The constants majorType… and addInfo….
abbrev pub major_uint : ℕ
major_uint = 0

abbrev pub major_neg_int : ℕ
major_neg_int = 1

abbrev pub major_bytes : ℕ
major_bytes = 2

abbrev pub major_text : ℕ
major_text = 3

abbrev pub major_array : ℕ
major_array = 4

abbrev pub major_map : ℕ
major_map = 5

abbrev pub major_tag : ℕ
major_tag = 6

abbrev pub major_simple : ℕ
major_simple = 7

abbrev pub add_info_direct : ℕ
add_info_direct = 23

abbrev pub add_info_uint8 : ℕ
add_info_uint8 = 24

abbrev pub add_info_uint16 : ℕ
add_info_uint16 = 25

abbrev pub add_info_uint32 : ℕ
add_info_uint32 = 26

abbrev pub add_info_uint64 : ℕ
add_info_uint64 = 27

abbrev pub add_info_indefinite : ℕ
add_info_indefinite = 31

-- What `binary.BigEndian.PutUintN` writes for `n` bytes, and what `UintN` reads.
unfoldable pub put_uint : ℕ → ℕ → Bytes
put_uint zero u = []
put_uint (suc n) u = put_uint n (u / 256) ++ (u % 256) ∷ []

unfoldable pub uint_from : ℕ → Bytes → ℕ
uint_from acc [] = acc
uint_from acc (b ∷ bs) = uint_from (acc * 256 + b) bs

unfoldable pub be_uint : Bytes → ℕ
unfolding uint_from
be_uint bs = uint_from 0 bs

-- The argument of `n` bytes behind an initial byte that is already off: the test
-- `len(b) < 1+n`, then `be.UintN(b[1:])` and `b[1+n:]`.
unfoldable pub take_uint : ℕ → Bytes → Result (ℕ × Bytes)
take_uint n b = if ltb (length b) n then err short_bytes else ok (be_uint (take n b), drop n b)

unfoldable pub append_uint_core : Bytes → ℕ → ℕ → Bytes
append_uint_core b major_type u =
    if leb u add_info_direct
    then b ++ make_byte major_type (u % 256) ∷ []
    else if leb u (2 ^ 8 - 1)
    then b ++ make_byte major_type add_info_uint8 ∷ put_uint 1 u
    else if leb u (2 ^ 16 - 1)
    then b ++ make_byte major_type add_info_uint16 ∷ put_uint 2 u
    else if leb u (2 ^ 32 - 1)
    then b ++ make_byte major_type add_info_uint32 ∷ put_uint 4 u
    else b ++ make_byte major_type add_info_uint64 ∷ put_uint 8 u

unfoldable pub read_uint_core : Bytes → ℕ → Result (ℕ × Bytes)
read_uint_core [] expected_major = err short_bytes
read_uint_core (lead ∷ t) expected_major =
    let major = get_major_type lead in
    let add_info = get_add_info lead in
    if major != expected_major
    then err (bad_prefix major expected_major)
    else if leb add_info add_info_direct
    then ok (add_info, t)
    else if add_info == add_info_uint8
    then take_uint 1 t
    else if add_info == add_info_uint16
    then take_uint 2 t
    else if add_info == add_info_uint32
    then take_uint 4 t
    else if add_info == add_info_uint64
    then take_uint 8 t
    else err unsupported_type
