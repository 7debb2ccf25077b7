-- ===== src/Append.antt =====
-- The encoders of runtime/write_bytes.go that append one item or header to a buffer.
-- A buffer is its bytes; its spare capacity (`ensure`) shows in no result and is not modelled.
-- A float is its IEEE 754 bit pattern (`math.Float64bits`), a Go string its bytes.
use cbor.Base.{
  ℕ, ◌-◌, ◌%◌, ◌^◌, [], ◌∷◌, ◌++◌, Bool, Bytes, ℤ, pos, negsuc, leb, ◌==◌, if◌then◌else◌, length,
}
use cbor.Wire.{
  make_byte, put_uint, append_uint_core, major_uint, major_neg_int, major_bytes, major_text,
  major_array, major_map, major_tag, major_simple, add_info_direct, add_info_uint8, add_info_uint16,
  add_info_uint32, add_info_uint64, add_info_indefinite,
}

-- The constants simple….
abbrev pub simple_false : ℕ
simple_false = 20

abbrev pub simple_true : ℕ
simple_true = 21

abbrev pub simple_null : ℕ
simple_null = 22

abbrev pub simple_undefined : ℕ
simple_undefined = 23

abbrev pub simple_float16 : ℕ
simple_float16 = 25

abbrev pub simple_float32 : ℕ
simple_float32 = 26

abbrev pub simple_float64 : ℕ
simple_float64 = 27

abbrev pub simple_break : ℕ
simple_break = 31

unfoldable pub append_map_header : Bytes → ℕ → Bytes
append_map_header b sz = append_uint_core b major_map sz

unfoldable pub append_array_header : Bytes → ℕ → Bytes
append_array_header b sz = append_uint_core b major_array sz

unfoldable pub append_array_header_indefinite : Bytes → Bytes
append_array_header_indefinite b = b ++ make_byte major_array add_info_indefinite ∷ []

unfoldable pub append_map_header_indefinite : Bytes → Bytes
append_map_header_indefinite b = b ++ make_byte major_map add_info_indefinite ∷ []

unfoldable pub append_text_header_indefinite : Bytes → Bytes
append_text_header_indefinite b = b ++ make_byte major_text add_info_indefinite ∷ []

unfoldable pub append_bytes_header_indefinite : Bytes → Bytes
append_bytes_header_indefinite b = b ++ make_byte major_bytes add_info_indefinite ∷ []

unfoldable pub append_break : Bytes → Bytes
append_break b = b ++ make_byte major_simple simple_break ∷ []

unfoldable pub append_nil : Bytes → Bytes
append_nil b = b ++ make_byte major_simple simple_null ∷ []

unfoldable pub append_undefined : Bytes → Bytes
append_undefined b = b ++ make_byte major_simple simple_undefined ∷ []

unfoldable pub append_bool : Bytes → Bool → Bytes
append_bool b val =
    if val
    then b ++ make_byte major_simple simple_true ∷ []
    else b ++ make_byte major_simple simple_false ∷ []

unfoldable pub append_simple_value : Bytes → ℕ → Bytes
append_simple_value b val =
    if leb val add_info_direct
    then b ++ make_byte major_simple val ∷ []
    else b ++ make_byte major_simple add_info_uint8 ∷ val ∷ []

unfoldable pub append_float64 : Bytes → ℕ → Bytes
append_float64 b bits = b ++ make_byte major_simple simple_float64 ∷ put_uint 8 bits

unfoldable pub append_float32 : Bytes → ℕ → Bytes
append_float32 b bits = b ++ make_byte major_simple simple_float32 ∷ put_uint 4 bits

-- An int64 `negsuc n` is -1 - n, so the source's `neg := -1 - i` is `n`.
unfoldable pub append_int64 : Bytes → ℤ → Bytes
append_int64 b (pos n) =
    if leb n add_info_direct
    then b ++ make_byte major_uint n ∷ []
    else append_uint_core b major_uint n
append_int64 b (negsuc n) =
    if leb n add_info_direct
    then b ++ make_byte major_neg_int n ∷ []
    else append_uint_core b major_neg_int n

unfoldable pub append_uint64 : Bytes → ℕ → Bytes
append_uint64 b u = append_uint_core b major_uint u

-- `AppendInt`, `AppendInt8`, `AppendInt16` and `AppendInt32`: the conversion to int64 keeps the number.
unfoldable pub append_int : Bytes → ℤ → Bytes
append_int b i = append_int64 b i

-- `AppendUint`, and the narrower ones `AppendUint8`, `AppendUint16` and `AppendUint32`.
unfoldable pub append_uint : Bytes → ℕ → Bytes
append_uint b u = append_uint64 b u

unfoldable pub append_narrow_uint : Bytes → ℕ → Bytes
append_narrow_uint b u = append_uint_core b major_uint u

-- The header size `h` that `AppendBytes` and `AppendString` reserve for a payload of `sz` bytes.
unfoldable pub header_size : ℕ → ℕ
header_size sz =
    if leb sz add_info_direct
    then 1
    else if leb sz (2 ^ 8 - 1)
    then 2
    else if leb sz (2 ^ 16 - 1)
    then 3
    else if leb sz (2 ^ 32 - 1)
    then 5
    else 9

-- `switch h`: the header of the reserved size.
unfoldable pub write_header : ℕ → ℕ → ℕ → Bytes
write_header h major sz =
    if h == 1
    then make_byte major (sz % 256) ∷ []
    else if h == 2
    then make_byte major add_info_uint8 ∷ put_uint 1 sz
    else if h == 3
    then make_byte major add_info_uint16 ∷ put_uint 2 sz
    else if h == 5
    then make_byte major add_info_uint32 ∷ put_uint 4 sz
    else make_byte major add_info_uint64 ∷ put_uint 8 sz

unfoldable pub append_bytes : Bytes → Bytes → Bytes
append_bytes b payload =
    let sz = length payload in
    let h = header_size sz in b ++ (write_header h major_bytes sz ++ payload)

unfoldable pub append_string : Bytes → Bytes → Bytes
append_string b s =
    let sz = length s in let h = header_size sz in b ++ (write_header h major_text sz ++ s)

unfoldable pub append_string_from_bytes : Bytes → Bytes → Bytes
append_string_from_bytes b payload = append_uint_core b major_text (length payload) ++ payload

unfoldable pub append_tag : Bytes → ℕ → Bytes
append_tag b tag = append_uint_core b major_tag tag

unfoldable pub append_tagged : Bytes → ℕ → Bytes → Bytes
append_tagged b tag value = append_tag b tag ++ value
