-- ===== src/Examples/Values.antt =====
-- Values and tagged items of runtime/write_bytes.go and runtime/read_bytes.go, Raw, and the numbers
-- of runtime/number.go.
use cbor.Base.{
  ℕ, ◌-◌, ◌*◌, ◌^◌, ◌<◌, ◌≡◌, refl, ◌↔◌, [], ◌∷◌, ◌++◌, Bool, true, Bytes, arith, pos, negsuc,
  length, some, ltb, if◌then◌else◌,
}
use cbor.Result.{ok, err, short_bytes, bad_prefix}
use cbor.Loops.{read_chunk}
use cbor.Sequence.{segment}
use cbor.Wire.{get_major_type, get_add_info, read_uint_core, make_byte, append_uint_core, put_uint}
use cbor.Append.{
  append_string, append_map_header, append_array_header, append_int64, append_nil, append_break,
  append_tag, append_array_header_indefinite, header_size, write_header,
}
use cbor.Skip.{skip, skip_level, validate_well_formed, validate_document, recursion_limit}
use cbor.Values.{
  Value, append_interface, count_fields, count_elements, object, array, field, done, element, end,
  int, nil,
}
use cbor.Values.WellFormed.{Fits}
use cbor.Values.Encoded.{append_interface-WellFormed}
use cbor.Tags.Numbers.{
  magnitude, append_big_int, read_big_int, append_decimal_fraction, read_decimal_fraction,
  append_bigfloat, read_bigfloat, append_cbor_integer,
}
use cbor.Tags.Numbers.Bignums.{read_big_int-append_big_int}
use cbor.Tags.Numbers.Fractions.{fractions}
use cbor.Raw.{raw_marshal, raw_unmarshal, raw_marshal-raw_unmarshal, is_nil}
use cbor.Number.{
  as_uint, as_int, as_float64, as_float32, marshal, unmarshal, is_exact_int, coerce_int,
  coerce_uint,
}
use cbor.Number.Codec.{unmarshal-marshal, unmarshal-float32}
use cbor.Number.Exact.{FloatIs, is_exact_int_iff}
use cbor.Number.Coerce.{coerce-as_float64, sign, int64_of, uint64_of}

abbrev any_text : Bytes → Bool
any_text s = true

-- {"a": [-5, null]}
abbrev small_value : Value
small_value = object (field (97 ∷ []) (array (element (int (negsuc 4)) (element nil end))) done)

small_value-encoded :
    append_interface (7 ∷ []) small_value ≡ ok (7 ∷ 161 ∷ 97 ∷ 97 ∷ 130 ∷ 36 ∷ 246 ∷ [])
unfolding append_interface append_map_header append_array_header append_string append_int64
    append_nil append_uint_core make_byte put_uint count_fields count_elements header_size
    write_header
small_value-encoded = refl

small_value-Fits : Fits any_text recursion_limit small_value
unfolding Fits count_fields count_elements
small_value-Fits = (omega arith, ((omega arith, refl), (omega arith, (omega arith, (tt, tt))), tt))

append_interface-WellFormed_example :
    (p : Bytes) × (7 ∷ 161 ∷ 97 ∷ 97 ∷ 130 ∷ 36 ∷ 246 ∷ [] ≡ (7 ∷ []) ++ p)
    × ((rest : Bytes) → validate_well_formed any_text (p ++ rest) ≡ ok rest)
    × ((rest : Bytes) → skip (p ++ rest) ≡ ok rest)
    × (validate_document any_text p ≡ ok tt)
append_interface-WellFormed_example =
    append_interface-WellFormed any_text small_value (7 ∷ [])
      (7 ∷ 161 ∷ 97 ∷ 97 ∷ 130 ∷ 36 ∷ 246 ∷ []) small_value-Fits small_value-encoded

length-thousand : length (magnitude 1000) < 2 ^ 63 - 9
unfolding magnitude
length-thousand = omega arith

read_big_int-append_big_int_example :
    read_big_int (append_big_int [] (some (negsuc 1000)) ++ 5 ∷ []) ≡ ok (negsuc 1000, 5 ∷ [])
read_big_int-append_big_int_example =
    read_big_int-append_big_int (negsuc 1000) (5 ∷ []) length-thousand

-- 1000 * 10^-2
fractions_example :
    (read_decimal_fraction (append_decimal_fraction [] (negsuc 1) (some (pos 1000)) ++ 5 ∷ [])
      ≡ ok (negsuc 1, pos 1000, 5 ∷ []))
    × (read_bigfloat (append_bigfloat [] (negsuc 1) (some (pos 1000)) ++ 5 ∷ [])
        ≡ ok (negsuc 1, pos 1000, 5 ∷ []))
    × (read_decimal_fraction (
          append_break (
            append_cbor_integer
              (append_int64 (append_array_header_indefinite (append_tag [] 4)) (negsuc 1))
              (some (pos 1000)))
          ++ 5 ∷ [])
        ≡ ok (negsuc 1, pos 1000, 5 ∷ []))
    × (read_bigfloat (
          append_break (
            append_cbor_integer
              (append_int64 (append_array_header_indefinite (append_tag [] 5)) (negsuc 1))
              (some (pos 1000)))
          ++ 5 ∷ [])
        ≡ ok (negsuc 1, pos 1000, 5 ∷ []))
fractions_example = fractions (negsuc 1) (pos 1000) (5 ∷ []) (omega arith) length-thousand

kept-text : raw_unmarshal (97 ∷ 97 ∷ 5 ∷ []) ≡ ok (97 ∷ 97 ∷ [], 5 ∷ [])
unfolding raw_unmarshal skip is_nil make_byte skip_level get_major_type get_add_info read_chunk
    read_uint_core segment
kept-text = refl

raw_marshal-raw_unmarshal_example : raw_marshal [] (97 ∷ 97 ∷ []) ++ 5 ∷ [] ≡ 97 ∷ 97 ∷ 5 ∷ []
raw_marshal-raw_unmarshal_example =
    raw_marshal-raw_unmarshal (97 ∷ 97 ∷ 5 ∷ []) (97 ∷ 97 ∷ []) (5 ∷ []) kept-text

unmarshal-marshal_example :
    (unmarshal (marshal (as_uint 3) [] ++ 5 ∷ []) ≡ ok (as_uint 3, 5 ∷ []))
    × (unmarshal (marshal (as_int (negsuc 4)) [] ++ 5 ∷ []) ≡ ok (as_int (negsuc 4), 5 ∷ []))
    × (unmarshal (marshal (as_int (pos 4)) [] ++ 5 ∷ []) ≡ ok (as_uint 4, 5 ∷ []))
    × (unmarshal (marshal (as_float64 1000) [] ++ 5 ∷ []) ≡ ok (as_float64 1000, 5 ∷ []))
unmarshal-marshal_example =
    unmarshal-marshal 3 4 1000 (5 ∷ []) (omega arith) (omega arith) (omega arith)

unmarshal-float32_example :
    unmarshal (marshal (as_float32 1000) [] ++ 5 ∷ [])
    ≡ err (if ltb (length {A = ℕ} (5 ∷ [])) 4 then short_bytes else bad_prefix 7 7)
unmarshal-float32_example = unmarshal-float32 1000 (5 ∷ [])

-- The float64 3.0 is 0x4008 and six zero bytes.
abbrev three : ℕ
three = 16392 * 2 ^ 48

is_exact_int_iff_example :
    ((is_exact_int (as_float64 three) ≡ true) ↔ ((q : ℕ) × FloatIs 11 52 three q))
    × ((is_exact_int (as_float32 three) ≡ true) ↔ ((q : ℕ) × FloatIs 8 23 three q))
is_exact_int_iff_example = is_exact_int_iff three

three-FloatIs : FloatIs 11 52 three 3
three-FloatIs = (omega arith, refl)

coerce-as_float64_example :
    (coerce_int (negsuc 0) 0 (as_float64 three) ≡ int64_of (negsuc 0) (sign three) 3)
    × (coerce_uint (negsuc 0) 0 (as_float64 three) ≡ uint64_of 0 (sign three) 3)
coerce-as_float64_example = coerce-as_float64 (negsuc 0) 0 three 3 three-FloatIs
