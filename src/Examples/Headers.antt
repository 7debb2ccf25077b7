-- ===== src/Examples/Headers.antt =====
-- Headers, numbers and strings of runtime/read_bytes.go and runtime/write_bytes.go, and the Reader
-- of runtime/reader.go.
use cbor.Base.{
  ◌-◌, ◌^◌, ◌<◌, [], ◌∷◌, ◌++◌, Bool, true, false, Bytes, ◌≡◌, refl, ◌↔◌, All, IsByte, arith, pos,
  negsuc, IsInt,
}
use cbor.Result.{ok, err, panic, short_bytes}
use cbor.Wire.{
  get_major_type, get_add_info, take_uint, be_uint, uint_from, append_uint_core, read_uint_core,
}
use cbor.Append.{append_array_header, append_map_header, append_int64, append_bytes}
use cbor.Ints.{read_int64, read_int8, read_int16, read_int32}
use cbor.Ints.Paths.{read_int64_iff}
use cbor.Ints.RoundTrip.{read_intw_iff}
use cbor.Strings.{read_string_zc, read_bytes}
use cbor.Strings.RoundTrip.{read_bytes-append_bytes, read_bytes_panics}
use cbor.Canonical.{is_non_canonical_length}
use cbor.Canonical.Shortest.{is_non_canonical_length_iff}
use cbor.Reader.{
  reader_array_header, reader_map_header, Reader, reader_int64, reader_string, reader_bytes,
  set_max_container_len,
}
use cbor.Reader.Containers.{Allows, strict_headers_iff}
use cbor.Reader.Strict.{strict_int64_iff}
use cbor.Reader.Faults.{limit_ignored}

-- The number 1000 in two bytes, and as an unsigned integer with one byte behind it.
abbrev thousand : Bytes
thousand = 25 ∷ 3 ∷ 232 ∷ 5 ∷ []

thousand-IsByte : All IsByte thousand
thousand-IsByte = (omega arith, (omega arith, (omega arith, (omega arith, tt))))

core-thousand : read_uint_core thousand 0 ≡ ok (1000, 5 ∷ [])
unfolding read_uint_core take_uint be_uint uint_from get_major_type get_add_info
core-thousand = refl

read_int64_iff_example :
    ((read_int64 thousand ≡ ok (pos 1000, 5 ∷ []))
      ↔ ((read_uint_core thousand 0 ≡ ok (1000, 5 ∷ [])) × (1000 < 2 ^ 63)))
    × ((read_int64 thousand ≡ ok (negsuc 1000, 5 ∷ []))
        ↔ ((read_uint_core thousand 1 ≡ ok (1000, 5 ∷ [])) × (1000 < 2 ^ 63)))
read_int64_iff_example = read_int64_iff thousand 1000 (5 ∷ []) thousand-IsByte

is_non_canonical_length_iff_example :
    (is_non_canonical_length thousand 0 ≡ ok false)
    ↔ (thousand ≡ append_uint_core [] 0 1000 ++ 5 ∷ [])
is_non_canonical_length_iff_example =
    is_non_canonical_length_iff thousand 0 1000 (5 ∷ []) thousand-IsByte (omega arith) core-thousand

read_intw_iff_example :
    ((read_int8 thousand ≡ ok (pos 1000, 5 ∷ []))
      ↔ ((read_int64 thousand ≡ ok (pos 1000, 5 ∷ [])) × IsInt 8 (pos 1000)))
    × ((read_int16 thousand ≡ ok (pos 1000, 5 ∷ []))
        ↔ ((read_int64 thousand ≡ ok (pos 1000, 5 ∷ [])) × IsInt 16 (pos 1000)))
    × ((read_int32 thousand ≡ ok (pos 1000, 5 ∷ []))
        ↔ ((read_int64 thousand ≡ ok (pos 1000, 5 ∷ [])) × IsInt 32 (pos 1000)))
read_intw_iff_example = read_intw_iff thousand (pos 1000) (5 ∷ [])

-- The headers of a map of 30 entries and of an array of 30 items.
abbrev map_of_thirty : Bytes
map_of_thirty = 184 ∷ 30 ∷ 5 ∷ []

abbrev array_of_thirty : Bytes
array_of_thirty = 152 ∷ 30 ∷ 5 ∷ []

abbrev hello : Bytes
hello = 104 ∷ 101 ∷ 108 ∷ 108 ∷ 111 ∷ []

read_bytes-append_bytes_example : read_bytes (append_bytes [] hello ++ 5 ∷ []) ≡ ok (hello, 5 ∷ [])
read_bytes-append_bytes_example = read_bytes-append_bytes hello (5 ∷ []) (omega arith)

read_bytes_panics_example :
    (read_bytes (append_uint_core [] 2 (2 ^ 63 - 1) ++ 5 ∷ []) ≡ panic)
    × (read_string_zc (append_uint_core [] 3 (2 ^ 63 - 1) ++ 5 ∷ []) ≡ err short_bytes)
read_bytes_panics_example =
    read_bytes_panics (2 ^ 63 - 1) (5 ∷ []) (omega arith) (omega arith) (omega arith)

-- A strict reader at the number 1000, without and with a limit for containers.
abbrev strict_reader : Reader
strict_reader = record { buf = thousand; strict = true; deterministic = false; max_container = 3 }

strict_int64_iff_example :
    (reader_int64 strict_reader ≡ (ok (pos 1000), record strict_reader { buf = 5 ∷ [] }))
    ↔ (IsInt 64 (pos 1000) × (strict_reader.buf ≡ append_int64 [] (pos 1000) ++ 5 ∷ []))
strict_int64_iff_example = strict_int64_iff strict_reader (pos 1000) (5 ∷ []) refl thousand-IsByte

abbrev any_text : Bytes → Bool
any_text s = true

limit_ignored_example :
    ((reader_string true any_text (set_max_container_len strict_reader 1)).0
      ≡ (reader_string true any_text strict_reader).0)
    × ((reader_bytes (set_max_container_len strict_reader 1)).0 ≡ (reader_bytes strict_reader).0)
limit_ignored_example = limit_ignored true any_text strict_reader 1

-- A strict reader at the header of an array of 30 items, with a limit of 40.
abbrev array_reader : Reader
array_reader = record {
  buf = array_of_thirty;
  strict = true;
  deterministic = false;
  max_container = 40;
}

strict_headers_iff_example :
    ((reader_array_header array_reader ≡ (ok 30, record array_reader { buf = 5 ∷ [] }))
      ↔ ((30 < 2 ^ 32) × Allows 40 30 × (array_reader.buf ≡ append_array_header [] 30 ++ 5 ∷ [])))
    × ((reader_map_header array_reader ≡ (ok 30, record array_reader { buf = 5 ∷ [] }))
        ↔ ((30 < 2 ^ 32) × Allows 40 30 × (array_reader.buf ≡ append_map_header [] 30 ++ 5 ∷ [])))
strict_headers_iff_example =
    strict_headers_iff array_reader 30 (5 ∷ []) refl (omega arith, (omega arith, (omega arith, tt)))
