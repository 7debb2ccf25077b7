-- ===== src/Examples/Items.antt =====
-- Items, sequences and maps of runtime/read_bytes.go and runtime/validate.go.
use cbor.Maps.Text.{read_map_str_str, put, puts, read_map_str_str-append_map_str_str}
use cbor.Values.{append_map_str_str}
use cbor.Base.{ℕ, ◌+◌, List, [], ◌∷◌, ◌++◌, Bool, true, Bytes, ◌≡◌, refl, ◌⊎◌, ◌↔◌, All, arith}
use cbor.Result.{Result, ok, err, Returns, unsupported_type, duplicate_map_key}
use cbor.Wire.{get_major_type, get_add_info, read_uint_core}
use cbor.Loops.{cut, times, read_chunk, times_with}
use cbor.Strings.{read_string_zc}
use cbor.Append.{append_simple_value}
use cbor.Headers.{read_simple_value, read_map_header}
use cbor.Skip.{skip_level, skip, validate_level, validate_well_formed, validate_document}
use cbor.Skip.Walk.{skip-validate, walks_return, skip-append_simple_value}
use cbor.Sequence.{split_sequence, append_sequence, for_each_sequence, segment}
use cbor.Sequence.Split.{split_sequence-append_sequence, append_sequence-split_sequence, IsItem}
use cbor.Maps.{read_map_no_dup, read_ordered_map, RawPair, was_seen, bytes_equal}
use cbor.Maps.Distinct.{Distinct}
use cbor.Maps.Runs.{read_map_no_dup_iff}

-- An array [1, "a"], with one byte behind it.
abbrev two_items : Bytes
two_items = 130 ∷ 1 ∷ 97 ∷ 97 ∷ 5 ∷ []

abbrev any_text : Bytes → Bool
any_text s = true

skip-two_items : skip two_items ≡ ok (5 ∷ [])
unfolding skip skip_level get_major_type get_add_info read_uint_core times read_chunk
skip-two_items = refl

validate-two_items : validate_well_formed any_text two_items ≡ ok (5 ∷ [])
unfolding validate_well_formed validate_level get_major_type get_add_info read_uint_core times
    read_string_zc cut
validate-two_items = refl

skip-validate_example : (skip two_items ≡ ok (5 ∷ [])) ⊎ (skip two_items ≡ err unsupported_type)
skip-validate_example = skip-validate any_text two_items (5 ∷ []) validate-two_items

walks_return_example :
    Returns (skip two_items)
    × Returns (validate_well_formed any_text two_items)
    × Returns (validate_document any_text two_items)
walks_return_example = walks_return any_text two_items

skip-append_simple_value_example :
    (read_simple_value (append_simple_value [] 200 ++ 5 ∷ []) ≡ ok (200, 5 ∷ []))
    × (validate_well_formed any_text (append_simple_value [] 200 ++ 5 ∷ []) ≡ ok (5 ∷ []))
    × (skip (append_simple_value [] 200 ++ 5 ∷ []) ≡ err unsupported_type)
skip-append_simple_value_example = skip-append_simple_value any_text 200 (5 ∷ []) (omega arith)

-- The items 1 and "a".
abbrev one_and_a : List Bytes
one_and_a = (1 ∷ []) ∷ (97 ∷ 97 ∷ []) ∷ []

one_and_a-IsItem : All IsItem one_and_a
unfolding skip skip_level get_major_type get_add_info read_uint_core read_chunk
one_and_a-IsItem = (refl, (refl, tt))

split_sequence-append_sequence_example :
    split_sequence (append_sequence [] one_and_a) ≡ ok one_and_a
split_sequence-append_sequence_example = split_sequence-append_sequence one_and_a one_and_a-IsItem

split-one_and_a : split_sequence (1 ∷ 97 ∷ 97 ∷ []) ≡ ok one_and_a
unfolding split_sequence for_each_sequence segment skip skip_level get_major_type get_add_info
    read_uint_core read_chunk
split-one_and_a = refl

append_sequence-split_sequence_example :
    (append_sequence [] one_and_a ≡ 1 ∷ 97 ∷ 97 ∷ []) × All IsItem one_and_a
append_sequence-split_sequence_example =
    append_sequence-split_sequence (1 ∷ 97 ∷ 97 ∷ []) one_and_a split-one_and_a

-- A callback that counts.
abbrev count : ℕ → Bytes → Result ℕ
count n it = ok (n + 1)

-- The map {1: 2, 3: 4}, with one byte behind it.
abbrev small_map : Bytes
small_map = 162 ∷ 1 ∷ 2 ∷ 3 ∷ 4 ∷ 5 ∷ []

read_map_no_dup_iff_example :
    (read_map_no_dup small_map ≡ ok (5 ∷ []))
    ↔ ((pairs : List RawPair) × (read_ordered_map small_map ≡ ok (pairs, 5 ∷ [])) × Distinct pairs)
read_map_no_dup_iff_example = read_map_no_dup_iff small_map (5 ∷ [])

no_dup-small_map : read_map_no_dup small_map ≡ ok (5 ∷ [])
unfolding read_map_no_dup read_map_header was_seen segment skip skip_level get_major_type
    get_add_info read_uint_core times_with bytes_equal
no_dup-small_map = refl

no_dup-twice : read_map_no_dup (162 ∷ 1 ∷ 2 ∷ 1 ∷ 4 ∷ []) ≡ err duplicate_map_key
unfolding read_map_no_dup read_map_header was_seen segment skip skip_level get_major_type
    get_add_info read_uint_core times_with bytes_equal
no_dup-twice = refl

-- {"a": "b"}, read into a map that has the key.
read_map_str_str-append_map_str_str_example :
    read_map_str_str true
      (λ s. true)
      ((97 ∷ [], 120 ∷ []) ∷ [])
      (append_map_str_str [] ((97 ∷ [], 98 ∷ []) ∷ []) ++ 5 ∷ [])
    ≡ ok (puts ((97 ∷ [], 120 ∷ []) ∷ []) ((97 ∷ [], 98 ∷ []) ∷ []), 5 ∷ [])
read_map_str_str-append_map_str_str_example =
    read_map_str_str-append_map_str_str true (λ s. true) ((97 ∷ [], 98 ∷ []) ∷ [])
      ((97 ∷ [], 120 ∷ []) ∷ []) (5 ∷ []) (omega arith) ((omega arith, refl, omega arith, refl), tt)

put-same : put ((97 ∷ [], 120 ∷ []) ∷ []) (97 ∷ []) (98 ∷ []) ≡ (97 ∷ [], 98 ∷ []) ∷ []
unfolding put bytes_equal
put-same = refl
