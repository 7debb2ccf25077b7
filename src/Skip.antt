-- ===== src/Skip.antt =====
-- `Skip` of runtime/read_bytes.go and `ValidateWellFormedBytes`, `ValidateDocument` of
-- runtime/validate.go. The source counts the depth up and fails when it exceeds recursionLimit;
-- here the first argument is the number of levels that are left, recursionLimit + 1 - depth.
pub mod Total
pub mod Agree
pub mod Walk
pub mod Steps
pub mod Codes
use cbor.Base.{
  ℕ, zero, suc, ◌+◌, ◌%◌, List, [], ◌∷◌, Bool, true, false, ◌||◌, Bytes, ltb, leb, ◌==◌, ◌!=◌,
  if◌then◌else◌, length, drop,
}
use cbor.Result.{
  Result, ok, err, stuck, ◌>>=◌, short_bytes, max_depth_exceeded, invalid_utf8, invalid_prefix,
  unsupported_type,
}
use cbor.Wire.{
  make_byte, get_major_type, get_add_info, read_uint_core, major_uint, major_neg_int, major_bytes,
  major_text, major_array, major_map, major_tag, major_simple, add_info_indefinite, add_info_uint8,
}
use cbor.Append.{
  simple_false, simple_true, simple_null, simple_undefined, simple_float16, simple_float32,
  simple_float64,
}
use cbor.Loops.{cut, read_chunk, times, until_break}
use cbor.Strings.{read_string_zc}

abbrev pub recursion_limit : ℕ
recursion_limit = 100000

-- `if len(b) < 1+n { short }; return b[1+n:]`
pub skip_fixed : ℕ → Bytes → Result Bytes
skip_fixed n t = if ltb (length t) n then err short_bytes else ok (drop n t)

skip_chunk : ℕ → Bytes → Result Bytes
skip_chunk major p = read_chunk major p >>= λ (_, q). ok q

-- Key and value of a map.
pub skip_pair : (Bytes → Result Bytes) → Bytes → Result Bytes
skip_pair f o = f o >>= f

-- An array or map whose loop body is `f`.
skip_container : (Bytes → Result Bytes) → ℕ → ℕ → Bytes → Result Bytes
skip_container f major lead t =
    if get_add_info lead == add_info_indefinite
    then until_break f (suc (length t)) t
    else (read_uint_core (lead ∷ t) major >>= λ (sz, o). times f sz o)

-- The last case of the switch over the simple values, where the two functions part:
-- `wide` says whether the two-byte form 0xf8 is known.
simple_item : (wide : Bool) → ℕ → Bytes → Result Bytes
unfolding skip_fixed
simple_item wide add t =
    if add == simple_false || add == simple_true || add == simple_null || add == simple_undefined
    then ok t
    else if add == simple_float16
    then skip_fixed 2 t
    else if add == simple_float32
    then skip_fixed 4 t
    else if add == simple_float64
    then skip_fixed 8 t
    else if leb add 19
    then ok t
    else if wide
    then (if add == add_info_uint8 then skip_fixed 1 t else err unsupported_type)
    else err unsupported_type

-- One call of `skip`; `f` is the call one level deeper.
pub skip_item : (Bytes → Result Bytes) → Bytes → Result Bytes
unfolding skip_chunk skip_pair skip_container simple_item
skip_item f [] = err short_bytes
skip_item f (lead ∷ t) =
    let major = get_major_type lead in
    if major == major_uint || major == major_neg_int
    then (read_uint_core (lead ∷ t) major >>= λ (_, o). ok o)
    else if major == major_tag
    then (read_uint_core (lead ∷ t) major >>= λ (_, o). f o)
    else if major == major_bytes || major == major_text
    then (if get_add_info lead == add_info_indefinite
        then until_break (skip_chunk major) (suc (length t)) t
        else skip_chunk major (lead ∷ t))
    else if major == major_array
    then skip_container f major_array lead t
    else if major == major_map
    then skip_container (skip_pair f) major_map lead t
    else simple_item false (get_add_info lead) t

unfoldable pub skip_level : ℕ → Bytes → Result Bytes
unfolding skip_item
skip_level zero b = err max_depth_exceeded
skip_level (suc levels) b = skip_item (λ o. skip_level levels o) b

unfoldable pub skip : Bytes → Result Bytes
skip b = skip_level (suc recursion_limit) b

module _ (is_utf8_valid : Bytes → Bool) where
  -- A definite text string, checked.
  validate_text : Bytes → Result Bytes
  validate_text p =
      read_string_zc p >>= λ (s, o). if is_utf8_valid s then ok o else err invalid_utf8

  pub validate_item : (Bytes → Result Bytes) → Bytes → Result Bytes
  unfolding validate_text skip_chunk skip_pair skip_container simple_item
  validate_item f [] = err short_bytes
  validate_item f (lead ∷ t) =
      let major = get_major_type lead in
      let add = get_add_info lead in
      if add == 28 || add == 29 || add == 30
      then err (invalid_prefix major major)
      else if major == major_uint || major == major_neg_int
      then (read_uint_core (lead ∷ t) major >>= λ (_, o). ok o)
      else if major == major_tag
      then (read_uint_core (lead ∷ t) major >>= λ (_, o). f o)
      else if major == major_bytes
      then (if add == add_info_indefinite
          then until_break (skip_chunk major_bytes) (suc (length t)) t
          else skip_chunk major_bytes (lead ∷ t))
      else if major == major_text
      then (if add == add_info_indefinite
          then until_break validate_text (suc (length t)) t
          else validate_text (lead ∷ t))
      else if major == major_array
      then skip_container f major_array lead t
      else if major == major_map
      then skip_container (skip_pair f) major_map lead t
      else simple_item true add t

  unfoldable pub validate_level : ℕ → Bytes → Result Bytes
  unfolding validate_item
  validate_level zero b = err max_depth_exceeded
  validate_level (suc levels) b = validate_item (λ o. validate_level levels o) b

  unfoldable pub validate_well_formed : Bytes → Result Bytes
  validate_well_formed b = validate_level (suc recursion_limit) b

  validate_all : ℕ → Bytes → Result (Unit {0})
  validate_all k [] = ok tt
  validate_all zero (x ∷ t) = stuck
  validate_all (suc k) (x ∷ t) = validate_well_formed (x ∷ t) >>= λ r. validate_all k r

  unfoldable pub validate_document : Bytes → Result (Unit {0})
  unfolding validate_all
  validate_document b = validate_all (length b) b
