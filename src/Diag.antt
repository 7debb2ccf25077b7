-- ===== src/Diag.antt =====
-- Diagnostic notation: `DiagBytes` of runtime/diag.go. A text is its bytes. As in Skip the first
-- argument of a level counts the levels that are left.
pub mod Trim
pub mod Integers
use cbor.Base.{
  ℕ, zero, suc, ◌+◌, ◌-◌, ◌%◌, ◌^◌, List, [], ◌∷◌, ◌++◌, Bool, true, false, Bytes, ℤ, pos, negsuc,
  ltb, ◌==◌, if◌then◌else◌, length, take,
}
use cbor.Result.{Result, ok, err, ◌>>=◌, short_bytes, max_depth_exceeded, unsupported_type}
use cbor.Wire.{
  get_major_type, get_add_info, take_uint, read_uint_core, major_uint, major_neg_int, major_bytes,
  major_text, major_array, major_map, major_tag, add_info_indefinite, add_info_uint8,
}
use cbor.Append.{
  simple_false, simple_true, simple_null, simple_undefined, simple_float16, simple_float32,
  simple_float64,
}
use cbor.Headers.{read_tag, read_float32, read_float64}
use cbor.Loops.{read_chunk, times_with, until_break_with}
use cbor.Strings.{read_string_zc, read_bytes, read_string}
use cbor.Skip.{recursion_limit}
use cbor.Floats.{read_float16, is_nan}
use cbor.Deterministic.{byte_at}

-- `for i > 0 && s[i-1] == '0' { i-- }`
unfoldable pub zeros_from : ℕ → Bytes → ℕ
unfolding byte_at
zeros_from zero s = zero
zeros_from (suc i) s = let rest = zeros_from i s in if byte_at s i == 48 then rest else suc i

-- `if i > 0 && s[i-1] == '.' { i-- }`
unfoldable pub dot_from : ℕ → Bytes → ℕ
unfolding byte_at
dot_from zero s = zero
dot_from (suc i) s = if byte_at s i == 46 then i else suc i

unfoldable pub trim_trailing_zeros_dot : Bytes → Bytes
unfolding zeros_from dot_from
trim_trailing_zeros_dot s = take (dot_from (zeros_from (length s) s) s) s

-- The tests on a float64: infinite of either sign, and a magnitude below 1e15. `fixed` and `general`
-- are what strconv.FormatFloat makes with 'f' and 'g'.
unfoldable pub format_float : (fixed general : Bytes) → ℕ → Bytes
unfolding is_nan trim_trailing_zeros_dot
format_float fixed general f =
    if f == 0x7ff0000000000000
    then 73 ∷ 110 ∷ 102 ∷ 105 ∷ 110 ∷ 105 ∷ 116 ∷ 121 ∷ []
    else if f == 0xfff0000000000000
    then 45 ∷ 73 ∷ 110 ∷ 102 ∷ 105 ∷ 110 ∷ 105 ∷ 116 ∷ 121 ∷ []
    else if is_nan f
    then 78 ∷ 97 ∷ 78 ∷ []
    else if ltb (f % 2 ^ 63) 0x430c6bf526340000
    then trim_trailing_zeros_dot fixed
    else general

-- What the notation is made of: strconv.FormatInt, with FormatUint, strconv.Quote, hex.Encode, and
-- strconv.FormatFloat of a float64 and of a float32, with 'f' and with 'g'.
pub record Formats : Type 0 where
  pub decimal : ℤ → Bytes
  pub quoted : Bytes → Bytes
  pub hex : Bytes → Bytes
  pub fixed64 : ℕ → Bytes
  pub general64 : ℕ → Bytes
  pub fixed32 : ℕ → Bytes
  pub general32 : ℕ → Bytes

-- `int64(-1) - int64(u)`
unfoldable pub negative : ℕ → ℤ
negative u = if ltb u (2 ^ 63) then negsuc u else pos (2 ^ 64 - 1 - u)

-- What stands before an item: the buffer, and whether the item is the first.
unfoldable pub separated : Bytes × Bool → Bytes
separated (buf, first) = if first then buf else buf ++ 44 ∷ 32 ∷ []

unfoldable pub spaced : Bytes × Bool → Bytes
spaced (buf, first) = if first then buf ++ 32 ∷ [] else buf ++ 44 ∷ 32 ∷ []

-- The end of a loop: `end` is written.
unfoldable pub closed : ℕ → Result ((Bytes × Bool) × Bytes) → Result (Bytes × Bytes)
closed end m = m >>= λ (s, p). ok (s.0 ++ end ∷ [], p)

-- One round of the loop over the chunks of a string.
unfoldable pub diag_chunk :
    (Bytes → Bytes)
    → (Bytes → Result (Bytes × Bytes))
    → Bytes × Bool
    → Bytes
    → Result ((Bytes × Bool) × Bytes)
unfolding spaced
diag_chunk text read s p = read p >>= λ (c, o). ok ((spaced s ++ text c, false), o)

-- One round of the loops over the items of an array or a map.
unfoldable pub diag_element :
    (Bytes × Bool → Bytes)
    → (Bytes → Bytes → Result (Bytes × Bytes))
    → Bytes × Bool
    → Bytes
    → Result ((Bytes × Bool) × Bytes)
diag_element start f s p = f (start s) p >>= λ (buf, o). ok ((buf, false), o)

unfoldable pub diag_pair :
    (Bytes → Bytes → Result (Bytes × Bytes)) → Bytes → Bytes → Result (Bytes × Bytes)
diag_pair f buf p = f buf p >>= λ (buf', o). f (buf' ++ 58 ∷ 32 ∷ []) o

-- A container between `begin` and `end`, whose items `f` writes.
unfoldable pub diag_container :
    (Bytes → Bytes → Result (Bytes × Bytes))
    → ℕ
    → (begin end : ℕ) → Bytes
    → ℕ
    → Bytes
    → Result (Bytes × Bytes)
unfolding separated spaced closed diag_element
diag_container f major begin end buf lead t =
    if get_add_info lead == add_info_indefinite
    then closed end
        (until_break_with (diag_element spaced f) (suc (length t)) (buf ++ begin ∷ 95 ∷ [], true) t)
    else (read_uint_core (lead ∷ t) major >>= λ (sz, o).
        closed end (times_with (diag_element separated f) sz (buf ++ begin ∷ [], true) o))

module _ (formats : Formats) where
  unfoldable pub hex_text : Bytes → Bytes
  hex_text bs = (104 ∷ 39 ∷ []) ++ (formats.hex bs ++ 39 ∷ [])

  unfoldable pub simple_text : ℕ → Bytes
  simple_text v =
      (115 ∷ 105 ∷ 109 ∷ 112 ∷ 108 ∷ 101 ∷ 40 ∷ []) ++ (formats.decimal (pos v) ++ 41 ∷ [])

  module _ (ldexp : ℕ → ℕ → ℕ) (to_float64 : ℕ → ℕ) where
    unfoldable pub float32_text : Bytes → ℕ × Bytes → Result (Bytes × Bytes)
    unfolding format_float
    float32_text buf (f, o) =
        ok (buf ++ format_float (formats.fixed32 f) (formats.general32 f) (to_float64 f), o)

    unfoldable pub diag_simple : Bytes → ℕ → Bytes → Result (Bytes × Bytes)
    unfolding format_float float32_text simple_text
    diag_simple buf lead t =
        let add = get_add_info lead in
        if add == simple_false
        then ok (buf ++ 102 ∷ 97 ∷ 108 ∷ 115 ∷ 101 ∷ [], t)
        else if add == simple_true
        then ok (buf ++ 116 ∷ 114 ∷ 117 ∷ 101 ∷ [], t)
        else if add == simple_null
        then ok (buf ++ 110 ∷ 117 ∷ 108 ∷ 108 ∷ [], t)
        else if add == simple_undefined
        then ok (buf ++ 117 ∷ 110 ∷ 100 ∷ 101 ∷ 102 ∷ 105 ∷ 110 ∷ 101 ∷ 100 ∷ [], t)
        else if add == simple_float16
        then read_float16 ldexp (lead ∷ t) >>= float32_text buf
        else if add == simple_float32
        then read_float32 (lead ∷ t) >>= float32_text buf
        else if add == simple_float64
        then (read_float64 (lead ∷ t) >>= λ (f, o).
            ok (buf ++ format_float (formats.fixed64 f) (formats.general64 f) f, o))
        else if ltb add 20
        then ok (buf ++ simple_text add, t)
        else if add == add_info_uint8
        then (take_uint 1 t >>= λ (v, o). ok (buf ++ simple_text v, o))
        else err unsupported_type

    module _ (validate_utf8 : Bool) (is_utf8_valid : Bytes → Bool) where
      -- One call of `diagOneBuf`; `f` is the call one level deeper.
      unfoldable pub diag_item :
          (Bytes → Bytes → Result (Bytes × Bytes)) → Bytes → Bytes → Result (Bytes × Bytes)
      unfolding negative closed hex_text diag_chunk diag_pair diag_container diag_simple
      diag_item f buf [] = err short_bytes
      diag_item f buf (lead ∷ t) =
          let major = get_major_type lead in
          let chunks = λ (text : Bytes → Bytes) (read : Bytes → Result (Bytes × Bytes)). closed 41 (
            until_break_with (diag_chunk text read) (suc (length t)) (buf ++ 40 ∷ 95 ∷ [], true)
              t) in
          if major == major_uint
          then (read_uint_core (lead ∷ t) major_uint >>= λ (u, o).
              ok (buf ++ formats.decimal (pos u), o))
          else if major == major_neg_int
          then (read_uint_core (lead ∷ t) major_neg_int >>= λ (u, o).
              ok (buf ++ formats.decimal (negative u), o))
          else if major == major_bytes
          then (if get_add_info lead == add_info_indefinite
              then chunks hex_text (read_chunk major_bytes)
              else (read_bytes (lead ∷ t) >>= λ (bs, o). ok (buf ++ hex_text bs, o)))
          else if major == major_text
          then (if get_add_info lead == add_info_indefinite
              then chunks formats.quoted read_string_zc
              else (read_string validate_utf8 is_utf8_valid (lead ∷ t) >>= λ (s, o).
                  ok (buf ++ formats.quoted s, o)))
          else if major == major_array
          then diag_container f major_array 91 93 buf lead t
          else if major == major_map
          then diag_container (diag_pair f) major_map 123 125 buf lead t
          else if major == major_tag
          then (read_tag (lead ∷ t) >>= λ (tag, o).
              f (buf ++ (formats.decimal (pos tag) ++ 40 ∷ [])) o >>= λ (buf', p).
              ok (buf' ++ 41 ∷ [], p))
          else diag_simple buf lead t

      unfoldable pub diag_level : ℕ → Bytes → Bytes → Result (Bytes × Bytes)
      unfolding diag_item
      diag_level zero buf b = err max_depth_exceeded
      diag_level (suc levels) buf b = diag_item (λ buf' o. diag_level levels buf' o) buf b

      -- The text and the rest.
      unfoldable pub diag_bytes : Bytes → Result (Bytes × Bytes)
      diag_bytes b = diag_level (suc recursion_limit) [] b
