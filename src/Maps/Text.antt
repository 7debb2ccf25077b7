-- ===== src/Maps/Text.antt =====
-- `ReadMapStrStrBytes` of runtime/read_bytes.go. The Go map is an association list. What a
-- call that fails has assigned by then is not modelled.
use cbor.Base.{
  ℕ, ◌+◌, ◌%◌, ◌^◌, ◌<◌, ◌≡◌, refl, sym, ap, ◌∙◌, List, [], ◌∷◌, ◌++◌, append_assoc, Bool, true,
  leb, if◌then◌else◌, arith, Bytes, length, All, Bool-cases, inl, inr,
}
use cbor.Result.{Result, ok, ◌>>=◌}
use cbor.Wire.{make_byte, append_uint_core}
use cbor.Wire.Bits.{make_byte_lem}
use cbor.Wire.Endian.{take_uint-put_uint}
use cbor.Append.{append_map_header, append_string}
use cbor.Headers.{read_map_header}
use cbor.Loops.{times_with}
use cbor.Strings.{read_string}
use cbor.Maps.{bytes_equal}
use cbor.Tags.RoundTrip.{read_string-append_string, append_string-append}
use cbor.Values.Slices.{each-append}
use cbor.Values.{append_map_str_str, append_text_map, append_each, append_entry}

-- The header of a map of less than 2^32 entries is read back.
pub read_map_header-append :
    (n : ℕ) (rest : Bytes)
    → n < 2 ^ 32
    → read_map_header (append_map_header [] n ++ rest) ≡ ok (n, rest)
unfolding read_map_header append_map_header append_uint_core
read_map_header-append n rest h = elim (Bool-cases (leb n 23)) [
  | inl direct ↦
      let lead : make_byte 5 (n % 256) ≡ 160 + n % 256 =
        make_byte_lem 5 (n % 256) (omega arith) (ground arith) in
      rw (direct, lead) (ground arith)
  | inr wide ↦ rw wide (
      unfold make_byte in
      ground (
        arith,
        take_uint-put_uint 1 n rest,
        take_uint-put_uint 2 n rest,
        take_uint-put_uint 4 n rest,
      ))
]

abbrev pub StrStr : Type 0
StrStr = List (Bytes × Bytes)

-- `m[key] = val`
unfoldable pub put : StrStr → Bytes → Bytes → StrStr
put [] key val = (key, val) ∷ []
put ((k, v) ∷ m) key val =
    let later = put m key val in if bytes_equal k key then (k, val) ∷ m else (k, v) ∷ later

entry-append :
    (b : Bytes) (e : Bytes × Bytes)
    → append_entry append_string b e ≡ b ++ append_entry append_string [] e
unfolding append_entry
entry-append b (k, v) =
    append_string-append (append_string b k) v
    ∙ ap (λ t. t ++ append_string [] v) (append_string-append b k)
    ∙ append_assoc b (append_string [] k) (append_string [] v)
    ∙ ap (λ t. b ++ t) (sym (append_string-append (append_string [] k) v))

-- The first entry, and what is behind it.
first :
    (k v : Bytes) (es : StrStr) (rest : Bytes)
    → append_each (append_entry append_string) [] ((k, v) ∷ es) ++ rest
      ≡ append_string [] k
        ++ (append_string [] v ++ (append_each (append_entry append_string) [] es ++ rest))
unfolding append_each
first k v es rest =
    let f = append_entry append_string in
    let one : f [] (k, v) ≡ append_string [] k ++ append_string [] v =
      unfold append_entry in append_string-append (append_string [] k) v in
    ap (λ t. t ++ rest) (each-append f entry-append es (f [] (k, v)))
    ∙ append_assoc (f [] (k, v)) (append_each f [] es) rest
    ∙ ap (λ t. t ++ (append_each f [] es ++ rest)) one
    ∙ append_assoc (append_string [] k) (append_string [] v) (append_each f [] es ++ rest)

-- The assignments, one after another.
abbrev pub puts : StrStr → StrStr → StrStr
puts m [] = m
puts m ((k, v) ∷ es) = puts (put m k v) es

module _ (validate_utf8 : Bool) (is_utf8_valid : Bytes → Bool) where
  -- One round of the loop.
  read_entry : StrStr → Bytes → Result (StrStr × Bytes)
  unfolding put
  read_entry m o = read_string validate_utf8 is_utf8_valid o >>= λ (key, o1).
      read_string validate_utf8 is_utf8_valid o1 >>= λ (val, o2). ok (put m key val, o2)

  unfoldable pub read_map_str_str : StrStr → Bytes → Result (StrStr × Bytes)
  unfolding read_entry
  read_map_str_str m b = read_map_header b >>= λ (sz, o). times_with read_entry sz m o

  abbrev pub IsString : Bytes × Bytes → Type 0
  IsString (k, v) =
      (length k < 2 ^ 63)
      × (is_utf8_valid k ≡ true)
      × (length v < 2 ^ 63)
      × (is_utf8_valid v ≡ true)

  read_entry-append :
      (m : StrStr) (k v rest : Bytes)
      → IsString (k, v)
      → read_entry m (append_string [] k ++ (append_string [] v ++ rest)) ≡ ok (put m k v, rest)
  unfolding read_entry
  read_entry-append m k v rest (hk, uk, hv, uv) =
      rw
        (
          read_string-append_string validate_utf8 is_utf8_valid k (append_string [] v ++ rest) hk
              uk,
          read_string-append_string validate_utf8 is_utf8_valid v rest hv uv,
        )
        refl

  entries-read :
      (es m : StrStr) (rest : Bytes)
      → All IsString es
      → times_with read_entry (length es) m (append_each (append_entry append_string) [] es ++ rest)
        ≡ ok (puts m es, rest)
  unfolding times_with
  entries-read [] m rest h = unfold append_each in refl
  entries-read ((k, v) ∷ es) m rest (h, hs) =
      rw
        (
          first k v es rest,
          read_entry-append m k v (append_each (append_entry append_string) [] es ++ rest) h,
        )
        (entries-read es (put m k v) rest hs)

  -- What AppendMapStrStr appends to an empty buffer is read back by ReadMapStrStrBytes, which
  -- assigns each entry in turn to the map that it is given, if all keys and values are texts that
  -- the UTF-8 validator accepts, of less than 2^63 bytes, and there are fewer than 2^32 entries.
  pub read_map_str_str-append_map_str_str :
      (es m : StrStr) (rest : Bytes)
      → length es < 2 ^ 32
      → All IsString es
      → read_map_str_str m (append_map_str_str [] es ++ rest) ≡ ok (puts m es, rest)
  unfolding read_map_str_str append_map_str_str append_text_map
  read_map_str_str-append_map_str_str es m rest l h =
      let n : length es % 2 ^ 32 ≡ length es = omega arith in
      rw
        (
          n,
          each-append (append_entry append_string) entry-append es
              (append_map_header [] (length es)),
          append_assoc (append_map_header [] (length es))
              (append_each (append_entry append_string) [] es) rest,
          read_map_header-append (length es)
              (append_each (append_entry append_string) [] es ++ rest) l,
        )
        (entries-read es m rest h)
