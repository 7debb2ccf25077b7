-- ===== src/Json.antt =====
-- The JSON heuristic of runtime/helpers.go and `ReadJSONNumberBytes` of runtime/json_number.go. A text
-- is its bytes.
use cbor.Base.{
  ℕ, ◌≡◌, refl, sym, ap, ◌∙◌, [], ◌∷◌, ◌++◌, Bool, true, false, ◌&&◌, ◌||◌, Bytes, ℤ, pos, negsuc,
  IsInt, leb, ◌==◌, if◌then◌else◌, arith,
}
use cbor.Result.{
  Result, ok, err, ◌>>=◌, CborType, int_type, uint_type, float32_type, float64_type,
  unsupported_type,
}
use cbor.Wire.{append_uint_core}
use cbor.Wire.Core.{read_uint_core-append_uint_core}
use cbor.Append.{append_int64}
use cbor.Ints.RoundTrip.{append_int64-pos, append_int64-negsuc, read_int64-append_int64}
use cbor.Number.Codec.{next_type-uint, next_type-int}
use cbor.Ints.{read_int64, read_uint64}
use cbor.Headers.{next_type, read_float32, read_float64}

-- The loop over the white space in front.
unfoldable pub skip_space : Bytes → Bytes
skip_space [] = []
skip_space (c ∷ b) =
    let rest = skip_space b in if c == 32 || c == 10 || c == 13 || c == 9 then rest else c ∷ b

-- The bytes that a JSON value starts with.
unfoldable pub starts_value : Bytes → Bool
starts_value [] = false
starts_value (ch ∷ b) =
    if ch == 123 || ch == 91 || ch == 34 || ch == 45
    then true
    else if leb 48 ch && leb ch 57
    then true
    else if ch == 116 || ch == 102 || ch == 110
    then true
    else false

-- `valid` is utf8.Valid.
unfoldable pub is_likely_json : (Bytes → Bool) → Bytes → Bool
unfolding skip_space starts_value
is_likely_json valid b = if valid b then starts_value (skip_space b) else false

-- `decimal` is strconv.FormatInt, with FormatUint; `fixed` is FormatFloat of a float64 with 'f'.
module _ (decimal : ℤ → Bytes) (fixed : ℕ → Bytes) (to_float64 : ℕ → ℕ) where
  unfoldable pub number_at : CborType → Bytes → Result (Bytes × Bytes)
  number_at int_type b = read_int64 b >>= λ (v, o). ok (decimal v, o)
  number_at uint_type b = read_uint64 b >>= λ (v, o). ok (decimal (pos v), o)
  number_at float32_type b = read_float32 b >>= λ (v, o). ok (fixed (to_float64 v), o)
  number_at float64_type b = read_float64 b >>= λ (v, o). ok (fixed v, o)
  number_at typ b = err unsupported_type

  unfoldable pub read_json_number : Bytes → Result (Bytes × Bytes)
  unfolding number_at
  read_json_number b = number_at (next_type b) b

  -- An int64 that AppendInt64 wrote is read as its decimal text.
  read_json_number-append_int64 :
      (i : ℤ) (rest : Bytes)
      → IsInt 64 i
      → read_json_number (append_int64 [] i ++ rest) ≡ ok (decimal i, rest)
  unfolding read_json_number
  read_json_number-append_int64 (pos u) rest h =
      let core = read_uint_core-append_uint_core 0 u rest (omega arith) (omega arith) in
      let typ = next_type-uint (append_uint_core [] 0 u ++ rest) u rest core in
      let read : read_uint64 (append_uint_core [] 0 u ++ rest) ≡ ok (u, rest) =
        unfold read_uint64 in core in
      ap (λ l. read_json_number (l ++ rest)) (append_int64-pos [] u)
      ∙ ap (λ t. number_at t (append_uint_core [] 0 u ++ rest)) typ
      ∙ ap (λ m. m >>= λ (v, o). ok (decimal (pos v), o)) read
  read_json_number-append_int64 (negsuc u) rest h =
      let core = read_uint_core-append_uint_core 1 u rest (omega arith) (omega arith) in
      let typ = next_type-int (append_uint_core [] 1 u ++ rest) u rest core in
      let read : read_int64 (append_uint_core [] 1 u ++ rest) ≡ ok (negsuc u, rest) =
        ap (λ l. read_int64 (l ++ rest)) (sym (append_int64-negsuc [] u))
        ∙ read_int64-append_int64 (negsuc u) rest h in
      ap (λ l. read_json_number (l ++ rest)) (append_int64-negsuc [] u)
      ∙ ap (λ t. number_at t (append_uint_core [] 1 u ++ rest)) typ
      ∙ ap (λ m. m >>= λ (v, o). ok (decimal v, o)) read

-- White space in front makes no difference to what a valid text looks like.
is_likely_json-cons :
    (valid : Bytes → Bool) (c : ℕ) (b : Bytes)
    → (c == 32 || c == 10 || c == 13 || c == 9) ≡ true
    → valid (c ∷ b) ≡ valid b
    → is_likely_json valid (c ∷ b) ≡ is_likely_json valid b
unfolding is_likely_json
is_likely_json-cons valid c b h v = rw (h, v) refl
