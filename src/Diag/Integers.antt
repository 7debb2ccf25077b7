-- ===== src/Diag/Integers.antt =====
-- Integers in diagnostic notation.
use cbor.Skip.{recursion_limit}
use cbor.Base.{
  ℕ, suc, ◌^◌, ◌≡◌, refl, ap, ◌∙◌, [], ◌∷◌, ◌++◌, Bool, Bytes, ℤ, pos, negsuc, IsInt, arith,
  ltb-true,
}
use cbor.Result.{Result, ok}
use cbor.Wire.{get_major_type, read_uint_core, append_uint_core}
use cbor.Wire.Core.{read_uint_core-append_uint_core}
use cbor.Append.{append_int64}
use cbor.Ints.RoundTrip.{append_int64-pos, append_int64-negsuc}
use cbor.Diag.{Formats, diag_item, diag_level, diag_bytes, negative}

-- A header that is read is one of its major type.
read_uint_core-major :
    (lead : ℕ) (t : Bytes) (m u : ℕ) (r : Bytes)
    → read_uint_core (lead ∷ t) m ≡ ok (u, r)
    → get_major_type lead ≡ m
unfolding read_uint_core
read_uint_core-major lead t m u r e = ground arith

module _ (formats : Formats) (ldexp : ℕ → ℕ → ℕ) (to_float64 : ℕ → ℕ) (validate_utf8 : Bool)
    (is_utf8_valid : Bytes → Bool) where
  item_uint :
      (f : Bytes → Bytes → Result (Bytes × Bytes)) (buf b : Bytes) (u : ℕ) (r : Bytes)
      → read_uint_core b 0 ≡ ok (u, r)
      → diag_item formats ldexp to_float64 validate_utf8 is_utf8_valid f buf b
        ≡ ok (buf ++ formats.decimal (pos u), r)
  unfolding diag_item
  item_uint f buf [] u r e = absurd (unfold read_uint_core in cc)
  item_uint f buf (lead ∷ t) u r e = rw (read_uint_core-major lead t 0 u r e, e) refl

  item_negative :
      (f : Bytes → Bytes → Result (Bytes × Bytes)) (buf b : Bytes) (u : ℕ) (r : Bytes)
      → read_uint_core b 1 ≡ ok (u, r)
      → diag_item formats ldexp to_float64 validate_utf8 is_utf8_valid f buf b
        ≡ ok (buf ++ formats.decimal (negative u), r)
  unfolding diag_item
  item_negative f buf [] u r e = absurd (unfold read_uint_core in cc)
  item_negative f buf (lead ∷ t) u r e = rw (read_uint_core-major lead t 1 u r e, e) refl

  level-append_int64 :
      (n : ℕ) (i : ℤ) (rest : Bytes)
      → IsInt 64 i
      → diag_level formats ldexp to_float64 validate_utf8 is_utf8_valid
          (suc n)
          []
          (append_int64 [] i ++ rest)
        ≡ ok (formats.decimal i, rest)
  unfolding diag_level
  level-append_int64 n (pos u) rest h =
      ap
        (λ l.
          diag_level formats ldexp to_float64 validate_utf8 is_utf8_valid (suc n) [] (l ++ rest))
        (append_int64-pos [] u)
      ∙ item_uint (λ buf o. diag_level formats ldexp to_float64 validate_utf8 is_utf8_valid n buf o)
          [] (append_uint_core [] 0 u ++ rest) u rest
          (read_uint_core-append_uint_core 0 u rest (omega arith) (omega arith))
  level-append_int64 n (negsuc u) rest h =
      let fits : negative u ≡ negsuc u = unfold negative in rw (ltb-true u (2 ^ 63) h) refl in
      ap
        (λ l.
          diag_level formats ldexp to_float64 validate_utf8 is_utf8_valid (suc n) [] (l ++ rest))
        (append_int64-negsuc [] u)
      ∙ item_negative
          (λ buf o. diag_level formats ldexp to_float64 validate_utf8 is_utf8_valid n buf o) []
          (append_uint_core [] 1 u ++ rest) u rest
          (read_uint_core-append_uint_core 1 u rest (omega arith) (omega arith))
      ∙ ap (λ j. ok (formats.decimal j, rest)) fits

  -- DiagBytes renders an int64 that AppendInt64 wrote as strconv.FormatInt does, and leaves what follows.
  pub diag_bytes-append_int64 :
      (i : ℤ) (rest : Bytes)
      → IsInt 64 i
      → diag_bytes formats ldexp to_float64 validate_utf8 is_utf8_valid (append_int64 [] i ++ rest)
        ≡ ok (formats.decimal i, rest)
  unfolding diag_bytes
  diag_bytes-append_int64 i rest h = level-append_int64 recursion_limit i rest h
