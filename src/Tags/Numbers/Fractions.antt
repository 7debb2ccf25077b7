-- ===== src/Tags/Numbers/Fractions.antt =====
-- Decimal fractions and bigfloats are read back, also from an array of indefinite length.
use cbor.Base.{
  ℕ, ◌+◌, ◌-◌, ◌^◌, ◌<◌, ◌≡◌, sym, ap, ◌∙◌, [], ◌∷◌, ◌++◌, append_assoc, Bytes, ℤ, pos, negsuc,
  IsInt, length, some, arith, ltb, Bool-cases, inl, inr,
}
use cbor.Result.{ok}
use cbor.Wire.{append_uint_core, make_byte}
use cbor.Wire.Core.{append_uint_core-append}
use cbor.Append.{
  append_tag, append_bytes, append_int64, append_uint64, append_array_header,
  append_array_header_indefinite, append_break,
}
use cbor.Ints.RoundTrip.{append_int64-pos, append_int64-negsuc, read_int64-append_int64}
use cbor.Headers.{read_array_header}
use cbor.Tags.RoundTrip.{read_tag-append_tag, append_bytes-append}
use cbor.Tags.Numbers.{
  magnitude, append_big_int, append_cbor_integer, append_decimal_fraction, append_bigfloat,
  read_pair, read_decimal_fraction, read_bigfloat,
}
use cbor.Tags.Numbers.Bignums.{size, read_cbor_integer-append}

pub append_int64-append : (b : Bytes) (i : ℤ) → append_int64 b i ≡ b ++ append_int64 [] i
append_int64-append b (pos n) =
    append_int64-pos b n
    ∙ append_uint_core-append b 0 n
    ∙ ap (λ l. b ++ l) (sym (append_int64-pos [] n))
append_int64-append b (negsuc n) =
    append_int64-negsuc b n
    ∙ append_uint_core-append b 1 n
    ∙ ap (λ l. b ++ l) (sym (append_int64-negsuc [] n))

tagged-append :
    (b : Bytes) (tag : ℕ) (s : Bytes)
    → append_bytes (append_uint_core b 6 tag) s ≡ b ++ append_bytes (append_uint_core [] 6 tag) s
tagged-append b tag s =
    append_bytes-append (append_uint_core b 6 tag) s
    ∙ ap (λ l. l ++ append_bytes [] s) (append_uint_core-append b 6 tag)
    ∙ append_assoc b (append_uint_core [] 6 tag) (append_bytes [] s)
    ∙ ap (λ l. b ++ l) (sym (append_bytes-append (append_uint_core [] 6 tag) s))

append_big_int-append :
    (b : Bytes) (z : ℤ) → append_big_int b (some z) ≡ b ++ append_big_int [] (some z)
unfolding append_big_int append_tag
append_big_int-append b (pos n) = tagged-append b 2 (magnitude n)
append_big_int-append b (negsuc n) = tagged-append b 3 (magnitude n)

append_cbor_integer-append :
    (b : Bytes) (z : ℤ) → append_cbor_integer b (some z) ≡ b ++ append_cbor_integer [] (some z)
unfolding append_cbor_integer append_uint64
append_cbor_integer-append b (pos n) = elim (Bool-cases (ltb n (2 ^ 64))) [
  | inl l ↦ rw l (append_uint_core-append b 0 n)
  | inr l ↦ rw l (append_big_int-append b (pos n))
]
append_cbor_integer-append b (negsuc n) = elim (Bool-cases (ltb (n + 1) (2 ^ 63))) [
  | inl l ↦ rw l (append_int64-append b (negsuc n))
  | inr l ↦ rw l (append_big_int-append b (negsuc n))
]

-- The two numbers.
abbrev numbers : ℤ → ℤ → Bytes
numbers e m = append_int64 [] e ++ append_cbor_integer [] (some m)

behind :
    (e m : ℤ) (t : Bytes) (x : ℕ)
    → append_cbor_integer (append_int64 (t ++ x ∷ []) e) (some m) ≡ t ++ x ∷ numbers e m
behind e m t x =
    append_cbor_integer-append (append_int64 (t ++ x ∷ []) e) m
    ∙ ap (λ l. l ++ append_cbor_integer [] (some m)) (append_int64-append (t ++ x ∷ []) e)
    ∙ append_assoc (t ++ x ∷ []) (append_int64 [] e) (append_cbor_integer [] (some m))
    ∙ append_assoc t (x ∷ []) (numbers e m)

module _ (e m : ℤ) (rest : Bytes) (he : IsInt 64 e)
    (hm : length (magnitude (size m)) < 2 ^ 63 - 9) where
  read_pair-definite : read_pair (130 ∷ (numbers e m ++ rest)) ≡ ok (e, m, rest)
  unfolding read_pair read_array_header make_byte
  read_pair-definite = rw (
    append_assoc (append_int64 [] e) (append_cbor_integer [] (some m)) rest,
    read_int64-append_int64 e (append_cbor_integer [] (some m) ++ rest) he,
    read_cbor_integer-append m rest hm,
  )

  read_pair-indefinite : read_pair (159 ∷ (numbers e m ++ 255 ∷ rest)) ≡ ok (e, m, rest)
  unfolding read_pair make_byte
  read_pair-indefinite = rw (
    append_assoc (append_int64 [] e) (append_cbor_integer [] (some m)) (255 ∷ rest),
    read_int64-append_int64 e (append_cbor_integer [] (some m) ++ 255 ∷ rest) he,
    read_cbor_integer-append m (255 ∷ rest) hm,
  )

  -- Behind a tag that is read, the header of the array, and the numbers.
  definite_form :
      (tag : ℕ)
      → append_cbor_integer (append_int64 (append_array_header (append_tag [] tag) 2) e) (some m)
          ++ rest
        ≡ append_tag [] tag ++ (130 ∷ (numbers e m ++ rest))
  unfolding append_array_header append_uint_core make_byte
  definite_form tag =
      ap (λ l. l ++ rest) (behind e m (append_tag [] tag) 130)
      ∙ append_assoc (append_tag [] tag) (130 ∷ numbers e m) rest

  indefinite_form :
      (tag : ℕ)
      → append_break (
            append_cbor_integer
              (append_int64 (append_array_header_indefinite (append_tag [] tag)) e)
              (some m))
          ++ rest
        ≡ append_tag [] tag ++ (159 ∷ (numbers e m ++ 255 ∷ rest))
  unfolding append_array_header_indefinite append_break make_byte
  indefinite_form tag =
      ap (λ l. (l ++ 255 ∷ []) ++ rest) (behind e m (append_tag [] tag) 159)
      ∙ append_assoc (append_tag [] tag ++ 159 ∷ numbers e m) (255 ∷ []) rest
      ∙ append_assoc (append_tag [] tag) (159 ∷ numbers e m) (255 ∷ rest)

-- Decimal fractions and bigfloats are read back from what AppendDecimalFraction and AppendBigfloat
-- write, and from the same two numbers in an array of indefinite length, if the exponent is an
-- int64 and the magnitude of the mantissa has less than 2^63 - 9 bytes.
pub fractions :
    (e m : ℤ) (rest : Bytes)
    → IsInt 64 e
    → length (magnitude (size m)) < 2 ^ 63 - 9
    → (read_decimal_fraction (append_decimal_fraction [] e (some m) ++ rest) ≡ ok (e, m, rest))
      × (read_bigfloat (append_bigfloat [] e (some m) ++ rest) ≡ ok (e, m, rest))
      × (read_decimal_fraction (
            append_break (
              append_cbor_integer
                (append_int64 (append_array_header_indefinite (append_tag [] 4)) e)
                (some m))
            ++ rest)
          ≡ ok (e, m, rest))
      × (read_bigfloat (
            append_break (
              append_cbor_integer
                (append_int64 (append_array_header_indefinite (append_tag [] 5)) e)
                (some m))
            ++ rest)
          ≡ ok (e, m, rest))
unfolding read_decimal_fraction read_bigfloat append_decimal_fraction append_bigfloat
fractions e m rest he hm = (
  rw
      (
        definite_form e m rest he hm 4,
        read_tag-append_tag 4 (130 ∷ (numbers e m ++ rest)) (omega arith),
      )
      (read_pair-definite e m rest he hm),
  rw
      (
        definite_form e m rest he hm 5,
        read_tag-append_tag 5 (130 ∷ (numbers e m ++ rest)) (omega arith),
      )
      (read_pair-definite e m rest he hm),
  rw
      (
        indefinite_form e m rest he hm 4,
        read_tag-append_tag 4 (159 ∷ (numbers e m ++ 255 ∷ rest)) (omega arith),
      )
      (read_pair-indefinite e m rest he hm),
  rw
      (
        indefinite_form e m rest he hm 5,
        read_tag-append_tag 5 (159 ∷ (numbers e m ++ 255 ∷ rest)) (omega arith),
      )
      (read_pair-indefinite e m rest he hm),
)
