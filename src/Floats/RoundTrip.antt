-- ===== src/Floats/RoundTrip.antt =====
-- The float encoders and the readers of their width.
use cbor.Base.{
  ℕ, ◌^◌, ◌<◌, ◌≡◌, ◌⊎◌, inl, inr, refl, ap, [], ◌++◌, true, false, Bool-cases, ◌&&◌, Bytes, arith,
}
use cbor.Result.{ok}
use cbor.Wire.{make_byte}
use cbor.Wire.Endian.{take_uint-put_uint}
use cbor.Append.{append_float32}
use cbor.Headers.{read_float32, read_float64}
use cbor.Number.Codec.{read_float64-append}
use cbor.Floats.{
  float32_to_float16_bits, append_float16, float16_bits_to_float32, read_float16, is_nan, is_zero,
  float_equal, append_float, append_canonical, append_float_canonical,
}
use cbor.Floats.Halves.{float32_to_float16_bits-lt}

pub read_float32-append_float32 :
    (f : ℕ) (rest : Bytes) → f < 2 ^ 32 → read_float32 (append_float32 [] f ++ rest) ≡ ok (f, rest)
unfolding read_float32 append_float32 make_byte
read_float32-append_float32 f rest h = rw (take_uint-put_uint 4 f rest h) refl

pub read_float16-append_float16 :
    (ldexp : ℕ → ℕ → ℕ) (f : ℕ) (rest : Bytes)
    → read_float16 ldexp (append_float16 [] f ++ rest)
      ≡ ok (float16_bits_to_float32 ldexp (float32_to_float16_bits f), rest)
unfolding read_float16 append_float16 make_byte
read_float16-append_float16 ldexp f rest =
    rw (take_uint-put_uint 2 (float32_to_float16_bits f) rest (float32_to_float16_bits-lt f)) refl

zero_or_equal :
    (x y : ℕ)
    → float_equal x y ≡ true
    → (is_nan y ≡ false) × (((is_zero x ≡ true) × (is_zero y ≡ true)) ⊎ (x ≡ y))
unfolding float_equal
zero_or_equal x y e = elim (Bool-cases (is_nan y)) [
  | inl nan ↦ elim (Bool-cases (is_nan x)) [
    | inl n ↦ absurd (ground arith)
    | inr n ↦ absurd (ground arith)
  ]
  | inr number ↦ elim (Bool-cases (is_zero x && is_zero y)) [
    | inl zeros ↦ (number, inl (both zeros))
    | inr not_both ↦ elim (Bool-cases (is_nan x)) [
      | inl n ↦ absurd (ground arith)
      | inr n ↦ (number, inr (ground arith))
    ]
  ]
]
  where
    both : (is_zero x && is_zero y) ≡ true → (is_zero x ≡ true) × (is_zero y ≡ true)
    both e = (ground arith, ground arith)

float_equal_refl : (x : ℕ) → is_nan x ≡ false → float_equal x x ≡ true
unfolding float_equal
float_equal_refl x n = ground arith

-- Equal to 0 is equal to -0.
float_equal-zero :
    (x y : ℕ)
    → is_zero y ≡ true
    → is_nan y ≡ false
    → float_equal x 0 ≡ true
    → float_equal x y ≡ true
unfolding float_equal is_nan is_zero
float_equal-zero x y z n e = ground arith

module _ (to_float32 to_float64 : ℕ → ℕ) (ldexp : ℕ → ℕ → ℕ) where
  -- AppendFloatCanonical writes the same bytes for floats that Go's == takes for equal.
  pub append_float_canonical-float_equal :
      (b : Bytes) (x y : ℕ)
      → float_equal x y ≡ true
      → append_float_canonical to_float32 to_float64 ldexp b x
        ≡ append_float_canonical to_float32 to_float64 ldexp b y
  unfolding append_float_canonical
  append_float_canonical-float_equal b x y e = elim ((zero_or_equal x y e).1) [
    | inl (zx, zy) ↦ rw (zx, zy) refl
    | inr same ↦ ap (append_float_canonical to_float32 to_float64 ldexp b) same
  ]

  -- A float that is read at one of the three widths, and is equal to `f`.
  abbrev pub IsRead : ℕ → Bytes → Bytes → Type 0
  IsRead f out rest =
      ((v : ℕ) × (read_float16 ldexp out ≡ ok (v, rest)) × (float_equal (to_float64 v) f ≡ true))
      ⊎ (((v : ℕ) × (read_float32 out ≡ ok (v, rest)) × (float_equal (to_float64 v) f ≡ true))
          ⊎ ((v : ℕ) × (read_float64 out ≡ ok (v, rest)) × (float_equal v f ≡ true)))

  append_canonical-IsRead :
      (f : ℕ) (rest : Bytes)
      → f < 2 ^ 64
      → ((x : ℕ) → to_float32 x < 2 ^ 32)
      → is_nan f ≡ false
      → IsRead f (append_canonical to_float32 to_float64 ldexp [] f ++ rest) rest
  unfolding append_canonical append_float
  append_canonical-IsRead f rest h narrow n =
      elim (Bool-cases (
        float_equal
          (to_float64 (float16_bits_to_float32 ldexp (float32_to_float16_bits (to_float32 f))))
          f)) [
            | inl half ↦
                rw (n, half)
                  (inl (
                    float16_bits_to_float32 ldexp (float32_to_float16_bits (to_float32 f)),
                    read_float16-append_float16 ldexp (to_float32 f) rest,
                    half,
                  ))
            | inr wider ↦ elim (Bool-cases (float_equal (to_float64 (to_float32 f)) f)) [
              | inl single ↦
                  rw (n, wider, single)
                    (inr (
                      inl (
                        to_float32 f,
                        read_float32-append_float32 (to_float32 f) rest (narrow f),
                        single,
                      )))
              | inr double ↦
                  rw (n, wider, double)
                    (inr (inr (f, read_float64-append f rest h, float_equal_refl f n)))
            ]
          ]

  IsRead-zero :
      (f : ℕ) (out rest : Bytes)
      → is_zero f ≡ true
      → is_nan f ≡ false
      → IsRead 0 out rest
      → IsRead f out rest
  IsRead-zero f out rest z n (inl (v, r, e)) = inl (v, r, float_equal-zero (to_float64 v) f z n e)
  IsRead-zero f out rest z n (inr (inl (v, r, e))) =
      inr (inl (v, r, float_equal-zero (to_float64 v) f z n e))
  IsRead-zero f out rest z n (inr (inr (v, r, e))) = inr (inr (v, r, float_equal-zero v f z n e))

  -- What AppendFloatCanonical appends to an empty buffer for a float64 of 64 bits that is no NaN
  -- is read, by the reader of a half, of a float32 or of a float64, as a float that is equal to it
  -- once it is widened; the conversion to float32 gives 32 bits.
  pub append_float_canonical-IsRead :
      (f : ℕ) (rest : Bytes)
      → f < 2 ^ 64
      → ((x : ℕ) → to_float32 x < 2 ^ 32)
      → is_nan f ≡ false
      → IsRead f (append_float_canonical to_float32 to_float64 ldexp [] f ++ rest) rest
  unfolding append_float_canonical is_nan
  append_float_canonical-IsRead f rest h narrow n = elim (Bool-cases (is_zero f)) [
    | inl z ↦
        rw z (IsRead-zero f _ rest z n (append_canonical-IsRead 0 rest (omega arith) narrow refl))
    | inr p ↦ rw p (append_canonical-IsRead f rest h narrow n)
  ]
