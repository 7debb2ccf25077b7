-- ===== src/Examples/Floats.antt =====
-- Half floats, canonical floats and the float methods of a strict reader, at concrete floats.
use cbor.Base.{
  ℕ, zero, suc, ◌+◌, ◌-◌, ◌*◌, ◌/◌, ◌%◌, ◌^◌, ◌<◌, ◌≤◌, ◌≡◌, refl, Bool-cases, inl, inr, [], ◌∷◌,
  ◌++◌, true, leb, if◌then◌else◌, arith,
}
use cbor.Result.{ok, err, non_canonical_float}
use cbor.Append.{append_float32, append_float64}
use cbor.Maps.{bytes_equal}
use cbor.Reader.{Reader}
use cbor.Floats.{
  float32_to_float16_bits, float16_bits_to_float32, append_float_canonical, reader_float32,
  reader_float64, is_nan, float_equal,
}
use cbor.Floats.Halves.{IsLdexp, is_subnormal, float32_to_float16_bits-float16_bits_to_float32}
use cbor.Floats.RoundTrip.{
  IsRead, append_float_canonical-IsRead, append_float_canonical-float_equal,
}
use cbor.Floats.Strict.{strict_floats, canonical}

-- The float32 with the exponent `e` and the significand `m`, once it is shifted to eleven bits.
scaled : ℕ → ℕ → ℕ → ℕ → ℕ
scaled s zero e m = s * 2 ^ 31 + e * 2 ^ 23 + (m - 2 ^ 10) * 2 ^ 13
scaled s (suc n) e m =
    if leb (2 ^ 10) m
    then s * 2 ^ 31 + e * 2 ^ 23 + (m - 2 ^ 10) * 2 ^ 13
    else scaled s n (e - 1) (2 * m)

ldexp_float32 : ℕ → ℕ → ℕ
unfolding scaled
ldexp_float32 s m = scaled s 9 112 (2 * m)

abbrev HasFields : ℕ → ℕ → Type 0
HasFields s f =
    (e : ℕ) × (m : ℕ) × (103 ≤ e) × (e < 113) × (m < 2 ^ 23) × (f ≡ s * 2 ^ 31 + e * 2 ^ 23 + m)

scaled-HasFields : (s n e m : ℕ) → 103 + n ≤ e → e < 113 → m < 2 ^ 11 → HasFields s (scaled s n e m)
unfolding scaled
scaled-HasFields s zero e m low high l =
    (e, (m - 2 ^ 10) * 2 ^ 13, omega arith, high, omega arith, refl)
scaled-HasFields s (suc n) e m low high l = elim (Bool-cases (leb (2 ^ 10) m)) [
  | inl reached ↦ rw reached (e, (m - 2 ^ 10) * 2 ^ 13, omega arith, high, omega arith, refl)
  | inr below ↦
      rw below (scaled-HasFields s n (e - 1) (2 * m) (omega arith) (omega arith) (ground arith))
]

ldexp_float32-IsLdexp : IsLdexp ldexp_float32
unfolding ldexp_float32
ldexp_float32-IsLdexp s m h l k =
    scaled-HasFields s 9 112 (2 * m) (omega arith) (omega arith) (omega arith)

-- The conversions for floats that are normal at both widths.
abbrev narrow : ℕ → ℕ
narrow f =
    f / 2 ^ 63 % 2 * 2 ^ 31 + (f / 2 ^ 52 % 2 ^ 11 - 896) % 2 ^ 8 * 2 ^ 23 + f / 2 ^ 29 % 2 ^ 23

abbrev widen : ℕ → ℕ
widen x = x / 2 ^ 31 % 2 * 2 ^ 63 + (x / 2 ^ 23 % 2 ^ 8 + 896) * 2 ^ 52 + x % 2 ^ 23 * 2 ^ 29

-- The half 1 is 2^-24.
float32_to_float16_bits-float16_bits_to_float32_example :
    float32_to_float16_bits (float16_bits_to_float32 ldexp_float32 1)
    ≡ (if is_subnormal 1 then 1 / 2 ^ 15 * 2 ^ 15 else 1)
float32_to_float16_bits-float16_bits_to_float32_example =
    float32_to_float16_bits-float16_bits_to_float32 ldexp_float32 ldexp_float32-IsLdexp 1
      (omega arith)

narrow-lt : (f : ℕ) → narrow f < 2 ^ 32
narrow-lt f = omega arith

-- The float64 1.5.
append_float_canonical-IsRead_example :
    IsRead narrow widen ldexp_float32 0x3ff8000000000000
      (append_float_canonical narrow widen ldexp_float32 [] 0x3ff8000000000000 ++ 7 ∷ [])
      (7 ∷ [])
unfolding is_nan
append_float_canonical-IsRead_example =
    append_float_canonical-IsRead narrow widen ldexp_float32 0x3ff8000000000000 (7 ∷ [])
      (omega arith) narrow-lt refl

-- 0 and -0.
append_float_canonical-float_equal_example :
    append_float_canonical narrow widen ldexp_float32 [] 0
    ≡ append_float_canonical narrow widen ldexp_float32 [] 0x8000000000000000
unfolding float_equal
append_float_canonical-float_equal_example =
    append_float_canonical-float_equal narrow widen ldexp_float32 [] 0 0x8000000000000000 refl

-- The float64 0.1 and the float32 0.1.
abbrev wide_reader : Reader
wide_reader = record {
  buf = append_float64 [] 0x3fb999999999999a ++ 7 ∷ [];
  strict = true;
  deterministic = true;
  max_container = 0;
}

abbrev single_reader : Reader
single_reader = record {
  buf = append_float32 [] 0x3dcccccd ++ 7 ∷ [];
  strict = true;
  deterministic = true;
  max_container = 0;
}

strict_floats_example :
    (reader_float64 narrow widen ldexp_float32 wide_reader ≡ (
      if bytes_equal
        (append_float64 [] 0x3fb999999999999a)
        (canonical narrow widen ldexp_float32 0x3fb999999999999a)
      then (ok 0x3fb999999999999a, record wide_reader { buf = 7 ∷ [] })
      else (err non_canonical_float, wide_reader)))
    × (reader_float32 narrow widen ldexp_float32 single_reader ≡ (
        if bytes_equal
          (append_float32 [] 0x3dcccccd)
          (canonical narrow widen ldexp_float32 (widen 0x3dcccccd))
        then (ok 0x3dcccccd, record single_reader { buf = 7 ∷ [] })
        else (err non_canonical_float, single_reader)))
strict_floats_example =
    strict_floats narrow widen ldexp_float32 wide_reader (7 ∷ []) 0x3fb999999999999a 0x3dcccccd
      single_reader (omega arith) (omega arith) refl refl refl refl
