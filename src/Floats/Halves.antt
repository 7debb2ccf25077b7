-- ===== src/Floats/Halves.antt =====
-- The conversions between halves and float32.
use cbor.Base.{
  ℕ, zero, suc, Bool, ◌&&◌, ◌!=◌, if◌then◌else◌, ◌+◌, ◌-◌, ◌*◌, ◌/◌, ◌%◌, ◌^◌, ◌<◌, ◌≤◌, ◌≡◌, refl,
  ap, ◌∙◌, arith, ◌==◌, true, false, Bool-cases, inl, inr,
}
use cbor.Floats.{
  nan_half, small_half, normal_half, half_at, float32_to_float16_bits, float32_at,
  float16_bits_to_float32,
}

-- The documented value of Ldexp: the sign, and a magnitude of at least 2^-24 and below 2^-14.
abbrev pub IsLdexp : (ℕ → ℕ → ℕ) → Type 0
IsLdexp ldexp =
    (sign mant : ℕ)
    → sign < 2
    → 0 < mant
    → mant < 2 ^ 10
    → (e : ℕ) × (m : ℕ) × (103 ≤ e)
      × (e < 113)
      × (m < 2 ^ 23)
      × (ldexp sign mant ≡ sign * 2 ^ 31 + e * 2 ^ 23 + m)

-- The fields of a float32.
float32_to_float16_bits-fields :
    (s e m : ℕ)
    → s < 2
    → e < 2 ^ 8
    → m < 2 ^ 23
    → float32_to_float16_bits (s * 2 ^ 31 + e * 2 ^ 23 + m) ≡ s * 2 ^ 15 + half_at e m
unfolding float32_to_float16_bits
float32_to_float16_bits-fields s e m hs he hm =
    let bits = s * 2 ^ 31 + e * 2 ^ 23 + m in
    let sign : bits / 2 ^ 31 % 2 ≡ s = omega arith in
    let exp : bits / 2 ^ 23 % 2 ^ 8 ≡ e = omega arith in
    let mant : bits % 2 ^ 23 ≡ m = omega arith in rw (sign, exp, mant) refl

half_at-normal :
    (e m : ℕ) → 0 < e → e < 31 → m < 2 ^ 10 → half_at (e + 127 - 15) (m * 2 ^ 13) ≡ e * 2 ^ 10 + m
unfolding half_at normal_half
half_at-normal e m l h k = ground arith

half_at-nan : (m : ℕ) → 0 < m → m < 2 ^ 10 → half_at 0xff (m * 2 ^ 13) ≡ 0x1f * 2 ^ 10 + m
unfolding half_at nan_half
half_at-nan m l h = ground arith

half_at-small : (e m : ℕ) → 0 < e → e < 113 → half_at e m ≡ 0
unfolding half_at small_half
half_at-small e m l h = ground arith

half_at-lt : (e m : ℕ) → e < 2 ^ 8 → m < 2 ^ 23 → half_at e m < 2 ^ 15
unfolding half_at nan_half normal_half small_half
half_at-lt e m h l = ground arith

pub float32_to_float16_bits-lt : (f : ℕ) → float32_to_float16_bits f < 2 ^ 16
unfolding float32_to_float16_bits
float32_to_float16_bits-lt f =
    let exp : f / 2 ^ 23 % 2 ^ 8 < 2 ^ 8 = omega arith in
    let mant : f % 2 ^ 23 < 2 ^ 23 = omega arith in
    omega (arith, half_at-lt (f / 2 ^ 23 % 2 ^ 8) (f % 2 ^ 23) exp mant)

-- The exponent is zero, and the mantissa is not.
abbrev pub is_subnormal : ℕ → Bool
is_subnormal h = (h / 2 ^ 10 % 2 ^ 5 == 0) && (h % 2 ^ 10 != 0)

module _ (ldexp : ℕ → ℕ → ℕ) (is_ldexp : IsLdexp ldexp) where
  zero_to_half : (s : ℕ) → s < 2 → float32_to_float16_bits (s * 2 ^ 31) ≡ s * 2 ^ 15
  unfolding half_at
  zero_to_half s h =
      ap float32_to_float16_bits (omega arith)
      ∙ float32_to_float16_bits-fields s 0 0 h (omega arith) (omega arith)
      ∙ omega arith

  subnormal_to_half :
      (s m : ℕ) → s < 2 → 0 < m → m < 2 ^ 10 → float32_to_float16_bits (ldexp s m) ≡ s * 2 ^ 15
  subnormal_to_half s m h l k =
      let (e, n, low, high, n_lt, at) = is_ldexp s m h l k in
      ap float32_to_float16_bits at
      ∙ float32_to_float16_bits-fields s e n h (omega arith) n_lt
      ∙ omega (arith, half_at-small e n (omega arith) high)

  by_fields :
      (s e m : ℕ)
      → s < 2
      → e < 2 ^ 5
      → m < 2 ^ 10
      → float32_to_float16_bits (float32_at ldexp s e m)
        ≡ (if (e == 0) && (m != 0) then s * 2 ^ 15 else s * 2 ^ 15 + e * 2 ^ 10 + m)
  unfolding float32_at half_at
  by_fields s zero zero hs he hm = zero_to_half s hs ∙ omega arith
  by_fields s zero (suc m) hs he hm =
      let a : (suc m == 0) ≡ false = ground arith in
      let b : (suc m != 0) ≡ true = ground arith in
      rw (a, b) (subnormal_to_half s (suc m) hs (omega arith) hm)
  by_fields s (suc e) m hs he hm =
      let a : (suc e == 0) ≡ false = ground arith in
      elim (Bool-cases (suc e == 31)) [
        | inl top ↦ elim (Bool-cases (m != 0)) [
          | inl some ↦
              rw (a, top, some)
                (float32_to_float16_bits-fields s 0xff (m * 2 ^ 13) hs (omega arith) (omega arith)
                  ∙ ap (λ x. s * 2 ^ 15 + x) (half_at-nan m (ground arith) hm)
                  ∙ ground arith)
          | inr none ↦
              rw (a, top, none)
                (ap float32_to_float16_bits (omega arith)
                  ∙ float32_to_float16_bits-fields s 0xff 0 hs (omega arith) (omega arith)
                  ∙ ground arith)
        ]
        | inr below ↦
            rw (a, below)
              (float32_to_float16_bits-fields s (suc e + 127 - 15) (m * 2 ^ 13) hs (omega arith)
                  (omega arith)
                ∙ ap (λ x. s * 2 ^ 15 + x)
                    (half_at-normal (suc e) m (omega arith) (ground arith) hm)
                ∙ omega arith)
      ]

  -- float32ToFloat16Bits gives back the half of 16 bits that float16BitsToFloat32 widened, if it
  -- is not subnormal; from a subnormal half it makes the zero of its sign. Ldexp gives for a
  -- subnormal half a float32 of its sign, from 2^-24 on and below 2^-14.
  pub float32_to_float16_bits-float16_bits_to_float32 :
      (h : ℕ)
      → h < 2 ^ 16
      → float32_to_float16_bits (float16_bits_to_float32 ldexp h)
        ≡ (if is_subnormal h then h / 2 ^ 15 * 2 ^ 15 else h)
  unfolding float16_bits_to_float32
  float32_to_float16_bits-float16_bits_to_float32 h l =
      let whole : h / 2 ^ 15 % 2 * 2 ^ 15 + h / 2 ^ 10 % 2 ^ 5 * 2 ^ 10 + h % 2 ^ 10 ≡ h =
        omega arith in
      let sign : h / 2 ^ 15 % 2 ≡ h / 2 ^ 15 = omega arith in
      by_fields (h / 2 ^ 15 % 2) (h / 2 ^ 10 % 2 ^ 5) (h % 2 ^ 10) (omega arith) (omega arith)
        (omega arith)
      ∙ ap (λ x. if is_subnormal h then h / 2 ^ 15 % 2 * 2 ^ 15 else x) whole
      ∙ ap (λ x. if is_subnormal h then x * 2 ^ 15 else h) sign
