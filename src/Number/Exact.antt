-- ===== src/Number/Exact.antt =====
-- `isExactInt` tells the floats that stand for integers.
use cbor.Base.{
  ℕ, suc, ◌+◌, ◌-◌, ◌*◌, ◌/◌, ◌%◌, ◌^◌, ◌<◌, ◌≤◌, ◌≡◌, ◌≢◌, refl, sym, ap, ◌∙◌, ◌↔◌, Bool, true,
  false, ◌&&◌, ◌||◌, ltb, leb, ◌==◌, if◌then◌else◌, arith, Bool-cases, inl, inr,
}
use native.Mathlib.Nat.{pow-suc, mul-div_cancel, mul-sub, mod-lt}
use cbor.Number.Shifts.{
  trailing_zeros_from_iff, pow-add, pow_pos, mul_assoc, mul_right_cancel, no_multiple, shift-lt,
  shift-pos,
}
use cbor.Number.{trailing_zeros, is_exact_at, float_magnitude, is_exact_int, as_float32, as_float64}

-- A finite float is sig * 2^scale / 2^(bias + m).
abbrev pub sig : ℕ → ℕ → ℕ → ℕ
sig m exp mant = if exp == 0 then mant else 2 ^ m + mant

abbrev pub scale : ℕ → ℕ
scale exp = if exp == 0 then 1 else exp

-- The parts of a float with `m` mantissa bits, at most 64, and a bias of 1 at least.
module _ (m bias exp mant : ℕ) (hm : m ≤ 64) (hb : 0 < bias) (ht : mant < 2 ^ m) where
  -- Below one, and not zero.
  small :
      exp < bias
      → (exp == 0 && mant == 0) ≡ false
      → (q : ℕ) → sig m exp mant * 2 ^ scale exp ≢ q * 2 ^ (bias + m)
  small l nz q = elim (Bool-cases (exp == 0)) [
    | inl z ↦ rw z (
        no_multiple (mant * 2 ^ 1) q (2 ^ (bias + m)) (shift-pos mant 1 (ground arith))
          (shift-lt mant m 1 (bias + m) ht (omega arith)))
    | inr z ↦ rw z (
        no_multiple ((2 ^ m + mant) * 2 ^ exp) q (2 ^ (bias + m))
          (shift-pos (2 ^ m + mant) exp (omega (arith, pow_pos m)))
          (shift-lt (2 ^ m + mant) (suc m) exp (bias + m) (omega (arith, pow-suc 2 m))
            (omega arith)))
  ]

  -- From two to the mantissa's width on every float is an integer.
  large :
      bias + m ≤ exp
      → (2 ^ m + mant) * 2 ^ exp ≡ (2 ^ m + mant) * 2 ^ (exp - bias - m) * 2 ^ (bias + m)
  large l =
      let e : exp ≡ (exp - bias - m) + (bias + m) = omega arith in
      ap (λ (n : ℕ). (2 ^ m + mant) * 2 ^ n) e
      ∙ ap (λ (t : ℕ). (2 ^ m + mant) * t) (pow-add (exp - bias - m) (bias + m))
      ∙ sym (mul_assoc (2 ^ m + mant) (2 ^ (exp - bias - m)) (2 ^ (bias + m)))

  -- Below that, exactly if the bits behind the point are zero.
  module _ (lo : bias ≤ exp) (hi : exp < bias + m) where
    abbrev places : ℕ
    places = m - (exp - bias)

    split : 2 ^ m ≡ 2 ^ (exp - bias) * 2 ^ places
    split =
        let e : m ≡ (exp - bias) + places = omega arith in
        ap (λ (n : ℕ). 2 ^ n) e ∙ pow-add (exp - bias) places

    joined : 2 ^ (bias + m) ≡ 2 ^ places * 2 ^ exp
    joined =
        let e : bias + m ≡ places + exp = omega arith in
        ap (λ (n : ℕ). 2 ^ n) e ∙ pow-add places exp

    whole : (q : ℕ) → mant ≡ q * 2 ^ places → 2 ^ m + mant ≡ (2 ^ (exp - bias) + q) * 2 ^ places
    whole q e = distribute (2 ^ (exp - bias)) q (2 ^ places) (2 ^ m) mant split e
      where
        distribute : (x q p t m : ℕ) → t ≡ x * p → m ≡ q * p → t + m ≡ (x + q) * p
        distribute x q p t m e f = grind arith

    fraction : (q : ℕ) → 2 ^ m + mant ≡ q * 2 ^ places → mant ≡ (q - 2 ^ (exp - bias)) * 2 ^ places
    fraction q e = take_off (2 ^ (exp - bias)) q (2 ^ places) (2 ^ m) mant split e
      where
        take_off : (x q p t m : ℕ) → t ≡ x * p → t + m ≡ q * p → m ≡ (q - x) * p
        take_off x q p t m e f = grind (arith, mul-sub p q x)

    medium :
        (q : ℕ) → ((2 ^ m + mant) * 2 ^ exp ≡ q * 2 ^ (bias + m)) ↔ (2 ^ m + mant ≡ q * 2 ^ places)
    medium q =
        let shape : q * 2 ^ (bias + m) ≡ q * 2 ^ places * 2 ^ exp =
          ap (λ (t : ℕ). q * t) joined ∙ sym (mul_assoc q (2 ^ places) (2 ^ exp)) in
        (
          λ e. mul_right_cancel (2 ^ m + mant) (q * 2 ^ places) (2 ^ exp) (pow_pos exp) (e ∙ shape),
          λ e. ap (λ (t : ℕ). t * 2 ^ exp) e ∙ sym shape,
        )

    narrow :
        places ≤ trailing_zeros mant
        → (2 ^ m + mant) * 2 ^ exp ≡ (2 ^ m + mant) / 2 ^ places * 2 ^ (bias + m)
    unfolding trailing_zeros
    narrow l =
        let (q, e) = (trailing_zeros_from_iff 64 places mant (omega arith)).0 l in
        let w = whole q e in
        let quotient : (2 ^ m + mant) / 2 ^ places ≡ 2 ^ (exp - bias) + q =
          ap (λ (t : ℕ). t / 2 ^ places) w
          ∙ mul-div_cancel (2 ^ (exp - bias) + q) (pow_pos places) in
        (medium (2 ^ (exp - bias) + q)).1 w ∙ ap (λ (t : ℕ). t * 2 ^ (bias + m)) (sym quotient)

    narrow_back :
        (q : ℕ) → (2 ^ m + mant) * 2 ^ exp ≡ q * 2 ^ (bias + m) → places ≤ trailing_zeros mant
    unfolding trailing_zeros
    narrow_back q e =
        (trailing_zeros_from_iff 64 places mant (omega arith)).1
          (q - 2 ^ (exp - bias), fraction q ((medium q).0 e))

-- `isExactInt` and the integer, on the parts; `top` is the exponent of infinities and NaNs.
abbrev pub exact_parts : ℕ → ℕ → ℕ → ℕ → ℕ → Bool
exact_parts m bias top exp mant =
    if exp == 0 && mant == 0
    then true
    else if ltb exp bias || exp == top
    then false
    else if leb m (exp - bias)
    then true
    else leb (m - (exp - bias)) (trailing_zeros mant)

abbrev pub magnitude_parts : ℕ → ℕ → ℕ → ℕ → ℕ
magnitude_parts m bias exp mant =
    if exp == 0 && mant == 0
    then 0
    else if leb m (exp - bias)
    then (2 ^ m + mant) * 2 ^ (exp - bias - m)
    else (2 ^ m + mant) / 2 ^ (m - (exp - bias))

-- The float is finite, and its absolute value is the integer `q`.
abbrev pub IsInteger : ℕ → ℕ → ℕ → ℕ → ℕ → ℕ → Type 0
IsInteger m bias top exp mant q =
    (exp ≢ top) × (sig m exp mant * 2 ^ scale exp ≡ q * 2 ^ (bias + m))

module _ (m bias top exp mant : ℕ) (hm : m ≤ 64) (hb : 0 < bias) (hs : 0 < top)
    (ht : mant < 2 ^ m) where
  exact-IsInteger :
      exact_parts m bias top exp mant ≡ true
      → IsInteger m bias top exp mant (magnitude_parts m bias exp mant)
  exact-IsInteger e = elim (Bool-cases (exp == 0 && mant == 0)) [
    | inl none ↦ rw none (ground arith, ground arith)
    | inr other ↦ elim (Bool-cases (ltb exp bias || exp == top)) [
      | inl out ↦ absurd (let f : false ≡ true = rw (other, out) at e in cc)
      | inr finite ↦
          let lo : bias ≤ exp = ground arith in
          let ne : exp ≢ top = ground arith in
          let some : (exp == 0) ≡ false = ground arith in
          elim (Bool-cases (leb m (exp - bias))) [
            | inl wide ↦ rw (other, wide, some) (ne, large m bias exp mant hm hb ht (ground arith))
            | inr less ↦
                let hi : exp < bias + m = ground arith in
                let zeros : m - (exp - bias) ≤ trailing_zeros mant = ground arith in
                rw (other, less, some) (ne, narrow m bias exp mant hm hb ht lo hi zeros)
          ]
    ]
  ]

  IsInteger-exact :
      (q : ℕ) → IsInteger m bias top exp mant q → exact_parts m bias top exp mant ≡ true
  IsInteger-exact q (ne, e) = elim (Bool-cases (exp == 0 && mant == 0)) [
    | inl none ↦ rw none refl
    | inr other ↦ elim (Bool-cases (ltb exp bias)) [
      | inl below ↦ absurd (small m bias exp mant hm hb ht (ground arith) other q e)
      | inr above ↦
          let lo : bias ≤ exp = ground arith in
          let some : (exp == 0) ≡ false = ground arith in
          elim (Bool-cases (leb m (exp - bias))) [
            | inl wide ↦ ground arith
            | inr less ↦
                let hi : exp < bias + m = ground arith in
                let zeros = narrow_back m bias exp mant hm hb ht lo hi q (rw some at e) in
                ground arith
          ]
    ]
  ]

-- Its absolute value is one number.
IsInteger-unique :
    (m bias top exp mant q q' : ℕ)
    → IsInteger m bias top exp mant q
    → IsInteger m bias top exp mant q'
    → q ≡ q'
IsInteger-unique m bias top exp mant q q' (ne, e) (ne', e') =
    mul_right_cancel q q' (2 ^ (bias + m)) (pow_pos (bias + m)) (sym e ∙ e')

-- The same of a bit pattern with `e` exponent bits and `m` mantissa bits.
abbrev pub FloatIs : ℕ → ℕ → ℕ → ℕ → Type 0
FloatIs e m bits q =
    IsInteger m (2 ^ (e - 1) - 1) (2 ^ (e - 1) - 1 + 2 ^ (e - 1)) (bits / 2 ^ m % 2 ^ e)
      (bits % 2 ^ m) q

pub is_exact_at_iff :
    (e m bits : ℕ)
    → m ≤ 64
    → 1 < 2 ^ (e - 1)
    → (is_exact_at e m bits ≡ true → FloatIs e m bits (float_magnitude e m bits))
      × ((q : ℕ)
          → FloatIs e m bits q
          → (is_exact_at e m bits ≡ true) × (float_magnitude e m bits ≡ q))
unfolding is_exact_at float_magnitude
is_exact_at_iff e m bits hm he =
    let exp = bits / 2 ^ m % 2 ^ e in
    let mant = bits % 2 ^ m in
    let bias = 2 ^ (e - 1) - 1 in
    let top = bias + 2 ^ (e - 1) in
    let ht : mant < 2 ^ m = mod-lt bits (pow_pos m) in
    let there = exact-IsInteger m bias top exp mant hm (omega arith) (omega arith) ht in
    let back = IsInteger-exact m bias top exp mant hm (omega arith) (omega arith) ht in
    (
      there,
      λ q h.
          let x = back q h in
          (x, IsInteger-unique m bias top exp mant (magnitude_parts m bias exp mant) q (there x) h),
    )

-- isExactInt says of a float64 and of a float32 exactly if it is finite and an integer.
pub is_exact_int_iff :
    (bits : ℕ)
    → ((is_exact_int (as_float64 bits) ≡ true) ↔ ((q : ℕ) × FloatIs 11 52 bits q))
      × ((is_exact_int (as_float32 bits) ≡ true) ↔ ((q : ℕ) × FloatIs 8 23 bits q))
unfolding is_exact_int as_float64 as_float32
is_exact_int_iff bits =
    let (there, back) = is_exact_at_iff 11 52 bits (omega arith) (omega arith) in
    let (there', back') = is_exact_at_iff 8 23 bits (omega arith) (omega arith) in
    (
      (λ e. (float_magnitude 11 52 bits, there e), λ (q, h). (back q h).0),
      (λ e. (float_magnitude 8 23 bits, there' e), λ (q, h). (back' q h).0),
    )
