-- ===== src/Number/Coerce.antt =====
-- What `CoerceInt` and `CoerceUInt` of runtime/number.go make of a float.
use cbor.Base.{
  ℕ, zero, suc, ◌-◌, ◌/◌, ◌%◌, ◌^◌, ◌≡◌, refl, sym, Bool, true, false, ◌&&◌, ◌||◌, ltb, leb, ◌==◌,
  if◌then◌else◌, arith, Bool-cases, inl, inr, ℤ, pos, negsuc,
}
use cbor.Number.{
  is_exact_at, float_magnitude, float_int, signed, coerce_int, coerce_uint, as_float64,
  within_int64, within_uint64, convert_int64, convert_uint64,
}
use cbor.Number.Exact.{FloatIs, is_exact_at_iff}

-- The sign bit of a float64.
abbrev pub sign : ℕ → ℕ
sign bits = bits / 2 ^ 63 % 2

-- The int64 for a float of sign `s` and absolute value `q`, and if there is one. Of 2^63 the code
-- says so too, and returns what the conversion gives.
abbrev pub int64_of : ℤ → ℕ → ℕ → ℤ × Bool
int64_of overflow63 s q =
    if q == 0
    then (pos 0, true)
    else if s == 0
    then if ltb q (2 ^ 63)
      then (pos q, true)
      else if q == 2 ^ 63
      then (overflow63, true)
      else (pos 0, false)
    else if leb q (2 ^ 63)
    then (negsuc (q - 1), true)
    else (pos 0, false)

-- The same for uint64.
abbrev pub uint64_of : ℕ → ℕ → ℕ → ℕ × Bool
uint64_of overflow64 s q =
    if q == 0
    then (0, true)
    else if s == 0
    then if ltb q (2 ^ 64)
      then (q, true)
      else if q == 2 ^ 64
      then (overflow64, true)
      else (0, false)
    else (0, false)

module _ (overflow63 : ℤ) (overflow64 : ℕ) where
  on_int64 :
      (s q : ℕ) (z : Bool)
      → (z ≡ true → q ≡ 0)
      → (if within_int64 (signed s q)
          then (convert_int64 overflow63 overflow64 (signed s q), true)
          else (pos 0, z))
        ≡ int64_of overflow63 s q
  unfolding signed within_int64 convert_int64
  on_int64 s zero z h = refl
  on_int64 zero (suc q) false h = ground arith
  on_int64 zero (suc q) true h = let e : suc q ≡ 0 = h refl in absurd (omega arith)
  on_int64 (suc s) (suc q) false h = ground arith
  on_int64 (suc s) (suc q) true h = let e : suc q ≡ 0 = h refl in absurd (omega arith)

  on_uint64 :
      (s q : ℕ) (z : Bool)
      → (z ≡ true → q ≡ 0)
      → (if within_uint64 (signed s q) && true
          then (convert_uint64 overflow63 overflow64 (signed s q), true)
          else (0, z))
        ≡ uint64_of overflow64 s q
  unfolding signed within_uint64 convert_uint64
  on_uint64 s zero z h = refl
  on_uint64 zero (suc q) false h = ground arith
  on_uint64 zero (suc q) true h = let e : suc q ≡ 0 = h refl in absurd (omega arith)
  on_uint64 (suc s) (suc q) false h = ground arith
  on_uint64 (suc s) (suc q) true h = let e : suc q ≡ 0 = h refl in absurd (omega arith)

module _ (overflow63 : ℤ) (overflow64 bits q : ℕ) (h : FloatIs 11 52 bits q) where
  exact : is_exact_at 11 52 bits ≡ true
  exact = ((is_exact_at_iff 11 52 bits (omega arith) (omega arith)).1 q h).0

  magnitude : float_magnitude 11 52 bits ≡ q
  magnitude = ((is_exact_at_iff 11 52 bits (omega arith) (omega arith)).1 q h).1

  zeros : (bits == 0 || bits == 2 ^ 63) ≡ true → q ≡ 0
  unfolding float_magnitude
  zeros e = elim (Bool-cases (bits == 0)) [
    | inl none ↦ let z : bits ≡ 0 = ground arith in sym (rw z at magnitude)
    | inr some ↦ let z : bits ≡ 2 ^ 63 = ground arith in sym (rw z at magnitude)
  ]

  -- For a float64 that is an integer CoerceInt and CoerceUInt return the integer and true if it
  -- fits, and otherwise 0 and false; but for 2^63 CoerceInt, and for 2^64 CoerceUInt, returns what
  -- the conversion gives, and true.
  pub coerce-as_float64 :
      (coerce_int overflow63 overflow64 (as_float64 bits) ≡ int64_of overflow63 (sign bits) q)
      × (coerce_uint overflow63 overflow64 (as_float64 bits) ≡ uint64_of overflow64 (sign bits) q)
  unfolding coerce_int coerce_uint as_float64 float_int signed within_int64 within_uint64
  coerce-as_float64 = (
    rw (exact, magnitude)
        (on_int64 overflow63 overflow64 (sign bits) q (bits == 0 || bits == 2 ^ 63) zeros),
    rw (exact, magnitude)
        (on_uint64 overflow63 overflow64 (sign bits) q (bits == 0 || bits == 2 ^ 63) zeros),
  )
