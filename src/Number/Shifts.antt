-- ===== src/Number/Shifts.antt =====
-- Arithmetic of shifts for the numbers of runtime/number.go: multiples of powers of two, and the
-- trailing zeros that `bits.TrailingZeros64` counts.
use cbor.Base.{
  ℕ, zero, suc, ◌+◌, ◌*◌, ◌/◌, ◌%◌, ◌^◌, ◌<◌, ◌≤◌, ◌≡◌, ◌≢◌, sym, ap, ◌∙◌, ◌↔◌, true, false, ◌==◌,
  arith, Bool-cases, inl, inr,
}
use native.Mathlib.Nat.{pow-suc, pow-le-pow_right, le_of_mul-le-mul_right}
use cbor.Number.{trailing_zeros_from}

-- Twice a multiple.
times_pow-suc : (q s : ℕ) → q * 2 ^ suc s ≡ 2 * (q * 2 ^ s)
times_pow-suc q s = ap (λ (t : ℕ). q * t) (pow-suc 2 s) ∙ regroup q (2 ^ s)
  where
    regroup : (q p : ℕ) → q * (p * 2) ≡ 2 * (q * p)
    regroup q p = grind arith

pub pow-add : (a b : ℕ) → 2 ^ (a + b) ≡ 2 ^ a * 2 ^ b
pow-add zero b = let e : zero + b ≡ b = omega arith in rw e (omega arith)
pow-add (suc a) b =
    let e : suc a + b ≡ suc (a + b) = omega arith in
    rw e (
      pow-suc 2 (a + b)
      ∙ ap (λ (t : ℕ). t * 2) (pow-add a b)
      ∙ regroup (2 ^ a) (2 ^ b)
      ∙ ap (λ (t : ℕ). t * 2 ^ b) (sym (pow-suc 2 a)))
  where
    regroup : (x y : ℕ) → x * y * 2 ≡ x * 2 * y
    regroup x y = grind arith

-- At least `s` trailing zeros mean a multiple of 2^s.
pub trailing_zeros_from_iff :
    (k s x : ℕ) → s ≤ k → (s ≤ trailing_zeros_from k x) ↔ ((q : ℕ) × (x ≡ q * 2 ^ s))
unfolding trailing_zeros_from
trailing_zeros_from_iff k zero x h = (λ l. (x, omega arith), λ (q, e). omega arith)
trailing_zeros_from_iff zero (suc s) x h = absurd (omega arith)
trailing_zeros_from_iff (suc k) (suc s) x h =
    let (out, into) = trailing_zeros_from_iff k s (x / 2) (omega arith) in
    elim (Bool-cases (x % 2 == 1)) [
      | inl odd ↦ rw odd (λ l. absurd (omega arith), λ (q, e). absurd (odd_multiple q e odd))
      | inr even ↦ rw even (
        λ l. let (q, e) = out (omega arith) in (q, halved q e even),
        λ (q, e). let more = into (q, half q e) in omega arith,
      )
    ]
  where
    odd_multiple : (q : ℕ) → x ≡ q * 2 ^ suc s → (x % 2 == 1) ≡ true → ⊥
    odd_multiple q e odd = let d = times_pow-suc q s in ground arith

    halved : (q : ℕ) → x / 2 ≡ q * 2 ^ s → (x % 2 == 1) ≡ false → x ≡ q * 2 ^ suc s
    halved q e even = let d = times_pow-suc q s in ground arith

    half : (q : ℕ) → x ≡ q * 2 ^ suc s → x / 2 ≡ q * 2 ^ s
    half q e = omega (arith, times_pow-suc q s)

pub pow_pos : (n : ℕ) → 0 < 2 ^ n
pow_pos zero = omega arith
pow_pos (suc n) = omega (arith, pow-suc 2 n, pow_pos n)

pub mul_assoc : (x y z : ℕ) → x * y * z ≡ x * (y * z)
mul_assoc x y z = grind arith

pub mul_right_cancel : (a b c : ℕ) → 0 < c → a * c ≡ b * c → a ≡ b
mul_right_cancel a b c h e =
    let up : a ≤ b = le_of_mul-le-mul_right (omega arith) h in
    let down : b ≤ a = le_of_mul-le-mul_right (omega arith) h in omega arith

-- A product that is positive and below the other factor is no multiple of it.
pub no_multiple : (s q w : ℕ) → 0 < s → s < w → s ≢ q * w
no_multiple s zero w p l e = omega arith
no_multiple s (suc q) w p l e = let d : suc q * w ≡ q * w + w = grind arith in omega arith

pub shift-lt : (x a e c : ℕ) → x < 2 ^ a → a + e ≤ c → x * 2 ^ e < 2 ^ c
shift-lt x a e c h l =
    let widen : 2 ^ (a + e) ≤ 2 ^ c = pow-le-pow_right (omega arith) l in
    omega (arith, mul_lt x (2 ^ a) (2 ^ e) h (pow_pos e), pow-add a e)
  where
    mul_lt : (x y z : ℕ) → x < y → 0 < z → x * z < y * z
    mul_lt x y z h p = grind arith

pub shift-pos : (x e : ℕ) → 0 < x → 0 < x * 2 ^ e
shift-pos x e h = let p = pow_pos e in grind arith
