-- ===== src/Diag/Trim.antt =====
-- The zeros that `trimTrailingZerosDot` takes off.
use cbor.Base.{
  ◌-◌, ◌/◌, ltb-true, eqb_false, ℕ, zero, suc, ◌<◌, ◌≤◌, ◌%◌, ◌^◌, ◌≡◌, refl, sym, ap, ◌∙◌, [], ◌∷◌,
  ◌++◌, true, false, Bytes, ltb, ◌==◌, length, length-append, take, arith,
}
use cbor.Floats.{is_nan}
use cbor.Deterministic.{byte_at}
use cbor.Diag.{zeros_from, dot_from, trim_trailing_zeros_dot, format_float}

byte_at-append : (s t : Bytes) (i : ℕ) → i < length s → byte_at (s ++ t) i ≡ byte_at s i
unfolding byte_at
byte_at-append [] t i h = absurd (omega arith)
byte_at-append (x ∷ s) t zero h = refl
byte_at-append (x ∷ s) t (suc i) h = byte_at-append s t i (omega arith)

byte_at-last : (s : Bytes) (c : ℕ) → byte_at (s ++ c ∷ []) (length s) ≡ c
unfolding byte_at
byte_at-last [] c = refl
byte_at-last (x ∷ s) c = byte_at-last s c

take-append_short : (i : ℕ) (s t : Bytes) → i ≤ length s → take i (s ++ t) ≡ take i s
take-append_short zero s t h = refl
take-append_short (suc i) [] t h = absurd (omega arith)
take-append_short (suc i) (x ∷ s) t h = ap (λ l. x ∷ l) (take-append_short i s t (omega arith))

zeros_from_le : (i : ℕ) (s : Bytes) → zeros_from i s ≤ i
unfolding zeros_from
zeros_from_le zero s = omega arith
zeros_from_le (suc i) s = let r = zeros_from_le i s in ground arith

zeros_from-append : (i : ℕ) (s t : Bytes) → i ≤ length s → zeros_from i (s ++ t) ≡ zeros_from i s
unfolding zeros_from
zeros_from-append zero s t h = refl
zeros_from-append (suc i) s t h =
    rw (byte_at-append s t i (omega arith), zeros_from-append i s t (omega arith)) refl

dot_from_le : (i : ℕ) (s : Bytes) → dot_from i s ≤ i
unfolding dot_from
dot_from_le zero s = omega arith
dot_from_le (suc i) s = ground arith

dot_from-append : (i : ℕ) (s t : Bytes) → i ≤ length s → dot_from i (s ++ t) ≡ dot_from i s
unfolding dot_from
dot_from-append zero s t h = refl
dot_from-append (suc i) s t h = rw (byte_at-append s t i (omega arith)) refl

-- A zero at the end makes no difference, with or without a point in front.
trim_trailing_zeros_dot-append :
    (s : Bytes) → trim_trailing_zeros_dot (s ++ 48 ∷ []) ≡ trim_trailing_zeros_dot s
unfolding trim_trailing_zeros_dot
trim_trailing_zeros_dot-append s =
    let t : Bytes = 48 ∷ [] in
    let l = length s in
    let z = zeros_from l s in
    let d : dot_from z s ≤ l = omega (arith, dot_from_le z s, zeros_from_le l s) in
    let all : length (s ++ t) ≡ suc l = omega (arith, length-append s t) in
    let trimmed : zeros_from (suc l) (s ++ t) ≡ z = last ∙ zeros_from-append l s t (omega arith) in
    ap (λ n. take (dot_from (zeros_from n (s ++ t)) (s ++ t)) (s ++ t)) all
    ∙ ap (λ n. take (dot_from n (s ++ t)) (s ++ t)) trimmed
    ∙ ap (λ n. take n (s ++ t)) (dot_from-append z s t (zeros_from_le l s))
    ∙ take-append_short (dot_from z s) s t d
  where
    last : zeros_from (suc (length s)) (s ++ 48 ∷ []) ≡ zeros_from (length s) (s ++ 48 ∷ [])
    last = unfold zeros_from in rw (byte_at-last s 48) refl

format_float-fixed :
    (fixed general : Bytes) (f : ℕ)
    → f % 2 ^ 63 < 0x430c6bf526340000
    → format_float fixed general f ≡ trim_trailing_zeros_dot fixed
unfolding format_float is_nan
format_float-fixed fixed general f h =
    let exp : f / 2 ^ 52 % 2 ^ 11 < 2047 = omega arith in
    let plus : (f == 0x7ff0000000000000) ≡ false = ground arith in
    let minus : (f == 0xfff0000000000000) ≡ false = ground arith in
    let nan : (f / 2 ^ 52 % 2 ^ 11 == 2 ^ 11 - 1) ≡ false =
      eqb_false (f / 2 ^ 52 % 2 ^ 11) 2047 exp in
    let small : ltb (f % 2 ^ 63) 0x430c6bf526340000 ≡ true =
      ltb-true (f % 2 ^ 63) 0x430c6bf526340000 h in
    rw (plus, minus, nan, small) refl

-- Two floats of a magnitude below 1e15 get the same diagnostic text, if what FormatFloat makes of
-- one with 'f' is what it makes of the other and a zero, as for 100 and 10.
pub format_float-append :
    (fixed general general' : Bytes) (f f' : ℕ)
    → f % 2 ^ 63 < 0x430c6bf526340000
    → f' % 2 ^ 63 < 0x430c6bf526340000
    → format_float (fixed ++ 48 ∷ []) general' f' ≡ format_float fixed general f
format_float-append fixed general general' f f' h h' =
    format_float-fixed (fixed ++ 48 ∷ []) general' f' h'
    ∙ trim_trailing_zeros_dot-append fixed
    ∙ sym (format_float-fixed fixed general f h)
