-- ===== src/Wire/Endian.antt =====
-- Big-endian numbers: what `put_uint` writes, `take_uint` reads.
use cbor.Base.{
  ℕ, zero, suc, ◌+◌, ◌*◌, ◌/◌, ◌%◌, ◌^◌, ◌≤◌, ◌<◌, ◌≡◌, refl, ap, [], ◌∷◌, ◌++◌, Bytes, IsByte, All,
  length-take, take, IsByte, All, ltb-false, length, length-append, take, take-append, drop-append,
  arith,
}
use cbor.Result.{ok}
use cbor.Wire.{put_uint, uint_from, be_uint, take_uint}
use native.Mathlib.Nat.{pow-suc}

pub length-put_uint : (n u : ℕ) → length (put_uint n u) ≡ n
unfolding put_uint
length-put_uint zero u = refl
length-put_uint (suc n) u =
    rw (length-append (put_uint n (u / 256)) ((u % 256) ∷ []))
      (omega (arith, length-put_uint n (u / 256)))

pub uint_from-append :
    (acc : ℕ) (xs : Bytes) (b : ℕ) → uint_from acc (xs ++ b ∷ []) ≡ uint_from acc xs * 256 + b
unfolding uint_from
uint_from-append acc [] b = refl
uint_from-append acc (x ∷ xs) b = uint_from-append (acc * 256 + x) xs b

pub be_uint-put_uint : (n u : ℕ) → u < 256 ^ n → be_uint (put_uint n u) ≡ u
unfolding put_uint be_uint
be_uint-put_uint zero u h = omega arith
be_uint-put_uint (suc n) u h =
    rw (uint_from-append 0 (put_uint n (u / 256)) (u % 256))
      (omega (arith, be_uint-put_uint n (u / 256) (omega (arith, pow-suc 256 n))))

-- `take_uint` reads back what `put_uint` wrote, and leaves what follows.
pub take_uint-put_uint :
    (n u : ℕ) (rest : Bytes) → u < 256 ^ n → take_uint n (put_uint n u ++ rest) ≡ ok (u, rest)
unfolding take_uint
take_uint-put_uint n u rest h = rw (
  take-append n (put_uint n u) rest (length-put_uint n u),
  drop-append n (put_uint n u) rest (length-put_uint n u),
  be_uint-put_uint n u h,
  length-append (put_uint n u) rest,
  length-put_uint n u,
  ltb-false (n + length rest) n (omega arith),
)

mul_mono : (x m y : ℕ) → x ≤ m → x * y ≤ m * y
mul_mono x m y h = grind arith

-- Bytes make a number of their width.
uint_from-lt :
    (acc : ℕ) (bs : Bytes) → All IsByte bs → uint_from acc bs < (acc + 1) * 256 ^ length bs
unfolding uint_from
uint_from-lt acc [] h = omega arith
uint_from-lt acc (b ∷ bs) (hb, hs) =
    let below = mul_mono (acc * 256 + b + 1) ((acc + 1) * 256) (256 ^ length bs) (omega arith) in
    let widen = ap (λ (t : ℕ). (acc + 1) * t) (pow-suc 256 (length bs)) in
    omega (arith, widen, uint_from-lt (acc * 256 + b) bs hs, below)

pub All-take : (n : ℕ) (t : Bytes) → All IsByte t → All IsByte (take n t)
All-take zero t h = tt
All-take (suc n) [] h = tt
All-take (suc n) (b ∷ t) (hb, ht) = (hb, All-take n t ht)

pub take_uint-lt :
    (n : ℕ) (t : Bytes) (u : ℕ) (r : Bytes) → All IsByte t → take_uint n t ≡ ok (u, r) → u < 256 ^ n
unfolding take_uint be_uint
take_uint-lt n t u r h e =
    ground (arith, length-take n t, uint_from-lt 0 (take n t) (All-take n t h))
