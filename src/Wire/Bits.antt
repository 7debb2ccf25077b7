-- ===== src/Wire/Bits.antt =====
-- The initial byte taken apart again.
use cbor.Base.{
  ℕ, zero, suc, ◌+◌, ◌*◌, ◌/◌, ◌%◌, ◌<◌, ◌≡◌, refl, Bool, true, ◌&&◌, bit_or, ◌==◌, arith,
}
use cbor.Wire.{make_byte, get_major_type, get_add_info}

-- The bytes up to `k`, each put together again from its upper three and lower five bits.
rejoins : ℕ → Bool
rejoins zero = true
rejoins (suc k) = rejoins k && (bit_or (k / 32 * 32 % 256) (k % 32) == k)

every_byte_rejoins : rejoins 256 ≡ true
unfolding rejoins
every_byte_rejoins = refl

rejoins-below : (k x : ℕ) → x < k → rejoins k ≡ true → bit_or (x / 32 * 32 % 256) (x % 32) ≡ x
unfolding rejoins
rejoins-below zero x l e = absurd (omega arith)
rejoins-below (suc k) x l e = ground (arith, rejoins-below k x)

bit_or_high_low : (x : ℕ) → x < 256 → bit_or (x / 32 * 32 % 256) (x % 32) ≡ x
bit_or_high_low x h = rejoins-below 256 x h every_byte_rejoins

-- Major type and additional information do not overlap, so `|` adds.
pub make_byte_lem : (m a : ℕ) → m < 8 → a < 32 → make_byte m a ≡ m * 32 + a
unfolding make_byte
make_byte_lem m a hm ha =
    let e : (m * 32 + a) / 32 ≡ m = omega arith in
    let f : (m * 32 + a) % 32 ≡ a = omega arith in
    rw (e, f) at (bit_or_high_low (m * 32 + a) (omega arith))

pub get_major_type-make_byte : (m a : ℕ) → m < 8 → a < 32 → get_major_type (make_byte m a) ≡ m
unfolding get_major_type
get_major_type-make_byte m a hm ha = rw (make_byte_lem m a hm ha) (omega arith)

pub get_add_info-make_byte : (m a : ℕ) → m < 8 → a < 32 → get_add_info (make_byte m a) ≡ a
unfolding get_add_info
get_add_info-make_byte m a hm ha = rw (make_byte_lem m a hm ha) (omega arith)
