-- ===== src/Base/Int.antt =====
-- Signed integers: `negsuc n` is -(n + 1), which is also how CBOR's major type 1 writes them.
use Prim.Native.Nat.{ℕ, ◌-◌, ◌^◌, ◌<◌}
use cbor.Base.Tests.{ltb, if◌then◌else◌}

pub data ℤ : Type 0 where
  pos : ℕ → ℤ
  negsuc : ℕ → ℤ

-- The int64 with the bit pattern `u`.
unfoldable pub to_int64 : ℕ → ℤ
to_int64 u = if ltb u (2 ^ 63) then pos u else negsuc (2 ^ 64 - 1 - u)

-- The numbers that a signed integer of `w` bits holds.
abbrev pub IsInt : ℕ → ℤ → Type 0
IsInt w (pos n) = n < 2 ^ (w - 1)
IsInt w (negsuc n) = n < 2 ^ (w - 1)
