-- ===== src/Headers/Paths.antt =====
-- The unrolled header readers against `readUintCore`.
use cbor.Base.{ℕ, ◌^◌, ◌<◌, ◌≡◌, ◌↔◌, [], ◌∷◌, Bytes, IsByte, All, arith}
use cbor.Result.{ok}
use cbor.Wire.{get_major_type, get_add_info, read_uint_core}
use cbor.Wire.Endian.{take_uint-lt}
use cbor.Headers.{read_map_header, read_array_header}

-- On a buffer of bytes `ReadMapHeaderBytes` accepts exactly the definite-length map headers that `readUintCore` does,
-- as far as their count fits 32 bits, with the same count and the same rest.
pub read_map_header_iff :
    (b : Bytes) (n : ℕ) (r : Bytes)
    → All IsByte b
    → (read_map_header b ≡ ok (n, r)) ↔ ((read_uint_core b 5 ≡ ok (n, r)) × (n < 2 ^ 32))
unfolding read_map_header read_uint_core get_major_type get_add_info
read_map_header_iff [] n r h = (λ e. cc, λ e. absurd (cc (e.0)))
read_map_header_iff (lead ∷ t) n r h = (
  λ e. ground (arith, take_uint-lt 1 t n r h.1, take_uint-lt 2 t n r h.1, take_uint-lt 4 t n r h.1),
  λ e. ground arith,
)

-- On a buffer of bytes `ReadArrayHeaderBytes` accepts exactly the definite-length array headers that `readUintCore`
-- does, as far as their count fits 32 bits, with the same count and the same rest.
pub read_array_header_iff :
    (b : Bytes) (n : ℕ) (r : Bytes)
    → All IsByte b
    → (read_array_header b ≡ ok (n, r)) ↔ ((read_uint_core b 4 ≡ ok (n, r)) × (n < 2 ^ 32))
unfolding read_array_header read_uint_core get_major_type get_add_info
read_array_header_iff [] n r h = (λ e. cc, λ e. absurd (cc (e.0)))
read_array_header_iff (lead ∷ t) n r h = (
  λ e. ground (arith, take_uint-lt 1 t n r h.1, take_uint-lt 2 t n r h.1, take_uint-lt 4 t n r h.1),
  λ e. ground arith,
)
