-- ===== src/Ints/RoundTrip.antt =====
-- What the integer encoders write, the readers of every width read back.
use cbor.Base.{
  ℕ, ◌-◌, ◌%◌, ◌^◌, ◌<◌, ◌≡◌, ◌↔◌, [], ◌++◌, Bytes, ℤ, false, pos, negsuc, IsInt, arith,
}
use cbor.Result.{ok}
use cbor.Wire.{append_uint_core}
use cbor.Wire.Bits.{make_byte_lem}
use cbor.Wire.Endian.{take_uint-put_uint}
use cbor.Wire.Core.{read_uint_core-append_uint_core}
use cbor.Append.{append_int64, append_uint64}
use cbor.Ints.{
  read_int64, read_int32, read_int16, read_int8, narrow_int, int_exceeds, read_uint64, read_uint32,
  read_uint16, read_uint8,
}

-- The five header forms of major type 0 and 1, read as integers.
read_int64-pos :
    (u : ℕ) (rest : Bytes)
    → u < 2 ^ 63
    → read_int64 (append_uint_core [] 0 u ++ rest) ≡ ok (pos u, rest)
unfolding read_int64 append_uint_core
read_int64-pos u rest h = ground (
  arith,
  make_byte_lem 0 (u % 256),
  make_byte_lem 0 24,
  make_byte_lem 0 25,
  make_byte_lem 0 26,
  make_byte_lem 0 27,
  take_uint-put_uint 1 u rest,
  take_uint-put_uint 2 u rest,
  take_uint-put_uint 4 u rest,
  take_uint-put_uint 8 u rest,
)

read_int64-neg :
    (u : ℕ) (rest : Bytes)
    → u < 2 ^ 63
    → read_int64 (append_uint_core [] 1 u ++ rest) ≡ ok (negsuc u, rest)
unfolding read_int64 append_uint_core
read_int64-neg u rest h = ground (
  arith,
  make_byte_lem 1 (u % 256),
  make_byte_lem 1 24,
  make_byte_lem 1 25,
  make_byte_lem 1 26,
  make_byte_lem 1 27,
  take_uint-put_uint 1 u rest,
  take_uint-put_uint 2 u rest,
  take_uint-put_uint 4 u rest,
  take_uint-put_uint 8 u rest,
)

-- The fast paths of `AppendInt64` write what `appendUintCore` would.
pub append_int64-pos : (b : Bytes) (u : ℕ) → append_int64 b (pos u) ≡ append_uint_core b 0 u
unfolding append_int64 append_uint_core
append_int64-pos b u = ground arith

pub append_int64-negsuc : (b : Bytes) (u : ℕ) → append_int64 b (negsuc u) ≡ append_uint_core b 1 u
unfolding append_int64 append_uint_core
append_int64-negsuc b u = ground arith

-- Every int64 that AppendInt64 writes is read back by ReadInt64Bytes, which leaves what follows.
pub read_int64-append_int64 :
    (i : ℤ) (rest : Bytes) → IsInt 64 i → read_int64 (append_int64 [] i ++ rest) ≡ ok (i, rest)
read_int64-append_int64 (pos u) rest h = rw (append_int64-pos [] u) (read_int64-pos u rest h)
read_int64-append_int64 (negsuc u) rest h = rw (append_int64-negsuc [] u) (read_int64-neg u rest h)

-- A narrow reader accepts exactly what the int64 reader accepts in its range.
narrow_int_iff :
    (w : ℕ) (b : Bytes) (i : ℤ) (r : Bytes)
    → (narrow_int w b ≡ ok (i, r)) ↔ ((read_int64 b ≡ ok (i, r)) × (int_exceeds w i ≡ false))
unfolding narrow_int
narrow_int_iff w b i r = (λ e. ground arith, λ e. ground arith)

within_iff : (w : ℕ) (i : ℤ) → 0 < 2 ^ (w - 1) → (int_exceeds w i ≡ false) ↔ IsInt w i
unfolding int_exceeds
within_iff w (pos n) h = (λ e. ground arith, λ e. ground arith)
within_iff w (negsuc n) h = (λ e. ground arith, λ e. ground arith)

-- ReadInt8Bytes, ReadInt16Bytes and ReadInt32Bytes accept exactly the integers that ReadInt64Bytes
-- accepts and that their type holds, with the same value and rest.
pub read_intw_iff :
    (b : Bytes) (i : ℤ) (r : Bytes)
    → ((read_int8 b ≡ ok (i, r)) ↔ ((read_int64 b ≡ ok (i, r)) × IsInt 8 i))
      × ((read_int16 b ≡ ok (i, r)) ↔ ((read_int64 b ≡ ok (i, r)) × IsInt 16 i))
      × ((read_int32 b ≡ ok (i, r)) ↔ ((read_int64 b ≡ ok (i, r)) × IsInt 32 i))
unfolding read_int8 read_int16 read_int32
read_intw_iff b i r =
    (narrowed 8 (omega arith), narrowed 16 (omega arith), narrowed 32 (omega arith))
  where
    narrowed :
        (w : ℕ)
        → 0 < 2 ^ (w - 1)
        → (narrow_int w b ≡ ok (i, r)) ↔ ((read_int64 b ≡ ok (i, r)) × IsInt w i)
    narrowed w h = (
      λ e. let p = (narrow_int_iff w b i r).0 e in (p.0, (within_iff w i h).0 p.1),
      λ p. (narrow_int_iff w b i r).1 (p.0, (within_iff w i h).1 p.1),
    )

-- ReadUint8Bytes, ReadUint16Bytes and ReadUint32Bytes accept exactly the numbers that
-- ReadUint64Bytes accepts and that their type holds, with the same value and rest.
pub read_uintw_iff :
    (b : Bytes) (u : ℕ) (r : Bytes)
    → ((read_uint8 b ≡ ok (u, r)) ↔ ((read_uint64 b ≡ ok (u, r)) × (u < 2 ^ 8)))
      × ((read_uint16 b ≡ ok (u, r)) ↔ ((read_uint64 b ≡ ok (u, r)) × (u < 2 ^ 16)))
      × ((read_uint32 b ≡ ok (u, r)) ↔ ((read_uint64 b ≡ ok (u, r)) × (u < 2 ^ 32)))
unfolding read_uint8 read_uint16 read_uint32 read_uint64
read_uintw_iff b u r = (
  (λ e. ground arith, λ e. ground arith),
  (λ e. ground arith, λ e. ground arith),
  (λ e. ground arith, λ e. ground arith),
)

-- Every uint64 that AppendUint64 writes is read back by ReadUint64Bytes, which leaves what follows.
pub read_uint64-append_uint64 :
    (u : ℕ) (rest : Bytes) → u < 2 ^ 64 → read_uint64 (append_uint64 [] u ++ rest) ≡ ok (u, rest)
unfolding read_uint64 append_uint64
read_uint64-append_uint64 u rest h = read_uint_core-append_uint_core 0 u rest (omega arith) h
