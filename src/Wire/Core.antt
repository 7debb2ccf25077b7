-- ===== src/Wire/Core.antt =====
-- `readUintCore` against `appendUintCore`.
use cbor.Base.{ℕ, ◌%◌, ◌^◌, ◌<◌, ◌≡◌, [], ◌∷◌, ◌++◌, Bytes, ◌==◌, leb, if◌then◌else◌, arith}
use cbor.Result.{Result, ok, err, unsupported_type}
use cbor.Wire.{
  make_byte, get_major_type, get_add_info, put_uint, take_uint, append_uint_core, read_uint_core,
}
use cbor.Wire.Bits.{make_byte_lem, get_major_type-make_byte, get_add_info-make_byte}
use cbor.Wire.Endian.{take_uint-put_uint}

-- What `read_uint_core` does behind an initial byte of the right major type.
abbrev pub read_argument : ℕ → Bytes → Result (ℕ × Bytes)
read_argument a t =
    if leb a 23
    then ok (a, t)
    else if a == 24
    then take_uint 1 t
    else if a == 25
    then take_uint 2 t
    else if a == 26
    then take_uint 4 t
    else if a == 27
    then take_uint 8 t
    else err unsupported_type

pub read_uint_core-make_byte :
    (m a : ℕ) (t : Bytes)
    → m < 8
    → a < 32
    → read_uint_core (make_byte m a ∷ t) m ≡ read_argument a t
unfolding read_uint_core
read_uint_core-make_byte m a t hm ha =
    rw (get_major_type-make_byte m a hm ha, get_add_info-make_byte m a hm ha) (ground arith)

-- `append_uint_core` keeps what is there and appends the header of an empty buffer.
pub append_uint_core-append :
    (b : Bytes) (m u : ℕ) → append_uint_core b m u ≡ b ++ append_uint_core [] m u
unfolding append_uint_core
append_uint_core-append b m u = ground arith

-- The header that `append_uint_core` writes for a uint64 under any major type is read back by
-- `read_uint_core`, and what follows it is left.
pub read_uint_core-append_uint_core :
    (m u : ℕ) (rest : Bytes)
    → m < 8
    → u < 2 ^ 64
    → read_uint_core (append_uint_core [] m u ++ rest) m ≡ ok (u, rest)
unfolding append_uint_core
read_uint_core-append_uint_core m u rest hm hu = ground (
  arith,
  read_uint_core-make_byte m (u % 256) rest hm,
  read_uint_core-make_byte m 24 (put_uint 1 u ++ rest) hm,
  read_uint_core-make_byte m 25 (put_uint 2 u ++ rest) hm,
  read_uint_core-make_byte m 26 (put_uint 4 u ++ rest) hm,
  read_uint_core-make_byte m 27 (put_uint 8 u ++ rest) hm,
  take_uint-put_uint 1 u rest,
  take_uint-put_uint 2 u rest,
  take_uint-put_uint 4 u rest,
  take_uint-put_uint 8 u rest,
)

-- The initial byte of a header that was read.
pub read_uint_core_inv :
    (lead : ℕ) (t : Bytes) (m u : ℕ) (r : Bytes)
    → lead < 256
    → m < 8
    → read_uint_core (lead ∷ t) m ≡ ok (u, r)
    → (lead ≡ make_byte m (lead % 32)) × (read_argument (lead % 32) t ≡ ok (u, r))
unfolding read_uint_core get_major_type get_add_info
read_uint_core_inv lead t m u r hl hm e =
    (ground (arith, make_byte_lem m (lead % 32) hm), ground arith)
