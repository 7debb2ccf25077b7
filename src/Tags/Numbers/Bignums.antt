-- ===== src/Tags/Numbers/Bignums.antt =====
-- Bignums and fractions are read back.
use cbor.Base.{
  ℕ, zero, suc, ◌+◌, ◌-◌, ◌/◌, ◌%◌, ◌^◌, ◌<◌, ◌≤◌, ◌≡◌, [], ◌∷◌, ◌++◌, append_assoc, Bytes, ℤ, pos,
  negsuc, length, some, arith, ltb, ◌==◌, inl, inr, Bool-cases,
}
use cbor.Result.{ok}
use cbor.Wire.{append_uint_core, be_uint, uint_from, read_uint_core}
use cbor.Wire.Endian.{uint_from-append}
use cbor.Wire.Core.{read_uint_core-append_uint_core}
use cbor.Append.{append_tag, append_bytes, append_int64, append_uint64}
use cbor.Ints.{read_int64}
use cbor.Ints.RoundTrip.{append_int64-negsuc, read_int64-append_int64}
use cbor.Strings.RoundTrip.{read_bytes-append_bytes}
use cbor.Tags.RoundTrip.{read_tag-append_tag, append_bytes-append}
use cbor.Tags.Numbers.{
  magnitude, magnitude_from, append_big_int, append_cbor_integer, read_big_int, read_tagged_integer,
  read_cbor_integer,
}

magnitude_from_lem : (k n : ℕ) → n ≤ k → be_uint (magnitude_from k n) ≡ n
unfolding magnitude_from be_uint uint_from
magnitude_from_lem zero n h = omega arith
magnitude_from_lem (suc k) n h = elim (Bool-cases (n == 0)) [
  | inl z ↦ rw z (ground arith)
  | inr z ↦
      rw (z, uint_from-append 0 (magnitude_from k (n / 256)) (n % 256))
        (ground (arith, magnitude_from_lem k (n / 256)))
]

-- SetBytes gives back what Bytes wrote.
pub be_uint-magnitude : (n : ℕ) → be_uint (magnitude n) ≡ n
unfolding magnitude
be_uint-magnitude n = magnitude_from_lem n n (omega arith)

-- The number of which a bignum holds the bytes.
abbrev pub size : ℤ → ℕ
size (pos n) = n
size (negsuc n) = n

-- An integer whose magnitude has less than 2^63 - 9 bytes is read back by ReadBigIntBytes from
-- what AppendBigInt writes.
pub read_big_int-append_big_int :
    (z : ℤ) (rest : Bytes)
    → length (magnitude (size z)) < 2 ^ 63 - 9
    → read_big_int (append_big_int [] (some z) ++ rest) ≡ ok (z, rest)
unfolding read_big_int append_big_int
read_big_int-append_big_int (pos n) rest h = rw (
  append_bytes-append (append_tag [] 2) (magnitude n),
  append_assoc (append_tag [] 2) (append_bytes [] (magnitude n)) rest,
  read_tag-append_tag 2 (append_bytes [] (magnitude n) ++ rest) (omega arith),
  read_bytes-append_bytes (magnitude n) rest h,
  be_uint-magnitude n,
)
read_big_int-append_big_int (negsuc n) rest h = rw (
  append_bytes-append (append_tag [] 3) (magnitude n),
  append_assoc (append_tag [] 3) (append_bytes [] (magnitude n)) rest,
  read_tag-append_tag 3 (append_bytes [] (magnitude n) ++ rest) (omega arith),
  read_bytes-append_bytes (magnitude n) rest h,
  be_uint-magnitude n,
)

tagged_integer-append :
    (z : ℤ) (rest : Bytes)
    → length (magnitude (size z)) < 2 ^ 63 - 9
    → read_tagged_integer (append_big_int [] (some z) ++ rest) ≡ ok (z, rest)
unfolding read_tagged_integer append_big_int
tagged_integer-append (pos n) rest h = rw (
  append_bytes-append (append_tag [] 2) (magnitude n),
  append_assoc (append_tag [] 2) (append_bytes [] (magnitude n)) rest,
  read_tag-append_tag 2 (append_bytes [] (magnitude n) ++ rest) (omega arith),
  read_bytes-append_bytes (magnitude n) rest h,
  be_uint-magnitude n,
)
tagged_integer-append (negsuc n) rest h = rw (
  append_bytes-append (append_tag [] 3) (magnitude n),
  append_assoc (append_tag [] 3) (append_bytes [] (magnitude n)) rest,
  read_tag-append_tag 3 (append_bytes [] (magnitude n) ++ rest) (omega arith),
  read_bytes-append_bytes (magnitude n) rest h,
  be_uint-magnitude n,
)

-- Where the case of the major type leads.
by_uint :
    (b : Bytes) (u : ℕ) (rest : Bytes)
    → read_uint_core b 0 ≡ ok (u, rest)
    → read_cbor_integer b ≡ ok (pos u, rest)
unfolding read_cbor_integer read_uint_core
by_uint [] u rest e = absurd (cc)
by_uint (lead ∷ t) u rest e = ground arith

by_negative :
    (b : Bytes) (u : ℕ) (v : ℤ) (rest : Bytes)
    → read_uint_core b 1 ≡ ok (u, rest)
    → read_int64 b ≡ ok (v, rest)
    → read_cbor_integer b ≡ ok (v, rest)
unfolding read_cbor_integer read_uint_core
by_negative [] u v rest e f = absurd (cc)
by_negative (lead ∷ t) u v rest e f = ground arith

by_tag :
    (b : Bytes) (tag : ℕ) (v : ℤ) (o rest : Bytes)
    → read_uint_core b 6 ≡ ok (tag, o)
    → read_tagged_integer b ≡ ok (v, rest)
    → read_cbor_integer b ≡ ok (v, rest)
unfolding read_cbor_integer read_uint_core
by_tag [] tag v o rest e f = absurd (cc)
by_tag (lead ∷ t) tag v o rest e f = unfold read_tagged_integer in ground arith

-- The tag in front of a bignum.
big_int_tag :
    (z : ℤ) (rest : Bytes)
    → (tag : ℕ) × (o : Bytes) × (read_uint_core (append_big_int [] (some z) ++ rest) 6
        ≡ ok (tag, o))
unfolding append_big_int append_tag
big_int_tag (pos n) rest = (
  2,
  append_bytes [] (magnitude n) ++ rest,
  rw
      (
        append_bytes-append (append_uint_core [] 6 2) (magnitude n),
        append_assoc (append_uint_core [] 6 2) (append_bytes [] (magnitude n)) rest,
      )
      (read_uint_core-append_uint_core 6 2 (append_bytes [] (magnitude n) ++ rest) (omega arith)
        (omega arith)),
)
big_int_tag (negsuc n) rest = (
  3,
  append_bytes [] (magnitude n) ++ rest,
  rw
      (
        append_bytes-append (append_uint_core [] 6 3) (magnitude n),
        append_assoc (append_uint_core [] 6 3) (append_bytes [] (magnitude n)) rest,
      )
      (read_uint_core-append_uint_core 6 3 (append_bytes [] (magnitude n) ++ rest) (omega arith)
        (omega arith)),
)

as_big_int :
    (z : ℤ) (rest : Bytes)
    → length (magnitude (size z)) < 2 ^ 63 - 9
    → read_cbor_integer (append_big_int [] (some z) ++ rest) ≡ ok (z, rest)
as_big_int z rest h =
    let (tag, o, e) = big_int_tag z rest in
    by_tag (append_big_int [] (some z) ++ rest) tag z o rest e (tagged_integer-append z rest h)

-- An integer is read back whichever of the three forms appendCBORIntegerFromBigInt chose.
pub read_cbor_integer-append :
    (z : ℤ) (rest : Bytes)
    → length (magnitude (size z)) < 2 ^ 63 - 9
    → read_cbor_integer (append_cbor_integer [] (some z) ++ rest) ≡ ok (z, rest)
unfolding append_cbor_integer
read_cbor_integer-append (pos n) rest h = elim (Bool-cases (ltb n (2 ^ 64))) [
  | inl l ↦ rw l (
      by_uint (append_uint64 [] n ++ rest) n rest (
        unfold append_uint64 in
        read_uint_core-append_uint_core 0 n rest (omega arith) (ground arith)))
  | inr l ↦ rw l (as_big_int (pos n) rest h)
]
read_cbor_integer-append (negsuc n) rest h = elim (Bool-cases (ltb (n + 1) (2 ^ 63))) [
  | inl l ↦ rw l (
      by_negative (append_int64 [] (negsuc n) ++ rest) n (negsuc n) rest
        (rw (append_int64-negsuc [] n)
          (read_uint_core-append_uint_core 1 n rest (omega arith) (ground arith)))
        (read_int64-append_int64 (negsuc n) rest (ground arith)))
  | inr l ↦ rw l (as_big_int (negsuc n) rest h)
]
