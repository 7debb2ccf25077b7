-- ===== src/Number/Codec.antt =====
-- A number is written and read back, unless it is a float32.
use cbor.Base.{
  ℕ, zero, suc, ◌+◌, ◌%◌, ◌^◌, ◌<◌, ◌≤◌, length-append, ◌≡◌, refl, ap, ◌∙◌, [], ◌∷◌, ◌++◌, Bytes, ℤ,
  pos, negsuc, IsInt, to_int64, ltb, if◌then◌else◌, length, arith, ltb-true, ltb-false, Bool-cases,
  inl, inr,
}
use cbor.Result.{ok, err, bad_prefix, short_bytes, int_type, uint_type, float64_type}
use cbor.Wire.{
  make_byte, put_uint, append_uint_core, get_major_type, get_add_info, read_uint_core, take_uint,
}
use cbor.Wire.Endian.{take_uint-put_uint, length-put_uint}
use cbor.Wire.Core.{read_uint_core-append_uint_core}
use cbor.Append.{append_int64, append_uint64, append_float64, append_float32}
use cbor.Ints.{read_uint64}
use cbor.Ints.RoundTrip.{append_int64-pos, append_int64-negsuc, read_int64-append_int64}
use cbor.Headers.{next_type, read_float64}
use cbor.Number.{of_int64, as_int, as_uint, as_float32, as_float64, marshal, unmarshal}

-- The type of an item is that of its header.
pub next_type-uint :
    (b : Bytes) (u : ℕ) (r : Bytes) → read_uint_core b 0 ≡ ok (u, r) → next_type b ≡ uint_type
unfolding next_type read_uint_core
next_type-uint [] u r e = absurd (cc)
next_type-uint (lead ∷ t) u r e = ground arith

pub next_type-int :
    (b : Bytes) (u : ℕ) (r : Bytes) → read_uint_core b 1 ≡ ok (u, r) → next_type b ≡ int_type
unfolding next_type read_uint_core
next_type-int [] u r e = absurd (cc)
next_type-int (lead ∷ t) u r e = ground arith

-- What `AsInt` stores is read again as the integer.
to_int64-of_int64 : (i : ℤ) → IsInt 64 i → to_int64 (of_int64 i) ≡ i
unfolding to_int64 of_int64
to_int64-of_int64 (pos n) h = ground arith
to_int64-of_int64 (negsuc n) h = ground arith

pub read_float64-append :
    (f : ℕ) (rest : Bytes) → f < 2 ^ 64 → read_float64 (append_float64 [] f ++ rest) ≡ ok (f, rest)
unfolding read_float64 append_float64 make_byte
read_float64-append f rest h = rw (take_uint-put_uint 8 f rest h) refl

-- Behind the initial byte 0xfa the reader of float64 wants eight bytes, and then another byte in front.
float32_fails :
    (f : ℕ) (rest : Bytes)
    → (length rest < 4 → read_float64 (append_float32 [] f ++ rest) ≡ err short_bytes)
      × (4 ≤ length rest → read_float64 (append_float32 [] f ++ rest) ≡ err (bad_prefix 7 7))
unfolding read_float64 append_float32 make_byte take_uint get_major_type
float32_fails f rest =
    let long : length (put_uint 4 f ++ rest) ≡ 4 + length rest =
      omega (arith, length-append (put_uint 4 f) rest, length-put_uint 4 f) in
    (
      λ h. rw (ltb-true (length (put_uint 4 f ++ rest)) 8 (omega arith)),
      λ h. rw (ltb-false (length (put_uint 4 f ++ rest)) 8 (omega arith)),
    )

float32-type : (f : ℕ) (rest : Bytes) → next_type (append_float32 [] f ++ rest) ≡ float64_type
unfolding next_type append_float32 make_byte get_major_type get_add_info
float32-type f rest = refl

float64-type : (f : ℕ) (rest : Bytes) → next_type (append_float64 [] f ++ rest) ≡ float64_type
unfolding next_type append_float64 make_byte get_major_type get_add_info
float64-type f rest = refl

read_as_uint :
    (b : Bytes) (u : ℕ) (rest : Bytes)
    → read_uint_core b 0 ≡ ok (u, rest)
    → unmarshal b ≡ ok (as_uint u, rest)
unfolding unmarshal read_uint64
read_as_uint b u rest e = rw (next_type-uint b u rest e, e)

marshal_pos : (n : ℕ) → n < 2 ^ 63 → marshal (as_int (pos n)) [] ≡ append_uint_core [] 0 n
unfolding marshal as_int
marshal_pos zero h = append_int64-pos [] 0
marshal_pos (suc n) h = rw (to_int64-of_int64 (pos (suc n)) h) (append_int64-pos [] (suc n))

marshal_negsuc : (n : ℕ) → n < 2 ^ 63 → marshal (as_int (negsuc n)) [] ≡ append_int64 [] (negsuc n)
unfolding marshal as_int
marshal_negsuc n h = rw (to_int64-of_int64 (negsuc n) h)

-- MarshalCBOR then UnmarshalCBOR: a uint64, a negative int64 and a float64 come back as they were; an
-- int64 from 0 on comes back as a uint64 of the same value.
pub unmarshal-marshal :
    (u n f : ℕ) (rest : Bytes)
    → u < 2 ^ 64
    → n < 2 ^ 63
    → f < 2 ^ 64
    → (unmarshal (marshal (as_uint u) [] ++ rest) ≡ ok (as_uint u, rest))
      × (unmarshal (marshal (as_int (negsuc n)) [] ++ rest) ≡ ok (as_int (negsuc n), rest))
      × (unmarshal (marshal (as_int (pos n)) [] ++ rest) ≡ ok (as_uint n, rest))
      × (unmarshal (marshal (as_float64 f) [] ++ rest) ≡ ok (as_float64 f, rest))
unfolding unmarshal marshal as_uint as_float64
unmarshal-marshal u n f rest hu hn hf = (
  unfold append_uint64 in
      read_as_uint (append_uint_core [] 0 u ++ rest) u rest
        (read_uint_core-append_uint_core 0 u rest (omega arith) hu),
  ap (λ l. unmarshal (l ++ rest)) (marshal_negsuc n hn)
      ∙ rw (
        next_type-int (append_int64 [] (negsuc n) ++ rest) n rest (
            rw (append_int64-negsuc [] n)
              (read_uint_core-append_uint_core 1 n rest (omega arith) (omega arith))),
        read_int64-append_int64 (negsuc n) rest hn,
      ),
  ap (λ l. unmarshal (l ++ rest)) (marshal_pos n hn)
      ∙ read_as_uint (append_uint_core [] 0 n ++ rest) n rest
          (read_uint_core-append_uint_core 0 n rest (omega arith) (omega arith)),
  rw (float64-type f rest, read_float64-append f rest hf),
)

-- A float32 that MarshalCBOR writes is not read back: NextType takes it for a float64, whose reader
-- reports short bytes with less than four behind it, and a bad prefix with more.
pub unmarshal-float32 :
    (f : ℕ) (rest : Bytes)
    → unmarshal (marshal (as_float32 f) [] ++ rest)
      ≡ err (if ltb (length rest) 4 then short_bytes else bad_prefix 7 7)
unfolding unmarshal marshal as_float32
unmarshal-float32 f rest =
    let (short, long) = float32_fails (f % 2 ^ 32) rest in
    rw (float32-type (f % 2 ^ 32) rest) (elim (Bool-cases (ltb (length rest) 4)) [
      | inl h ↦ rw (short (ground arith), h) refl
      | inr h ↦ rw (long (ground arith), h) refl
    ])
