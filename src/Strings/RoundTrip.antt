-- ===== src/Strings/RoundTrip.antt =====
-- Byte and text strings: what AppendBytes and AppendString write is read back.
use cbor.Base.{
  Bool, true, ◌∷◌, ℕ, ◌-◌, ◌%◌, ◌^◌, ◌≤◌, ◌<◌, ◌≡◌, refl, ◌∙◌, sym, ap, [], ◌++◌, append_assoc,
  Bytes, length, arith,
}
use cbor.Result.{ok, err, panic, short_bytes}
use cbor.Wire.{append_uint_core, make_byte}
use cbor.Wire.Bits.{make_byte_lem}
use cbor.Wire.Core.{append_uint_core-append}
use cbor.Wire.Endian.{take_uint-put_uint}
use cbor.Loops.{cut}
use cbor.Loops.Reads.{cut-append}
use cbor.Append.{append_string, append_bytes, append_string_from_bytes, header_size, write_header}
use cbor.Strings.{read_string_zc, read_bytes, read_string}

-- The header that AppendBytes and AppendString write by hand is that of appendUintCore.
pub write_header-core :
    (major sz : ℕ) → write_header (header_size sz) major sz ≡ append_uint_core [] major sz
unfolding append_uint_core header_size write_header
write_header-core major sz = ground arith

-- The fast path of ReadStringZC reads the header of appendUintCore.
read_string_zc-header :
    (sz : ℕ) (o : Bytes) → sz < 2 ^ 63 → read_string_zc (append_uint_core [] 3 sz ++ o) ≡ cut sz o
unfolding read_string_zc append_uint_core
read_string_zc-header sz o h = ground (
  arith,
  make_byte_lem 3 (sz % 256),
  make_byte_lem 3 24,
  make_byte_lem 3 25,
  make_byte_lem 3 26,
  make_byte_lem 3 27,
  take_uint-put_uint 1 sz o,
  take_uint-put_uint 2 sz o,
  take_uint-put_uint 4 sz o,
  take_uint-put_uint 8 sz o,
)

-- AppendString, with its hand-written header, and AppendStringFromBytes write the same bytes:
-- the buffer, the header of appendUintCore for the length, and the text.
pub append_string-core :
    (b s : Bytes)
    → (append_string b s ≡ append_string_from_bytes b s)
      × (append_string b s ≡ b ++ (append_uint_core [] 3 (length s) ++ s))
unfolding append_string append_string_from_bytes
append_string-core b s = (
  rw (write_header-core 3 (length s), append_uint_core-append b 3 (length s))
      (sym (append_assoc b (append_uint_core [] 3 (length s)) s)),
  rw (write_header-core 3 (length s)),
)

pub append_bytes-core :
    (b s : Bytes) → append_bytes b s ≡ b ++ (append_uint_core [] 2 (length s) ++ s)
unfolding append_bytes
append_bytes-core b s = rw (write_header-core 2 (length s))

-- A text of less than 2^63 bytes that AppendString writes is read back by ReadStringZC, which leaves what follows.
pub read_string_zc-append_string :
    (s rest : Bytes)
    → length s < 2 ^ 63
    → read_string_zc (append_string [] s ++ rest) ≡ ok (s, rest)
read_string_zc-append_string s rest h =
    ap (λ l. read_string_zc (l ++ rest)) ((append_string-core [] s).1)
    ∙ ap read_string_zc (append_assoc (append_uint_core [] 3 (length s)) s rest)
    ∙ read_string_zc-header (length s) (s ++ rest) h
    ∙ cut-append (length s) s rest refl

-- The fast path of ReadBytesBytes reads the header of appendUintCore.
read_bytes-header :
    (sz : ℕ) (o : Bytes) → sz < 2 ^ 63 - 9 → read_bytes (append_uint_core [] 2 sz ++ o) ≡ cut sz o
unfolding read_bytes append_uint_core
read_bytes-header sz o h = ground (
  arith,
  make_byte_lem 2 (sz % 256),
  make_byte_lem 2 24,
  make_byte_lem 2 25,
  make_byte_lem 2 26,
  make_byte_lem 2 27,
  make_byte_lem 2 31,
  take_uint-put_uint 1 sz o,
  take_uint-put_uint 2 sz o,
  take_uint-put_uint 4 sz o,
  take_uint-put_uint 8 sz o,
)

-- A byte string of less than 2^63 - 9 bytes that AppendBytes writes is read back by ReadBytesBytes, which leaves what follows.
pub read_bytes-append_bytes :
    (s rest : Bytes) → length s < 2 ^ 63 - 9 → read_bytes (append_bytes [] s ++ rest) ≡ ok (s, rest)
read_bytes-append_bytes s rest h =
    ap (λ l. read_bytes (l ++ rest)) (append_bytes-core [] s)
    ∙ ap read_bytes (append_assoc (append_uint_core [] 2 (length s)) s rest)
    ∙ read_bytes-header (length s) (s ++ rest) h
    ∙ cut-append (length s) s rest refl

-- A length in the last nine values of an int makes ReadBytesBytes panic, where less than
-- 2^63 - 9 bytes follow the header: `9+sz` is negative, so the bounds check passes. ReadStringZC rejects the same lengths.
pub read_bytes_panics :
    (sz : ℕ) (rest : Bytes)
    → 2 ^ 63 - 9 ≤ sz
    → sz < 2 ^ 63
    → length rest < 2 ^ 63 - 9
    → (read_bytes (append_uint_core [] 2 sz ++ rest) ≡ panic)
      × (read_string_zc (append_uint_core [] 3 sz ++ rest) ≡ err short_bytes)
unfolding read_bytes append_uint_core
read_bytes_panics sz rest lo hi l = (
  ground (arith, make_byte_lem 2 27, make_byte_lem 2 31, take_uint-put_uint 8 sz rest),
  read_string_zc-header sz rest hi ∙ unfold cut in ground arith,
)

-- What ReadStringZC accepts, ReadStringBytes accepts if the text passes the check.
pub read_string-zc :
    (check : Bool) (valid : Bytes → Bool) (b s rest : Bytes)
    → read_string_zc b ≡ ok (s, rest)
    → valid s ≡ true
    → read_string check valid b ≡ ok (s, rest)
unfolding read_string read_string_zc make_byte
read_string-zc check valid [] s rest e v = absurd (cc)
read_string-zc check valid (lead ∷ t) s rest e v = ground arith
