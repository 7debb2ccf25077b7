-- ===== src/Tags/RoundTrip.antt =====
-- What the encoders of tagged strings write, their readers read back.
use cbor.Base.{
  ℕ, suc, ltb-false, ◌-◌, ◌^◌, ◌<◌, ◌≡◌, refl, [], ◌++◌, append_assoc, Bool, true, Bytes, length,
  arith,
}
use cbor.Result.{Result, ok}
use cbor.Wire.{
  append_uint_core, make_byte, put_uint, get_major_type, get_add_info, read_uint_core, take_uint,
  be_uint, uint_from,
}
use cbor.Wire.Core.{read_uint_core-append_uint_core}
use cbor.Append.{append_tag, append_string, append_bytes}
use cbor.Headers.{read_tag}
use cbor.Strings.{read_string, read_bytes}
use cbor.Strings.RoundTrip.{read_string_zc-append_string, read_bytes-append_bytes, read_string-zc}
use cbor.Tags.{
  read_tagged, read_uuid_bytes, append_base64url_string, append_base64_string, append_uri,
  append_regexp_string, append_mime_string, append_embedded_cbor, append_uuid, append_base64url,
  append_base64, append_base16, append_self_describe, read_base64url_string, read_base64_string,
  read_uri_string, read_regexp_string, read_mime_string, read_embedded_cbor, read_base64url,
  read_base64, read_base16, read_uuid, strip_self_describe,
}

-- A tag is read back.
pub read_tag-append_tag :
    (tag : ℕ) (rest : Bytes) → tag < 2 ^ 64 → read_tag (append_tag [] tag ++ rest) ≡ ok (tag, rest)
unfolding read_tag append_tag
read_tag-append_tag tag rest h = read_uint_core-append_uint_core 6 tag rest (omega arith) h

-- A text that passes the check is read back, also by the reader that knows chunks.
pub read_string-append_string :
    (check : Bool) (valid : Bytes → Bool) (s rest : Bytes)
    → length s < 2 ^ 63
    → valid s ≡ true
    → read_string check valid (append_string [] s ++ rest) ≡ ok (s, rest)
read_string-append_string check valid s rest h v =
    read_string-zc check valid (append_string [] s ++ rest) s rest
      (read_string_zc-append_string s rest h) v

-- The strings are written behind what is there.
pub append_string-append : (b s : Bytes) → append_string b s ≡ b ++ append_string [] s
unfolding append_string
append_string-append b s = refl

pub append_bytes-append : (b s : Bytes) → append_bytes b s ≡ b ++ append_bytes [] s
unfolding append_bytes
append_bytes-append b s = refl

-- A tagged value is read back if the value is.
read_tagged-append {ℓ} :
    {A : Type ℓ} (tag : ℕ) (read : Bytes → Result (A × Bytes)) (p : Bytes) (v : A) (rest : Bytes)
    → tag < 2 ^ 64
    → read (p ++ rest) ≡ ok (v, rest)
    → read_tagged tag read ((append_tag [] tag ++ p) ++ rest) ≡ ok (v, rest)
unfolding read_tagged
read_tagged-append tag read p v rest h e =
    rw (append_assoc (append_tag [] tag) p rest, read_tag-append_tag tag (p ++ rest) h)
      (ground arith)

-- The readers of tagged texts give back what the encoders wrote, where the text has less than 2^63
-- bytes and passes the check of UTF-8.
pub tagged_texts :
    (check : Bool) (valid : Bytes → Bool) (s rest : Bytes)
    → length s < 2 ^ 63
    → valid s ≡ true
    → (read_uri_string check valid (append_uri [] s ++ rest) ≡ ok (s, rest))
      × (read_base64url_string check valid (append_base64url_string [] s ++ rest) ≡ ok (s, rest))
      × (read_base64_string check valid (append_base64_string [] s ++ rest) ≡ ok (s, rest))
      × (read_regexp_string check valid (append_regexp_string [] s ++ rest) ≡ ok (s, rest))
      × (read_mime_string check valid (append_mime_string [] s ++ rest) ≡ ok (s, rest))
unfolding read_uri_string read_base64url_string read_base64_string read_regexp_string
    read_mime_string append_uri append_base64url_string append_base64_string append_regexp_string
    append_mime_string
tagged_texts check valid s rest h v = (
  at 32 (omega arith),
  at 33 (omega arith),
  at 34 (omega arith),
  at 35 (omega arith),
  at 36 (omega arith),
)
  where
    at :
        (tag : ℕ)
        → tag < 2 ^ 64
        → read_tagged tag (read_string check valid) (append_string (append_tag [] tag) s ++ rest)
          ≡ ok (s, rest)
    at tag l = rw (append_string-append (append_tag [] tag) s) (
        read_tagged-append tag (read_string check valid) (append_string [] s) s rest l
          (read_string-append_string check valid s rest h v))

-- A reader of byte strings behind its tag.
tagged-append :
    (tag : ℕ)
    → tag < 2 ^ 64
    → (read : Bytes → Result (Bytes × Bytes)) (s rest : Bytes)
    → read (append_bytes [] s ++ rest) ≡ ok (s, rest)
    → read_tagged tag read (append_bytes (append_tag [] tag) s ++ rest) ≡ ok (s, rest)
tagged-append tag l read s rest e =
    rw (append_bytes-append (append_tag [] tag) s)
      (read_tagged-append tag read (append_bytes [] s) s rest l e)

-- The readers of tagged byte strings give back what the encoders wrote, where it has less than
-- 2^63 - 9 bytes.
pub tagged_bytes :
    (s rest : Bytes)
    → length s < 2 ^ 63 - 9
    → (read_embedded_cbor (append_embedded_cbor [] s ++ rest) ≡ ok (s, rest))
      × (read_base64url (append_base64url [] s ++ rest) ≡ ok (s, rest))
      × (read_base64 (append_base64 [] s ++ rest) ≡ ok (s, rest))
      × (read_base16 (append_base16 [] s ++ rest) ≡ ok (s, rest))
unfolding read_embedded_cbor read_base64url read_base64 read_base16 append_embedded_cbor
    append_base64url append_base64 append_base16
tagged_bytes s rest h = (
  tagged-append 24 (omega arith) read_bytes s rest plain,
  tagged-append 21 (omega arith) read_bytes s rest plain,
  tagged-append 22 (omega arith) read_bytes s rest plain,
  tagged-append 23 (omega arith) read_bytes s rest plain,
)
  where
    plain : read_bytes (append_bytes [] s ++ rest) ≡ ok (s, rest)
    plain = read_bytes-append_bytes s rest h

-- ReadUUIDBytes gives back the 16 bytes that AppendUUID wrote.
pub read_uuid-append_uuid :
    (s rest : Bytes) → length s ≡ 16 → read_uuid (append_uuid [] s ++ rest) ≡ ok (s, rest)
unfolding read_uuid append_uuid
read_uuid-append_uuid s rest l =
    let plain = read_bytes-append_bytes s rest (omega arith) in
    tagged-append 37 (omega arith) read_uuid_bytes s rest (rw plain (ground arith))

-- StripSelfDescribeCBOR takes the tag off that AppendSelfDescribeCBOR writes.
pub strip_self_describe-append :
    (rest : Bytes) → strip_self_describe (append_self_describe [] ++ rest) ≡ ok (rest, true)
unfolding strip_self_describe append_self_describe append_uint_core make_byte put_uint
    get_major_type get_add_info read_tag read_uint_core take_uint be_uint uint_from
strip_self_describe-append rest = rw (ltb-false (suc (suc (length rest))) 2 (omega arith))
