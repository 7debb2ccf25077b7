-- ===== src/Tags.antt =====
-- The tagged values of runtime/write_bytes.go and runtime/read_bytes.go: a tag and the string or
-- byte string behind it. `Tags/Numbers` has bignums and fractions.
pub mod Numbers
pub mod RoundTrip
use cbor.Base.{ℕ, [], ◌∷◌, ◌++◌, Bool, true, false, Bytes, ◌==◌, ◌!=◌, if◌then◌else◌, length}
use cbor.Result.{Result, ok, err, ◌>>=◌, short_bytes, bad_prefix, message}
use cbor.Wire.{append_uint_core, get_major_type, major_tag}
use cbor.Append.{append_tag, append_string, append_bytes}
use cbor.Headers.{read_tag}
use cbor.Strings.{read_string, read_bytes}

-- The constants tag….
abbrev pub tag_pos_bignum : ℕ
tag_pos_bignum = 2

abbrev pub tag_neg_bignum : ℕ
tag_neg_bignum = 3

abbrev pub tag_decimal_frac : ℕ
tag_decimal_frac = 4

abbrev pub tag_bigfloat : ℕ
tag_bigfloat = 5

abbrev pub tag_base64url : ℕ
tag_base64url = 21

abbrev pub tag_base64 : ℕ
tag_base64 = 22

abbrev pub tag_base16 : ℕ
tag_base16 = 23

abbrev pub tag_cbor : ℕ
tag_cbor = 24

abbrev pub tag_uri : ℕ
tag_uri = 32

abbrev pub tag_base64url_string : ℕ
tag_base64url_string = 33

abbrev pub tag_base64_string : ℕ
tag_base64_string = 34

abbrev pub tag_regexp : ℕ
tag_regexp = 35

abbrev pub tag_mime : ℕ
tag_mime = 36

abbrev pub tag_self_describe : ℕ
tag_self_describe = 55799

unfoldable pub append_base64url_string : Bytes → Bytes → Bytes
append_base64url_string b s = append_string (append_tag b tag_base64url_string) s

unfoldable pub append_base64_string : Bytes → Bytes → Bytes
append_base64_string b s = append_string (append_tag b tag_base64_string) s

unfoldable pub append_uri : Bytes → Bytes → Bytes
append_uri b uri = append_string (append_tag b tag_uri) uri

unfoldable pub append_regexp_string : Bytes → Bytes → Bytes
append_regexp_string b re = append_string (append_tag b tag_regexp) re

unfoldable pub append_mime_string : Bytes → Bytes → Bytes
append_mime_string b mime = append_string (append_tag b tag_mime) mime

unfoldable pub append_embedded_cbor : Bytes → Bytes → Bytes
append_embedded_cbor b payload = append_bytes (append_tag b tag_cbor) payload

unfoldable pub append_uuid : Bytes → Bytes → Bytes
append_uuid b uuid = append_bytes (append_tag b 37) uuid

unfoldable pub append_base64url : Bytes → Bytes → Bytes
append_base64url b payload = append_bytes (append_tag b tag_base64url) payload

unfoldable pub append_base64 : Bytes → Bytes → Bytes
append_base64 b payload = append_bytes (append_tag b tag_base64) payload

unfoldable pub append_base16 : Bytes → Bytes → Bytes
append_base16 b payload = append_bytes (append_tag b tag_base16) payload

unfoldable pub append_self_describe : Bytes → Bytes
append_self_describe b = append_uint_core b major_tag tag_self_describe

-- What the readers of tagged values have in common: the tag, its test, and the reader of the value.
read_tagged {ℓ} : {A : Type ℓ} → ℕ → (Bytes → Result (A × Bytes)) → Bytes → Result (A × Bytes)
read_tagged wanted read b = read_tag b >>= λ (tag, o).
    if tag != wanted then err (bad_prefix major_tag major_tag) else read o

module _ (validate_utf8 : Bool) (is_utf8_valid : Bytes → Bool) where
  unfoldable pub read_base64url_string : Bytes → Result (Bytes × Bytes)
  unfolding read_tagged
  read_base64url_string b =
      read_tagged tag_base64url_string (read_string validate_utf8 is_utf8_valid) b

  unfoldable pub read_base64_string : Bytes → Result (Bytes × Bytes)
  unfolding read_tagged
  read_base64_string b = read_tagged tag_base64_string (read_string validate_utf8 is_utf8_valid) b

  unfoldable pub read_uri_string : Bytes → Result (Bytes × Bytes)
  unfolding read_tagged
  read_uri_string b = read_tagged tag_uri (read_string validate_utf8 is_utf8_valid) b

  unfoldable pub read_regexp_string : Bytes → Result (Bytes × Bytes)
  unfolding read_tagged
  read_regexp_string b = read_tagged tag_regexp (read_string validate_utf8 is_utf8_valid) b

  unfoldable pub read_mime_string : Bytes → Result (Bytes × Bytes)
  unfolding read_tagged
  read_mime_string b = read_tagged tag_mime (read_string validate_utf8 is_utf8_valid) b

unfoldable pub read_embedded_cbor : Bytes → Result (Bytes × Bytes)
unfolding read_tagged
read_embedded_cbor b = read_tagged tag_cbor read_bytes b

unfoldable pub read_base64url : Bytes → Result (Bytes × Bytes)
unfolding read_tagged
read_base64url b = read_tagged tag_base64url read_bytes b

unfoldable pub read_base64 : Bytes → Result (Bytes × Bytes)
unfolding read_tagged
read_base64 b = read_tagged tag_base64 read_bytes b

unfoldable pub read_base16 : Bytes → Result (Bytes × Bytes)
unfolding read_tagged
read_base16 b = read_tagged tag_base16 read_bytes b

-- Behind the tag 37: 16 bytes.
read_uuid_bytes : Bytes → Result (Bytes × Bytes)
read_uuid_bytes o = read_bytes o >>= λ (bs, o2).
    if length bs != 16 then err (message "cbor: uuid must be 16 bytes") else ok (bs, o2)

unfoldable pub read_uuid : Bytes → Result (Bytes × Bytes)
unfolding read_tagged read_uuid_bytes
read_uuid b = read_tagged 37 read_uuid_bytes b

-- The rest, and whether the tag was there.
unfoldable pub strip_self_describe : Bytes → Result (Bytes × Bool)
strip_self_describe [] = err short_bytes
strip_self_describe (lead ∷ t) =
    if get_major_type lead != major_tag
    then ok (lead ∷ t, false)
    else (read_tag (lead ∷ t) >>= λ (tag, o).
        if tag != tag_self_describe then ok (lead ∷ t, false) else ok (o, true))
