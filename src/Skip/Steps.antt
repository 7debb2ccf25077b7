-- ===== src/Skip/Steps.antt =====
-- What one call of `skip` and of `validateWellFormed` does with an item of each kind whose header
-- is read.
use cbor.Base.{ℕ, ◌<◌, ◌≡◌, ◌⊎◌, [], ◌∷◌, Bytes, Bool, true, arith}
use cbor.Result.{Result, ok, >>=-eq-ok}
use cbor.Wire.{get_major_type, get_add_info, read_uint_core}
use cbor.Loops.{read_chunk, times}
use cbor.Strings.{read_string_zc}
use cbor.Skip.{skip_chunk, skip_pair, skip_container, skip_item, validate_text, validate_item}
use cbor.Skip.Agree.{read_string_zc-read_chunk}

-- The initial byte of a header that is read.
header_byte :
    (lead : ℕ) (t : Bytes) (m u : ℕ) (o : Bytes)
    → read_uint_core (lead ∷ t) m ≡ ok (u, o)
    → (get_major_type lead ≡ m) × (get_add_info lead < 28)
unfolding read_uint_core
header_byte lead t m u o e = (ground arith, ground arith)

chunk_header :
    (b : Bytes) (m : ℕ) (v o : Bytes)
    → read_chunk m b ≡ ok (v, o)
    → (u : ℕ) × (p : Bytes) × (read_uint_core b m ≡ ok (u, p))
unfolding read_chunk
chunk_header b m v o e = let ((u, p), eu, ec) = >>=-eq-ok (read_uint_core b m) _ e in (u, p, eu)

module _ (f : Bytes → Result Bytes) where
  pub skip_int :
      (b : Bytes) (m u : ℕ) (o : Bytes)
      → m < 2
      → read_uint_core b m ≡ ok (u, o)
      → skip_item f b ≡ ok o
  skip_int [] m u o h e = absurd (unfold read_uint_core in cc)
  skip_int (lead ∷ t) m u o h e =
      let (em, ea) = header_byte lead t m u o e in unfold skip_item in ground arith

  pub skip_tag :
      (b : Bytes) (u : ℕ) (o r : Bytes)
      → read_uint_core b 6 ≡ ok (u, o)
      → f o ≡ ok r
      → skip_item f b ≡ ok r
  skip_tag [] u o r e h = absurd (unfold read_uint_core in cc)
  skip_tag (lead ∷ t) u o r e h =
      let (em, ea) = header_byte lead t 6 u o e in unfold skip_item in ground arith

  pub skip_string :
      (b : Bytes) (m : ℕ) (v o : Bytes)
      → (m ≡ 2) ⊎ (m ≡ 3)
      → read_chunk m b ≡ ok (v, o)
      → skip_item f b ≡ ok o
  skip_string b m v o h e = let (u, p, eu) = chunk_header b m v o e in go b u p eu e
    where
      go :
          (b : Bytes) (u : ℕ) (p : Bytes)
          → read_uint_core b m ≡ ok (u, p)
          → read_chunk m b ≡ ok (v, o)
          → skip_item f b ≡ ok o
      go [] u p eu e = absurd (unfold read_uint_core in cc)
      go (lead ∷ t) u p eu e =
          let (em, ea) = header_byte lead t m u p eu in unfold skip_item skip_chunk in ground arith

  pub skip_array :
      (b : Bytes) (n : ℕ) (o r : Bytes)
      → read_uint_core b 4 ≡ ok (n, o)
      → times f n o ≡ ok r
      → skip_item f b ≡ ok r
  skip_array [] n o r e h = absurd (unfold read_uint_core in cc)
  skip_array (lead ∷ t) n o r e h =
      let (em, ea) = header_byte lead t 4 n o e in unfold skip_item skip_container in ground arith

  pub skip_map :
      (b : Bytes) (n : ℕ) (o r : Bytes)
      → read_uint_core b 5 ≡ ok (n, o)
      → times (skip_pair f) n o ≡ ok r
      → skip_item f b ≡ ok r
  skip_map [] n o r e h = absurd (unfold read_uint_core in cc)
  skip_map (lead ∷ t) n o r e h =
      let (em, ea) = header_byte lead t 5 n o e in unfold skip_item skip_container in ground arith

module _ (valid : Bytes → Bool) (f : Bytes → Result Bytes) where
  pub validate_int :
      (b : Bytes) (m u : ℕ) (o : Bytes)
      → m < 2
      → read_uint_core b m ≡ ok (u, o)
      → validate_item valid f b ≡ ok o
  validate_int [] m u o h e = absurd (unfold read_uint_core in cc)
  validate_int (lead ∷ t) m u o h e =
      let (em, ea) = header_byte lead t m u o e in unfold validate_item in ground arith

  pub validate_tag :
      (b : Bytes) (u : ℕ) (o r : Bytes)
      → read_uint_core b 6 ≡ ok (u, o)
      → f o ≡ ok r
      → validate_item valid f b ≡ ok r
  validate_tag [] u o r e h = absurd (unfold read_uint_core in cc)
  validate_tag (lead ∷ t) u o r e h =
      let (em, ea) = header_byte lead t 6 u o e in unfold validate_item in ground arith

  pub validate_bytes : (b v o : Bytes) → read_chunk 2 b ≡ ok (v, o) → validate_item valid f b ≡ ok o
  validate_bytes b v o e = let (u, p, eu) = chunk_header b 2 v o e in go b u p eu e
    where
      go :
          (b : Bytes) (u : ℕ) (p : Bytes)
          → read_uint_core b 2 ≡ ok (u, p)
          → read_chunk 2 b ≡ ok (v, o)
          → validate_item valid f b ≡ ok o
      go [] u p eu e = absurd (unfold read_uint_core in cc)
      go (lead ∷ t) u p eu e =
          let (em, ea) = header_byte lead t 2 u p eu in
          unfold validate_item skip_chunk in ground arith

  pub validate_string :
      (b v o : Bytes)
      → read_string_zc b ≡ ok (v, o)
      → valid v ≡ true
      → validate_item valid f b ≡ ok o
  validate_string b v o e h =
      let e₃ = read_string_zc-read_chunk b v o e in
      let (u, p, eu) = chunk_header b 3 v o e₃ in go b u p eu e
    where
      go :
          (b : Bytes) (u : ℕ) (p : Bytes)
          → read_uint_core b 3 ≡ ok (u, p)
          → read_string_zc b ≡ ok (v, o)
          → validate_item valid f b ≡ ok o
      go [] u p eu e = absurd (unfold read_uint_core in cc)
      go (lead ∷ t) u p eu e =
          let (em, ea) = header_byte lead t 3 u p eu in
          unfold validate_item validate_text in ground arith

  pub validate_array :
      (b : Bytes) (n : ℕ) (o r : Bytes)
      → read_uint_core b 4 ≡ ok (n, o)
      → times f n o ≡ ok r
      → validate_item valid f b ≡ ok r
  validate_array [] n o r e h = absurd (unfold read_uint_core in cc)
  validate_array (lead ∷ t) n o r e h =
      let (em, ea) = header_byte lead t 4 n o e in
      unfold validate_item skip_container in ground arith

  pub validate_map :
      (b : Bytes) (n : ℕ) (o r : Bytes)
      → read_uint_core b 5 ≡ ok (n, o)
      → times (skip_pair f) n o ≡ ok r
      → validate_item valid f b ≡ ok r
  validate_map [] n o r e h = absurd (unfold read_uint_core in cc)
  validate_map (lead ∷ t) n o r e h =
      let (em, ea) = header_byte lead t 5 n o e in
      unfold validate_item skip_container in ground arith
