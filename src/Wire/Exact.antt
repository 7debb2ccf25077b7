-- ===== src/Wire/Exact.antt =====
-- A number's bytes are determined: what `take_uint` reads, `put_uint` writes.
use cbor.Base.{
  ℕ, suc, ◌+◌, ◌*◌, ◌/◌, ◌%◌, ◌≡◌, sym, ap, ◌∙◌, [], ◌∷◌, ◌++◌, append_assoc, append-nil, Bytes,
  IsByte, All, length, take, length-take, take-append-drop, arith,
}
use cbor.Result.{ok}
use cbor.Wire.{put_uint, uint_from, be_uint, take_uint}
use cbor.Wire.Endian.{All-take}

-- Bytes are what `put_uint` makes of their value.
put_uint-uint_from :
    (k acc : ℕ) (bs : Bytes)
    → All IsByte bs
    → put_uint (k + length bs) (uint_from acc bs) ≡ put_uint k acc ++ bs
unfolding uint_from
put_uint-uint_from k acc [] h =
    ap (λ (n : ℕ). put_uint n acc) (omega arith) ∙ sym (append-nil (put_uint k acc))
put_uint-uint_from k acc (b ∷ bs) (hb, hs) =
    ap (λ (n : ℕ). put_uint n (uint_from (acc * 256 + b) bs)) (omega arith)
    ∙ put_uint-uint_from (suc k) (acc * 256 + b) bs hs
    ∙ ap (λ l. l ++ bs) (last_byte k acc b hb)
    ∙ append_assoc (put_uint k acc) (b ∷ []) bs
  where
    last_byte :
        (k acc b : ℕ) → IsByte b → put_uint (suc k) (acc * 256 + b) ≡ put_uint k acc ++ b ∷ []
    last_byte k acc b h =
        unfold put_uint in
        let q : (acc * 256 + b) / 256 ≡ acc = omega arith in
        let m : (acc * 256 + b) % 256 ≡ b = omega arith in rw (q, m)

-- Reading an argument and writing it again gives the bytes back.
pub take_uint_bytes :
    (n : ℕ) (t : Bytes) (u : ℕ) (r : Bytes)
    → All IsByte t
    → take_uint n t ≡ ok (u, r)
    → t ≡ put_uint n u ++ r
unfolding take_uint be_uint put_uint
take_uint_bytes n t u r h e = ground (
  arith,
  length-take n t,
  take-append-drop n t,
  put_uint-uint_from 0 0 (take n t) (All-take n t h),
)
