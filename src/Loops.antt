-- ===== src/Loops.antt =====
-- The loops that the decoders of runtime/read_bytes.go and runtime/validate.go share: cutting a
-- payload off, `for i := 0; i < sz; i++`, and the loop of an indefinite-length item that ends at
-- a break byte. A loop that ends at a break runs on fuel; each round reads a byte at least, so
-- one more than the length of the input is enough.
pub mod Reads
pub mod Rounds
use cbor.Base.{
  ℕ, zero, suc, List, [], ◌∷◌, ◌++◌, Bytes, ltb, ◌==◌, if◌then◌else◌, length, take, drop,
}
use cbor.Result.{Result, ok, err, stuck, ◌>>=◌, short_bytes}
use cbor.Wire.{make_byte, read_uint_core, major_simple}
use cbor.Append.{simple_break}

-- `if len(o) < sz { short }`, then `o[:sz]` and `o[sz:]`.
unfoldable pub cut : ℕ → Bytes → Result (Bytes × Bytes)
cut sz o = if ltb (length o) sz then err short_bytes else ok (take sz o, drop sz o)

-- A definite-length string of the major type, and what follows it.
unfoldable pub read_chunk : ℕ → Bytes → Result (Bytes × Bytes)
unfolding cut
read_chunk major p = read_uint_core p major >>= λ (sz, o). cut sz o

unfoldable pub times : (Bytes → Result Bytes) → ℕ → Bytes → Result Bytes
times f zero o = ok o
times f (suc n) o = f o >>= λ p. times f n p

unfoldable pub until_break : (Bytes → Result Bytes) → ℕ → Bytes → Result Bytes
until_break f zero o = stuck
until_break f (suc k) [] = err short_bytes
until_break f (suc k) (x ∷ t) =
    if x == make_byte major_simple simple_break
    then ok t
    else (f (x ∷ t) >>= λ p. until_break f k p)

-- The same two loops where each round also updates a state.
module _ {ℓ} {S : Type ℓ} where
  unfoldable pub times_with : (S → Bytes → Result (S × Bytes)) → ℕ → S → Bytes → Result (S × Bytes)
  times_with f zero s o = ok (s, o)
  times_with f (suc n) s o = f s o >>= λ (s', p). times_with f n s' p

  unfoldable pub until_break_with :
      (S → Bytes → Result (S × Bytes)) → ℕ → S → Bytes → Result (S × Bytes)
  until_break_with f zero s o = stuck
  until_break_with f (suc k) s [] = err short_bytes
  until_break_with f (suc k) s (x ∷ t) =
      if x == make_byte major_simple simple_break
      then ok (s, t)
      else (f s (x ∷ t) >>= λ (s', p). until_break_with f k s' p)

-- A round that appends a chunk to what was read.
add_chunk : (Bytes → Result (Bytes × Bytes)) → Bytes → Bytes → Result (Bytes × Bytes)
add_chunk f out p = f p >>= λ (c, q). ok (out ++ c, q)

-- The chunks of an indefinite-length string, up to its break.
unfoldable pub collect : (Bytes → Result (Bytes × Bytes)) → Bytes → Result (Bytes × Bytes)
unfolding add_chunk
collect f t = until_break_with (add_chunk f) (suc (length t)) [] t
