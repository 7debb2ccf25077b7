-- ===== src/Buffer.antt =====
-- `ByteBuffer` of runtime/bytebufferpool.go. A size that a caller passes is not negative. The pool
-- is a sync.Pool: `pooled` is the buffer that its `Get` returned.
pub mod Growth
pub mod Calls
pub mod Refinement
pub mod InPlace
pub mod Stream
use cbor.Base.{
  ℕ, zero, suc, ◌+◌, ◌-◌, ◌*◌, ◌%◌, ◌^◌, List, [], ◌∷◌, ◌++◌, Bool, true, false, ◌&&◌, ◌||◌, Bytes,
  ℤ, ltb, leb, ◌==◌, if◌then◌else◌, length, take, drop, Option, none, some,
}
use cbor.Result.{Result, ok, panic, stuck, ◌>>=◌, Error}
use cbor.Append.{
  append_map_header, append_array_header, append_array_header_indefinite, append_break,
  append_string, append_bytes, append_int64, append_uint64, append_bool, append_float64,
  append_float32, append_tag,
}

-- What the methods AppendMapHeader … AppendTag append.
pub data Item : Type 0 where
  map_header array_header : ℕ → Item
  array_header_indefinite break : Item
  text bytes : Bytes → Item
  int64 : ℤ → Item
  uint64 : ℕ → Item
  bool : Bool → Item
  float64 float32 : (bits : ℕ) → Item
  tag : ℕ → Item

unfoldable pub append_item : Bytes → Item → Bytes
append_item b (map_header sz) = append_map_header b sz
append_item b (array_header sz) = append_array_header b sz
append_item b array_header_indefinite = append_array_header_indefinite b
append_item b break = append_break b
append_item b (text v) = append_string b v
append_item b (bytes v) = append_bytes b v
append_item b (int64 v) = append_int64 b v
append_item b (uint64 v) = append_uint64 b v
append_item b (bool v) = append_bool b v
append_item b (float64 v) = append_float64 b v
append_item b (float32 v) = append_float32 b v
append_item b (tag v) = append_tag b v

-- The slice `b`, and the bytes between its length and its capacity.
pub record ByteBuffer : Type 0 where
  pub content : Bytes
  pub spare : Bytes

unfoldable pub len : ByteBuffer → ℕ
len bb = length bb.content

unfoldable pub cap : ByteBuffer → ℕ
cap bb = length bb.content + length bb.spare

unfoldable pub reset : ByteBuffer → ByteBuffer
reset bb = record { content = []; spare = bb.content ++ bb.spare }

unfoldable pub zeros : ℕ → Bytes
zeros zero = []
zeros (suc n) = 0 ∷ zeros n

-- `c < need` for an int `c` of 64 bits, which is negative from 2^63 on.
unfoldable pub is_less : ℕ → ℕ → Bool
is_less c need = leb (2 ^ 63) c || ltb c need

-- `for c < need { c <<= 1 }`
unfoldable pub grown : ℕ → ℕ → ℕ → Option ℕ
unfolding is_less
grown zero c need = none
grown (suc k) c need =
    let more = grown k (c * 2 % 2 ^ 64) need in if is_less c need then more else some c

-- `make` panics for a capacity above `limit`. Where append allocates, the bytes behind the new
-- contents are `behind old new`.
module _ (limit : ℕ) (behind : ByteBuffer → Bytes → Bytes) where
  allocated : ByteBuffer → Option ℕ → Result ByteBuffer
  unfolding zeros
  allocated bb none = stuck
  allocated bb (some c) =
      if ltb limit c
      then panic
      else ok (record { content = bb.content; spare = zeros (c - length bb.content) })

  -- A sum above the greatest int is negative.
  unfoldable pub ensure : ByteBuffer → ℕ → Result ByteBuffer
  unfolding cap grown allocated
  ensure bb n =
      let need = length bb.content + n in
      if leb need (cap bb) || leb (2 ^ 63) need
      then ok bb
      else allocated bb (grown 64 (if cap bb == 0 then 1024 else cap bb) need)

  -- `bb.b = new`, for a slice that append made of `bb.b`.
  unfoldable pub set_bytes : ByteBuffer → Bytes → ByteBuffer
  unfolding cap
  set_bytes bb new = record {
    content = new;
    spare =
        if leb (length new) (cap bb)
        then drop (length new - length bb.content) bb.spare
        else behind bb new;
  }

  unfoldable pub extend : ByteBuffer → ℕ → Result (Bytes × ByteBuffer)
  unfolding ensure
  extend bb n = ensure bb n >>= λ bb'.
      if ltb (length bb'.spare) n
      then panic
      else ok (
        take n bb'.spare,
        record { content = bb'.content ++ take n bb'.spare; spare = drop n bb'.spare },
      )

  -- `Write` and `WriteString`
  unfoldable pub write : ByteBuffer → Bytes → Result ByteBuffer
  unfolding ensure set_bytes
  write bb p = ensure bb (length p) >>= λ bb'. ok (set_bytes bb' (bb'.content ++ p))

  unfoldable pub write_byte : ByteBuffer → ℕ → Result ByteBuffer
  unfolding ensure set_bytes
  write_byte bb c = ensure bb 1 >>= λ bb'. ok (set_bytes bb' (bb'.content ++ c ∷ []))

  unfoldable pub get_byte_buffer : ByteBuffer → ByteBuffer
  unfolding reset
  get_byte_buffer pooled = reset pooled

  unfoldable pub get_min_size : ByteBuffer → ℕ → Result ByteBuffer
  unfolding reset ensure
  get_min_size pooled size = if ltb 0 size then ensure (reset pooled) size else ok (reset pooled)

  -- The buffer that goes to the pool.
  unfoldable pub put_byte_buffer : ByteBuffer → ByteBuffer
  unfolding reset
  put_byte_buffer bb = reset bb

  -- AppendMapHeader … AppendTag
  unfoldable pub append_method : ByteBuffer → Item → ByteBuffer
  unfolding set_bytes append_item
  append_method bb it = set_bytes bb (append_item bb.content it)
