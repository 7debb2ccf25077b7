-- ===== src/Buffer/Refinement.antt =====
-- Sequences of calls on a ByteBuffer, as appends to the bytes that it holds.
use cbor.Base.{ℕ, ◌+◌, ◌*◌, ◌^◌, ◌≤◌, ◌≡◌, refl, List, [], ◌∷◌, ◌++◌, true, false, Bytes, length}
use cbor.Result.{Result, ok, ◌>>=◌}
use cbor.Wire.Core.{append_uint_core-append}
use cbor.Append.{
  append_map_header, append_array_header, append_array_header_indefinite, append_break,
  append_uint64, append_bool, append_float64, append_float32, append_tag,
}
use cbor.Tags.RoundTrip.{append_string-append, append_bytes-append}
use cbor.Tags.Numbers.Fractions.{append_int64-append}
use cbor.Buffer.{
  ByteBuffer, ensure, write, write_byte, reset, append_method, Item, append_item, map_header,
  array_header, array_header_indefinite, break, text, bytes, int64, uint64, bool, float64, float32,
  tag,
}

-- An item does not depend on the buffer that it is appended to.
pub append_item-append : (b : Bytes) (it : Item) → append_item b it ≡ b ++ append_item [] it
unfolding append_item append_map_header append_array_header append_array_header_indefinite
    append_break append_uint64 append_bool append_float64 append_float32 append_tag
append_item-append b (map_header sz) = append_uint_core-append b 5 sz
append_item-append b (array_header sz) = append_uint_core-append b 4 sz
append_item-append b array_header_indefinite = refl
append_item-append b break = refl
append_item-append b (text v) = append_string-append b v
append_item-append b (bytes v) = append_bytes-append b v
append_item-append b (int64 v) = append_int64-append b v
append_item-append b (uint64 v) = append_uint_core-append b 0 v
append_item-append b (bool true) = refl
append_item-append b (bool false) = refl
append_item-append b (float64 v) = refl
append_item-append b (float32 v) = refl
append_item-append b (tag v) = append_uint_core-append b 6 v

-- The calls, as they act on a buffer and on the bytes alone.
pub data Call : Type 0 where
  writes : Bytes → Call
  writes_byte : ℕ → Call
  ensures : ℕ → Call
  resets : Call
  appends : Item → Call

abbrev pub appended : Call → Bytes
appended (writes p) = p
appended (writes_byte c) = c ∷ []
appended (ensures n) = []
appended resets = []
appended (appends it) = append_item [] it

abbrev pub act : Bytes → Call → Bytes
act s resets = []
act s c = s ++ appended c

abbrev pub acts : Bytes → List Call → Bytes
acts s [] = s
acts s (c ∷ cs) = acts (act s c) cs

-- The room that a call asks Ensure for.
abbrev pub wanted : Call → ℕ
wanted (writes p) = length p
wanted (writes_byte c) = 1
wanted (ensures n) = n
wanted resets = 0
wanted (appends it) = 0

-- Every call asks for at most 2^62 bytes, and half of what `make` allocates.
abbrev pub Modest : ℕ → Bytes → List Call → Type 0
Modest limit s [] = Unit {0}
Modest limit s (c ∷ cs) =
    (length s + wanted c ≤ 2 ^ 62) × (2 * (length s + wanted c) ≤ limit) × Modest limit (act s c) cs

module _ (limit : ℕ) (behind : ByteBuffer → Bytes → Bytes) where
  abbrev pub step : ByteBuffer → Call → Result ByteBuffer
  step bb (writes p) = write limit behind bb p
  step bb (writes_byte c) = write_byte limit behind bb c
  step bb (ensures n) = ensure limit behind bb n
  step bb resets = ok (reset bb)
  step bb (appends it) = ok (append_method limit behind bb it)

  abbrev pub run : ByteBuffer → List Call → Result ByteBuffer
  run bb [] = ok bb
  run bb (c ∷ cs) = step bb c >>= λ bb'. run bb' cs
