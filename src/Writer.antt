-- ===== src/Writer.antt =====
-- `Writer` of runtime/writer.go: every method calls one of the buffer that it writes to.
pub mod Objects
use cbor.Base.{
  ℕ, ◌+◌, ◌≤◌, ◌≡◌, refl, sym, ap, ◌∙◌, List, [], ◌∷◌, ◌++◌, append_assoc, append-nil, Bool, Bytes,
  ℤ, length, arith,
}
use cbor.Buffer.{
  ByteBuffer, append_method, set_bytes, append_item, map_header, text, bytes, int64, uint64, bool,
  float64, float32, Item,
}
use cbor.Buffer.Refinement.{append_item-append}

pub record Writer : Type 0 where
  pub bb : ByteBuffer

unfoldable pub new_writer : ByteBuffer → Writer
new_writer bb = record { bb = bb }

unfoldable pub writer_bytes : Writer → Bytes
writer_bytes w = w.bb.content

module _ (limit : ℕ) (behind : ByteBuffer → Bytes → Bytes) where
  unfoldable pub write_map_header : Writer → ℕ → Writer
  write_map_header w sz = record { bb = append_method limit behind w.bb (map_header sz) }

  unfoldable pub write_string : Writer → Bytes → Writer
  write_string w s = record { bb = append_method limit behind w.bb (text s) }

  unfoldable pub write_bool : Writer → Bool → Writer
  write_bool w v = record { bb = append_method limit behind w.bb (bool v) }

  unfoldable pub write_int : Writer → ℤ → Writer
  write_int w v = record { bb = append_method limit behind w.bb (int64 v) }

  unfoldable pub write_int64 : Writer → ℤ → Writer
  write_int64 w v = record { bb = append_method limit behind w.bb (int64 v) }

  unfoldable pub write_uint : Writer → ℕ → Writer
  write_uint w v = record { bb = append_method limit behind w.bb (uint64 v) }

  unfoldable pub write_uint64 : Writer → ℕ → Writer
  write_uint64 w v = record { bb = append_method limit behind w.bb (uint64 v) }

  unfoldable pub write_float32 : Writer → ℕ → Writer
  write_float32 w v = record { bb = append_method limit behind w.bb (float32 v) }

  unfoldable pub write_float64 : Writer → ℕ → Writer
  write_float64 w v = record { bb = append_method limit behind w.bb (float64 v) }

  unfoldable pub write_bytes : Writer → Bytes → Writer
  write_bytes w v = record { bb = append_method limit behind w.bb (bytes v) }
