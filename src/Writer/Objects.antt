-- ===== src/Writer/Objects.antt =====
-- A Writer and AppendInterface write the same maps.
use cbor.Base.{ℕ, suc, ◌%◌, ◌^◌, ◌≡◌, refl, ap, ◌∙◌, List, [], ◌∷◌, Bool, Bytes, ℤ, length}
use cbor.Result.{ok, ◌>>=◌}
use cbor.Append.{append_map_header, append_string}
use cbor.Values.{Value, Fields, done, field, object, append_interface, append_fields, count_fields}
use cbor.Values as values
use cbor.Buffer.{ByteBuffer, append_method, set_bytes, append_item}
use cbor.Writer.{
  Writer, writer_bytes, write_map_header, write_string, write_bool, write_int, write_int64,
  write_uint, write_uint64, write_float32, write_float64, write_bytes,
}

-- What a Writer writes as the value of a field.
pub data Scalar : Type 0 where
  text bytes : Bytes → Scalar
  bool : Bool → Scalar
  int int64 : ℤ → Scalar
  uint uint64 : ℕ → Scalar
  float32 float64 : (bits : ℕ) → Scalar

abbrev pub as_value : Scalar → Value
as_value (text v) = values.text v
as_value (bytes v) = values.byte_string v
as_value (bool v) = values.bool v
as_value (int v) = values.int v
as_value (int64 v) = values.int v
as_value (uint v) = values.uint v
as_value (uint64 v) = values.uint v
as_value (float32 v) = values.float32 v
as_value (float64 v) = values.float64 v

abbrev pub as_fields : List (Bytes × Scalar) → Fields
as_fields [] = done
as_fields ((k, v) ∷ fs) = field k (as_value v) (as_fields fs)

module _ (limit : ℕ) (behind : ByteBuffer → Bytes → Bytes) where
  abbrev pub write_scalar : Writer → Scalar → Writer
  write_scalar w (text v) = write_string limit behind w v
  write_scalar w (bytes v) = write_bytes limit behind w v
  write_scalar w (bool v) = write_bool limit behind w v
  write_scalar w (int v) = write_int limit behind w v
  write_scalar w (int64 v) = write_int64 limit behind w v
  write_scalar w (uint v) = write_uint limit behind w v
  write_scalar w (uint64 v) = write_uint64 limit behind w v
  write_scalar w (float32 v) = write_float32 limit behind w v
  write_scalar w (float64 v) = write_float64 limit behind w v

  abbrev pub write_fields : Writer → List (Bytes × Scalar) → Writer
  write_fields w [] = w
  write_fields w ((k, v) ∷ fs) = write_fields (write_scalar (write_string limit behind w k) v) fs

  abbrev pub write_object : Writer → List (Bytes × Scalar) → Writer
  write_object w fs = write_fields (write_map_header limit behind w (length fs % 2 ^ 32)) fs

  scalar-append_interface :
      (w : Writer) (v : Scalar)
      → append_interface (writer_bytes w) (as_value v) ≡ ok (writer_bytes (write_scalar w v))
  unfolding append_interface writer_bytes write_string write_bytes write_bool write_int write_int64
      write_uint write_uint64 write_float32 write_float64 append_method set_bytes append_item
  scalar-append_interface w (text v) = refl
  scalar-append_interface w (bytes v) = refl
  scalar-append_interface w (bool v) = refl
  scalar-append_interface w (int v) = refl
  scalar-append_interface w (int64 v) = refl
  scalar-append_interface w (uint v) = refl
  scalar-append_interface w (uint64 v) = refl
  scalar-append_interface w (float32 v) = refl
  scalar-append_interface w (float64 v) = refl

  key-append :
      (w : Writer) (k : Bytes)
      → append_string (writer_bytes w) k ≡ writer_bytes (write_string limit behind w k)
  unfolding writer_bytes write_string append_method set_bytes append_item
  key-append w k = refl

  fields-append_fields :
      (w : Writer) (fs : List (Bytes × Scalar))
      → append_fields (writer_bytes w) (as_fields fs) ≡ ok (writer_bytes (write_fields w fs))
  fields-append_fields w [] = unfold append_interface in refl
  fields-append_fields w ((k, v) ∷ fs) =
      let w1 = write_string limit behind w k in
      one (writer_bytes w) k (as_value v) (as_fields fs)
      ∙ ap (λ b. append_interface b (as_value v) >>= λ b'. append_fields b' (as_fields fs))
          (key-append w k)
      ∙ ap (λ m. m >>= λ b'. append_fields b' (as_fields fs)) (scalar-append_interface w1 v)
      ∙ fields-append_fields (write_scalar w1 v) fs
    where
      one :
          (b k : Bytes) (v : Value) (fs : Fields)
          → append_fields b (field k v fs)
            ≡ (append_interface (append_string b k) v >>= λ b'. append_fields b' fs)
      one b k v fs = unfold append_interface in refl

  count-as_fields : (fs : List (Bytes × Scalar)) → count_fields (as_fields fs) ≡ length fs
  unfolding count_fields
  count-as_fields [] = refl
  count-as_fields ((k, v) ∷ fs) = ap (λ n. suc n) (count-as_fields fs)

  -- The header of a map and its fields, written one after another by a Writer, are what AppendInterface
  -- appends for the map with these fields in this order.
  pub write_object-append_interface :
      (w : Writer) (fs : List (Bytes × Scalar))
      → append_interface (writer_bytes w) (object (as_fields fs))
        ≡ ok (writer_bytes (write_object w fs))
  write_object-append_interface w fs =
      map_header (writer_bytes w) (as_fields fs)
      ∙ ap (λ n. append_fields (append_map_header (writer_bytes w) (n % 2 ^ 32)) (as_fields fs))
          (count-as_fields fs)
      ∙ ap (λ b. append_fields b (as_fields fs)) (header-append w (length fs % 2 ^ 32))
      ∙ fields-append_fields (write_map_header limit behind w (length fs % 2 ^ 32)) fs
    where
      map_header :
          (b : Bytes) (fs : Fields)
          → append_interface b (object fs)
            ≡ append_fields (append_map_header b (count_fields fs % 2 ^ 32)) fs
      map_header b fs = unfold append_interface in refl

      header-append :
          (w : Writer) (n : ℕ)
          → append_map_header (writer_bytes w) n ≡ writer_bytes (write_map_header limit behind w n)
      header-append w n =
          unfold writer_bytes write_map_header append_method set_bytes append_item in refl
