-- ===== src/Values.antt =====
-- `AppendInterface` of runtime/write_bytes.go, and the encoders of slices and maps. A value of type
-- `any` is a tree. A Go map is the list of its entries in the order in which `range` visits them.
-- Slices and maps of other types, which the last case takes apart by reflection, are nodes of their
-- own. Their elements say whether they, or pointers to them, are marshalers.
pub mod Items
pub mod Slices
pub mod WellFormed
pub mod Containers
pub mod Encoded
use cbor.Base.{
  ℕ, zero, suc, ◌+◌, ◌%◌, ◌^◌, List, [], ◌∷◌, ◌++◌, Bool, true, false, Bytes, ℤ, pos, negsuc, ◌==◌,
  if◌then◌else◌, length, Option, none, some,
}
use cbor.Result.{Result, ok, err, ◌>>=◌, unsupported_type}
use cbor.Wire.{append_uint_core, major_tag}
use cbor.Append.{
  append_nil, append_bool, append_string, append_bytes, append_int64, append_uint64, append_float64,
  append_float32, append_array_header, append_map_header, append_tag,
}

-- `AppendDuration`: a duration is an int64.
unfoldable pub append_duration : Bytes → ℤ → Bytes
append_duration b d = append_int64 b d

-- `AppendTime`: the seconds, the nanoseconds, and the bits of the float that stands for both.
unfoldable pub append_time : Bytes → ℤ → ℕ → ℕ → Bytes
append_time b sec nsec bits =
    if nsec == 0 then append_int64 (append_tag b 1) sec else append_float64 (append_tag b 1) bits

-- `uint32(len(v))`, then each element.
unfoldable pub append_each {ℓ} : {A : Type ℓ} → (Bytes → A → Bytes) → Bytes → List A → Bytes
append_each f b [] = b
append_each f b (x ∷ xs) = append_each f (f b x) xs

unfoldable pub append_slice {ℓ} : {A : Type ℓ} → (Bytes → A → Bytes) → Bytes → List A → Bytes
unfolding append_each
append_slice f b v = append_each f (append_array_header b (length v % 2 ^ 32)) v

unfoldable pub append_string_slice : Bytes → List Bytes → Bytes
unfolding append_slice
append_string_slice b v = append_slice append_string b v

-- An entry of a map with text keys.
unfoldable pub append_entry {ℓ} : {A : Type ℓ} → (Bytes → A → Bytes) → Bytes → Bytes × A → Bytes
append_entry f b (k, v) = f (append_string b k) v

unfoldable pub append_text_map {ℓ} :
    {A : Type ℓ} → (Bytes → A → Bytes) → Bytes → List (Bytes × A) → Bytes
unfolding append_each append_entry
append_text_map f b m = append_each (append_entry f) (append_map_header b (length m % 2 ^ 32)) m

unfoldable pub append_map_str_str : Bytes → List (Bytes × Bytes) → Bytes
unfolding append_text_map
append_map_str_str b m = append_text_map append_string b m

-- A value whose type may have the method `MarshalCBOR`.
abbrev pub Marshals : Type 0
Marshals = Option (Bytes → Result Bytes)

append_marshaler : Bytes → Marshals → Result Bytes
append_marshaler b none = err unsupported_type
append_marshaler b (some m) = m b

pub append_marshalers : Bytes → List Marshals → Result Bytes
unfolding append_marshaler
append_marshalers b [] = ok b
append_marshalers b (m ∷ ms) = append_marshaler b m >>= λ b'. append_marshalers b' ms

unfoldable pub append_slice_marshaler : Bytes → List Marshals → Result Bytes
unfolding append_marshalers
append_slice_marshaler b v = append_marshalers (append_array_header b (length v % 2 ^ 32)) v

-- A nil pointer is none.
unfoldable pub append_ptr_marshaler : Bytes → Option Marshals → Result Bytes
unfolding append_marshaler
append_ptr_marshaler b none = ok (append_nil b)
append_ptr_marshaler b (some v) = append_marshaler b v

append_uint64_entries : Bytes → List (ℕ × Marshals) → Result Bytes
unfolding append_marshaler
append_uint64_entries b [] = ok b
append_uint64_entries b ((k, v) ∷ m) =
    append_marshaler (append_uint64 b k) v >>= λ b'. append_uint64_entries b' m

unfoldable pub append_map_uint64_marshaler : Bytes → List (ℕ × Marshals) → Result Bytes
unfolding append_uint64_entries
append_map_uint64_marshaler b m = append_uint64_entries (append_map_header b (length m % 2 ^ 32)) m

append_uint64_entry : Bytes → ℕ × ℕ → Bytes
append_uint64_entry b (k, v) = append_uint64 (append_uint64 b k) v

unfoldable pub append_map_uint64_uint64 : Bytes → List (ℕ × ℕ) → Bytes
unfolding append_each append_uint64_entry
append_map_uint64_uint64 b m =
    append_each append_uint64_entry (append_map_header b (length m % 2 ^ 32)) m

-- A key of a map that `reflect` takes apart, by its kind.
pub data Key : Type 0 where
  text_key : Bytes → Key
  uint_key : ℕ → Key
  int_key : ℤ → Key
  other_key : Key

pub append_key : Bytes → Key → Result Bytes
append_key b (text_key k) = ok (append_string b k)
append_key b (uint_key k) = ok (append_uint64 b k)
append_key b (int_key k) = ok (append_int64 b k)
append_key b other_key = err unsupported_type

-- One constructor for each case of the type switch. The signed and the unsigned integer types are
-- encoded alike, whatever their width.
mutual
  pub data Value : Type 0 where
    nil : Value
    marshaler : (Bytes → Result Bytes) → Value
    text : Bytes → Value
    bool : Bool → Value
    int : ℤ → Value
    uint : ℕ → Value
    float32 : (bits : ℕ) → Value
    float64 : (bits : ℕ) → Value
    byte_string : Bytes → Value
    time : (sec : ℤ) (nsec bits : ℕ) → Value
    duration : ℤ → Value
    int_slice : List ℤ → Value
    uint_slice : List ℕ → Value
    float32_slice : List ℕ → Value
    float64_slice : List ℕ → Value
    text_slice : List Bytes → Value
    int_map : List (Bytes × ℤ) → Value
    uint_map : List (Bytes × ℕ) → Value
    float64_map : List (Bytes × ℕ) → Value
    text_map : List (Bytes × Bytes) → Value
    raw_message : Bytes → Value
    -- What `Int64` and `Float64` of a json.Number return, where they succeed.
    json_number : Option ℤ → Option ℕ → Value
    object : Fields → Value
    array : Elements → Value
    reflected_slice : List Marshals → Value
    reflected_map : Entries → Value
    -- A type that no case names, and no slice or map.
    unknown : Value

  pub data Elements : Type 0 where
    end : Elements
    element : Value → Elements → Elements

  pub data Fields : Type 0 where
    done : Fields
    field : Bytes → Value → Fields → Fields

  pub data Entries : Type 0 where
    closed : Entries
    entry : Key → Value → Entries → Entries

unfoldable pub count_elements : Elements → ℕ
count_elements end = 0
count_elements (element v es) = suc (count_elements es)

unfoldable pub count_fields : Fields → ℕ
count_fields done = 0
count_fields (field k v fs) = suc (count_fields fs)

unfoldable pub count_entries : Entries → ℕ
count_entries closed = 0
count_entries (entry k v es) = suc (count_entries es)

append_json_number : Bytes → Option ℤ → Option ℕ → Result Bytes
append_json_number b (some i) f = ok (append_int64 b i)
append_json_number b none (some bits) = ok (append_float64 b bits)
append_json_number b none none = err unsupported_type

unfoldable mutual
  unfolding append_json_number append_slice append_text_map append_marshalers append_key

  pub append_interface : Bytes → Value → Result Bytes
  append_interface b nil = ok (append_nil b)
  append_interface b (marshaler m) = m b
  append_interface b (text v) = ok (append_string b v)
  append_interface b (bool v) = ok (append_bool b v)
  append_interface b (int v) = ok (append_int64 b v)
  append_interface b (uint v) = ok (append_uint64 b v)
  append_interface b (float32 v) = ok (append_float32 b v)
  append_interface b (float64 v) = ok (append_float64 b v)
  append_interface b (byte_string v) = ok (append_bytes b v)
  append_interface b (time sec nsec bits) = ok (append_time b sec nsec bits)
  append_interface b (duration v) = ok (append_duration b v)
  append_interface b (int_slice v) = ok (append_slice append_int64 b v)
  append_interface b (uint_slice v) = ok (append_slice append_uint64 b v)
  append_interface b (float32_slice v) = ok (append_slice append_float32 b v)
  append_interface b (float64_slice v) = ok (append_slice append_float64 b v)
  append_interface b (text_slice v) = ok (append_slice append_string b v)
  append_interface b (int_map v) = ok (append_text_map append_int64 b v)
  append_interface b (uint_map v) = ok (append_text_map append_uint64 b v)
  append_interface b (float64_map v) = ok (append_text_map append_float64 b v)
  append_interface b (text_map v) = ok (append_text_map append_string b v)
  append_interface b (raw_message v) = ok (append_bytes b v)
  append_interface b (json_number i f) = append_json_number b i f
  append_interface b (object v) = append_fields (append_map_header b (count_fields v % 2 ^ 32)) v
  append_interface b (array v) =
      append_elements (append_array_header b (count_elements v % 2 ^ 32)) v
  append_interface b (reflected_slice v) =
      append_marshalers (append_array_header b (length v % 2 ^ 32)) v
  append_interface b (reflected_map v) =
      append_entries (append_map_header b (count_entries v % 2 ^ 32)) v
  append_interface b unknown = err unsupported_type

  pub append_elements : Bytes → Elements → Result Bytes
  append_elements b end = ok b
  append_elements b (element v es) = append_interface b v >>= λ b'. append_elements b' es

  -- The entries of `AppendMapStrInterface`.
  pub append_fields : Bytes → Fields → Result Bytes
  append_fields b done = ok b
  append_fields b (field k v fs) =
      append_interface (append_string b k) v >>= λ b'. append_fields b' fs

  pub append_entries : Bytes → Entries → Result Bytes
  append_entries b closed = ok b
  append_entries b (entry k v es) =
      append_key b k >>= λ b₁. append_interface b₁ v >>= λ b₂. append_entries b₂ es
