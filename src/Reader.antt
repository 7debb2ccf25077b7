-- ===== src/Reader.antt =====
-- `Reader` of runtime/reader.go. A method takes the reader and gives its result with the reader
-- as the method leaves it. Its float methods stand in Floats.
use cbor.Base.{
  ℕ, ◌+◌, ◌-◌, ◌^◌, List, [], ◌∷◌, Bool, true, false, ◌&&◌, ◌||◌, Bytes, ℤ, ltb, ◌==◌,
  if◌then◌else◌,
}
use cbor.Result.{
  Result, ok, err, panic, stuck, ◌>>=◌, short_bytes, indefinite_forbidden, container_too_large,
}
use cbor.Wire.{
  get_major_type, get_add_info, major_uint, major_neg_int, major_bytes, major_text, major_array,
  major_map, add_info_indefinite,
}
use cbor.Ints.{read_int64, read_int, read_uint64}
use cbor.Headers.{read_array_header, read_map_header, read_array_start, read_bool}
use cbor.Strings.{read_string, read_bytes}
use cbor.Skip.{skip}
use cbor.Canonical.{check_canonical}
pub mod Strict
pub mod Faults
pub mod Containers

pub record Reader : Type 0 where
  pub buf : Bytes
  pub strict : Bool
  pub deterministic : Bool
  pub max_container : ℕ

unfoldable pub new_reader_bytes : Bytes → Reader
new_reader_bytes b = record { buf = b; strict = false; deterministic = false; max_container = 0 }

unfoldable pub set_strict_decode : Reader → Bool → Reader
set_strict_decode r strict = record r { strict = strict }

unfoldable pub set_deterministic_decode : Reader → Bool → Reader
set_deterministic_decode r det = record r { deterministic = det }

unfoldable pub set_max_container_len : Reader → ℕ → Reader
set_max_container_len r max = record r { max_container = max }

-- The end of every method: `if err != nil { return err }; r.buf = rest; return v`.
unfoldable pub advance {ℓ} : {A : Type ℓ} → Reader → Result (A × Bytes) → Result A × Reader
advance r (ok (v, rest)) = (ok v, record r { buf = rest })
advance r (err e) = (err e, r)
advance r panic = (panic, r)
advance r stuck = (stuck, r)

-- The major type of the next byte; every caller has seen that there is one.
next_major : Bytes → ℕ
next_major [] = 0
next_major (b ∷ t) = get_major_type b

is_indefinite : ℕ → Bytes → Bool
is_indefinite major [] = false
is_indefinite major (b ∷ t) = get_major_type b == major && get_add_info b == add_info_indefinite

-- `if len(r.buf) < 1 { short }`
pub when_nonempty {ℓ} : {A : Type ℓ} → Bytes → Result A → Result A
when_nonempty [] m = err short_bytes
when_nonempty (b ∷ t) m = m

-- `if r.maxContainer > 0 && sz > r.maxContainer`
within_limit : Reader → ℕ × Bytes → Result (ℕ × Bytes)
within_limit r (sz, rest) =
    if ltb 0 r.max_container && ltb r.max_container sz
    then err container_too_large
    else ok (sz, rest)

unfoldable pub reader_array_header : Reader → Result ℕ × Reader
unfolding advance when_nonempty within_limit
reader_array_header r = advance r (
    when_nonempty r.buf (
      check_canonical r.strict r.buf major_array >>= λ _.
      read_array_header r.buf >>= within_limit r))

unfoldable pub reader_array_start : Reader → Result (ℕ × Bool) × Reader
unfolding advance
reader_array_start r = advance r (
    read_array_start r.buf >>= λ (sz, indef, rest).
    if indef && r.deterministic then err indefinite_forbidden else ok ((sz, indef), rest))

unfoldable pub reader_map_header : Reader → Result ℕ × Reader
unfolding advance when_nonempty within_limit
reader_map_header r = advance r (
    when_nonempty r.buf
      (check_canonical r.strict r.buf major_map >>= λ _. read_map_header r.buf >>= within_limit r))

-- The guard of `ReadString` and `ReadBytes` against an indefinite length.
forbid_indefinite : Reader → ℕ → Result (Unit {0})
unfolding is_indefinite
forbid_indefinite r major =
    if r.deterministic && is_indefinite major r.buf then err indefinite_forbidden else ok tt

module _ (validate_utf8 : Bool) (is_utf8_valid : Bytes → Bool) where
  unfoldable pub reader_string : Reader → Result Bytes × Reader
  unfolding advance when_nonempty forbid_indefinite
  reader_string r = advance r (
      when_nonempty r.buf (
        check_canonical r.strict r.buf major_text >>= λ _.
        forbid_indefinite r major_text >>= λ _. read_string validate_utf8 is_utf8_valid r.buf))

unfoldable pub reader_bytes : Reader → Result Bytes × Reader
unfolding advance when_nonempty forbid_indefinite
reader_bytes r = advance r (
    when_nonempty r.buf (
      check_canonical r.strict r.buf major_bytes >>= λ _.
      forbid_indefinite r major_bytes >>= λ _. read_bytes r.buf))

-- `if r.strict { maj := …; if maj == majorTypeUint || maj == majorTypeNegInt { … } }`
check_integer : Reader → Result (Unit {0})
unfolding next_major
check_integer r =
    if next_major r.buf == major_uint || next_major r.buf == major_neg_int
    then check_canonical r.strict r.buf (next_major r.buf)
    else ok tt

-- `if r.strict && getMajorType(r.buf[0]) == majorTypeUint { … }`
check_unsigned : Reader → Result (Unit {0})
unfolding next_major
check_unsigned r =
    if next_major r.buf == major_uint then check_canonical r.strict r.buf major_uint else ok tt

unfoldable pub reader_int : Reader → Result ℤ × Reader
unfolding advance when_nonempty check_integer
reader_int r = advance r (when_nonempty r.buf (check_integer r >>= λ _. read_int r.buf))

unfoldable pub reader_int64 : Reader → Result ℤ × Reader
unfolding advance when_nonempty check_integer
reader_int64 r = advance r (when_nonempty r.buf (check_integer r >>= λ _. read_int64 r.buf))

-- `ReadUint` and `ReadUint64`: a uint has 64 bits here.
unfoldable pub reader_uint64 : Reader → Result ℕ × Reader
unfolding advance when_nonempty check_unsigned
reader_uint64 r = advance r (when_nonempty r.buf (check_unsigned r >>= λ _. read_uint64 r.buf))

unfoldable pub reader_skip : Reader → Result (Unit {0}) × Reader
unfolding advance
reader_skip r = advance r (skip r.buf >>= λ rest. ok (tt, rest))

unfoldable pub reader_bool : Reader → Result Bool × Reader
unfolding advance
reader_bool r = advance r (read_bool r.buf)
