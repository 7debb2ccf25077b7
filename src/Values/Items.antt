-- ===== src/Values/Items.antt =====
-- Each encoder of a single value appends to the buffer what it would write to an empty one, and
-- that is one item.
use cbor.Base.{
  ℕ, ◌^◌, ◌<◌, ◌≡◌, refl, [], ◌++◌, append_assoc, Bytes, Bool, true, false, ℤ, pos, negsuc, IsInt,
  length, arith,
}
use cbor.Result.{ok}
use cbor.Wire.{append_uint_core, make_byte, put_uint}
use cbor.Wire.Endian.{length-put_uint}
use cbor.Wire.Core.{append_uint_core-append, read_uint_core-append_uint_core}
use cbor.Append.{
  append_nil, append_bool, append_string, append_bytes, append_int64, append_uint64, append_float64,
  append_float32,
}
use cbor.Ints.RoundTrip.{append_int64-pos, append_int64-negsuc}
use cbor.Loops.{read_chunk}
use cbor.Loops.Reads.{cut-append}
use cbor.Strings.RoundTrip.{read_string_zc-append_string, append_bytes-core}
use cbor.Tags.RoundTrip.{append_string-append, append_bytes-append}
use cbor.Tags.Numbers.Fractions.{append_int64-append}
use cbor.Skip.Codes.{
  Codes, Codes-int, Codes-bytes, Codes-text, Codes-constant, Codes-float32, Codes-float64,
}

-- An encoder, for the values that have the property `P`.
pub record Encodes (valid : Bytes → Bool) (d : ℕ) {A : Type 0} (f : Bytes → A → Bytes)
    (P : A → Type 0) : Type 0 where
  pub appends : (b : Bytes) (a : A) → f b a ≡ b ++ f [] a
  pub codes : (a : A) → P a → Codes valid d (f [] a)

abbrev pub Anything : ℕ → Type 0
Anything n = Unit {0}

abbrev pub IsUint64 : ℕ → Type 0
IsUint64 n = n < 2 ^ 64

module _ (valid : Bytes → Bool) where
  abbrev pub IsText : Bytes → Type 0
  IsText s = (length s < 2 ^ 63) × (valid s ≡ true)

-- An entry of a map with text keys.
module _ (valid : Bytes → Bool) where
  abbrev pub IsEntry : {A : Type 0} → (A → Type 0) → Bytes × A → Type 0
  IsEntry P (k, v) = IsText valid k × P v

abbrev pub IsShort : Bytes → Type 0
IsShort s = length s < 2 ^ 63

module _ (valid : Bytes → Bool) (d : ℕ) where
  Codes-int64 : (i : ℤ) → IsInt 64 i → Codes valid d (append_int64 [] i)
  Codes-int64 (pos n) h = rw (append_int64-pos [] n) (
      Codes-int valid d 0 n (append_uint_core [] 0 n) (omega arith)
        (λ rest. read_uint_core-append_uint_core 0 n rest (omega arith) (omega arith)))
  Codes-int64 (negsuc n) h = rw (append_int64-negsuc [] n) (
      Codes-int valid d 1 n (append_uint_core [] 1 n) (omega arith)
        (λ rest. read_uint_core-append_uint_core 1 n rest (omega arith) (omega arith)))

  pub int64-Encodes : Encodes valid d append_int64 (IsInt 64)
  int64-Encodes = record { appends = append_int64-append; codes = Codes-int64 }

  pub IsUint64-Encodes : Encodes valid d append_uint64 IsUint64
  unfolding append_uint64
  IsUint64-Encodes = record {
    appends = λ b n. append_uint_core-append b 0 n;
    codes = λ n h.
        Codes-int valid d 0 n (append_uint_core [] 0 n) (omega arith)
          (λ rest. read_uint_core-append_uint_core 0 n rest (omega arith) h);
  }

  pub float64-Encodes : Encodes valid d append_float64 Anything
  unfolding append_float64 make_byte
  float64-Encodes = record {
    appends = λ b n. refl;
    codes = λ n h. Codes-float64 valid d (put_uint 8 n) (length-put_uint 8 n);
  }

  pub float32-Encodes : Encodes valid d append_float32 Anything
  unfolding append_float32 make_byte
  float32-Encodes = record {
    appends = λ b n. refl;
    codes = λ n h. Codes-float32 valid d (put_uint 4 n) (length-put_uint 4 n);
  }

  pub IsText-Encodes : Encodes valid d append_string (IsText valid)
  IsText-Encodes = record {
    appends = append_string-append;
    codes = λ s (l, v).
        Codes-text valid d s (append_string [] s) v (λ rest. read_string_zc-append_string s rest l);
  }

  chunk-append_bytes :
      (s rest : Bytes) → length s < 2 ^ 63 → read_chunk 2 (append_bytes [] s ++ rest) ≡ ok (s, rest)
  unfolding read_chunk
  chunk-append_bytes s rest h =
      rw
        (
          append_bytes-core [] s,
          append_assoc (append_uint_core [] 2 (length s)) s rest,
          read_uint_core-append_uint_core 2 (length s) (s ++ rest) (omega arith) (omega arith),
        )
        (cut-append (length s) s rest refl)

  pub bytes-Encodes : Encodes valid d append_bytes IsShort
  bytes-Encodes = record {
    appends = append_bytes-append;
    codes = λ s l. Codes-bytes valid d s (append_bytes [] s) (λ rest. chunk-append_bytes s rest l);
  }

  pub Codes-nil : Codes valid d (append_nil [])
  unfolding append_nil make_byte
  Codes-nil = Codes-constant valid d 246 (omega arith) (omega arith)

  pub Codes-bool : (v : Bool) → Codes valid d (append_bool [] v)
  unfolding append_bool make_byte
  Codes-bool true = Codes-constant valid d 245 (omega arith) (omega arith)
  Codes-bool false = Codes-constant valid d 244 (omega arith) (omega arith)
