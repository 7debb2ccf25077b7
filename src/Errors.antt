-- ===== src/Errors.antt =====
-- The errors of runtime/errors.go with the text of their context: `WrapError`, `Cause`, `Resumable`
-- and the messages. `Result.Error` is the same errors as the readers and writers return them, where
-- no context has been added yet.
use Prim.Native.String.{String, ◌++◌}
use mathlib.Core.Option.{Option, none, some}
use cbor.Base.{ℕ, suc, ℤ, pos, negsuc, List, [], ◌∷◌, Bool, true, false, ltb, ◌==◌, if◌then◌else◌}
use cbor.Errors.Context.{is_empty, add_ctx}
use cbor.Result.{
  Result, ok, panic, ◌>>=◌, CborType, invalid_type, str_type, bin_type, map_type, array_type,
  float64_type, float32_type, bool_type, int_type, uint_type, nil_type, duration_type,
  extension_type, time_type,
}
pub mod Context
pub mod Wrapping
pub mod Messages

-- A value of the interface error. `foreign` is an error of another package, or of errors.New: it does
-- not implement `Error`. The reflect.Type of `unsupported` is nil or has a text.
pub data Failure : Type 0 where
  nil short recursion limit_exceeded : Failure
  foreign : String → Failure
  array_size : (wanted got : ℕ) (ctx : String) → Failure
  overflow : (value : ℤ) (failed_bitsize : ℕ) (ctx : String) → Failure
  unsigned_overflow : (value failed_bitsize : ℕ) (ctx : String) → Failure
  timestamp : (nanos field_length : ℤ) (ctx : String) → Failure
  below_zero : (value : ℤ) (ctx : String) → Failure
  mismatch : (method encoded : CborType) (ctx : String) → Failure
  prefix : (want got : ℕ) → Failure
  unsupported : (type : Option String) (ctx : String) → Failure
  wrapped : (cause : Failure) (ctx : String) → Failure

-- The texts that fmt.Sprintf makes of the context, joined.
unfoldable pub ctx_from : ℕ → String → List String → String
ctx_from idx out [] = out
ctx_from idx out (cv ∷ ctx) = ctx_from (suc idx) ((if ltb 0 idx then out ++ "/" else out) ++ cv) ctx

unfoldable pub ctx_string : List String → String
unfolding ctx_from
ctx_string ctx = ctx_from 0 "" ctx

-- `e.(contextError)`
unfoldable pub is_context_error : Failure → Bool
is_context_error (array_size wanted got ctx) = true
is_context_error (overflow value failed_bitsize ctx) = true
is_context_error (unsigned_overflow value failed_bitsize ctx) = true
is_context_error (timestamp nanos field_length ctx) = true
is_context_error (below_zero value ctx) = true
is_context_error (mismatch method encoded ctx) = true
is_context_error (unsupported type ctx) = true
is_context_error e = false

-- `withContext`, which the other errors do not have.
unfoldable pub with_context : Failure → String → Failure
unfolding add_ctx
with_context (array_size wanted got ctx) c = array_size wanted got (add_ctx ctx c)
with_context (overflow value failed_bitsize ctx) c = overflow value failed_bitsize (add_ctx ctx c)
with_context (unsigned_overflow value failed_bitsize ctx) c =
    unsigned_overflow value failed_bitsize (add_ctx ctx c)
with_context (timestamp nanos field_length ctx) c = timestamp nanos field_length (add_ctx ctx c)
with_context (below_zero value ctx) c = below_zero value c
with_context (mismatch method encoded ctx) c = mismatch method encoded (add_ctx ctx c)
with_context (unsupported type ctx) c = unsupported type (add_ctx ctx c)
with_context e c = e

unfoldable pub wrap_error : Failure → List String → Failure
unfolding is_context_error with_context ctx_string
wrap_error short ctx = short
wrap_error e ctx =
    if is_context_error e then with_context e (ctx_string ctx) else wrapped e (ctx_string ctx)

unfoldable pub cause : Failure → Failure
cause (wrapped nil ctx) = wrapped nil ctx
cause (wrapped e ctx) = e
cause e = e

-- The method Resumable, and false for an error that has none.
unfoldable pub resumable : Failure → Bool
resumable nil = false
resumable short = false
resumable recursion = false
resumable limit_exceeded = false
resumable (foreign text) = false
resumable (prefix want got) = false
resumable (wrapped e ctx) = resumable e
resumable e = true

-- `Type.String`
unfoldable pub type_string : CborType → String
type_string invalid_type = "<invalid>"
type_string str_type = "str"
type_string bin_type = "bin"
type_string map_type = "map"
type_string array_type = "array"
type_string float64_type = "float64"
type_string float32_type = "float32"
type_string bool_type = "bool"
type_string int_type = "int"
type_string uint_type = "uint"
type_string nil_type = "nil"
type_string duration_type = "duration"
type_string extension_type = "ext"
type_string time_type = "time"

-- `if ctx != "" { out += " at " + ctx }`
unfoldable pub at_ctx : String → String → String
unfolding is_empty
at_ctx out ctx = if is_empty ctx then out else out ++ (" at " ++ ctx)

-- `format` is strconv.FormatInt, with strconv.Itoa and FormatUint, in base ten; `quote` is strconv.Quote.
module _ (format : ℤ → String) (quote : String → String) where
  unfoldable pub array_size_text : ℕ → ℕ → String → String
  unfolding at_ctx
  array_size_text wanted got ctx =
      at_ctx
        ((("cbor: wanted array of size " ++ format (pos wanted)) ++ "; got ") ++ format (pos got))
        ctx

  unfoldable pub overflow_text : ℤ → ℕ → String → String
  unfolding at_ctx
  overflow_text value failed_bitsize ctx =
      at_ctx ((("cbor: " ++ format value) ++ " overflows int") ++ format (pos failed_bitsize)) ctx

  unfoldable pub unsigned_overflow_text : ℕ → ℕ → String → String
  unfolding at_ctx
  unsigned_overflow_text value failed_bitsize ctx =
      at_ctx
        ((("cbor: " ++ format (pos value)) ++ " overflows uint") ++ format (pos failed_bitsize)) ctx

  unfoldable pub timestamp_reason : ℤ → ℤ → String
  timestamp_reason (pos (suc nanos)) field_length =
      ("msgp: timestamp nanosecond field value " ++ format (pos (suc nanos)))
      ++ " exceeds maximum allows of 999999999"
  timestamp_reason nanos (pos n) =
      ("msgp: invalid timestamp field length " ++ format (pos n)) ++ " - must be 4, 8 or 12"
  timestamp_reason nanos (negsuc n) = ""

  unfoldable pub timestamp_text : ℤ → ℤ → String → String
  unfolding at_ctx timestamp_reason
  timestamp_text nanos field_length ctx = at_ctx (timestamp_reason nanos field_length) ctx

  unfoldable pub below_zero_text : ℤ → String → String
  unfolding at_ctx
  below_zero_text value ctx =
      at_ctx (("cbor: attempted to cast int " ++ format value) ++ " to unsigned") ctx

  unfoldable pub mismatch_text : CborType → CborType → String → String
  unfolding at_ctx type_string
  mismatch_text method encoded ctx =
      at_ctx
        ((("cbor: attempted to decode type " ++ quote (type_string encoded)) ++ " with method for ")
          ++ quote (type_string method))
        ctx

  unfoldable pub prefix_text : ℕ → ℕ → String
  prefix_text want got =
      (("cbor: expected major type " ++ format (pos want)) ++ " but got ") ++ format (pos got)

  -- With no type the method String is called on nil.
  unfoldable pub unsupported_text : Option String → String → Result String
  unfolding at_ctx
  unsupported_text none ctx = panic
  unsupported_text (some type) ctx =
      ok (at_ctx (("cbor: type " ++ quote type) ++ " not supported") ctx)

  -- The method Error: a call on nil panics.
  unfoldable pub error : Failure → Result String
  unfolding array_size_text overflow_text unsigned_overflow_text timestamp_text below_zero_text
      mismatch_text prefix_text unsupported_text at_ctx
  error nil = panic
  error short = ok "cbor: too few bytes left to read object"
  error recursion = ok "cbor: recursion limit reached"
  error limit_exceeded = ok "cbor: configured reader limit exceeded"
  error (foreign text) = ok text
  error (array_size wanted got ctx) = ok (array_size_text wanted got ctx)
  error (overflow value failed_bitsize ctx) = ok (overflow_text value failed_bitsize ctx)
  error (unsigned_overflow value failed_bitsize ctx) =
      ok (unsigned_overflow_text value failed_bitsize ctx)
  error (timestamp nanos field_length ctx) = ok (timestamp_text nanos field_length ctx)
  error (below_zero value ctx) = ok (below_zero_text value ctx)
  error (mismatch method encoded ctx) = ok (mismatch_text method encoded ctx)
  error (prefix want got) = ok (prefix_text want got)
  error (unsupported type ctx) = unsupported_text type ctx
  error (wrapped e ctx) = error e >>= λ text. ok (at_ctx text ctx)
