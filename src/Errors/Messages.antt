-- ===== src/Errors/Messages.antt =====
-- The messages of errors that WrapError has wrapped.
use Prim.Native.String.{String}
use mathlib.Core.Option.{none, some}
use cbor.Base.{ℤ, List, ◌≡◌, ◌↔◌, refl}
use cbor.Result.{Result, ok, err, panic, stuck, ◌>>=◌}
use cbor.Errors.{
  Failure, nil, short, recursion, limit_exceeded, foreign, array_size, overflow, unsigned_overflow,
  timestamp, below_zero, mismatch, prefix, unsupported, wrapped, is_context_error, with_context,
  wrap_error, ctx_string, at_ctx, error, unsupported_text,
}

-- A message with a context is one where there is a message.
then_ok_iff :
    (m : Result String) (f : String → String) → ((m >>= λ t. ok (f t)) ≡ panic) ↔ (m ≡ panic)
then_ok_iff (ok t) f = (λ e. absurd (cc), λ e. absurd (cc))
then_ok_iff (err z) f = (λ e. absurd (cc), λ e. absurd (cc))
then_ok_iff panic f = (λ e. refl, λ e. refl)
then_ok_iff stuck f = (λ e. absurd (cc), λ e. absurd (cc))

module _ (format : ℤ → String) (quote : String → String) where
  -- The method Error panics on what WrapError returns exactly if it panics on the error itself.
  error-wrap_error_iff :
      (e : Failure) (ctx : List String)
      → (error format quote (wrap_error e ctx) ≡ panic) ↔ (error format quote e ≡ panic)
  unfolding wrap_error is_context_error with_context error unsupported_text
  error-wrap_error_iff short ctx = (λ e. e, λ e. e)
  error-wrap_error_iff nil ctx =
      then_ok_iff (error format quote nil) (λ t. at_ctx t (ctx_string ctx))
  error-wrap_error_iff recursion ctx =
      then_ok_iff (error format quote recursion) (λ t. at_ctx t (ctx_string ctx))
  error-wrap_error_iff limit_exceeded ctx =
      then_ok_iff (error format quote limit_exceeded) (λ t. at_ctx t (ctx_string ctx))
  error-wrap_error_iff (foreign text) ctx =
      then_ok_iff (error format quote (foreign text)) (λ t. at_ctx t (ctx_string ctx))
  error-wrap_error_iff (prefix want got) ctx =
      then_ok_iff (error format quote (prefix want got)) (λ t. at_ctx t (ctx_string ctx))
  error-wrap_error_iff (wrapped e c) ctx =
      then_ok_iff (error format quote (wrapped e c)) (λ t. at_ctx t (ctx_string ctx))
  error-wrap_error_iff (array_size wanted got c) ctx = (λ e. absurd (cc), λ e. absurd (cc))
  error-wrap_error_iff (overflow value failed_bitsize c) ctx = (λ e. absurd (cc), λ e. absurd (cc))
  error-wrap_error_iff (unsigned_overflow value failed_bitsize c) ctx =
      (λ e. absurd (cc), λ e. absurd (cc))
  error-wrap_error_iff (timestamp nanos field_length c) ctx = (λ e. absurd (cc), λ e. absurd (cc))
  error-wrap_error_iff (below_zero value c) ctx = (λ e. absurd (cc), λ e. absurd (cc))
  error-wrap_error_iff (mismatch method encoded c) ctx = (λ e. absurd (cc), λ e. absurd (cc))
  error-wrap_error_iff (unsupported none c) ctx = (λ e. refl, λ e. refl)
  error-wrap_error_iff (unsupported (some type) c) ctx = (λ e. absurd (cc), λ e. absurd (cc))
