-- ===== src/Examples/Errors.antt =====
-- Errors of runtime/errors.go that are wrapped.
use cbor.Base.{[], ◌∷◌, ◌≡◌, refl}
use cbor.Errors.{array_size, foreign, wrap_error, cause, is_context_error, ctx_string, ctx_from}
use cbor.Errors.Context.{is_empty}
use cbor.Errors.Wrapping.{wrap_error-wrap_error, cause-wrap_error}

wrap_error-wrap_error_example :
    wrap_error (wrap_error (array_size 3 4 "") ("Points" ∷ "0" ∷ [])) ("Shape" ∷ [])
    ≡ wrap_error (array_size 3 4 "") ("Shape" ∷ "Points" ∷ "0" ∷ [])
unfolding is_empty ctx_string ctx_from
wrap_error-wrap_error_example =
    wrap_error-wrap_error (array_size 3 4 "") "Points" "Shape" ("0" ∷ []) [] tt refl

cause-wrap_error_example : cause (wrap_error (foreign "closed") ("Shape" ∷ [])) ≡ foreign "closed"
unfolding is_context_error
cause-wrap_error_example = cause-wrap_error (foreign "closed") ("Shape" ∷ []) refl (λ e. cc)
