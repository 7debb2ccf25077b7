-- ===== src/Errors/Wrapping.antt =====
-- Errors that WrapError has wrapped.
use Prim.Native.String.{String, ◌++◌}
use text.Mathlib.TextLemmas.{append_assoc, nil-append, append-nil as text_nil}
use cbor.Base.{
  ltb, ltb-true, ◌++◌ as ◌++ᴸ◌, if◌then◌else◌, ℕ, suc, ℤ, List, [], ◌∷◌, true, false, ◌≡◌, ◌≢◌,
  refl, sym, ap, ◌∙◌, arith,
}
use cbor.Errors.Context.{is_empty, add_ctx, add_ctx-add_ctx}
use cbor.Errors.{
  Failure, nil, short, recursion, limit_exceeded, foreign, array_size, overflow, unsigned_overflow,
  timestamp, below_zero, mismatch, prefix, unsupported, wrapped, ctx_from, ctx_string,
  is_context_error, with_context, wrap_error, cause, resumable,
}

-- WrapError does not change whether an error is resumable.
resumable-wrap_error :
    (e : Failure) (ctx : List String) → resumable (wrap_error e ctx) ≡ resumable e
unfolding resumable wrap_error is_context_error with_context
resumable-wrap_error nil ctx = refl
resumable-wrap_error short ctx = refl
resumable-wrap_error recursion ctx = refl
resumable-wrap_error limit_exceeded ctx = refl
resumable-wrap_error (foreign text) ctx = refl
resumable-wrap_error (array_size wanted got c) ctx = refl
resumable-wrap_error (overflow value failed_bitsize c) ctx = refl
resumable-wrap_error (unsigned_overflow value failed_bitsize c) ctx = refl
resumable-wrap_error (timestamp nanos field_length c) ctx = refl
resumable-wrap_error (below_zero value c) ctx = refl
resumable-wrap_error (mismatch method encoded c) ctx = refl
resumable-wrap_error (prefix want got) ctx = refl
resumable-wrap_error (unsupported type c) ctx = refl
resumable-wrap_error (wrapped e c) ctx = refl

-- The texts behind a text, each with its separator.
ctx_from-append :
    (n : ℕ) (out : String) (xs : List String)
    → ctx_from (suc n) out xs ≡ out ++ ctx_from (suc n) "" xs
unfolding ctx_from
ctx_from-append n out [] = sym (text_nil out)
ctx_from-append n out (x ∷ xs) =
    let later : ltb 0 (suc n) ≡ true = ltb-true 0 (suc n) (omega arith) in
    rw later (
      ctx_from-append (suc n) ((out ++ "/") ++ x) xs
      ∙ ap (λ l. (l ++ x) ++ ctx_from (suc (suc n)) "" xs) refl
      ∙ ap (λ l. l ++ ctx_from (suc (suc n)) "" xs) (append_assoc out "/" x)
      ∙ append_assoc out ("/" ++ x) (ctx_from (suc (suc n)) "" xs)
      ∙ ap (λ l. out ++ l) (sym (ctx_from-append (suc n) ("/" ++ x) xs)))

ctx_from-index :
    (n m : ℕ) (out : String) (xs : List String) → ctx_from (suc n) out xs ≡ ctx_from (suc m) out xs
unfolding ctx_from
ctx_from-index n m out [] = refl
ctx_from-index n m out (x ∷ xs) =
    let here : ltb 0 (suc n) ≡ true = ltb-true 0 (suc n) (omega arith) in
    let there : ltb 0 (suc m) ≡ true = ltb-true 0 (suc m) (omega arith) in
    rw (here, there) (ctx_from-index (suc n) (suc m) ((out ++ "/") ++ x) xs)

ctx_from-texts :
    (n m : ℕ) (out : String) (xs ys : List String)
    → ctx_from (suc n) out (xs ++ᴸ ys) ≡ ctx_from (suc m) (ctx_from (suc n) out xs) ys
unfolding ctx_from
ctx_from-texts n m out [] ys = ctx_from-index n m out ys
ctx_from-texts n m out (x ∷ xs) ys =
    ctx_from-texts (suc n) m ((if ltb 0 (suc n) then out ++ "/" else out) ++ x) xs ys

-- The context of two lists, neither empty.
ctx_string-append :
    (x y : String) (xs ys : List String)
    → ctx_string (x ∷ xs ++ᴸ (y ∷ ys)) ≡ (ctx_string (x ∷ xs) ++ "/") ++ ctx_string (y ∷ ys)
unfolding ctx_string
ctx_string-append x y xs ys =
    let all = ctx_from 1 ("" ++ x) xs in
    ctx_from-texts 0 0 ("" ++ x) xs (y ∷ ys)
    ∙ ctx_from-append 1 ((all ++ "/") ++ y) ys
    ∙ append_assoc (all ++ "/") y (ctx_from 2 "" ys)
    ∙ ap (λ l. (all ++ "/") ++ (y ++ l)) (ctx_from-index 1 0 "" ys)
    ∙ ap (λ l. (all ++ "/") ++ (l ++ ctx_from 1 "" ys)) (sym (nil-append y))
    ∙ ap (λ l. (all ++ "/") ++ l) (sym (ctx_from-append 0 ("" ++ y) ys))

-- The errors that keep their context when one is added.
abbrev pub Keeps : Failure → Type 0
Keeps (array_size wanted got ctx) = Unit {0}
Keeps (overflow value failed_bitsize ctx) = Unit {0}
Keeps (unsigned_overflow value failed_bitsize ctx) = Unit {0}
Keeps (timestamp nanos field_length ctx) = Unit {0}
Keeps (mismatch method encoded ctx) = Unit {0}
Keeps (unsupported type ctx) = Unit {0}
Keeps e = ⊥

joined :
    (ctx x y : String) (xs ys : List String)
    → is_empty (ctx_string (x ∷ xs)) ≡ false
    → add_ctx (add_ctx ctx (ctx_string (x ∷ xs))) (ctx_string (y ∷ ys))
      ≡ add_ctx ctx (ctx_string (y ∷ ys ++ᴸ (x ∷ xs)))
joined ctx x y xs ys h =
    add_ctx-add_ctx ctx (ctx_string (x ∷ xs)) (ctx_string (y ∷ ys)) h
    ∙ ap (λ c. add_ctx ctx c) (sym (ctx_string-append y x ys xs))

-- Two calls of WrapError are one call with the context of the second in front of that of the
-- first, if neither call is without context and the joined text of the first context is not empty;
-- for an ArrayError, IntOverflow, UintOverflow, InvalidTimestamp, TypeError or ErrUnsupportedType.
pub wrap_error-wrap_error :
    (e : Failure) (x y : String) (xs ys : List String)
    → Keeps e
    → is_empty (ctx_string (x ∷ xs)) ≡ false
    → wrap_error (wrap_error e (x ∷ xs)) (y ∷ ys) ≡ wrap_error e (y ∷ ys ++ᴸ (x ∷ xs))
unfolding wrap_error is_context_error with_context
wrap_error-wrap_error (array_size wanted got ctx) x y xs ys k h =
    ap (λ c. array_size wanted got c) (joined ctx x y xs ys h)
wrap_error-wrap_error (overflow value failed_bitsize ctx) x y xs ys k h =
    ap (λ c. overflow value failed_bitsize c) (joined ctx x y xs ys h)
wrap_error-wrap_error (unsigned_overflow value failed_bitsize ctx) x y xs ys k h =
    ap (λ c. unsigned_overflow value failed_bitsize c) (joined ctx x y xs ys h)
wrap_error-wrap_error (timestamp nanos field_length ctx) x y xs ys k h =
    ap (λ c. timestamp nanos field_length c) (joined ctx x y xs ys h)
wrap_error-wrap_error (mismatch method encoded ctx) x y xs ys k h =
    ap (λ c. mismatch method encoded c) (joined ctx x y xs ys h)
wrap_error-wrap_error (unsupported type ctx) x y xs ys k h =
    ap (λ c. unsupported type c) (joined ctx x y xs ys h)
wrap_error-wrap_error nil x y xs ys k h = absurd k
wrap_error-wrap_error short x y xs ys k h = absurd k
wrap_error-wrap_error recursion x y xs ys k h = absurd k
wrap_error-wrap_error limit_exceeded x y xs ys k h = absurd k
wrap_error-wrap_error (foreign text) x y xs ys k h = absurd k
wrap_error-wrap_error (prefix want got) x y xs ys k h = absurd k
wrap_error-wrap_error (below_zero value ctx) x y xs ys k h = absurd k
wrap_error-wrap_error (wrapped e ctx) x y xs ys k h = absurd k

-- UintBelowZero forgets the context that it has.
wrap_error-below_zero :
    (value : ℤ) (ctx : String) (xs ys : List String)
    → wrap_error (wrap_error (below_zero value ctx) xs) ys ≡ below_zero value (ctx_string ys)
unfolding wrap_error is_context_error with_context
wrap_error-below_zero value ctx xs ys = refl

-- Cause gives back what WrapError has wrapped, if that is not nil and no error that takes the context
-- into itself.
pub cause-wrap_error :
    (e : Failure) (ctx : List String)
    → is_context_error e ≡ false
    → e ≢ nil
    → cause (wrap_error e ctx) ≡ e
unfolding wrap_error is_context_error cause
cause-wrap_error nil ctx h n = absurd (n refl)
cause-wrap_error short ctx h n = refl
cause-wrap_error recursion ctx h n = refl
cause-wrap_error limit_exceeded ctx h n = refl
cause-wrap_error (foreign text) ctx h n = refl
cause-wrap_error (prefix want got) ctx h n = refl
cause-wrap_error (wrapped e c) ctx h n = refl
cause-wrap_error (array_size wanted got c) ctx h n = absurd (cc)
cause-wrap_error (overflow value failed_bitsize c) ctx h n = absurd (cc)
cause-wrap_error (unsigned_overflow value failed_bitsize c) ctx h n = absurd (cc)
cause-wrap_error (timestamp nanos field_length c) ctx h n = absurd (cc)
cause-wrap_error (mismatch method encoded c) ctx h n = absurd (cc)
cause-wrap_error (unsupported type c) ctx h n = absurd (cc)
cause-wrap_error (below_zero value c) ctx h n = absurd (cc)
