-- ===== src/Examples/Diag.antt =====
-- Diagnostic notation at concrete inputs.
use cbor.Base.{
  ℕ, zero, suc, ◌+◌, ◌/◌, ◌%◌, ◌≡◌, [], ◌∷◌, ◌++◌, true, Bytes, ℤ, pos, negsuc, ltb, if◌then◌else◌,
  arith,
}
use cbor.Result.{ok}
use cbor.Append.{append_int64}
use cbor.Diag.{Formats, diag_bytes, format_float}
use cbor.Diag.Trim.{format_float-append}
use cbor.Diag.Integers.{diag_bytes-append_int64}

digits : ℕ → ℕ → Bytes
digits zero n = []
digits (suc k) n =
    let more = digits k (n / 10) in if ltb n 10 then (48 + n) ∷ [] else more ++ (48 + n % 10) ∷ []

decimal_text : ℤ → Bytes
decimal_text (pos n) = digits 20 n
decimal_text (negsuc n) = 45 ∷ digits 20 (n + 1)

-- Only integers are printed as Go does.
abbrev plain_formats : Formats
plain_formats = record {
  decimal = decimal_text;
  quoted = λ s. s;
  hex = λ s. s;
  fixed64 = λ f. [];
  general64 = λ f. [];
  fixed32 = λ f. [];
  general32 = λ f. [];
}

diag_bytes-append_int64_example :
    diag_bytes plain_formats
      (λ s m. 0)
      (λ f. f)
      true
      (λ s. true)
      (append_int64 [] (negsuc 499) ++ 7 ∷ [])
    ≡ ok (decimal_text (negsuc 499), 7 ∷ [])
diag_bytes-append_int64_example =
    diag_bytes-append_int64 plain_formats (λ s m. 0) (λ f. f) true (λ s. true) (negsuc 499) (7 ∷ [])
      (omega arith)

-- 100 and 10, whose fixed texts are "100" and "10".
format_float-append_example :
    format_float (49 ∷ 48 ∷ 48 ∷ []) [] 0x4059000000000000
    ≡ format_float (49 ∷ 48 ∷ []) [] 0x4024000000000000
format_float-append_example =
    format_float-append (49 ∷ 48 ∷ []) [] [] 0x4024000000000000 0x4059000000000000 (omega arith)
      (omega arith)
