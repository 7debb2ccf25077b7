-- ===== src/Floats/Strict.antt =====
-- The float methods of a strict `Reader`.
use cbor.Base.{
  ℕ, ◌-◌, ◌^◌, ◌<◌, ◌≡◌, inl, inr, refl, sym, ap, ◌∙◌, [], ◌++◌, true, Bool-cases, ◌==◌,
  if◌then◌else◌, Bytes, arith, length, take-append, eqb_refl, length-append,
}
use cbor.Result.{ok, err, non_canonical_float, ◌>>=◌}
use cbor.Append.{append_float32, append_float64}
use cbor.Headers.{read_float32, read_float64}
use cbor.Maps.{bytes_equal}
use cbor.Maps.Distinct.{bytes_equal_iff}
use cbor.Reader.{Reader, advance}
use cbor.Floats.{append_float_canonical, check_float, reader_float32, reader_float64}
use cbor.Floats.RoundTrip.{read_float32-append_float32}
use cbor.Number.Codec.{read_float64-append}

module _ (to_float32 to_float64 : ℕ → ℕ) (ldexp : ℕ → ℕ → ℕ) where
  abbrev pub canonical : ℕ → Bytes
  canonical f = append_float_canonical to_float32 to_float64 ldexp [] f

  -- A strict check compares the encoding with the canonical one.
  check_float-append :
      (enc rest : Bytes) (v : ℕ)
      → check_float to_float32 to_float64 ldexp true (enc ++ rest) v rest
        ≡ (if bytes_equal enc (canonical v) then ok tt else err non_canonical_float)
  unfolding check_float
  check_float-append enc rest v =
      let len : length (enc ++ rest) - length rest ≡ length enc =
        omega (arith, length-append enc rest) in
      rw (len, take-append (length enc) enc rest refl)
        (elim (Bool-cases (bytes_equal enc (canonical v))) [
          | inl same ↦
              rw
                (
                  sym ((bytes_equal_iff enc (canonical v)).0 same),
                  (bytes_equal_iff enc enc).1 refl,
                  eqb_refl (length enc),
                )
                refl
          | inr other ↦ elim (Bool-cases (length (canonical v) == length enc)) [
            | inl e ↦ rw (e, other) refl
            | inr e ↦ rw (e, other) refl
          ]
        ])

  advance-check :
      (r : Reader) (enc rest : Bytes) (x v : ℕ)
      → r.strict ≡ true
      → r.buf ≡ enc ++ rest
      → advance r
          (check_float to_float32 to_float64 ldexp r.strict r.buf x rest >>= λ _. ok (v, rest))
        ≡ (if bytes_equal enc (canonical x)
            then (ok v, record r { buf = rest })
            else (err non_canonical_float, r))
  unfolding advance
  advance-check r enc rest x v strict at =
      rw (strict, at, check_float-append enc rest x)
        (elim (Bool-cases (bytes_equal enc (canonical x))) [
          | inl same ↦ rw same refl
          | inr other ↦ rw other refl
        ])

  -- In strict mode ReadFloat64 reads a float64 that stands at the start of the buffer if its nine
  -- bytes are what AppendFloatCanonical writes for it, and otherwise fails and keeps its buffer;
  -- ReadFloat32 does so with the five bytes of a float32, compared with the canonical form of the
  -- float widened.
  pub strict_floats :
      (r : Reader) (rest : Bytes) (v x : ℕ) (s : Reader)
      → v < 2 ^ 64
      → x < 2 ^ 32
      → r.strict ≡ true
      → s.strict ≡ true
      → r.buf ≡ append_float64 [] v ++ rest
      → s.buf ≡ append_float32 [] x ++ rest
      → (reader_float64 to_float32 to_float64 ldexp r ≡ (
          if bytes_equal (append_float64 [] v) (canonical v)
          then (ok v, record r { buf = rest })
          else (err non_canonical_float, r)))
        × (reader_float32 to_float32 to_float64 ldexp s ≡ (
            if bytes_equal (append_float32 [] x) (canonical (to_float64 x))
            then (ok x, record s { buf = rest })
            else (err non_canonical_float, s)))
  unfolding reader_float64 reader_float32
  strict_floats r rest v x s h k strict strict' at at' = (
    ap
          (λ m. advance r (
            m >>= λ (w, o).
            check_float to_float32 to_float64 ldexp r.strict r.buf w o >>= λ _. ok (w, o)))
          (ap read_float64 at ∙ read_float64-append v rest h)
        ∙ advance-check r (append_float64 [] v) rest v v strict at,
    ap
          (λ m. advance s (
            m >>= λ (w, o).
            check_float to_float32 to_float64 ldexp s.strict s.buf (to_float64 w) o >>= λ _.
            ok (w, o)))
          (ap read_float32 at' ∙ read_float32-append_float32 x rest k)
        ∙ advance-check s (append_float32 [] x) rest (to_float64 x) x strict' at',
  )
