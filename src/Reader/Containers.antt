-- ===== src/Reader/Containers.antt =====
-- The headers of containers that a strict `Reader` of runtime/reader.go accepts.
use cbor.Base.{
  ℕ, ◌^◌, ◌<◌, ◌≤◌, ◌≡◌, ◌≢◌, ◌↔◌, sym, ap, ◌∙◌, [], ◌∷◌, ◌++◌, true, Bytes, IsByte, All, arith,
}
use cbor.Result.{Result, ok, err, panic, stuck, ◌>>=◌}
use cbor.Wire.{append_uint_core, read_uint_core}
use cbor.Wire.Core.{read_uint_core-append_uint_core}
use cbor.Append.{append_array_header, append_map_header}
use cbor.Headers.{read_array_header, read_map_header}
use cbor.Headers.Paths.{read_array_header_iff, read_map_header_iff}
use cbor.Canonical.{check_canonical}
use cbor.Reader.{
  Reader, advance, when_nonempty, within_limit, reader_array_header, reader_map_header,
}
use cbor.Reader.Strict.{advance_iff, checked_iff, nonempty_iff, check_canonical_iff}

-- The limit of the reader, where there is one.
abbrev pub Allows : ℕ → ℕ → Type 0
Allows limit n = 0 < limit → n ≤ limit

within-one :
    (r : Reader) (u n : ℕ) (o rest : Bytes)
    → (within_limit r (u, o) ≡ ok (n, rest))
      ↔ ((◌≡◌ {A = Result (ℕ × Bytes)} (ok (u, o)) (ok (n, rest))) × Allows r.max_container n)
unfolding within_limit
within-one r u n o rest = (λ e. ground arith, λ e. ground arith)

within_limit_iff :
    (r : Reader) (m : Result (ℕ × Bytes)) (n : ℕ) (rest : Bytes)
    → ((m >>= within_limit r) ≡ ok (n, rest)) ↔ ((m ≡ ok (n, rest)) × Allows r.max_container n)
within_limit_iff r (ok (u, o)) n rest = within-one r u n o rest
within_limit_iff r (err z) n rest = (λ e. absurd (cc), λ e. absurd (cc (e.0)))
within_limit_iff r panic n rest = (λ e. absurd (cc), λ e. absurd (cc (e.0)))
within_limit_iff r stuck n rest = (λ e. absurd (cc), λ e. absurd (cc (e.0)))

header-nonempty : (b : Bytes) (m : ℕ) (v : ℕ × Bytes) → read_uint_core b m ≡ ok v → b ≢ []
unfolding read_uint_core
header-nonempty [] m v e = absurd (cc)
header-nonempty (x ∷ t) m v e = λ z. cc

-- The two header methods; `read` is the reader that they call.
module _ (r : Reader) (strict : r.strict ≡ true) (h : All IsByte r.buf) (m n : ℕ) (rest : Bytes)
    (hm : m < 8) where
  abbrev header_method : (Bytes → Result (ℕ × Bytes)) → Result ℕ × Reader
  header_method read = advance r (
      when_nonempty r.buf (check_canonical r.strict r.buf m >>= λ _. read r.buf >>= within_limit r))

  header_method_iff :
      (read : Bytes → Result (ℕ × Bytes))
      → ((b : Bytes)
          → All IsByte b
          → (read b ≡ ok (n, rest)) ↔ ((read_uint_core b m ≡ ok (n, rest)) × (n < 2 ^ 32)))
      → (header_method read ≡ (ok n, record r { buf = rest }))
        ↔ ((n < 2 ^ 32) × Allows r.max_container n × (r.buf ≡ append_uint_core [] m n ++ rest))
  header_method_iff read reads =
      let body = check_canonical r.strict r.buf m >>= λ _. read r.buf >>= within_limit r in
      let (advanced, advances) = advance_iff r (when_nonempty r.buf body) n rest in
      let (parts, whole) =
        checked_iff (check_canonical r.strict r.buf m) (read r.buf >>= within_limit r) (n, rest) in
      let (within, limits) = within_limit_iff r (read r.buf) n rest in
      let (there, back) = reads r.buf h in
      let core : body ≡ ok (n, rest) → read_uint_core r.buf m ≡ ok (n, rest) =
        λ e. (there (within (parts e).1).0).0 in
      let (full, filled) =
        nonempty_iff r.buf body (n, rest) (λ e. header-nonempty r.buf m (n, rest) (core e)) in
      let check : check_canonical r.strict r.buf m ≡ check_canonical true r.buf m =
        ap (λ s. check_canonical s r.buf m) strict in
      (
        λ e.
            let b = full (advanced e) in
            (
              (there (within (parts b).1).0).1,
              (within (parts b).1).1,
              (check_canonical_iff r.buf m n rest h hm (core b)).0 (sym check ∙ (parts b).0),
            ),
        λ (small, allowed, s).
            let c : read_uint_core r.buf m ≡ ok (n, rest) =
              ap (λ b. read_uint_core b m) s
              ∙ read_uint_core-append_uint_core m n rest hm (omega arith) in
            advances (
              filled (
                whole (
                  check ∙ (check_canonical_iff r.buf m n rest h hm c).1 s,
                  limits (back (c, small), allowed),
                ))),
      )

-- In strict mode, on a buffer of bytes, ReadArrayHeader returns `n` and advances to `rest` exactly
-- if `n` is a uint32 within the limit for containers and the buffer is what AppendArrayHeader
-- writes for it, followed by `rest`; and ReadMapHeader likewise with AppendMapHeader.
pub strict_headers_iff :
    (r : Reader) (n : ℕ) (rest : Bytes)
    → r.strict ≡ true
    → All IsByte r.buf
    → ((reader_array_header r ≡ (ok n, record r { buf = rest }))
        ↔ ((n < 2 ^ 32) × Allows r.max_container n × (r.buf ≡ append_array_header [] n ++ rest)))
      × ((reader_map_header r ≡ (ok n, record r { buf = rest }))
          ↔ ((n < 2 ^ 32) × Allows r.max_container n × (r.buf ≡ append_map_header [] n ++ rest)))
unfolding reader_array_header reader_map_header append_array_header append_map_header
strict_headers_iff r n rest s h = (
  header_method_iff r s h 4 n rest (omega arith) read_array_header
      (λ b k. read_array_header_iff b n rest k),
  header_method_iff r s h 5 n rest (omega arith) read_map_header
      (λ b k. read_map_header_iff b n rest k),
)
