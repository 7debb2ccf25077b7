-- ===== src/Reader/Strict.antt =====
-- Strict decoding: a header that a strict `Reader` accepts is the one that the encoder writes.
use cbor.Base.{
  ℕ, ◌^◌, ◌<◌, ◌≡◌, ◌≢◌, refl, sym, ap, ◌∙◌, ◌↔◌, [], ◌∷◌, ◌++◌, Bool, true, false, Bytes, IsByte,
  All, ℤ, pos, negsuc, IsInt, ◌==◌, ◌||◌, if◌then◌else◌, arith,
}
use cbor.Result.{Result, ok, err, panic, stuck, ◌>>=◌}
use cbor.Wire.{append_uint_core, read_uint_core}
use cbor.Append.{append_int64}
use cbor.Ints.{read_int64}
use cbor.Ints.RoundTrip.{append_int64-pos, append_int64-negsuc, read_int64-append_int64}
use cbor.Ints.Paths.{read_int64_iff}
use cbor.Canonical.{is_non_canonical_length, demand_canonical, check_canonical}
use cbor.Canonical.Shortest.{is_non_canonical_length_iff}
use cbor.Reader.{Reader, advance, when_nonempty, next_major, check_integer, reader_int64}

passed_iff :
    (m : Result Bool) → ((m >>= λ non_canon. demand_canonical non_canon) ≡ ok tt) ↔ (m ≡ ok false)
unfolding demand_canonical
passed_iff (ok true) = (λ e. absurd (cc), λ e. absurd (cc))
passed_iff (ok false) = (λ e. refl, λ e. refl)
passed_iff (err z) = (λ e. absurd (cc), λ e. absurd (cc))
passed_iff panic = (λ e. absurd (cc), λ e. absurd (cc))
passed_iff stuck = (λ e. absurd (cc), λ e. absurd (cc))

-- A strict check that passes means the shortest form.
pub check_canonical_iff :
    (b : Bytes) (m u : ℕ) (r : Bytes)
    → All IsByte b
    → m < 8
    → read_uint_core b m ≡ ok (u, r)
    → (check_canonical true b m ≡ ok tt) ↔ (b ≡ append_uint_core [] m u ++ r)
unfolding check_canonical
check_canonical_iff b m u r h hm e =
    let (out, into) = is_non_canonical_length_iff b m u r h hm e in
    let (passed, passes) = passed_iff (is_non_canonical_length b m) in
    (λ c. out (passed c), λ c. passes (into c))

-- A method has advanced exactly where its reader came back with a value.
pub advance_iff {ℓ} :
    {A : Type ℓ} (r : Reader) (m : Result (A × Bytes)) (v : A) (rest : Bytes)
    → (advance r m ≡ (ok v, record r { buf = rest })) ↔ (m ≡ ok (v, rest))
unfolding advance
advance_iff r (ok (w, o)) v rest = (
  λ e. let left : ok w ≡ ok v = ap (λ s. s.0) e in let right : o ≡ rest = ap (λ s. s.1.buf) e in cc,
  λ e. cc,
)
advance_iff r (err z) v rest = (λ e. absurd (cc (ap (λ s. s.0) e)), λ e. absurd (cc))
advance_iff r panic v rest = (λ e. absurd (cc (ap (λ s. s.0) e)), λ e. absurd (cc))
advance_iff r stuck v rest = (λ e. absurd (cc (ap (λ s. s.0) e)), λ e. absurd (cc))

-- A check in front of a reader.
pub checked_iff {ℓ} :
    {A : Type ℓ} (c : Result (Unit {0})) (m : Result A) (a : A)
    → ((c >>= λ _. m) ≡ ok a) ↔ ((c ≡ ok tt) × (m ≡ ok a))
checked_iff (ok tt) m a = (λ e. (refl, e), λ e. e.1)
checked_iff (err z) m a = (λ e. absurd (cc), λ e. absurd (cc (e.0)))
checked_iff panic m a = (λ e. absurd (cc), λ e. absurd (cc (e.0)))
checked_iff stuck m a = (λ e. absurd (cc), λ e. absurd (cc (e.0)))

-- A buffer that a reader accepts is not empty.
pub nonempty_iff {ℓ} :
    {A : Type ℓ} (b : Bytes) (m : Result A) (a : A)
    → (m ≡ ok a → b ≢ [])
    → (when_nonempty b m ≡ ok a) ↔ (m ≡ ok a)
unfolding when_nonempty
nonempty_iff [] m a h = (λ e. absurd (cc), λ e. absurd (h e refl))
nonempty_iff (x ∷ t) m a h = (λ e. e, λ e. e)

header-major : (b : Bytes) (m u : ℕ) (r : Bytes) → read_uint_core b m ≡ ok (u, r) → next_major b ≡ m
unfolding read_uint_core next_major
header-major [] m u r e = absurd (cc)
header-major (lead ∷ t) m u r e = ground arith

read-nonempty : (b : Bytes) (v : ℤ × Bytes) → read_int64 b ≡ ok v → b ≢ []
unfolding read_int64
read-nonempty [] v e = absurd (cc)
read-nonempty (x ∷ t) v e = λ z. cc

-- The check that is made behind a header of type 0 or 1.
integer_check :
    (k m : ℕ) (s : Bool) (b : Bytes)
    → k ≡ m
    → m < 2
    → s ≡ true
    → (if k == 0 || k == 1 then check_canonical s b k else ok tt) ≡ check_canonical true b m
integer_check k m s b e h t = ground arith

module _ (r : Reader) (strict : r.strict ≡ true) (h : All IsByte r.buf) where
  -- The check of ReadInt64 where the next item is an integer of type `m`, 0 or 1.
  check_integer_iff :
      (m u : ℕ) (rest : Bytes)
      → m < 2
      → read_uint_core r.buf m ≡ ok (u, rest)
      → (check_integer r ≡ ok tt) ↔ (r.buf ≡ append_uint_core [] m u ++ rest)
  unfolding check_integer
  check_integer_iff m u rest hm e =
      let same = header-major r.buf m u rest e in
      let (out, into) = check_canonical_iff r.buf m u rest h (omega arith) e in
      let made : check_integer r ≡ check_canonical true r.buf m =
        integer_check (next_major r.buf) m r.strict r.buf same hm strict in
      (λ c. out (sym made ∙ c), λ c. made ∙ into c)

  -- The whole method: the check, then the reader, on a buffer that is not empty.
  reader_int64_steps :
      (i : ℤ) (rest : Bytes)
      → (reader_int64 r ≡ (ok i, record r { buf = rest }))
        ↔ ((check_integer r ≡ ok tt) × (read_int64 r.buf ≡ ok (i, rest)))
  unfolding reader_int64
  reader_int64_steps i rest =
      let body = check_integer r >>= λ _. read_int64 r.buf in
      let (advanced, advances) = advance_iff r (when_nonempty r.buf body) i rest in
      let (parts, whole) = checked_iff (check_integer r) (read_int64 r.buf) (i, rest) in
      let (full, filled) =
        nonempty_iff r.buf body (i, rest) (λ e. read-nonempty r.buf (i, rest) (parts e).1) in
      (λ e. parts (full (advanced e)), λ e. advances (filled (whole e)))

  -- What a strict ReadInt64 demands of its buffer, for an integer with the argument `u`.
  strict_parts :
      (m u : ℕ) (i : ℤ) (rest : Bytes)
      → m < 2
      → ((read_int64 r.buf ≡ ok (i, rest))
          ↔ ((read_uint_core r.buf m ≡ ok (u, rest)) × (u < 2 ^ 63)))
      → append_int64 [] i ≡ append_uint_core [] m u
      → (u < 2 ^ 63 → read_int64 (append_int64 [] i ++ rest) ≡ ok (i, rest))
      → (reader_int64 r ≡ (ok i, record r { buf = rest }))
        ↔ ((u < 2 ^ 63) × (r.buf ≡ append_int64 [] i ++ rest))
  strict_parts m u i rest hm (there, back) enc reads =
      let (out, into) = reader_int64_steps i rest in
      (
        λ e.
            let (c, d) = out e in
            let (core, l) = there d in
            (l, (check_integer_iff m u rest hm core).0 c ∙ ap (λ x. x ++ rest) (sym enc)),
        λ (l, s).
            let d = ap read_int64 s ∙ reads l in
            let (core, _) = there d in
            into ((check_integer_iff m u rest hm core).1 (s ∙ ap (λ x. x ++ rest) enc), d),
      )

-- In strict mode, on a buffer of bytes, ReadInt64 returns `i` and advances to `rest` exactly if
-- `i` is an int64 and the buffer is what AppendInt64 writes for it, followed by `rest`.
pub strict_int64_iff :
    (r : Reader) (i : ℤ) (rest : Bytes)
    → r.strict ≡ true
    → All IsByte r.buf
    → (reader_int64 r ≡ (ok i, record r { buf = rest }))
      ↔ (IsInt 64 i × (r.buf ≡ append_int64 [] i ++ rest))
strict_int64_iff r (pos u) rest s h =
    strict_parts r s h 0 u (pos u) rest (omega arith) (read_int64_iff r.buf u rest h).0
      (append_int64-pos [] u) (read_int64-append_int64 (pos u) rest)
strict_int64_iff r (negsuc u) rest s h =
    strict_parts r s h 1 u (negsuc u) rest (omega arith) (read_int64_iff r.buf u rest h).1
      (append_int64-negsuc [] u) (read_int64-append_int64 (negsuc u) rest)
