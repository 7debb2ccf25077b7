-- ===== src/Raw.antt =====
-- `Raw` and `IsNil` of runtime/read_bytes.go: one encoded item that is kept as it is.
use cbor.Base.{
  ℕ, ◌≡◌, ◌≢◌, refl, sym, ap, ◌∙◌, [], ◌∷◌, ◌++◌, append-nil, length-append, Bytes, Bool, true,
  false, ◌==◌, if◌then◌else◌, length, arith, Bool-cases, inl, inr,
}
use cbor.Result.{Result, ok, ◌>>=◌, >>=-eq-ok}
use cbor.Wire.{make_byte, major_simple}
use cbor.Append.{append_nil, simple_null}
use cbor.Skip.{skip, recursion_limit}
use cbor.Skip.Codes.{Codes-constant}
use cbor.Skip.Walk.{skip_takes_item}
use cbor.Sequence.{segment}
use cbor.Sequence.Split.{segment-append, IsItem}

unfoldable pub is_nil : Bytes → Bool
is_nil [] = false
is_nil (lead ∷ t) = lead == make_byte major_simple simple_null

unfoldable pub raw_marshal : Bytes → Bytes → Bytes
raw_marshal b [] = append_nil b
raw_marshal b (x ∷ r) = b ++ x ∷ r

-- The item without what follows it; a nil is kept as nothing.
unfoldable pub raw_unmarshal : Bytes → Result (Bytes × Bytes)
raw_unmarshal b = skip b >>= λ out. ok (if is_nil (segment b out) then [] else segment b out, out)

skip-nil : (t : Bytes) → skip (246 ∷ t) ≡ ok t
unfolding skip
skip-nil t = (Codes-constant (λ s. true) recursion_limit 246 (omega arith) (omega arith)).skipped t

-- Nothing but the one byte is a nil.
nil-alone : (x : ℕ) (p out : Bytes) → (x == 246) ≡ true → skip (x ∷ (p ++ out)) ≡ ok out → p ≡ []
nil-alone x [] out h e = refl
nil-alone x (y ∷ p) out h e =
    let same : x ≡ 246 = ground arith in
    let both : ◌≡◌ {A = Result Bytes} (ok ((y ∷ p) ++ out)) (ok out) =
      sym (skip-nil ((y ∷ p) ++ out))
      ∙ ap (λ (z : ℕ). skip (z ∷ ((y ∷ p) ++ out))) (sym same)
      ∙ e in
    let shorter : (y ∷ p) ++ out ≡ out = cc in
    absurd (omega (arith, ap length shorter, length-append p out))

-- An item that is kept, and written again.
abbrev kept : Bytes → Bytes
kept item = if is_nil item then [] else item

kept-marshal :
    (x : ℕ) (p out : Bytes)
    → skip (x ∷ (p ++ out)) ≡ ok out
    → raw_marshal [] (kept (x ∷ p)) ++ out ≡ x ∷ (p ++ out)
unfolding raw_marshal is_nil append_nil make_byte
kept-marshal x p out e = elim (Bool-cases (x == 246)) [
  | inl h ↦
      let none : p ≡ [] = nil-alone x p out h e in let same : x ≡ 246 = ground arith in rw h (cc)
  | inr h ↦ rw h refl
]

-- What Raw.UnmarshalCBOR keeps, Raw.MarshalCBOR writes back: the bytes of the input up to the rest.
pub raw_marshal-raw_unmarshal :
    (b r out : Bytes) → raw_unmarshal b ≡ ok (r, out) → raw_marshal [] r ++ out ≡ b
unfolding raw_unmarshal
raw_marshal-raw_unmarshal b r out e =
    let (o, es, ek) = >>=-eq-ok (skip b) _ e in
    let (x, p, s, m) = skip_takes_item b o es in
    let cut : segment b o ≡ x ∷ p = ap (λ l. segment l o) s ∙ segment-append (x ∷ p) o in
    let back = kept-marshal x p o (m o) in
    let (er, eo) = parts ek in
    ap (λ l. raw_marshal [] l ++ out) (sym er ∙ ap kept cut)
    ∙ ap (λ l. raw_marshal [] (kept (x ∷ p)) ++ l) (sym eo)
    ∙ back
    ∙ sym s
  where
    parts :
        {r₁ r₂ o₁ o₂ : Bytes}
        → (◌≡◌ {A = Result (Bytes × Bytes)} (ok (r₁, o₁)) (ok (r₂, o₂)))
        → (r₁ ≡ r₂) × (o₁ ≡ o₂)
    parts e = (cc, cc)

-- An item other than nil that Raw.MarshalCBOR writes, and a nil for a Raw of no bytes, are what
-- Raw.UnmarshalCBOR keeps again.
pub raw_unmarshal-raw_marshal :
    (x : ℕ) (r rest : Bytes)
    → x ≢ 246
    → IsItem (x ∷ r)
    → (raw_unmarshal (raw_marshal [] (x ∷ r) ++ rest) ≡ ok (x ∷ r, rest))
      × (raw_unmarshal (raw_marshal [] [] ++ rest) ≡ ok ([], rest))
unfolding raw_unmarshal raw_marshal append_nil make_byte
raw_unmarshal-raw_marshal x r rest other h = (
  let (y, p, s, m) = skip_takes_item (x ∷ r) [] h in
      let whole : x ∷ r ≡ y ∷ p = s ∙ ap (λ l. y ∷ l) (append-nil p) in
      let read : skip (x ∷ (r ++ rest)) ≡ ok rest = ap (λ l. skip (l ++ rest)) whole ∙ m rest in
      rw (read, segment-append (x ∷ r) rest)
        (elim (Bool-cases (x == 246)) [
          | inl e ↦ absurd (other (ground arith))
          | inr e ↦ unfold is_nil make_byte in rw e refl
        ]),
  rw (skip-nil rest, segment-append (246 ∷ []) rest) (unfold is_nil make_byte in refl),
)
