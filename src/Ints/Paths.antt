-- ===== src/Ints/Paths.antt =====
-- `ReadInt64Bytes` unrolls the two integer types; here it is held against `readUintCore`.
use cbor.Base.{
  ℕ, ◌+◌, ◌-◌, ◌*◌, ◌%◌, ◌^◌, ◌<◌, ◌≤◌, ◌≡◌, ◌≢◌, sym, ap, ◌∙◌, ◌⊎◌, inl, inr, ◌↔◌, [], ◌∷◌, Bytes,
  IsByte, All, ℤ, pos, negsuc, arith,
}
use cbor.Result.{ok}
use cbor.Wire.{make_byte, read_uint_core}
use cbor.Wire.Core.{read_argument, read_uint_core-make_byte, read_uint_core_inv}
use cbor.Wire.Endian.{take_uint-lt}
use mathlib.Core.Path.{subst}
use native.Mathlib.Decide.{dec_lt}
use cbor.Wire.Bits.{make_byte_lem}
use cbor.Ints.{read_int64, read_negative}

module _ (a : ℕ) (t : Bytes) (u : ℕ) (r : Bytes) (ha : a < 32) where
  -- Behind an initial byte of major type 0, and of major type 1.
  pos_iff :
      All IsByte t
      → (read_int64 (a ∷ t) ≡ ok (pos u, r)) ↔ ((read_argument a t ≡ ok (u, r)) × (u < 2 ^ 63))
  unfolding read_int64
  pos_iff h = (
    λ e. ground (arith, take_uint-lt 1 t u r h, take_uint-lt 2 t u r h, take_uint-lt 4 t u r h),
    λ e. ground arith,
  )

  read_int64-negative : read_int64 ((32 + a) ∷ t) ≡ read_negative (32 + a) t
  unfolding read_int64
  read_int64-negative = ground arith

  read_negative_iff :
      All IsByte t
      → (read_negative (32 + a) t ≡ ok (negsuc u, r))
        ↔ ((read_argument a t ≡ ok (u, r)) × (u < 2 ^ 63))
  unfolding read_negative
  read_negative_iff h = (
    λ e. ground (arith, take_uint-lt 1 t u r h, take_uint-lt 2 t u r h, take_uint-lt 4 t u r h),
    λ e. ground arith,
  )

  neg_iff :
      All IsByte t
      → (read_int64 ((32 + a) ∷ t) ≡ ok (negsuc u, r))
        ↔ ((read_argument a t ≡ ok (u, r)) × (u < 2 ^ 63))
  neg_iff h = (
    λ e. (read_negative_iff h).0 (sym read_int64-negative ∙ e),
    λ e. read_int64-negative ∙ (read_negative_iff h).1 e,
  )

  pos-ne-negsuc : read_int64 (a ∷ t) ≢ ok (negsuc u, r)
  unfolding read_int64
  pos-ne-negsuc e = ground arith

  negsuc-ne-pos : read_int64 ((32 + a) ∷ t) ≢ ok (pos u, r)
  unfolding read_int64
  negsuc-ne-pos e = ground arith

other-ne-ok :
    (lead : ℕ) (t : Bytes) (i : ℤ) (r : Bytes) → 64 ≤ lead → read_int64 (lead ∷ t) ≢ ok (i, r)
unfolding read_int64
other-ne-ok lead t i r h e = ground arith

-- The header reader under either type.
header_iff :
    (m a : ℕ) (t : Bytes) (u : ℕ) (r : Bytes)
    → m < 8
    → a < 32
    → (read_uint_core (make_byte m a ∷ t) m ≡ ok (u, r)) ↔ (read_argument a t ≡ ok (u, r))
header_iff m a t u r hm ha =
    let e = read_uint_core-make_byte m a t hm ha in (λ x. sym e ∙ x, λ x. e ∙ x)

-- Where an initial byte of the type `m` stands.
header_range :
    (m lead : ℕ) (t : Bytes) (u : ℕ) (r : Bytes)
    → lead < 256
    → m < 8
    → read_uint_core (lead ∷ t) m ≡ ok (u, r)
    → lead ≡ m * 32 + lead % 32
header_range m lead t u r hl hm e =
    (read_uint_core_inv lead t m u r hl hm e).0 ∙ make_byte_lem m (lead % 32) hm (omega arith)

core_iff :
    (m a lead : ℕ) (t : Bytes) (u : ℕ) (r : Bytes)
    → m < 8
    → a < 32
    → lead ≡ m * 32 + a
    → (read_uint_core (lead ∷ t) m ≡ ok (u, r)) ↔ (read_argument a t ≡ ok (u, r))
core_iff m a lead t u r hm ha e =
    subst (λ (x : ℕ). (read_uint_core (x ∷ t) m ≡ ok (u, r)) ↔ (read_argument a t ≡ ok (u, r)))
      (make_byte_lem m a hm ha ∙ sym e) (header_iff m a t u r hm ha)

-- The first byte lies in the range of type 0, of type 1, or above both.
lead_cases : (lead : ℕ) → (lead < 32) ⊎ ((a : ℕ) × (a < 32) × (32 + a ≡ lead)) ⊎ (64 ≤ lead)
lead_cases lead = elim (dec_lt lead 32) [
  | yes p ↦ inl p
  | no p ↦ inr (elim (dec_lt lead 64) [
    | yes q ↦ inl (lead - 32, omega arith, omega arith)
    | no q ↦ inr (omega arith)
  ])
]

module _ (t : Bytes) (u : ℕ) (r : Bytes) (h : All IsByte t) where
  pos_core :
      (a : ℕ)
      → a < 32
      → (read_int64 (a ∷ t) ≡ ok (pos u, r))
        ↔ ((read_uint_core (a ∷ t) 0 ≡ ok (u, r)) × (u < 2 ^ 63))
  pos_core a ha =
      let (p, q) = pos_iff a t u r ha h in
      let (p', q') = core_iff 0 a a t u r (omega arith) ha (omega arith) in
      (λ e. (q' (p e).0, (p e).1), λ (e, l). q (p' e, l))

  neg_core :
      (a : ℕ)
      → a < 32
      → (read_int64 ((32 + a) ∷ t) ≡ ok (negsuc u, r))
        ↔ ((read_uint_core ((32 + a) ∷ t) 1 ≡ ok (u, r)) × (u < 2 ^ 63))
  neg_core a ha =
      let (p, q) = neg_iff a t u r ha h in
      let (p', q') = core_iff 1 a (32 + a) t u r (omega arith) ha (omega arith) in
      (λ e. (q' (p e).0, (p e).1), λ (e, l). q (p' e, l))

  module _ (lead : ℕ) (hl : lead < 256) where
    as_pos :
        read_int64 (lead ∷ t) ≡ ok (pos u, r)
        → (read_uint_core (lead ∷ t) 0 ≡ ok (u, r)) × (u < 2 ^ 63)
    as_pos e = elim (lead_cases lead) [
      | inl p ↦ (pos_core lead p).0 e
      | inr (inl (a, ha, s)) ↦
          absurd (negsuc-ne-pos a t u r ha (ap (λ (x : ℕ). read_int64 (x ∷ t)) s ∙ e))
      | inr (inr p) ↦ absurd (other-ne-ok lead t (pos u) r p e)
    ]

    from_pos :
        (read_uint_core (lead ∷ t) 0 ≡ ok (u, r)) × (u < 2 ^ 63)
        → read_int64 (lead ∷ t) ≡ ok (pos u, r)
    from_pos (e, l) =
        let s = header_range 0 lead t u r hl (omega arith) e in
        (pos_core lead (omega arith)).1 (e, l)

    as_neg :
        read_int64 (lead ∷ t) ≡ ok (negsuc u, r)
        → (read_uint_core (lead ∷ t) 1 ≡ ok (u, r)) × (u < 2 ^ 63)
    as_neg e = elim (lead_cases lead) [
      | inl p ↦ absurd (pos-ne-negsuc lead t u r p e)
      | inr (inl (a, ha, s)) ↦
          subst (λ (x : ℕ). (read_uint_core (x ∷ t) 1 ≡ ok (u, r)) × (u < 2 ^ 63)) s
            ((neg_core a ha).0 (ap (λ (x : ℕ). read_int64 (x ∷ t)) s ∙ e))
      | inr (inr p) ↦ absurd (other-ne-ok lead t (negsuc u) r p e)
    ]

    from_neg :
        (read_uint_core (lead ∷ t) 1 ≡ ok (u, r)) × (u < 2 ^ 63)
        → read_int64 (lead ∷ t) ≡ ok (negsuc u, r)
    from_neg (e, l) =
        let s : 32 + lead % 32 ≡ lead = sym (header_range 1 lead t u r hl (omega arith) e) in
        ap (λ (x : ℕ). read_int64 (x ∷ t)) (sym s)
        ∙ (neg_core (lead % 32) (omega arith)).1 (ap (λ (x : ℕ). read_uint_core (x ∷ t) 1) s ∙ e, l)

-- On a buffer of bytes ReadInt64Bytes accepts exactly what readUintCore accepts under major type 0 or 1 with an argument
-- below 2^63, and reads the argument u as u under type 0 and as -1 - u under type 1.
pub read_int64_iff :
    (b : Bytes) (u : ℕ) (r : Bytes)
    → All IsByte b
    → ((read_int64 b ≡ ok (pos u, r)) ↔ ((read_uint_core b 0 ≡ ok (u, r)) × (u < 2 ^ 63)))
      × ((read_int64 b ≡ ok (negsuc u, r)) ↔ ((read_uint_core b 1 ≡ ok (u, r)) × (u < 2 ^ 63)))
read_int64_iff [] u r h =
    unfold read_int64 read_uint_core in
    ((λ e. absurd (cc), λ e. absurd (cc (e.0))), (λ e. absurd (cc), λ e. absurd (cc (e.0))))
read_int64_iff (lead ∷ t) u r (hl, ht) = (
  (as_pos t u r ht lead hl, from_pos t u r ht lead hl),
  (as_neg t u r ht lead hl, from_neg t u r ht lead hl),
)
