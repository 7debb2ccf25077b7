-- ===== src/Canonical/Shortest.antt =====
-- A header is canonical exactly when it is the one that `appendUintCore` writes.
use cbor.Base.{
  ℕ, ◌-◌, ◌*◌, ◌%◌, ◌^◌, ◌<◌, ◌≡◌, sym, ap, ◌∙◌, ◌↔◌, [], ◌∷◌, ◌++◌, Bool, true, false, Bytes,
  IsByte, All, leb, ltb, ◌&&◌, ◌||◌, ◌==◌, if◌then◌else◌, arith,
}
use cbor.Result.{Result, ok}
use cbor.Wire.{make_byte, put_uint, append_uint_core, read_uint_core}
use cbor.Wire.Bits.{make_byte_lem, get_major_type-make_byte, get_add_info-make_byte}
use cbor.Wire.Core.{read_argument, read_uint_core_inv}
use cbor.Wire.Endian.{take_uint-lt}
use cbor.Wire.Exact.{take_uint_bytes}
use cbor.Canonical.{is_non_canonical_length, wider_than_needed}

-- The additional information of the shortest header for `u`, and the width of its argument.
info : ℕ → ℕ
info u =
    if leb u 23
    then u
    else if leb u (2 ^ 8 - 1)
    then 24
    else if leb u (2 ^ 16 - 1)
    then 25
    else if leb u (2 ^ 32 - 1)
    then 26
    else 27

width : ℕ → ℕ
width a =
    if leb a 23 then 0 else if a == 24 then 1 else if a == 25 then 2 else if a == 26 then 4 else 8

info-lt : (u : ℕ) → info u < 28
unfolding info
info-lt u = ground arith

info_small : (u : ℕ) → info u < 32
info_small u = omega (arith, info-lt u)

head_eq : {x y : ℕ} {xs ys : Bytes} → x ∷ xs ≡ y ∷ ys → x ≡ y
head_eq e = cc

append_uint_core-info :
    (m u : ℕ) → append_uint_core [] m u ≡ make_byte m (info u) ∷ put_uint (width (info u)) u
unfolding append_uint_core info width put_uint
append_uint_core-info m u = ground arith

-- What `isNonCanonicalLength` does behind an initial byte of the right major type.
abbrev check_argument : ℕ → Bytes → Result Bool
check_argument a t =
    if leb a 23
    then ok false
    else if a == 24
    then wider_than_needed 1 23 t
    else if a == 25
    then wider_than_needed 2 (2 ^ 8 - 1) t
    else if a == 26
    then wider_than_needed 4 (2 ^ 16 - 1) t
    else wider_than_needed 8 (2 ^ 32 - 1) t

is_non_canonical_length-make_byte :
    (m a : ℕ) (t : Bytes)
    → m < 8
    → a < 28
    → is_non_canonical_length (make_byte m a ∷ t) m ≡ check_argument a t
unfolding is_non_canonical_length
is_non_canonical_length-make_byte m a t hm ha =
    rw (get_major_type-make_byte m a hm (omega arith), get_add_info-make_byte m a hm (omega arith))
      (ground arith)

-- A number that a shorter form would hold.
wasteful : ℕ → ℕ → Bool
wasteful a u =
    if leb a 23
    then false
    else if a == 24
    then leb u 23
    else if a == 25
    then leb u (2 ^ 8 - 1)
    else if a == 26
    then leb u (2 ^ 16 - 1)
    else leb u (2 ^ 32 - 1)

wasteful_iff :
    (a u : ℕ)
    → a < 28
    → ltb u (2 ^ (8 * width a)) && leb 24 a || (u == a) && leb a 23 ≡ true
    → (wasteful a u ≡ false) ↔ (a ≡ info u)
unfolding wasteful info width
wasteful_iff a u l f = (λ c. ground arith, λ c. ground arith)

ok-injective : {b c : Bool} → ◌≡◌ {A = Result Bool} (ok b) (ok c) → b ≡ c
ok-injective e = cc

-- Behind the initial byte: what was read, and what the check says of it.
module _ (a : ℕ) (t : Bytes) (u : ℕ) (r : Bytes) (h : All IsByte t) where
  argument_bytes : read_argument a t ≡ ok (u, r) → (a < 28) × (t ≡ put_uint (width a) u ++ r)
  unfolding width put_uint
  argument_bytes e = ground (
    arith,
    take_uint_bytes 1 t u r h,
    take_uint_bytes 2 t u r h,
    take_uint_bytes 4 t u r h,
    take_uint_bytes 8 t u r h,
  )

  -- The number fits its argument; a direct one is the additional information itself.
  argument_fits :
      read_argument a t ≡ ok (u, r)
      → ltb u (2 ^ (8 * width a)) && leb 24 a || (u == a) && leb a 23 ≡ true
  unfolding width
  argument_fits e = ground (
    arith,
    take_uint-lt 1 t u r h,
    take_uint-lt 2 t u r h,
    take_uint-lt 4 t u r h,
    take_uint-lt 8 t u r h,
  )

  argument_check : read_argument a t ≡ ok (u, r) → check_argument a t ≡ ok (wasteful a u)
  unfolding is_non_canonical_length wasteful
  argument_check e = ground arith

  argument_info :
      (m : ℕ)
      → m < 8
      → read_argument a t ≡ ok (u, r)
      → (is_non_canonical_length (make_byte m a ∷ t) m ≡ ok false) ↔ (a ≡ info u)
  argument_info m hm e =
      let (l, s) = argument_bytes e in
      let (out, into) = wasteful_iff a u l (argument_fits e) in
      let checked : is_non_canonical_length (make_byte m a ∷ t) m ≡ ok (wasteful a u) =
        is_non_canonical_length-make_byte m a t hm l ∙ argument_check e in
      (λ c. out (ok-injective (sym checked ∙ c)), λ c. checked ∙ ap ok (into c))

-- Where readUintCore reads a header off a buffer of bytes, isNonCanonicalLength reports a shortest
-- form exactly if the bytes read are those that appendUintCore writes for the number.
pub is_non_canonical_length_iff :
    (b : Bytes) (m u : ℕ) (r : Bytes)
    → All IsByte b
    → m < 8
    → read_uint_core b m ≡ ok (u, r)
    → (is_non_canonical_length b m ≡ ok false) ↔ (b ≡ append_uint_core [] m u ++ r)
is_non_canonical_length_iff [] m u r h hm e = unfold read_uint_core in absurd (cc)
is_non_canonical_length_iff (lead ∷ t) m u r (hl, ht) hm e =
    let (el, ea) = read_uint_core_inv lead t m u r hl hm e in
    let (l, s) = argument_bytes (lead % 32) t u r ht ea in
    let (out, into) = argument_info (lead % 32) t u r ht m hm ea in
    let shape : (k : ℕ) → lead % 32 ≡ k → lead ∷ t ≡ (make_byte m k ∷ put_uint (width k) u) ++ r =
      λ k p. cc in
    (
      λ c.
          shape (info u) (out (ap (λ (x : ℕ). is_non_canonical_length (x ∷ t) m) (sym el) ∙ c))
          ∙ ap (λ x. x ++ r) (sym (append_uint_core-info m u)),
      λ c.
          let same : lead ≡ make_byte m (info u) =
            head_eq (c ∙ ap (λ x. x ++ r) (append_uint_core-info m u)) in
          let code : lead % 32 ≡ info u =
            omega (arith, info-lt u, make_byte_lem m (info u) hm (info_small u)) in
          ap (λ (x : ℕ). is_non_canonical_length (x ∷ t) m) el ∙ into code,
    )
