-- ===== src/Buffer/Calls.antt =====
-- What `Ensure` promises, and the calls on a ByteBuffer as appends to its contents.
use cbor.Base.{
  ℕ, zero, suc, ◌+◌, ◌-◌, ◌*◌, ◌^◌, ◌<◌, ◌≤◌, ◌≡◌, ◌⊎◌, inl, inr, refl, false, leb, ◌==◌,
  Bool-cases, arith, Bytes, length, ltb-false,
}
use cbor.Result.{ok}
use cbor.Buffer.{ByteBuffer, cap, zeros, grown, ensure, allocated}
use cbor.Buffer.Growth.{grown-enough}

length-zeros : (n : ℕ) → length (zeros n) ≡ n
unfolding zeros
length-zeros zero = omega arith
length-zeros (suc n) = omega (arith, length-zeros n)

-- What is ensured: the contents are kept, there is room for `n` bytes, and the capacity has not
-- become less.
abbrev pub Ensured : ByteBuffer → ℕ → ByteBuffer → Type 0
Ensured bb n bb' = (bb'.content ≡ bb.content) × (n ≤ length bb'.spare) × (cap bb ≤ cap bb')

module _ (limit : ℕ) (behind : ByteBuffer → Bytes → Bytes) where
  grow :
      (bb : ByteBuffer) (n c : ℕ)
      → cap bb ≤ c
      → 0 < c
      → c ≤ limit
      → c < 2 ^ 63
      → length bb.content + n ≤ 2 ^ 62
      → 2 * (length bb.content + n) ≤ limit
      → (bb' : ByteBuffer) × (allocated limit behind bb (grown 64 c (length bb.content + n))
          ≡ ok bb')
        × Ensured bb n bb'
  unfolding allocated cap
  grow bb n c lo p hi small m l2 =
      let (c', found, enough, above, least) =
        grown-enough 63 c (length bb.content + n) p small m (omega arith) in
      let size = length-zeros (c' - length bb.content) in
      (
        record { content = bb.content; spare = zeros (c' - length bb.content) },
        rw (found, ltb-false limit c' (within c' least)) refl,
        (refl, omega arith, omega arith),
      )
    where
      within : (c' : ℕ) → (c' ≡ c) ⊎ (c' < 2 * (length bb.content + n)) → c' ≤ limit
      within c' (inl e) = omega arith
      within c' (inr h) = omega arith

  -- Ensure comes back with the contents kept, room for `n` bytes, and a capacity that is not less, if
  -- the length it is to make room for is at most 2^62 and half of what `make` allocates.
  pub ensure-Ensured :
      (bb : ByteBuffer) (n : ℕ)
      → length bb.content + n ≤ 2 ^ 62
      → 1024 ≤ limit
      → 2 * (length bb.content + n) ≤ limit
      → (bb' : ByteBuffer) × (ensure limit behind bb n ≡ ok bb') × Ensured bb n bb'
  unfolding ensure cap
  ensure-Ensured bb n m l l2 = elim (Bool-cases (leb (length bb.content + n) (cap bb))) [
    | inl enough ↦ rw enough (bb, refl, (refl, ground arith, omega arith))
    | inr short ↦
        let fits : leb (2 ^ 63) (length bb.content + n) ≡ false = ground arith in
        rw (short, fits)
          (elim (Bool-cases (cap bb == 0)) [
            | inl empty ↦
                rw empty (grow bb n 1024 (ground arith) (omega arith) l (omega arith) m l2)
            | inr other ↦
                rw other (
                  grow bb n (cap bb) (omega arith) (ground arith) (ground arith) (ground arith) m
                    l2)
          ])
  ]
