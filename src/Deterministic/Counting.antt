-- ===== src/Deterministic/Counting.antt =====
-- A round of the radix sort lays the indices out by their byte.
use cbor.Base.{
  ℕ, suc, ◌+◌, ◌<◌, ◌≡◌, inl, inr, refl, sym, ap, ◌∙◌, List, [], ◌∷◌, ◌++◌, append_assoc, false,
  Bool-cases, ◌==◌, arith, length, length-append, All,
}
use cbor.Deterministic.{set_at, with_value, bump, place}
use cbor.Deterministic.Buckets.{
  gather, gather-congr, In, IsAscending, start, set_at-gather, set_at-append, changed,
}
use cbor.Deterministic.Permuted.{with_value-same, with_value-other}

module _ (digit : ℕ → ℕ) (ds : List ℕ) (a : IsAscending ds) (L : ℕ → ℕ) where
  -- `A` is what the buckets hold, `J` is what is behind it and will be overwritten.
  abbrev pub Places : (ℕ → ℕ) → (ℕ → List ℕ) → (ℕ → List ℕ) → List ℕ → Type 0
  Places c A J rest =
      (e : ℕ)
      → In e ds
      → (c e ≡ start ds L e + length (A e))
        × (length (J e) ≡ length (with_value digit e rest))
        × (length (A e) + length (J e) ≡ L e)

  abbrev tail : List ℕ → List ℕ
  tail [] = []
  tail (x ∷ l) = l

  one :
      (i : ℕ) (rest : List ℕ) (c : ℕ → ℕ) (aux : List ℕ)
      → place digit c aux (i ∷ rest)
        ≡ place digit (bump c (digit i)) (set_at (c (digit i)) i aux) rest
  unfolding place
  one i rest c aux = refl

  -- One index: its bucket grows by it, and the place that it takes is lost.
  module _ (i : ℕ) (rest : List ℕ) (c : ℕ → ℕ) (A J : ℕ → List ℕ) (h : In (digit i) ds)
      (p : Places c A J (i ∷ rest)) where
    abbrev d : ℕ
    d = digit i

    abbrev A' : ℕ → List ℕ
    A' = changed A d (A d ++ i ∷ [])

    abbrev J' : ℕ → List ℕ
    J' = changed J d (tail (J d))

    free : suc (length (tail (J d))) ≡ length (J d)
    free =
        let size = (p d h).1 in
        let more = ap (λ l. length l) (with_value-same digit d i rest refl) in
        nonempty (J d) (omega arith)
      where
        nonempty : (l : List ℕ) → 0 < length l → suc (length (tail l)) ≡ length l
        nonempty [] q = absurd (omega arith)
        nonempty (x ∷ l) q = refl

    written :
        (e : ℕ)
        → changed (λ e. A e ++ J e) d (set_at (length (A d)) i (A d ++ J d)) e ≡ A' e ++ J' e
    written e = elim (Bool-cases (e == d)) [
      | inl same ↦ rw same (
          ap (λ n. set_at n i (A d ++ J d)) (zero_behind (length (A d)))
          ∙ set_at-append 0 i (A d) (J d)
          ∙ ap (λ l. A d ++ l) (first (J d) free)
          ∙ sym (append_assoc (A d) (i ∷ []) (tail (J d))))
      | inr other ↦ rw other refl
    ]
      where
        zero_behind : (n : ℕ) → n ≡ n + 0
        zero_behind n = omega arith

        first : (l : List ℕ) → suc (length (tail l)) ≡ length l → set_at 0 i l ≡ i ∷ tail l
        first [] q = absurd (omega arith)
        first (x ∷ l) q = unfold set_at in refl

    placed : Places (bump c d) A' J' rest
    unfolding bump
    placed e j =
        let (at, size, sum) = p e j in
        elim (Bool-cases (e == d)) [
          | inl same ↦
              let q : e ≡ d = ground arith in
              let s = ap (λ l. length l) (with_value-same digit e i rest (sym q)) in
              let t = length-append (A d) (i ∷ []) in
              let u = ap (λ x. length (A x)) q in
              let v = ap (λ x. length (J x)) q in
              let w = free in rw same (omega arith, omega arith, omega arith)
          | inr other ↦
              let s = ap (λ l. length l) (with_value-other digit e i rest (apart e other)) in
              rw other (at, size ∙ s, sum)
        ]
      where
        apart : (e : ℕ) → (e == d) ≡ false → (d == e) ≡ false
        apart e q = ground arith

    held : (e : ℕ) → A' e ++ with_value digit e rest ≡ A e ++ with_value digit e (i ∷ rest)
    held e = elim (Bool-cases (e == d)) [
      | inl same ↦
          let q : e ≡ d = ground arith in
          rw (same, q, with_value-same digit d i rest refl)
            (append_assoc (A d) (i ∷ []) (with_value digit d rest))
      | inr other ↦ rw (other, with_value-other digit e i rest (ground arith)) refl
    ]

  pub place-gather :
      (rest : List ℕ) (c : ℕ → ℕ) (A J : ℕ → List ℕ)
      → All (λ i. In (digit i) ds) rest
      → Places c A J rest
      → place digit c (gather ds (λ e. A e ++ J e)) rest
        ≡ gather ds (λ e. A e ++ with_value digit e rest)
  place-gather [] c A J h p =
      unfold place with_value in
      gather-congr ds (λ e. A e ++ J e) (λ e. A e ++ [])
        (λ e i. let (at, size, sum) = p e i in ap (λ l. A e ++ l) (empty (J e) size))
    where
      empty : (l : List ℕ) → length l ≡ 0 → l ≡ []
      empty [] h = refl
      empty (x ∷ l) h = absurd (omega arith)
  place-gather (i ∷ rest) c A J (h, hs) p =
      let (at, size, sum) = p (digit i) h in
      let room : length (A (digit i)) < length (A (digit i) ++ J (digit i)) =
        omega (arith, length-append (A (digit i)) (J (digit i)), free i rest c A J h p) in
      one i rest c (gather ds (λ e. A e ++ J e))
      ∙ ap (λ n. place digit (bump c (digit i)) (set_at n i (gather ds (λ e. A e ++ J e))) rest) at
      ∙ ap (λ l. place digit (bump c (digit i)) l rest)
          (set_at-gather ds (λ e. A e ++ J e) L (digit i) (length (A (digit i))) i a h
              (λ e j. length-append (A e) (J e) ∙ (p e j).2) room
            ∙ gather-congr ds
                (changed (λ e. A e ++ J e) (digit i)
                  (set_at (length (A (digit i))) i (A (digit i) ++ J (digit i))))
                (λ e. A' i rest c A J h p e ++ J' i rest c A J h p e)
                (λ e j. written i rest c A J h p e))
      ∙ place-gather rest (bump c (digit i)) (A' i rest c A J h p) (J' i rest c A J h p) hs
          (placed i rest c A J h p)
      ∙ gather-congr ds (λ e. A' i rest c A J h p e ++ with_value digit e rest)
          (λ e. A e ++ with_value digit e (i ∷ rest)) (λ e j. held i rest c A J h p e)
