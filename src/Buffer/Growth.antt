-- ===== src/Buffer/Growth.antt =====
-- The loop of `Ensure` that doubles the capacity.
use cbor.Base.{
  ℕ, zero, suc, ◌*◌, ◌%◌, ◌^◌, ◌<◌, ◌≤◌, ◌≡◌, ◌⊎◌, inl, inr, refl, ap, ◌∙◌, true, ltb, ◌==◌,
  Bool-cases, none, some, arith,
}
use native.Mathlib.Nat.{pow-suc, pow-le-pow_right}
use cbor.Buffer.{grown, is_less}

-- One round of the loop, and its end.
grown-less :
    (k c need : ℕ) → is_less c need ≡ true → grown (suc k) c need ≡ grown k (c * 2 % 2 ^ 64) need
unfolding grown
grown-less k c need e = rw e refl

grown-done : (k c need : ℕ) → need ≤ c → c < 2 ^ 63 → grown (suc k) c need ≡ some c
unfolding grown is_less
grown-done k c need e l = ground arith

is_less-true : (c need : ℕ) → c < need → is_less c need ≡ true
unfolding is_less
is_less-true c need h = ground arith

-- From a positive capacity on the loop finds one for up to 2^62 bytes: the first that is enough.
pub grown-enough :
    (k c need : ℕ)
    → 0 < c
    → c < 2 ^ 63
    → need ≤ 2 ^ 62
    → need ≤ c * 2 ^ k
    → (c' : ℕ) × (grown (suc k) c need ≡ some c')
      × (need ≤ c')
      × (c ≤ c')
      × ((c' ≡ c) ⊎ (c' < 2 * need))
grown-enough zero c need p l m e =
    (c, grown-done 0 c need (omega arith) l, omega arith, omega arith, inl refl)
grown-enough (suc k) c need p l m e = elim (Bool-cases (ltb c need)) [
  | inl less ↦
      let small : c < need = ground arith in
      let same : c * 2 % 2 ^ 64 ≡ c * 2 = omega arith in
      let (c', found, enough, above, least) =
        grown-enough k (c * 2) need (omega arith) (omega arith) m (double k c need e) in
      (
        c',
        grown-less (suc k) c need (is_less-true c need small)
            ∙ ap (λ (t : ℕ). grown (suc k) t need) same
            ∙ found,
        enough,
        omega arith,
        within c' small least,
      )
  | inr done ↦
      let above : need ≤ c = ground arith in
      (c, grown-done (suc k) c need above l, above, omega arith, inl refl)
]
  where
    regroup : (c t : ℕ) → c * (t * 2) ≡ c * 2 * t
    regroup c t = grind arith

    double : (k c need : ℕ) → need ≤ c * 2 ^ suc k → need ≤ c * 2 * 2 ^ k
    double k c need e =
        let d : c * 2 ^ suc k ≡ c * 2 * 2 ^ k =
          ap (λ (t : ℕ). c * t) (pow-suc 2 k) ∙ regroup c (2 ^ k) in
        omega arith

    within : (c' : ℕ) → c < need → (c' ≡ c * 2) ⊎ (c' < 2 * need) → (c' ≡ c) ⊎ (c' < 2 * need)
    within c' h (inl e) = inr (omega arith)
    within c' h (inr l) = inr l

-- From a negative capacity, or from zero, it never ends.
overflown : (k c need : ℕ) → (c ≡ 2 ^ 63) ⊎ (c ≡ 0) → 0 < need → grown k c need ≡ none
unfolding is_less
overflown zero c need h l = unfold grown in refl
overflown (suc k) c need (inl e) l =
    grown-less k c need (ground arith) ∙ overflown k (c * 2 % 2 ^ 64) need (inr (omega arith)) l
overflown (suc k) c need (inr e) l =
    grown-less k c need (ground arith) ∙ overflown k (c * 2 % 2 ^ 64) need (inr (omega arith)) l

-- For more than 2^62 bytes the loop of Ensure does not end from a capacity that is a power of two
-- up to 2^62, however long it runs.
pub grown-endless : (k i need : ℕ) → i ≤ 62 → 2 ^ 62 < need → grown k (2 ^ i) need ≡ none
grown-endless zero i need h l = unfold grown in refl
grown-endless (suc k) i need h l = elim (Bool-cases (i == 62)) [
  | inl top ↦
      let at_top : i ≡ 62 = ground arith in
      ap (λ (t : ℕ). grown (suc k) (2 ^ t) need) at_top
      ∙ grown-less k (2 ^ 62) need (is_less-true (2 ^ 62) need l)
      ∙ overflown k (2 ^ 62 * 2 % 2 ^ 64) need (inl (omega arith)) (omega arith)
  | inr below ↦
      let lower : i < 62 = ground arith in
      let bound : 2 ^ i ≤ 2 ^ 61 = pow-le-pow_right (omega arith) {j = 61} (omega arith) in
      let next : 2 ^ i * 2 % 2 ^ 64 ≡ 2 ^ suc i = omega (arith, pow-suc 2 i) in
      grown-less k (2 ^ i) need (is_less-true (2 ^ i) need (omega arith))
      ∙ ap (λ (t : ℕ). grown k t need) next
      ∙ grown-endless k (suc i) need (omega arith) l
]
