-- ===== src/Deterministic/Permuted.antt =====
-- Buckets by a value hold what there was, in another order.
use mathlib.Core.List.{Perm, perm_middle}
use mathlib.Core.List.Perm
use cbor.Base.{ℕ, ◌≡◌, inl, inr, List, [], ◌∷◌, ◌++◌, false, ◌==◌, arith, All}
use cbor.Deterministic.{with_value}
use cbor.Deterministic.Buckets.{gather, gather-congr, In, Above-In, IsAscending}

pub with_value-same :
    (f : ℕ → ℕ) (d x : ℕ) (xs : List ℕ) → f x ≡ d → with_value f d (x ∷ xs) ≡ x ∷ with_value f d xs
unfolding with_value
with_value-same f d x xs e = ground arith

pub with_value-other :
    (f : ℕ → ℕ) (d x : ℕ) (xs : List ℕ)
    → (f x == d) ≡ false
    → with_value f d (x ∷ xs) ≡ with_value f d xs
unfolding with_value
with_value-other f d x xs e = ground arith

module _ (f : ℕ → ℕ) where
  abbrev pub buckets : List ℕ → List ℕ → List ℕ
  buckets ds is = gather ds (λ d. with_value f d is)

  buckets-cons :
      (ds : List ℕ) (x : ℕ) (xs : List ℕ)
      → IsAscending ds
      → In (f x) ds
      → Perm (buckets ds (x ∷ xs)) (x ∷ buckets ds xs)
  buckets-cons [] x xs a i = absurd i
  buckets-cons (d ∷ ds) x xs (above, a) (inl e) =
      let rest : buckets ds (x ∷ xs) ≡ buckets ds xs =
        gather-congr ds (λ d. with_value f d (x ∷ xs)) (λ d. with_value f d xs)
          (λ y i. let less = Above-In d y ds above i in with_value-other f y x xs (ground arith)) in
      rw (with_value-same f d x xs e, rest) (Perm.refl (x ∷ (with_value f d xs ++ buckets ds xs)))
  buckets-cons (d ∷ ds) x xs (above, a) (inr i) =
      let less = Above-In d (f x) ds above i in
      rw (with_value-other f d x xs (ground arith)) (
        Perm.trans (Perm.append_left (with_value f d xs) (buckets-cons ds x xs a i))
          (perm_middle (with_value f d xs) (buckets ds xs)))

  buckets-nil : (ds : List ℕ) → Perm (buckets ds []) []
  unfolding with_value
  buckets-nil [] = Perm.nil
  buckets-nil (d ∷ ds) = buckets-nil ds

  pub buckets-perm :
      (ds is : List ℕ) → IsAscending ds → All (λ i. In (f i) ds) is → Perm (buckets ds is) is
  buckets-perm ds [] a h = buckets-nil ds
  buckets-perm ds (x ∷ xs) a (h, hs) =
      Perm.trans (buckets-cons ds x xs a h) (Perm.cons x (buckets-perm ds xs a hs))
