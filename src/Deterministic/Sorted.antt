-- ===== src/Deterministic/Sorted.antt =====
-- Sorted lists of indices, and buckets of them.
use mathlib.Core.Logic.Or
use mathlib.Core.Path.{subst}
use mathlib.Core.List.{Mem, Perm, mem-cons, not-mem-nil, mem-cons_self, mem-cons_of_mem}
use mathlib.Core.List.Perm
use cbor.Base.{ℕ, ◌<◌, ◌≡◌, inl, inr, sym, List, [], ◌∷◌, ◌++◌, Bool-cases, ◌==◌, arith, All}
use cbor.Deterministic.{with_value}
use cbor.Deterministic.Buckets.{Above, IsAscending}
use cbor.Deterministic.Permuted.{buckets}

-- Each element stands in the relation to all that follow.
abbrev pub IsSorted {ℓ} : {A : Type ℓ} → (A → A → Type 0) → List A → Type 0
IsSorted R [] = Unit {0}
IsSorted R (x ∷ xs) = All (R x) xs × IsSorted R xs

module _ {ℓ} {A : Type ℓ} where
  pub All-append : (P : A → Type 0) (xs ys : List A) → All P xs → All P ys → All P (xs ++ ys)
  All-append P [] ys h k = k
  All-append P (x ∷ xs) ys (h, hs) k = (h, All-append P xs ys hs k)

  pub All-imp : (P Q : A → Type 0) (xs : List A) → ((x : A) → P x → Q x) → All P xs → All Q xs
  All-imp P Q [] f h = tt
  All-imp P Q (x ∷ xs) f (h, hs) = (f x h, All-imp P Q xs f hs)

  pub IsSorted-append :
      (R : A → A → Type 0) (xs ys : List A)
      → IsSorted R xs
      → IsSorted R ys
      → All (λ x. All (R x) ys) xs
      → IsSorted R (xs ++ ys)
  IsSorted-append R [] ys s t h = t
  IsSorted-append R (x ∷ xs) ys (b, s) t (h, hs) =
      (All-append (R x) xs ys b h, IsSorted-append R xs ys s t hs)

  -- A relation that holds between elements with a property.
  pub All-pairs :
      (P Q : A → Type 0) (S : A → A → Type 0) (xs ys : List A)
      → ((x y : A) → P x → Q y → S x y)
      → All P xs
      → All Q ys
      → All (λ x. All (S x) ys) xs
  All-pairs P Q S [] ys f h k = tt
  All-pairs P Q S (x ∷ xs) ys f (h, hs) k =
      (All-imp Q (S x) ys (λ y q. f x y h q) k, All-pairs P Q S xs ys f hs k)

  pub IsSorted-imp :
      (P : A → Type 0) (R S : A → A → Type 0) (xs : List A)
      → ((x y : A) → P x → P y → R x y → S x y)
      → All P xs
      → IsSorted R xs
      → IsSorted S xs
  IsSorted-imp P R S [] f h s = tt
  IsSorted-imp P R S (x ∷ xs) f (h, hs) (b, s) = (both xs hs b, IsSorted-imp P R S xs f hs s)
    where
      both : (ys : List A) → All P ys → All (R x) ys → All (S x) ys
      both [] p r = tt
      both (y ∷ ys) (p, ps) (r, rs) = (f x y h p r, both ys ps rs)

  -- A property of all elements is one of a permutation.
  pub All-perm :
      (P : A → Type 0)
      → ((x : A) → IsProp (P x))
      → {xs ys : List A} → Perm xs ys
      → All P ys
      → All P xs
  All-perm P prop {xs} {ys} p h = gathered xs (λ x m. member ys x h ((Perm.mem_iff p).0 m))
    where
      member : (ys : List A) (x : A) → All P ys → Mem x ys → P x
      member [] x h m = absurd (not-mem-nil m)
      member (y ∷ ys) x (h, hs) m =
          Or.elim (prop x) (mem-cons.0 m) (λ e. subst P (sym e) h) (member ys x hs)

      gathered : (xs : List A) → ((x : A) → Mem x xs → P x) → All P xs
      gathered [] f = tt
      gathered (x ∷ xs) f = (f x mem-cons_self, gathered xs (λ y m. f y (mem-cons_of_mem x m)))

module _ (f : ℕ → ℕ) where
  pub with_value-All : (P : ℕ → Type 0) (d : ℕ) (xs : List ℕ) → All P xs → All P (with_value f d xs)
  unfolding with_value
  with_value-All P d [] h = tt
  with_value-All P d (x ∷ xs) (h, hs) = elim (Bool-cases (f x == d)) [
    | inl same ↦ rw same (h, with_value-All P d xs hs)
    | inr other ↦ rw other (with_value-All P d xs hs)
  ]

  pub with_value-IsSorted :
      (R : ℕ → ℕ → Type 0) (d : ℕ) (xs : List ℕ) → IsSorted R xs → IsSorted R (with_value f d xs)
  unfolding with_value
  with_value-IsSorted R d [] s = tt
  with_value-IsSorted R d (x ∷ xs) (b, s) = elim (Bool-cases (f x == d)) [
    | inl same ↦ rw same (with_value-All (R x) d xs b, with_value-IsSorted R d xs s)
    | inr other ↦ rw other (with_value-IsSorted R d xs s)
  ]

  pub with_value-value : (d : ℕ) (xs : List ℕ) → All (λ i. f i ≡ d) (with_value f d xs)
  unfolding with_value
  with_value-value d [] = tt
  with_value-value d (x ∷ xs) = elim (Bool-cases (f x == d)) [
    | inl same ↦ rw same (ground arith, with_value-value d xs)
    | inr other ↦ rw other (with_value-value d xs)
  ]

  pub buckets-All : (P : ℕ → Type 0) (ds xs : List ℕ) → All P xs → All P (buckets f ds xs)
  buckets-All P [] xs h = tt
  buckets-All P (d ∷ ds) xs h =
      All-append P (with_value f d xs) (buckets f ds xs) (with_value-All P d xs h)
        (buckets-All P ds xs h)

  buckets-Above : (d : ℕ) (ds xs : List ℕ) → Above d ds → All (λ i. d < f i) (buckets f ds xs)
  buckets-Above d [] xs a = tt
  buckets-Above d (e ∷ ds) xs (h, a) =
      All-append (λ i. d < f i) (with_value f e xs) (buckets f ds xs)
        (All-imp (λ i. f i ≡ e) (λ i. d < f i) (with_value f e xs) (λ i q. omega arith)
          (with_value-value e xs))
        (buckets-Above d ds xs a)

  -- Buckets of a sorted list are sorted by the value first.
  pub buckets-IsSorted :
      (P : ℕ → Type 0) (R S : ℕ → ℕ → Type 0)
      → ((x y : ℕ) → P x → P y → f x < f y → S x y)
      → ((x y : ℕ) → P x → P y → f x ≡ f y → R x y → S x y)
      → (ds xs : List ℕ) → IsAscending ds
      → All P xs
      → IsSorted R xs
      → IsSorted S (buckets f ds xs)
  buckets-IsSorted P R S lower equal [] xs a h s = tt
  buckets-IsSorted P R S lower equal (d ∷ ds) xs (above, a) h s =
      IsSorted-append S (with_value f d xs) (buckets f ds xs)
        (IsSorted-imp (λ i. P i × (f i ≡ d)) R S (with_value f d xs)
          (λ x y (px, ex) (py, ey) r. equal x y px py (omega arith) r)
          (All-and P (λ i. f i ≡ d) (with_value f d xs) (with_value-All P d xs h)
            (with_value-value d xs))
          (with_value-IsSorted R d xs s))
        (buckets-IsSorted P R S lower equal ds xs a h s)
        (All-pairs (λ i. P i × (f i ≡ d)) (λ i. P i × (d < f i)) S (with_value f d xs)
          (buckets f ds xs) (λ x y (px, ex) (py, ey). lower x y px py (omega arith))
          (All-and P (λ i. f i ≡ d) (with_value f d xs) (with_value-All P d xs h)
            (with_value-value d xs))
          (All-and P (λ i. d < f i) (buckets f ds xs) (buckets-All P ds xs h)
            (buckets-Above d ds xs above)))
    where
      All-and : (P Q : ℕ → Type 0) (xs : List ℕ) → All P xs → All Q xs → All (λ i. P i × Q i) xs
      All-and P Q [] h k = tt
      All-and P Q (x ∷ xs) (h, hs) (k, ks) = ((h, k), All-and P Q xs hs ks)
