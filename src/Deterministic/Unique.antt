-- ===== src/Deterministic/Unique.antt =====
-- A list with distinct keys has one order in which its keys ascend.
use mathlib.Core.Logic.Or
use mathlib.Core.Path.{subst}
use mathlib.Core.List.{Mem, Perm, Pairwise, mem-cons, mem-cons_self, not-mem-nil, Pairwise-and_iff}
use mathlib.Core.List.Perm
use native.Mathlib.Bridge.{le_prop}
use cbor.Base.{◌≡◌, ◌≢◌, inl, inr, refl, sym, ap, ◌∙◌, List, [], ◌∷◌, arith, length, All, Bytes}
use cbor.Deterministic.{bytes_less}
use cbor.Deterministic.Sorted.{IsSorted}
use cbor.Deterministic.Radix.{NotAbove}
use cbor.Deterministic.Order.{Precedes}

NotAbove-antisym : (a b : Bytes) → NotAbove a b → NotAbove b a → a ≡ b
unfolding bytes_less
NotAbove-antisym [] [] p q = refl
NotAbove-antisym [] (y ∷ b) p q = absurd (ground arith)
NotAbove-antisym (x ∷ a) [] p q = absurd (ground arith)
NotAbove-antisym (x ∷ a) (y ∷ b) p q =
    let same : x ≡ y = ground arith in
    let r = NotAbove-antisym a b (ground arith) (ground arith) in cc

pub Precedes-antisym : (a b : Bytes) → Precedes a b → Precedes b a → a ≡ b
Precedes-antisym a b (inl p) (inl q) = absurd (omega arith)
Precedes-antisym a b (inl p) (inr (e, n)) = absurd (omega arith)
Precedes-antisym a b (inr (e, n)) (inl q) = absurd (omega arith)
Precedes-antisym a b (inr (e, n)) (inr (e', n')) = NotAbove-antisym a b n n'

module _ {ℓ} {A : Type ℓ} where
  pub IsSorted-Pairwise :
      (R : A → A → Type 0)
      → ((x y : A) → IsProp (R x y))
      → (xs : List A) → IsSorted R xs
      → Pairwise R xs
  IsSorted-Pairwise R prop [] s = Pairwise.nil
  IsSorted-Pairwise R prop (x ∷ xs) (b, s) =
      Pairwise.cons (λ y m. member xs b y m) (IsSorted-Pairwise R prop xs s)
    where
      member : (ys : List A) → All (R x) ys → (y : A) → Mem y ys → R x y
      member [] h y m = absurd (not-mem-nil m)
      member (z ∷ ys) (h, hs) y m =
          Or.elim (prop x y) (mem-cons.0 m) (λ e. subst (R x) (sym e) h) (member ys hs y)

  -- Two orders of the same elements in which each is strictly before those that follow are one.
  pub ascending_unique :
      (setA : IsSet A) (R : A → A → Type 0) (l r : List A)
      → ((x y : A) → R x y → R y x → ⊥)
      → Pairwise R l
      → Pairwise R r
      → Perm l r
      → l ≡ r
  ascending_unique setA R [] r f s t p = sym (Perm.eq-nil (Perm.symm p))
  ascending_unique setA R (a ∷ l) [] f s t p = Perm.eq-nil p
  ascending_unique setA R (a ∷ l) (b ∷ r) f (Pairwise.cons u s) (Pairwise.cons v t) p =
      let heads : a ≡ b =
        Or.elim (setA a b) (mem-cons.0 ((Perm.mem_iff p).0 mem-cons_self)) (λ e. e)
          (λ m.
            Or.elim (setA a b) (mem-cons.0 ((Perm.mem_iff p).1 mem-cons_self)) (λ e. sym e)
              (λ n. absurd (f a b (u b n) (v a m)))) in
      let tails = Perm.cons_inv (Perm.trans p (Perm.cons' (sym heads) (Perm.refl r))) in
      let rest = ascending_unique setA R l r f s t tails in
      ap (λ x. x ∷ l) heads ∙ ap (λ l. b ∷ l) rest

Precedes-prop : (a b : Bytes) → IsProp (Precedes a b)
Precedes-prop a b (inl p) (inl q) = ap inl (le_prop p q)
Precedes-prop a b (inl p) (inr (e, n)) = absurd (omega arith)
Precedes-prop a b (inr (e, n)) (inl q) = absurd (omega arith)
Precedes-prop a b (inr p) (inr q) = ap inr (both p q)
  where
    both : IsProp ((length a ≡ length b) × NotAbove a b)
    both = hlevel

-- Two sorted orders of the same entries, whose keys are distinct, are one.
pub sorted_unique :
    {A : Type 0} (key : A → Bytes) (s t es ds : List A)
    → IsSet A
    → IsSorted (λ x y. key x ≢ key y) es
    → Perm ds es
    → Perm s es
    → Perm t ds
    → IsSorted (λ x y. Precedes (key x) (key y)) s
    → IsSorted (λ x y. Precedes (key x) (key y)) t
    → s ≡ t
sorted_unique {A} key s t es ds setA apart q p p' h h' =
    ascending_unique setA (λ x y. Precedes (key x) (key y) × (key x ≢ key y)) s t
      (λ x y (u, ne) (v, ne'). ne (Precedes-antisym (key x) (key y) u v)) (strict s p h)
      (strict t (Perm.trans p' q) h') (Perm.trans p (Perm.symm (Perm.trans p' q)))
  where
    strict :
        (l : List A)
        → Perm l es
        → IsSorted (λ x y. Precedes (key x) (key y)) l
        → Pairwise (λ x y. Precedes (key x) (key y) × (key x ≢ key y)) l
    strict l p h =
        (Pairwise-and_iff {R = λ x y. Precedes (key x) (key y)} {S = λ x y. key x ≢ key y}).1 (
          IsSorted-Pairwise (λ x y. Precedes (key x) (key y)) (λ x y. Precedes-prop (key x) (key y))
              l h,
          Perm.pairwise {R = λ x y. key x ≢ key y} (λ x y. hlevel) (λ x y n e. n (sym e))
              (Perm.symm p) (IsSorted-Pairwise (λ x y. key x ≢ key y) (λ x y. hlevel) es apart),
        )
