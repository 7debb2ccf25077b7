-- ===== src/Examples/Sorting.antt =====
-- An insertion sort, as one of the functions that sort.Slice may be.
use mathlib.Core.List.{Perm}
use mathlib.Core.List.Perm
use cbor.Base.{ℕ, ◌≡◌, List, [], ◌∷◌, Bool, false, if◌then◌else◌, Bool-cases, inl, inr, All}
use cbor.Deterministic.Sorted.{IsSorted, All-imp}
use cbor.Deterministic.Order.{IsWeakOrder, IsSortSlice}

insert_before : (ℕ → ℕ → Bool) → ℕ → List ℕ → List ℕ
insert_before less x [] = x ∷ []
insert_before less x (y ∷ ys) =
    let later = insert_before less x ys in if less y x then y ∷ later else x ∷ y ∷ ys

unfoldable pub insertion_sort : (ℕ → ℕ → Bool) → List ℕ → List ℕ
unfolding insert_before
insertion_sort less [] = []
insertion_sort less (x ∷ xs) = insert_before less x (insertion_sort less xs)

module _ (less : ℕ → ℕ → Bool) (order : IsWeakOrder less) where
  insert_before-Perm : (x : ℕ) (xs : List ℕ) → Perm (insert_before less x xs) (x ∷ xs)
  unfolding insert_before
  insert_before-Perm x [] = Perm.refl (x ∷ [])
  insert_before-Perm x (y ∷ ys) =
      let more = insert_before-Perm x ys in
      elim (Bool-cases (less y x)) [
        | inl h ↦ rw h (Perm.trans (Perm.cons y more) (Perm.swap x y ys))
        | inr h ↦ rw h (Perm.refl (x ∷ y ∷ ys))
      ]

  insert_before-All :
      (P : ℕ → Type 0) (x : ℕ) (xs : List ℕ) → P x → All P xs → All P (insert_before less x xs)
  unfolding insert_before
  insert_before-All P x [] p h = (p, tt)
  insert_before-All P x (y ∷ ys) p (h, hs) =
      let more = insert_before-All P x ys p hs in
      elim (Bool-cases (less y x)) [ inl l ↦ rw l (h, more) | inr l ↦ rw l (p, (h, hs)) ]

  insert_before-IsSorted :
      (x : ℕ) (xs : List ℕ)
      → IsSorted (λ i j. less j i ≡ false) xs
      → IsSorted (λ i j. less j i ≡ false) (insert_before less x xs)
  unfolding insert_before
  insert_before-IsSorted x [] s = (tt, tt)
  insert_before-IsSorted x (y ∷ ys) (b, s) =
      let more = insert_before-IsSorted x ys s in
      elim (Bool-cases (less y x)) [
        | inl l ↦ rw l (insert_before-All (λ j. less j y ≡ false) x ys (order.0 y x l) b, more)
        | inr l ↦ rw l (
          (
            l,
            All-imp (λ j. less j y ≡ false) (λ j. less j x ≡ false) ys (λ z h. order.1 x y z l h) b,
          ),
          (b, s),
        )
      ]

  insertion_sort-Perm : (xs : List ℕ) → Perm (insertion_sort less xs) xs
  unfolding insertion_sort
  insertion_sort-Perm [] = Perm.nil
  insertion_sort-Perm (x ∷ xs) =
      Perm.trans (insert_before-Perm x (insertion_sort less xs))
        (Perm.cons x (insertion_sort-Perm xs))

  insertion_sort-IsSorted :
      (xs : List ℕ) → IsSorted (λ i j. less j i ≡ false) (insertion_sort less xs)
  unfolding insertion_sort
  insertion_sort-IsSorted [] = tt
  insertion_sort-IsSorted (x ∷ xs) =
      insert_before-IsSorted x (insertion_sort less xs) (insertion_sort-IsSorted xs)

pub insertion_sort-IsSortSlice : IsSortSlice insertion_sort
insertion_sort-IsSortSlice less is order =
    (insertion_sort-Perm less order is, insertion_sort-IsSorted less order is)
