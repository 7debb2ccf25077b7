-- ===== src/Deterministic/Order.antt =====
-- The order of the entries: by the length of the key, then by its bytes.
use mathlib.Core.List.{Perm}
use mathlib.Core.List.Perm
use cbor.Base.{
  ℕ, ◌<◌, ◌≤◌, ◌≡◌, ◌⊎◌, inl, inr, refl, sym, ◌∙◌, List, [], ◌∷◌, Bool, true, false, Bool-cases,
  ◌&&◌, ltb, leb, arith, length, All, Bytes, IsByte,
}
use cbor.Deterministic.{
  bytes_less, indices, with_value, sorted_lens, order_bucket, order_buckets, order,
}
use cbor.Deterministic.Buckets.{Above, IsAscending}
use cbor.Deterministic.Permuted.{buckets, buckets-perm}
use cbor.Deterministic.Sorted.{
  IsSorted, All-append, All-imp, All-pairs, All-perm, IsSorted-imp, IsSorted-append, with_value-All,
  with_value-value,
}
use cbor.Deterministic.Lens.{sorted_lens-IsAscending, sorted_lens-In}
use cbor.Deterministic.Radix.{NotAbove, IsKey, radix-IsSorted}

NotAbove-asym : (a b : Bytes) → bytes_less a b ≡ true → bytes_less b a ≡ false
unfolding bytes_less
NotAbove-asym [] [] e = cc
NotAbove-asym [] (y ∷ b) e = refl
NotAbove-asym (x ∷ a) [] e = cc
NotAbove-asym (x ∷ a) (y ∷ b) e = elim (Bool-cases (bytes_less a b)) [
  | inl l ↦ let r = NotAbove-asym a b l in ground arith
  | inr l ↦ ground arith
]

NotAbove-trans : (a b c : Bytes) → NotAbove a b → NotAbove b c → NotAbove a c
unfolding bytes_less
NotAbove-trans [] b [] p q = refl
NotAbove-trans [] b (z ∷ c) p q = refl
NotAbove-trans (x ∷ a) [] c p q = absurd (ground arith)
NotAbove-trans (x ∷ a) (y ∷ b) [] p q = absurd (ground arith)
NotAbove-trans (x ∷ a) (y ∷ b) (z ∷ c) p q = elim (Bool-cases (bytes_less b a)) [
  | inl l ↦ ground arith
  | inr l ↦ elim (Bool-cases (bytes_less c b)) [
    | inl m ↦ ground arith
    | inr m ↦ let r = NotAbove-trans a b c l m in ground arith
  ]
]

-- What sort.Slice asks of its `less`, and what it does then.
abbrev pub IsWeakOrder : (ℕ → ℕ → Bool) → Type 0
IsWeakOrder less =
    ((i j : ℕ) → less i j ≡ true → less j i ≡ false)
    × ((i j k : ℕ) → less j i ≡ false → less k j ≡ false → less k i ≡ false)

abbrev pub IsSortSlice : ((ℕ → ℕ → Bool) → List ℕ → List ℕ) → Type 0
IsSortSlice sort_slice =
    (less : ℕ → ℕ → Bool) (is : List ℕ)
    → IsWeakOrder less
    → Perm (sort_slice less is) is × IsSorted (λ i j. less j i ≡ false) (sort_slice less is)

-- A shorter key comes first, and of keys of one length the one that is not above.
abbrev pub Precedes : Bytes → Bytes → Type 0
Precedes a b = (length a < length b) ⊎ ((length a ≡ length b) × NotAbove a b)

bytes_less-IsWeakOrder : (key : ℕ → Bytes) → IsWeakOrder (λ i j. bytes_less (key i) (key j))
bytes_less-IsWeakOrder key = (
  λ i j e. NotAbove-asym (key i) (key j) e,
  λ i j k p q. NotAbove-trans (key i) (key j) (key k) p q,
)

module _ (sort_slice : (ℕ → ℕ → Bool) → List ℕ → List ℕ) (stale : List ℕ → List ℕ) (key : ℕ → Bytes)
    (sorts : IsSortSlice sort_slice) (room : (grp : List ℕ) → length (stale grp) ≡ length grp) where
  bucket-IsSorted :
      (l : ℕ) (grp : List ℕ)
      → All (IsKey key l) grp
      → IsSorted (λ i j. NotAbove (key i) (key j)) (order_bucket sort_slice stale key l grp)
        × Perm (order_bucket sort_slice stale key l grp) grp
  bucket-IsSorted l grp k =
      unfold order_bucket in
      elim (Bool-cases (leb (length grp) 1)) [
        | inl few ↦ rw few (short grp (ground arith), Perm.refl grp)
        | inr many ↦ elim (Bool-cases (ltb l 64 && ltb (length grp) 1024)) [
          | inl small ↦
              let (p, s) =
                sorts (λ i j. bytes_less (key i) (key j)) grp (bytes_less-IsWeakOrder key) in
              rw (many, small) (s, p)
          | inr big ↦ rw (many, big) (radix-IsSorted key l grp (stale grp) k (room grp))
        ]
      ]
    where
      short : (grp : List ℕ) → length grp ≤ 1 → IsSorted (λ i j. NotAbove (key i) (key j)) grp
      short [] h = tt
      short (x ∷ []) h = (tt, tt)
      short (x ∷ y ∷ grp) h = absurd (omega arith)

  abbrev len : ℕ → ℕ
  len i = length (key i)

  abbrev pub IsBytes : ℕ → Type 0
  IsBytes i = All IsByte (key i)

  keys : (l : ℕ) (is : List ℕ) → All IsBytes is → All (IsKey key l) (with_value len l is)
  keys l is h =
      both (with_value len l is) (with_value-value len l is) (with_value-All len IsBytes l is h)
    where
      both : (xs : List ℕ) → All (λ i. len i ≡ l) xs → All IsBytes xs → All (IsKey key l) xs
      both [] p q = tt
      both (x ∷ xs) (p, ps) (q, qs) = ((p, q), both xs ps qs)

  buckets-IsSorted :
      (is lens : List ℕ)
      → All IsBytes is
      → IsAscending lens
      → IsSorted (λ i j. Precedes (key i) (key j)) (order_buckets sort_slice stale key is lens)
        × Perm (order_buckets sort_slice stale key is lens) (buckets len lens is)
        × ((m : ℕ)
            → Above m lens
            → All (λ i. m < len i) (order_buckets sort_slice stale key is lens))
  unfolding order_buckets
  buckets-IsSorted is [] h a = (tt, Perm.nil, λ m b. tt)
  buckets-IsSorted is (l ∷ lens) h (above, a) =
      let grp = with_value len l is in
      let k = keys l is h in
      let (s, p) = bucket-IsSorted l grp k in
      let (t, q, up) = buckets-IsSorted is lens h a in
      let same : All (λ i. len i ≡ l) (order_bucket sort_slice stale key l grp) =
        All-perm (λ i. len i ≡ l) (λ i. hlevel) p (with_value-value len l is) in
      (
        IsSorted-append (λ i j. Precedes (key i) (key j)) (order_bucket sort_slice stale key l grp)
            (order_buckets sort_slice stale key is lens)
            (IsSorted-imp (λ i. len i ≡ l) (λ i j. NotAbove (key i) (key j))
              (λ i j. Precedes (key i) (key j)) (order_bucket sort_slice stale key l grp)
              (λ i j ei ej n. inr (ei ∙ sym ej, n)) same s)
            t
            (All-pairs (λ i. len i ≡ l) (λ j. l < len j) (λ i j. Precedes (key i) (key j))
              (order_bucket sort_slice stale key l grp) (order_buckets sort_slice stale key is lens)
              (λ i j ei lj. inl (omega arith)) same (up l above)),
        Perm.append p q,
        λ m (lm, b).
            All-append (λ i. m < len i) (order_bucket sort_slice stale key l grp)
              (order_buckets sort_slice stale key is lens)
              (All-imp (λ i. len i ≡ l) (λ i. m < len i) (order_bucket sort_slice stale key l grp)
                (λ i e. omega arith) same)
              (up m b),
      )

  -- The order is one of all entries, by the length of the key and then by its bytes.
  pub order-IsSorted :
      (n : ℕ)
      → All IsBytes (indices 0 n)
      → IsSorted (λ i j. Precedes (key i) (key j)) (order sort_slice stale key n)
        × Perm (order sort_slice stale key n) (indices 0 n)
  order-IsSorted n h =
      let is = indices 0 n in
      let a = sorted_lens-IsAscending len is in
      let (s, p, up) = buckets-IsSorted is (sorted_lens len is) h a in
      unfold order in
      (s, Perm.trans p (buckets-perm len (sorted_lens len is) is a (sorted_lens-In len is)))
