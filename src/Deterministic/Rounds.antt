-- ===== src/Deterministic/Rounds.antt =====
-- A round of the radix sort gathers the indices by their byte, in the order in which they were.
use cbor.Base.{
  ℕ, zero, suc, ◌+◌, ◌<◌, ◌≤◌, ◌≡◌, inl, inr, refl, sym, ap, ◌∙◌, List, [], ◌∷◌, Bool-cases, ◌==◌,
  if◌then◌else◌, arith, length, All,
}
use cbor.Deterministic.{with_value, indices, bump, histogram, offsets, place, round}
use cbor.Deterministic.Buckets.{In, Above, Above-In, IsAscending, start, start-congr, total, cut}
use cbor.Deterministic.Permuted.{with_value-same, with_value-other, buckets}
use cbor.Deterministic.Counting.{place-gather}

histogram_lem :
    (digit c : ℕ → ℕ) (is : List ℕ) (e : ℕ)
    → histogram digit c is e ≡ c e + length (with_value digit e is)
unfolding histogram with_value bump
histogram_lem digit c [] e = omega arith
histogram_lem digit c (i ∷ is) e =
    let h = histogram_lem digit (bump c (digit i)) is e in ground arith

pub indices-Above : (e i n : ℕ) → e < i → Above e (indices i n)
unfolding indices
indices-Above e i zero h = tt
indices-Above e i (suc n) h = (h, indices-Above e (suc i) n (omega arith))

pub indices-IsAscending : (i n : ℕ) → IsAscending (indices i n)
unfolding indices
indices-IsAscending i zero = tt
indices-IsAscending i (suc n) =
    (indices-Above i (suc i) n (omega arith), indices-IsAscending (suc i) n)

pub In-indices : (e i n : ℕ) → i ≤ e → e < i + n → In e (indices i n)
unfolding indices
In-indices e i zero l h = absurd (omega arith)
In-indices e i (suc n) l h = elim (Bool-cases (e == i)) [
  | inl same ↦ inl (ground arith)
  | inr other ↦ inr (In-indices e (suc i) n (ground arith) (omega arith))
]

pub indices-In : (e i n : ℕ) → In e (indices i n) → (i ≤ e) × (e < i + n)
unfolding indices
indices-In e i zero h = absurd h
indices-In e i (suc n) (inl p) = (omega arith, omega arith)
indices-In e i (suc n) (inr h) = let (l, r) = indices-In e (suc i) n h in (omega arith, omega arith)

offsets-below : (k i sum : ℕ) (c : ℕ → ℕ) (e : ℕ) → e < i → offsets k i sum c e ≡ c e
unfolding offsets
offsets-below zero i sum c e h = refl
offsets-below (suc k) i sum c e h =
    let r =
      offsets-below k (suc i) (sum + c i) (λ x. if x == i then sum else c x) e (omega arith) in
    ground arith

-- After the loop over the counts each byte has the place where its bucket starts.
offsets-start :
    (k i sum : ℕ) (c : ℕ → ℕ) (e : ℕ)
    → i ≤ e
    → e < i + k
    → offsets k i sum c e ≡ sum + start (indices i k) c e
unfolding offsets indices
offsets-start zero i sum c e l h = absurd (omega arith)
offsets-start (suc k) i sum c e l h =
    let c' : ℕ → ℕ = λ x. if x == i then sum else c x in
    elim (Bool-cases (e == i)) [
      | inl same ↦
          let b = offsets-below k (suc i) (sum + c i) c' e (ground arith) in
          b ∙ rw same (omega arith)
      | inr other ↦
          let r = offsets-start k (suc i) (sum + c i) c' e (ground arith) (omega arith) in
          let s = start-congr (indices (suc i) k) c' c e (λ x j. unchanged x j) in
          rw other (omega arith)
    ]
  where
    unchanged : (x : ℕ) → In x (indices (suc i) k) → (if x == i then sum else c x) ≡ c x
    unchanged x j = let less = indices-In x (suc i) k j in ground arith

module _ (digit : ℕ → ℕ) where
  abbrev sizes : List ℕ → ℕ → ℕ
  sizes is e = length (with_value digit e is)

  total-congr :
      (ds : List ℕ) (L M : ℕ → ℕ) → ((e : ℕ) → In e ds → L e ≡ M e) → total ds L ≡ total ds M
  total-congr [] L M h = refl
  total-congr (d ∷ ds) L M h =
      let e = h d (inl refl) in let r = total-congr ds L M (λ x i. h x (inr i)) in omega arith

  total-cons :
      (ds : List ℕ) (x : ℕ) (xs : List ℕ)
      → IsAscending ds
      → In (digit x) ds
      → total ds (sizes (x ∷ xs)) ≡ suc (total ds (sizes xs))
  total-cons [] x xs a i = absurd i
  total-cons (d ∷ ds) x xs (above, a) (inl e) =
      let s = ap (λ l. length l) (with_value-same digit d x xs e) in
      let r = total-congr ds (sizes (x ∷ xs)) (sizes xs) (λ y i.
        let less = Above-In d y ds above i in
        ap (λ l. length l) (with_value-other digit y x xs (ground arith))) in
      omega arith
  total-cons (d ∷ ds) x xs (above, a) (inr i) =
      let less = Above-In d (digit x) ds above i in
      let s = ap (λ l. length l) (with_value-other digit d x xs (ground arith)) in
      let r = total-cons ds x xs a i in omega arith

  total-nil : (ds : List ℕ) → total ds (sizes []) ≡ 0
  unfolding with_value
  total-nil [] = refl
  total-nil (d ∷ ds) = omega (arith, total-nil ds)

  pub total-sizes :
      (ds is : List ℕ)
      → IsAscending ds
      → All (λ i. In (digit i) ds) is
      → total ds (sizes is) ≡ length is
  total-sizes ds [] a h = total-nil ds
  total-sizes ds (x ∷ xs) a (h, hs) =
      let t = total-cons ds x xs a h in let r = total-sizes ds xs a hs in omega arith

  abbrev pub IsDigit : ℕ → Type 0
  IsDigit i = digit i < 256

  below :
      (n : ℕ) (cur aux : List ℕ)
      → All (λ i. digit i < n) cur
      → length aux ≡ length cur
      → place digit (offsets n 0 0 (histogram digit (λ x. 0) cur)) aux cur
        ≡ buckets digit (indices 0 n) cur
  below n cur aux h l =
      let ds = indices 0 n in
      let a = indices-IsAscending 0 n in
      let (J, joined, lengths) =
        cut ds (sizes cur) aux a (total-sizes ds cur a (within cur h) ∙ sym l) in
      ap (λ x. place digit (offsets n 0 0 (histogram digit (λ x. 0) cur)) x cur) (sym joined)
      ∙ place-gather digit ds a (sizes cur) cur (offsets n 0 0 (histogram digit (λ x. 0) cur))
          (λ e. []) J (within cur h) (λ e i. (starts e i, lengths e i, omega (arith, lengths e i)))
    where
      zero_add : (n : ℕ) → 0 + n ≡ n
      zero_add n = omega arith

      within :
          (cur : List ℕ) → All (λ i. digit i < n) cur → All (λ i. In (digit i) (indices 0 n)) cur
      within [] h = tt
      within (x ∷ cur) (h, hs) =
          (In-indices (digit x) 0 n (omega arith) (omega arith), within cur hs)

      starts :
          (e : ℕ)
          → In e (indices 0 n)
          → offsets n 0 0 (histogram digit (λ x. 0) cur) e ≡ start (indices 0 n) (sizes cur) e + 0
      starts e i =
          let (lo, hi) = indices-In e 0 n i in
          let o = offsets-start n 0 0 (histogram digit (λ x. 0) cur) e lo hi in
          let s =
            start-congr (indices 0 n) (histogram digit (λ x. 0) cur) (sizes cur) e
              (λ d j. histogram_lem digit (λ x. 0) cur d ∙ zero_add (sizes cur d)) in
          omega arith

  -- Whatever `aux` holds, a round lays out the indices by their byte, and keeps their order where the
  -- byte is the same.
  pub round-buckets :
      (cur aux : List ℕ)
      → All IsDigit cur
      → length aux ≡ length cur
      → round digit cur aux ≡ buckets digit (indices 0 256) cur
  unfolding round
  round-buckets cur aux h l = below 256 cur aux h l
