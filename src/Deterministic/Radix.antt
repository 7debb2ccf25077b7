-- ===== src/Deterministic/Radix.antt =====
-- The rounds from the last byte to the first sort indices by their keys.
use mathlib.Core.List.{Perm}
use mathlib.Core.List.Perm
use cbor.Base.{
  ℕ, zero, suc, ◌<◌, ◌≤◌, ◌≡◌, refl, sym, ap, ◌∙◌, List, [], ◌∷◌, false, arith, length,
  length-append, All, Bytes, IsByte, drop,
}
use cbor.Deterministic.{bytes_less, byte_at, radix, round, indices, with_value}
use cbor.Deterministic.Buckets.{gather, In, total}
use cbor.Deterministic.Permuted.{buckets, buckets-perm}
use cbor.Deterministic.Rounds.{indices-IsAscending, In-indices, round-buckets, IsDigit, total-sizes}
use cbor.Deterministic.Sorted.{IsSorted, All-imp, buckets-All, buckets-IsSorted}

-- The first key is not above the second, on what is behind `pos` bytes.
abbrev pub NotAbove : Bytes → Bytes → Type 0
NotAbove a b = bytes_less b a ≡ false

drop-byte_at :
    (k : Bytes) (pos : ℕ) → pos < length k → drop pos k ≡ byte_at k pos ∷ drop (suc pos) k
unfolding byte_at
drop-byte_at [] pos h = absurd (omega arith)
drop-byte_at (x ∷ k) zero h = refl
drop-byte_at (x ∷ k) (suc pos) h = drop-byte_at k pos (omega arith)

drop-all : (k : Bytes) (pos : ℕ) → length k ≤ pos → drop pos k ≡ []
drop-all [] zero h = refl
drop-all [] (suc pos) h = refl
drop-all (x ∷ k) zero h = absurd (omega arith)
drop-all (x ∷ k) (suc pos) h = drop-all k pos (omega arith)

byte_at-IsByte : (k : Bytes) (pos : ℕ) → All IsByte k → byte_at k pos < 256
unfolding byte_at
byte_at-IsByte [] pos h = omega arith
byte_at-IsByte (x ∷ k) zero (h, hs) = h
byte_at-IsByte (x ∷ k) (suc pos) (h, hs) = byte_at-IsByte k pos hs

lower-byte : (x y : ℕ) (a b : Bytes) → x < y → NotAbove (x ∷ a) (y ∷ b)
unfolding bytes_less
lower-byte x y a b h = ground arith

equal-byte : (x y : ℕ) (a b : Bytes) → x ≡ y → NotAbove a b → NotAbove (x ∷ a) (y ∷ b)
unfolding bytes_less
equal-byte x y a b h n = ground arith

length-gather : (ds : List ℕ) (F : ℕ → List ℕ) → length (gather ds F) ≡ total ds (λ e. length (F e))
length-gather [] F = refl
length-gather (d ∷ ds) F = omega (arith, length-append (F d) (gather ds F), length-gather ds F)

module _ (key : ℕ → Bytes) (l : ℕ) where
  -- The key has `l` bytes.
  abbrev pub IsKey : ℕ → Type 0
  IsKey i = (length (key i) ≡ l) × All IsByte (key i)

  abbrev Behind : ℕ → ℕ → ℕ → Type 0
  Behind pos i j = NotAbove (drop pos (key i)) (drop pos (key j))

  lower :
      (pos : ℕ)
      → pos < l
      → (i j : ℕ) → IsKey i
      → IsKey j
      → byte_at (key i) pos < byte_at (key j) pos
      → Behind pos i j
  lower pos h i j (li, bi) (lj, bj) less =
      rw (drop-byte_at (key i) pos (omega arith), drop-byte_at (key j) pos (omega arith))
        (lower-byte (byte_at (key i) pos) (byte_at (key j) pos) (drop (suc pos) (key i))
          (drop (suc pos) (key j)) less)

  equal :
      (pos : ℕ)
      → pos < l
      → (i j : ℕ) → IsKey i
      → IsKey j
      → byte_at (key i) pos ≡ byte_at (key j) pos
      → Behind (suc pos) i j
      → Behind pos i j
  equal pos h i j (li, bi) (lj, bj) same n =
      rw (drop-byte_at (key i) pos (omega arith), drop-byte_at (key j) pos (omega arith))
        (equal-byte (byte_at (key i) pos) (byte_at (key j) pos) (drop (suc pos) (key i))
          (drop (suc pos) (key j)) same n)

  radix-from :
      (pos : ℕ) (cur aux : List ℕ)
      → pos ≤ l
      → All IsKey cur
      → length aux ≡ length cur
      → IsSorted (Behind pos) cur
      → IsSorted (Behind 0) (radix key pos cur aux) × Perm (radix key pos cur aux) cur
  radix-from zero cur aux h k n s = unfold radix in (s, Perm.refl cur)
  radix-from (suc pos) cur aux h k n s =
      let digit : ℕ → ℕ = λ i. byte_at (key i) pos in
      let ds = indices 0 256 in
      let bytes : All (IsDigit digit) cur =
        All-imp IsKey (IsDigit digit) cur (λ i (li, bi). byte_at-IsByte (key i) pos bi) k in
      let within : All (λ i. In (digit i) ds) cur =
        All-imp (IsDigit digit) (λ i. In (digit i) ds) cur
          (λ i b. In-indices (digit i) 0 256 (omega arith) b) bytes in
      let a = indices-IsAscending 0 256 in
      let laid = round-buckets digit cur aux bytes n in
      let size =
        length-gather ds (λ d. with_value digit d cur) ∙ total-sizes digit ds cur a within in
      let (sorted, perm) =
        radix-from pos (buckets digit ds cur) cur (omega arith) (buckets-All digit IsKey ds cur k)
          (sym size)
          (buckets-IsSorted digit IsKey (Behind (suc pos)) (Behind pos) (lower pos (omega arith))
            (equal pos (omega arith)) ds cur a k s) in
      let e : radix key (suc pos) cur aux ≡ radix key pos (buckets digit ds cur) cur =
        one pos cur aux ∙ ap (λ x. radix key pos x cur) laid in
      rw e (sorted, Perm.trans perm (buckets-perm digit ds cur a within))
    where
      one :
          (pos : ℕ) (cur aux : List ℕ)
          → radix key (suc pos) cur aux
            ≡ radix key pos (round (λ i. byte_at (key i) pos) cur aux) cur
      one pos cur aux = unfold radix in refl

  -- As many rounds of counting as the keys have bytes, from the last byte to the first, permute
  -- the indices so that no key stands above a later one, whatever the scratch array holds, if all
  -- keys of the group have one length and are made of bytes, and the scratch array is as long as
  -- the group.
  pub radix-IsSorted :
      (grp aux : List ℕ)
      → All IsKey grp
      → length aux ≡ length grp
      → IsSorted (λ i j. NotAbove (key i) (key j)) (radix key l grp aux)
        × Perm (radix key l grp aux) grp
  radix-IsSorted grp aux k n = radix-from l grp aux (omega arith) k n (start grp k)
    where
      nothing : (i j : ℕ) → IsKey i → IsKey j → Behind l i j
      nothing i j (li, bi) (lj, bj) =
          rw (drop-all (key i) l (omega arith), drop-all (key j) l (omega arith))
            (unfold bytes_less in refl)

      all : (i : ℕ) (is : List ℕ) → IsKey i → All IsKey is → All (Behind l i) is
      all i [] h k = tt
      all i (j ∷ is) h (kj, k) = (nothing i j h kj, all i is h k)

      start : (is : List ℕ) → All IsKey is → IsSorted (Behind l) is
      start [] k = tt
      start (i ∷ is) (h, k) = (all i is h k, start is k)
