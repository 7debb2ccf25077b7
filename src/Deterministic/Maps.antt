-- ===== src/Deterministic/Maps.antt =====
-- What the deterministic encoders of raw maps write.
use mathlib.Core.Logic.{∥∥₁_elim}
use mathlib.Core.List.{Permᴰ, Perm}
use mathlib.Core.List.Perm
use mathlib.Core.Path.{subst}
use native.Mathlib.Bridge.{le_prop}
use cbor.Base.{
  ℕ, ◌+◌, ◌<◌, ◌%◌, ◌^◌, ◌≡◌, ◌≢◌, refl, sym, ap, ◌∙◌, List, [], ◌∷◌, ◌++◌, append_assoc,
  append-nil, Bool, false, ◌==◌, arith, length, All, Bytes, IsByte,
}
use cbor.Result.{Result, ok}
use cbor.Append.{append_map_header}
use cbor.Maps.{RawPair}
use cbor.Deterministic.{order, indices}
use cbor.Deterministic.Sorted.{IsSorted, All-imp, All-perm}
use cbor.Deterministic.Order.{Precedes, IsSortSlice, order-IsSorted}
use cbor.Deterministic.Unique.{sorted_unique}
use cbor.Deterministic.Entries.{
  get_elem?, key_at, append_in_order, append_pair, append_raw_map_deterministic,
}
use cbor.Deterministic.Picked.{
  append_all, IsIndex, picked, append_in_order-picked, picked-IsSorted, picked-indices, keys-All,
  indices-below,
}

-- What sort.Slice and the scratch array of indices may be.
module _ (sort_slice : (ℕ → ℕ → Bool) → List ℕ → List ℕ) (stale : List ℕ → List ℕ)
    (sorts : IsSortSlice sort_slice) (room : (grp : List ℕ) → length (stale grp) ≡ length grp) where
  pub entries-IsSorted :
      {A : Type 0} (key : A → Bytes) (es : List A)
      → All (λ e. All IsByte (key e)) es
      → (s : List A) × Perm s es
        × IsSorted (λ e e'. Precedes (key e) (key e')) s
        × ((f : Bytes → A → Result Bytes) (b : Bytes)
            → append_in_order f es b
                (order sort_slice stale (λ i. key_at key (get_elem? es i)) (length es))
              ≡ append_all f b s)
  entries-IsSorted key es h =
      let by_index = λ (i : ℕ). key_at key (get_elem? es i) in
      let (sorted, perm) =
        order-IsSorted sort_slice stale by_index sorts room (length es)
          (keys-All key (All IsByte) es h) in
      let is = order sort_slice stale by_index (length es) in
      let below : All (IsIndex es) is =
        All-perm (IsIndex es) (λ i. le_prop) perm
          (All-imp (λ j. j < 0 + length es) (IsIndex es) (indices 0 (length es))
            (λ j l. omega arith) (indices-below 0 (length es))) in
      (
        picked es is,
        subst (λ l. Perm (picked es is) l) (picked-indices [] es)
            (Perm.filter_map (get_elem? es) perm),
        picked-IsSorted es key Precedes is below sorted,
        λ f b. append_in_order-picked es f b is below,
      )

-- The bytes of the pairs.
abbrev pub raw_bytes : List RawPair → Bytes
raw_bytes [] = []
raw_bytes (p ∷ pairs) = p.key ++ (p.value ++ raw_bytes pairs)

append_all-raw_bytes :
    (b : Bytes) (pairs : List RawPair) → append_all append_pair b pairs ≡ ok (b ++ raw_bytes pairs)
unfolding append_pair
append_all-raw_bytes b [] = ap ok (sym (append-nil b))
append_all-raw_bytes b (p ∷ pairs) =
    append_all-raw_bytes ((b ++ p.key) ++ p.value) pairs
    ∙ ap ok (
        append_assoc (b ++ p.key) p.value (raw_bytes pairs)
        ∙ append_assoc b p.key (p.value ++ raw_bytes pairs))

abbrev pub HasByteKey : RawPair → Type 0
HasByteKey p = All IsByte p.key

module _ (sort_slice : (ℕ → ℕ → Bool) → List ℕ → List ℕ) (stale : List ℕ → List ℕ)
    (sorts : IsSortSlice sort_slice) (room : (grp : List ℕ) → length (stale grp) ≡ length grp) where
  -- AppendRawMapDeterministic appends the header and all pairs, a shorter key before a longer one and
  -- keys of one length in the order of their bytes.
  pub append_raw_map_deterministic-IsSorted :
      (b : Bytes) (pairs : List RawPair)
      → All HasByteKey pairs
      → (s : List RawPair) × Perm s pairs
        × IsSorted (λ p q. Precedes p.key q.key) s
        × (append_raw_map_deterministic sort_slice stale b pairs
            ≡ ok (append_map_header b (length pairs % 2 ^ 32) ++ raw_bytes s))
  unfolding append_raw_map_deterministic
  append_raw_map_deterministic-IsSorted b [] h =
      ([], Perm.nil, tt, ap ok (sym (append-nil (append_map_header b 0))))
  append_raw_map_deterministic-IsSorted b (p ∷ ps) h =
      let pairs = p ∷ ps in
      let (s, perm, sorted, written) =
        entries-IsSorted sort_slice stale sorts room (λ (p : RawPair). p.key) pairs h in
      let some_pairs : (length pairs == 0) ≡ false = ground arith in
      (
        s,
        perm,
        sorted,
        rw some_pairs (
            written append_pair (append_map_header b (length pairs % 2 ^ 32))
            ∙ append_all-raw_bytes (append_map_header b (length pairs % 2 ^ 32)) s),
      )

length-permᴰ : {A : Type 0} {xs ys : List A} → Permᴰ xs ys → length xs ≡ length ys
length-permᴰ Permᴰ.nil = refl
length-permᴰ (Permᴰ.cons e d) = omega (arith, length-permᴰ d)
length-permᴰ (Permᴰ.swap e e') = refl
length-permᴰ (Permᴰ.trans d d') = length-permᴰ d ∙ length-permᴰ d'

pub length-perm : {A : Type 0} {xs ys : List A} → Perm xs ys → length xs ≡ length ys
length-perm p = ∥∥₁_elim p (hlevel) length-permᴰ

pub IsByte-prop : (k : Bytes) → IsProp (All IsByte k)
IsByte-prop [] = hlevel
IsByte-prop (x ∷ k) = let h = IsByte-prop k in let b : IsProp (IsByte x) = le_prop in hlevel

RawPair-IsSet : IsSet RawPair
RawPair-IsSet = hlevel

-- Two runs, each with its own sort.Slice and scratch array.
module _ (sort_slice sort_slice' : (ℕ → ℕ → Bool) → List ℕ → List ℕ)
    (stale stale' : List ℕ → List ℕ) (sorts : IsSortSlice sort_slice)
    (sorts' : IsSortSlice sort_slice') (room : (grp : List ℕ) → length (stale grp) ≡ length grp)
    (room' : (grp : List ℕ) → length (stale' grp) ≡ length grp) where
  -- AppendRawMapDeterministic writes the same bytes whatever the order of the pairs, if their keys
  -- are distinct and made of bytes. Each run has its own sort.Slice, which returns a sorted
  -- permutation for a strict weak order, and its own scratch array, as long as its group.
  pub append_raw_map_deterministic-Perm :
      (b : Bytes) (pairs pairs' : List RawPair)
      → All HasByteKey pairs
      → IsSorted (λ p q. p.key ≢ q.key) pairs
      → Perm pairs' pairs
      → append_raw_map_deterministic sort_slice stale b pairs
        ≡ append_raw_map_deterministic sort_slice' stale' b pairs'
  append_raw_map_deterministic-Perm b pairs pairs' h apart q =
      let (s, p, o, e) =
        append_raw_map_deterministic-IsSorted sort_slice stale sorts room b pairs h in
      let (s', p', o', e') =
        append_raw_map_deterministic-IsSorted sort_slice' stale' sorts' room' b pairs'
          (All-perm HasByteKey (λ x. IsByte-prop x.key) q h) in
      let same =
        sorted_unique (λ (p : RawPair). p.key) s s' pairs pairs' RawPair-IsSet apart q p p' o o' in
      e
      ∙ ap (λ n. ok (append_map_header b (n % 2 ^ 32) ++ raw_bytes s)) (sym (length-perm q))
      ∙ ap (λ l. ok (append_map_header b (length pairs' % 2 ^ 32) ++ raw_bytes l)) same
      ∙ sym e'
