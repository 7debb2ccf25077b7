-- ===== src/Deterministic.antt =====
-- The order of the entries in `AppendRawMapDeterministic` and `AppendMapDeterministic` of
-- runtime/write_bytes.go. Both bucket the indices of the entries by the length of the encoded key,
-- and sort each bucket by its bytes. `key i` is the encoded key of the entry with index `i`.
pub mod Buckets
pub mod Permuted
pub mod Counting
pub mod Rounds
pub mod Sorted
pub mod Radix
pub mod Lens
pub mod Order
pub mod Unique
pub mod Entries
pub mod Picked
pub mod Maps
pub mod Typed
pub mod Texts
pub mod TextMaps
pub mod ReadBack
use cbor.Base.{
  ℕ, zero, suc, ◌+◌, ◌-◌, List, [], ◌∷◌, ◌++◌, Bool, true, false, ◌&&◌, ◌||◌, Bytes, ltb, leb, ◌==◌,
  if◌then◌else◌, length,
}

-- `bytes.Compare(a, b) < 0`
unfoldable pub bytes_less : Bytes → Bytes → Bool
bytes_less [] [] = false
bytes_less [] (y ∷ ys) = true
bytes_less (x ∷ xs) [] = false
bytes_less (x ∷ xs) (y ∷ ys) = ltb x y || (x == y && bytes_less xs ys)

-- `k[pos]`; every position is within the key.
unfoldable pub byte_at : Bytes → ℕ → ℕ
byte_at [] pos = 0
byte_at (x ∷ k) zero = x
byte_at (x ∷ k) (suc pos) = byte_at k pos

-- The `n` indices from `i` on.
unfoldable pub indices : ℕ → ℕ → List ℕ
indices i zero = []
indices i (suc n) = i ∷ indices (suc i) n

-- The indices `i` with `f i` equal to `d`, in order: `byLen[d]` for the lengths of the keys.
unfoldable pub with_value : (ℕ → ℕ) → ℕ → List ℕ → List ℕ
with_value f d [] = []
with_value f d (i ∷ is) = if f i == d then i ∷ with_value f d is else with_value f d is

-- The keys of `byLen` in ascending order.
unfoldable pub insert_length : ℕ → List ℕ → List ℕ
insert_length l [] = l ∷ []
insert_length l (m ∷ ls) =
    let later = insert_length l ls in
    if ltb l m then l ∷ m ∷ ls else if l == m then m ∷ ls else m ∷ later

unfoldable pub sorted_lens : (ℕ → ℕ) → List ℕ → List ℕ
unfolding insert_length
sorted_lens f [] = []
sorted_lens f (i ∷ is) = insert_length (f i) (sorted_lens f is)

-- The array `counts` is a function from bytes. `counts[b]++`
unfoldable pub bump : (ℕ → ℕ) → ℕ → ℕ → ℕ
bump counts b x = if x == b then counts x + 1 else counts x

unfoldable pub histogram : (ℕ → ℕ) → (ℕ → ℕ) → List ℕ → ℕ → ℕ
unfolding bump
histogram digit counts [] = counts
histogram digit counts (i ∷ is) = histogram digit (bump counts (digit i)) is

-- `c := counts[i]; counts[i] = sum; sum += c`, for `k` bytes from `i` on
unfoldable pub offsets : ℕ → ℕ → ℕ → (ℕ → ℕ) → ℕ → ℕ
offsets zero i sum counts = counts
offsets (suc k) i sum counts =
    offsets k (suc i) (sum + counts i) (λ x. if x == i then sum else counts x)

-- `aux[p] = idx`
unfoldable pub set_at : ℕ → ℕ → List ℕ → List ℕ
set_at p v [] = []
set_at zero v (x ∷ aux) = v ∷ aux
set_at (suc p) v (x ∷ aux) = x ∷ set_at p v aux

-- The last loop of a round: each index goes to the next place of its byte.
unfoldable pub place : (ℕ → ℕ) → (ℕ → ℕ) → List ℕ → List ℕ → List ℕ
unfolding bump set_at
place digit counts aux [] = aux
place digit counts aux (i ∷ cur) =
    place digit (bump counts (digit i)) (set_at (counts (digit i)) i aux) cur

-- One round on the byte `digit`.
unfoldable pub round : (ℕ → ℕ) → List ℕ → List ℕ → List ℕ
unfolding place offsets histogram
round digit cur aux = place digit (offsets 256 0 0 (histogram digit (λ x. 0) cur)) aux cur

-- `for pos := l - 1; pos >= 0; pos--`, with `cur` and `aux` swapped after a round
unfoldable pub radix : (ℕ → Bytes) → ℕ → List ℕ → List ℕ → List ℕ
unfolding round byte_at
radix key zero cur aux = cur
radix key (suc pos) cur aux = radix key pos (round (λ i. byte_at (key i) pos) cur aux) cur

-- `sort_slice less grp` is what sort.Slice makes of `grp`, and `stale grp` is what `tmp` holds in
-- its first `len(grp)` places: zeros, or what an earlier bucket left.
module _ (sort_slice : (ℕ → ℕ → Bool) → List ℕ → List ℕ) (stale : List ℕ → List ℕ)
    (key : ℕ → Bytes) where
  unfoldable pub order_bucket : ℕ → List ℕ → List ℕ
  unfolding bytes_less radix
  order_bucket l grp =
      if leb (length grp) 1
      then grp
      else if ltb l 64 && ltb (length grp) 1024
      then sort_slice (λ i j. bytes_less (key i) (key j)) grp
      else radix key l grp (stale grp)

  unfoldable pub order_buckets : List ℕ → List ℕ → List ℕ
  unfolding order_bucket with_value
  order_buckets is [] = []
  order_buckets is (l ∷ lens) =
      order_bucket l (with_value (λ i. length (key i)) l is) ++ order_buckets is lens

  -- The indices of `n` entries in the order in which they are written.
  unfoldable pub order : ℕ → List ℕ
  unfolding order_buckets sorted_lens indices
  order n = order_buckets (indices 0 n) (sorted_lens (λ i. length (key i)) (indices 0 n))
