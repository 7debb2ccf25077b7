-- ===== src/Deterministic/ReadBack.antt =====
-- The readers of maps on what `AppendRawMapDeterministic` writes.
use mathlib.Core.List.{Perm, Pairwise, Mem, mem-cons_self, mem-cons_of_mem}
use mathlib.Core.List.Perm
use text.Mathlib.TextEquality.{IsScalar-prop}
use cbor.Base.{
  ℕ, ◌<◌, ◌%◌, ◌^◌, ◌≡◌, ◌≢◌, refl, sym, ap, ◌∙◌, List, [], ◌∷◌, ◌++◌, append_assoc, append-nil,
  Bool, false, ◌==◌, arith, length, All, Bytes,
}
use cbor.Result.{ok}
use cbor.Wire.{get_major_type, get_add_info}
use cbor.Append.{append_map_header}
use cbor.Headers.{read_map_header}
use cbor.Loops.{times_with}
use cbor.Skip.{skip}
use cbor.Skip.Walk.{skip_takes_item}
use cbor.Sequence.Split.{IsItem, segment-append}
use cbor.Maps.{RawPair, ordered_entry, read_ordered_map, read_map_no_dup}
use cbor.Maps.Distinct.{Distinct, Absent}
use cbor.Maps.Runs.{read_map_no_dup_iff}
use cbor.Maps.Text.{read_map_header-append}
use cbor.Deterministic.Sorted.{IsSorted, All-perm}
use cbor.Deterministic.Order.{Precedes, IsSortSlice}
use cbor.Deterministic.Unique.{IsSorted-Pairwise}
use cbor.Deterministic.Entries.{append_raw_map_deterministic}
use cbor.Deterministic.Maps.{
  append_raw_map_deterministic-IsSorted, raw_bytes, HasByteKey, length-perm,
}

skip-item : (it rest : Bytes) → IsItem it → skip (it ++ rest) ≡ ok rest
skip-item it rest h =
    let (x, p, s, m) = skip_takes_item it [] h in
    let whole : it ≡ x ∷ p = s ∙ ap (λ l. x ∷ l) (append-nil p) in
    ap (λ l. skip (l ++ rest)) whole ∙ m rest

abbrev pub IsPair : RawPair → Type 0
IsPair p = IsItem p.key × IsItem p.value

ordered_entry-append :
    (pairs : List RawPair) (p : RawPair) (rest : Bytes)
    → IsPair p
    → ordered_entry pairs (p.key ++ (p.value ++ rest)) ≡ ok (pairs ++ p ∷ [], rest)
unfolding ordered_entry
ordered_entry-append pairs p rest (hk, hv) =
    rw
      (
        skip-item p.key (p.value ++ rest) hk,
        segment-append p.key (p.value ++ rest),
        skip-item p.value rest hv,
        segment-append p.value rest,
      )
      refl

times_with-raw_bytes :
    (s pairs : List RawPair) (rest : Bytes)
    → All IsPair s
    → times_with ordered_entry (length s) pairs (raw_bytes s ++ rest) ≡ ok (pairs ++ s, rest)
unfolding times_with
times_with-raw_bytes [] pairs rest h = ap (λ l. ok (l, rest)) (sym (append-nil pairs))
times_with-raw_bytes (p ∷ s) pairs rest (h, hs) =
    rw
      (
        append_assoc p.key (p.value ++ raw_bytes s) rest,
        append_assoc p.value (raw_bytes s) rest,
        ordered_entry-append pairs p (raw_bytes s ++ rest) h,
      )
      (times_with-raw_bytes s (pairs ++ p ∷ []) rest hs
        ∙ ap (λ l. ok (l, rest)) (append_assoc pairs (p ∷ []) s))

-- A header that the reader of map headers takes is one of a map, of definite length.
header-form :
    (lead : ℕ) (t : Bytes) (n : ℕ) (r : Bytes)
    → read_map_header (lead ∷ t) ≡ ok (n, r)
    → (get_major_type lead ≡ 5) × ((get_add_info lead == 31) ≡ false)
unfolding read_map_header get_major_type get_add_info
header-form lead t n r e = (ground arith, ground arith)

read_ordered_map-header :
    (l : Bytes) (n : ℕ) (r : Bytes)
    → read_map_header l ≡ ok (n, r)
    → read_ordered_map l ≡ times_with ordered_entry n [] r
unfolding read_ordered_map
read_ordered_map-header [] n r e = absurd (absent e)
  where
    absent : read_map_header [] ≡ ok (n, r) → ⊥
    absent e = unfold read_map_header in cc
read_ordered_map-header (lead ∷ t) n r e =
    let (major, open_ended) = header-form lead t n r e in rw (major, open_ended, e) refl

map-read :
    (n : ℕ) (s : List RawPair) (rest : Bytes)
    → n < 2 ^ 32
    → length s ≡ n
    → All IsPair s
    → read_ordered_map (append_map_header [] (n % 2 ^ 32) ++ raw_bytes s ++ rest) ≡ ok (s, rest)
map-read n s rest l e h =
    let same : n % 2 ^ 32 ≡ n = omega arith in
    ap (λ k. read_ordered_map (append_map_header [] k ++ raw_bytes s ++ rest)) same
    ∙ ap read_ordered_map (append_assoc (append_map_header [] n) (raw_bytes s) rest)
    ∙ read_ordered_map-header (append_map_header [] n ++ (raw_bytes s ++ rest)) n
        (raw_bytes s ++ rest) (read_map_header-append n (raw_bytes s ++ rest) l)
    ∙ ap (λ k. times_with ordered_entry k [] (raw_bytes s ++ rest)) (sym e)
    ∙ times_with-raw_bytes s [] rest h

Pairwise-Distinct : (s : List RawPair) → Pairwise (λ p q. p.key ≢ q.key) s → Distinct s
Pairwise-Distinct [] Pairwise.nil = tt
Pairwise-Distinct (p ∷ s) (Pairwise.cons h t) = (absent s h, Pairwise-Distinct s t)
  where
    absent : (s : List RawPair) → ((q : RawPair) → Mem q s → p.key ≢ q.key) → Absent p.key s
    absent [] h = tt
    absent (q ∷ s) h = (h q mem-cons_self, absent s (λ x m. h x (mem-cons_of_mem q m)))

Distinct-Perm :
    (s pairs : List RawPair) → Perm s pairs → IsSorted (λ p q. p.key ≢ q.key) pairs → Distinct s
Distinct-Perm s pairs perm apart = Pairwise-Distinct s (
    Perm.pairwise {R = λ (p : RawPair) (q : RawPair). p.key ≢ q.key} (λ p q. hlevel)
      (λ p q n e. n (sym e)) (Perm.symm perm)
      (IsSorted-Pairwise (λ p q. p.key ≢ q.key) (λ p q. hlevel) pairs apart))

IsPair-prop : (p : RawPair) → IsProp (IsPair p)
IsPair-prop p = hlevel (IsScalar-prop)

module _ (sort_slice : (ℕ → ℕ → Bool) → List ℕ → List ℕ) (stale : List ℕ → List ℕ)
    (sorts : IsSortSlice sort_slice) (room : (grp : List ℕ) → length (stale grp) ≡ length grp) where
  -- If each key and each value is one item that Skip reads to its end, the keys are distinct and
  -- made of bytes, and there are fewer than 2^32 pairs, then what AppendRawMapDeterministic
  -- appends to an empty buffer is read back by ReadOrderedMapBytes, the pairs permuted so that a
  -- shorter key comes before a longer one and keys of one length ascend by their bytes; and
  -- ReadMapNoDupBytes accepts it. sort.Slice returns a sorted permutation for a strict weak order,
  -- and the scratch array is as long as its group.
  pub read_ordered_map-append_raw_map_deterministic :
      (pairs : List RawPair) (rest : Bytes)
      → length pairs < 2 ^ 32
      → All HasByteKey pairs
      → All IsPair pairs
      → IsSorted (λ p q. p.key ≢ q.key) pairs
      → (s : List RawPair) × (out : Bytes) × Perm s pairs
        × IsSorted (λ p q. Precedes p.key q.key) s
        × (append_raw_map_deterministic sort_slice stale [] pairs ≡ ok out)
        × (read_ordered_map (out ++ rest) ≡ ok (s, rest))
        × (read_map_no_dup (out ++ rest) ≡ ok rest)
  read_ordered_map-append_raw_map_deterministic pairs rest l hb hp apart =
      let (s, perm, sorted, written) =
        append_raw_map_deterministic-IsSorted sort_slice stale sorts room [] pairs hb in
      let out = append_map_header [] (length pairs % 2 ^ 32) ++ raw_bytes s in
      let read : read_ordered_map (out ++ rest) ≡ ok (s, rest) =
        map-read (length pairs) s rest l (length-perm perm) (All-perm IsPair IsPair-prop perm hp) in
      (
        s,
        out,
        perm,
        sorted,
        written,
        read,
        (read_map_no_dup_iff (out ++ rest) rest).1 (s, read, Distinct-Perm s pairs perm apart),
      )
