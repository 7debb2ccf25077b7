-- ===== src/Deterministic/Typed.antt =====
-- `AppendMapDeterministic`: the entries of a Go map, whatever order `range` visits them in.
use mathlib.Core.List.{map, Perm}
use mathlib.Core.List.Perm
use cbor.Base.{
  ℕ, ◌%◌, ◌^◌, ◌≡◌, ◌≢◌, refl, sym, ap, ◌∙◌, List, [], ◌∷◌, ◌++◌, Bool, length, All, Bytes, IsByte,
  drop, drop-append,
}
use cbor.Result.{Result}
use cbor.Append.{append_map_header}
use cbor.Deterministic.Sorted.{IsSorted, All-perm}
use cbor.Deterministic.Order.{Precedes, IsSortSlice}
use cbor.Deterministic.Unique.{sorted_unique}
use cbor.Deterministic.Entries.{encode_items, append_item_at, append_map_deterministic}
use cbor.Deterministic.Picked.{append_all}
use cbor.Deterministic.Maps.{entries-IsSorted, IsByte-prop, length-perm}

module _ {K : Type 0} (enc_key : Bytes → K → Bytes) where
  -- The encoder of keys appends, and what it appends does not depend on the buffer.
  abbrev pub IsEncoder : Type 0
  IsEncoder = (b : Bytes) (k : K) → enc_key b k ≡ b ++ enc_key [] k

module _ {K V : Type 0} (enc_key : Bytes → K → Bytes) where
  -- The entries with their encoded keys.
  abbrev pub encoded : List (K × V) → List (Bytes × V)
  encoded [] = []
  encoded ((k, v) ∷ m) = (enc_key [] k, v) ∷ encoded m

  pub encode_items-encoded :
      (m : List (K × V)) (scratch : Bytes)
      → IsEncoder enc_key
      → encode_items enc_key scratch m ≡ encoded m
  unfolding encode_items
  encode_items-encoded [] scratch h = refl
  encode_items-encoded ((k, v) ∷ m) scratch h =
      let rest = encode_items-encoded m (enc_key scratch k) h in
      let key : drop (length scratch) (enc_key scratch k) ≡ enc_key [] k =
        ap (λ l. drop (length scratch) l) (h scratch k)
        ∙ drop-append (length scratch) scratch (enc_key [] k) refl in
      rw (key, rest) refl

  pub encoded-map : (m : List (K × V)) → encoded m ≡ map (λ (e : K × V). (enc_key [] e.0, e.1)) m
  encoded-map [] = refl
  encoded-map ((k, v) ∷ m) = ap (λ l. (enc_key [] k, v) ∷ l) (encoded-map m)

  encoded-Perm : {m m' : List (K × V)} → Perm m m' → Perm (encoded m) (encoded m')
  encoded-Perm {m} {m'} p =
      rw (encoded-map m, encoded-map m') (Perm.map (λ (e : K × V). (enc_key [] e.0, e.1)) p)

module _ {V : Type 0} where
  abbrev pub HasBytes : Bytes × V → Type 0
  HasBytes it = All IsByte it.0

-- What sort.Slice and the scratch array of indices may be.
module _ (sort_slice : (ℕ → ℕ → Bool) → List ℕ → List ℕ) (stale : List ℕ → List ℕ)
    (sorts : IsSortSlice sort_slice) (room : (grp : List ℕ) → length (stale grp) ≡ length grp) where
  -- AppendMapDeterministic appends the header and all entries in the ascending order of their encoded
  -- keys, or fails as the encoder of values does on them in this order.
  pub append_map_deterministic-IsSorted :
      {K V : Type 0} (enc_key : Bytes → K → Bytes) (enc_val : Bytes → V → Result Bytes) (b : Bytes)
      (m : List (K × V))
      → IsEncoder enc_key
      → All HasBytes (encoded enc_key m)
      → (s : List (Bytes × V)) × Perm s (encoded enc_key m)
        × IsSorted (λ x y. Precedes x.0 y.0) s
        × (append_map_deterministic sort_slice stale enc_key enc_val b m
            ≡ append_all
                (append_item_at enc_val)
                (append_map_header b (length (encoded enc_key m) % 2 ^ 32))
                s)
  unfolding append_map_deterministic
  append_map_deterministic-IsSorted {V = V} enc_key enc_val b m enc h =
      let items = encoded enc_key m in
      let (s, perm, sorted, written) =
        entries-IsSorted sort_slice stale sorts room (λ (it : Bytes × V). it.0) items h in
      (
        s,
        perm,
        sorted,
        rw (encode_items-encoded enc_key m [] enc)
            (written (append_item_at enc_val) (append_map_header b (length items % 2 ^ 32))),
      )

-- Two runs, each with its own sort.Slice and scratch array.
module _ (sort_slice sort_slice' : (ℕ → ℕ → Bool) → List ℕ → List ℕ)
    (stale stale' : List ℕ → List ℕ) (sorts : IsSortSlice sort_slice)
    (sorts' : IsSortSlice sort_slice') (room : (grp : List ℕ) → length (stale grp) ≡ length grp)
    (room' : (grp : List ℕ) → length (stale' grp) ≡ length grp) where
  -- AppendMapDeterministic writes the same bytes, or fails alike, whatever the order in which the
  -- map is visited, if the encoded keys are distinct and made of bytes, and the encoder of keys
  -- appends what does not depend on the buffer. Each run has its own sort.Slice, which returns a
  -- sorted permutation for a strict weak order, and its own scratch array, as long as its group.
  pub append_map_deterministic-Perm :
      {K V : Type 0} (enc_key : Bytes → K → Bytes) (enc_val : Bytes → V → Result Bytes) (b : Bytes)
      (m m' : List (K × V))
      → IsEncoder enc_key
      → IsSet V
      → All HasBytes (encoded enc_key m)
      → IsSorted (λ x y. x.0 ≢ y.0) (encoded enc_key m)
      → Perm m' m
      → append_map_deterministic sort_slice stale enc_key enc_val b m
        ≡ append_map_deterministic sort_slice' stale' enc_key enc_val b m'
  append_map_deterministic-Perm {V = V} enc_key enc_val b m m' enc setV h apart q =
      let q' = encoded-Perm enc_key q in
      let (s, p, o, e) =
        append_map_deterministic-IsSorted sort_slice stale sorts room enc_key enc_val b m enc h in
      let (s', p', o', e') =
        append_map_deterministic-IsSorted sort_slice' stale' sorts' room' enc_key enc_val b m' enc
          (All-perm HasBytes (λ x. IsByte-prop x.0) q' h) in
      let same =
        sorted_unique (λ (it : Bytes × V). it.0) s s' (encoded enc_key m) (encoded enc_key m')
          (hlevel) apart q' p p' o o' in
      e
      ∙ ap (λ n. append_all (append_item_at enc_val) (append_map_header b (n % 2 ^ 32)) s)
          (sym (length-perm q'))
      ∙ ap
          (λ l.
            append_all (append_item_at enc_val)
              (append_map_header b (length (encoded enc_key m') % 2 ^ 32)) l)
          same
      ∙ sym e'
