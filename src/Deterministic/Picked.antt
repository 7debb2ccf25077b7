-- ===== src/Deterministic/Picked.antt =====
-- Entries picked by their indices.
use mathlib.Core.List.{filter_map}
use mathlib.Core.Option.{Option-elim}
use cbor.Base.{
  ℕ, zero, suc, ◌+◌, ◌<◌, ◌≡◌, refl, ap, ◌∙◌, List, [], ◌∷◌, ◌++◌, append_assoc, arith, length,
  length-append, All, Bytes, Option, some,
}
use cbor.Result.{Result, ok, ◌>>=◌}
use cbor.Deterministic.{indices}
use cbor.Deterministic.Sorted.{IsSorted, All-imp}
use cbor.Deterministic.Entries.{get_elem?, at_index, key_at, append_in_order}

module _ {A : Type 0} where
  -- One entry after another.
  abbrev pub append_all : (Bytes → A → Result Bytes) → Bytes → List A → Result Bytes
  append_all f b [] = ok b
  append_all f b (e ∷ es) = f b e >>= λ b'. append_all f b' es

  get_elem?-some : (es : List A) (i : ℕ) → i < length es → (e : A) × (get_elem? es i ≡ some e)
  unfolding get_elem?
  get_elem?-some [] i h = absurd (omega arith)
  get_elem?-some (x ∷ es) zero h = (x, refl)
  get_elem?-some (x ∷ es) (suc i) h = get_elem?-some es i (omega arith)

  get_elem?-append : (pre es : List A) (x : A) → get_elem? (pre ++ x ∷ es) (length pre) ≡ some x
  unfolding get_elem?
  get_elem?-append [] es x = refl
  get_elem?-append (y ∷ pre) es x = get_elem?-append pre es x

  filter_map-some :
      (f : ℕ → Option A) (i : ℕ) (is : List ℕ) (e : A)
      → f i ≡ some e
      → filter_map f (i ∷ is) ≡ e ∷ filter_map f is
  unfolding filter_map Option-elim
  filter_map-some f i is e h = rw h refl

  pub picked-indices :
      (pre es : List A) → filter_map (get_elem? (pre ++ es)) (indices (length pre) (length es)) ≡ es
  unfolding indices filter_map
  picked-indices pre [] = refl
  picked-indices pre (x ∷ es) =
      let ih = picked-indices (pre ++ x ∷ []) es in
      let one : length (pre ++ x ∷ []) ≡ suc (length pre) =
        omega (arith, length-append pre (x ∷ [])) in
      filter_map-some (get_elem? (pre ++ x ∷ es)) (length pre)
        (indices (suc (length pre)) (length es)) x (get_elem?-append pre es x)
      ∙ ap (λ l. x ∷ l) (rw (append_assoc pre (x ∷ []) es, one) at ih)

  module _ (es : List A) where
    abbrev pub IsIndex : ℕ → Type 0
    IsIndex i = i < length es

    -- The entries at some indices.
    abbrev pub picked : List ℕ → List A
    picked is = filter_map (get_elem? es) is

    pub append_in_order-picked :
        (f : Bytes → A → Result Bytes) (b : Bytes) (is : List ℕ)
        → All IsIndex is
        → append_in_order f es b is ≡ append_all f b (picked is)
    unfolding append_in_order at_index filter_map
    append_in_order-picked f b [] h = refl
    append_in_order-picked f b (i ∷ is) (h, hs) =
        let (e, found) = get_elem?-some es i h in
        rw (filter_map-some (get_elem? es) i is e found, found)
          (ap (λ (next : Bytes → Result Bytes). f b e >>= next)
            (λ j b'. append_in_order-picked f b' is hs j))

    picked-All :
        (key : A → Bytes) (P : Bytes → Type 0) (is : List ℕ)
        → All IsIndex is
        → All (λ i. P (key_at key (get_elem? es i))) is
        → All (λ e. P (key e)) (picked is)
    unfolding filter_map key_at
    picked-All key P [] h k = tt
    picked-All key P (i ∷ is) (h, hs) (k, ks) =
        let (e, found) = get_elem?-some es i h in
        rw (filter_map-some (get_elem? es) i is e found) (rw found at k, picked-All key P is hs ks)

    pub picked-IsSorted :
        (key : A → Bytes) (R : Bytes → Bytes → Type 0) (is : List ℕ)
        → All IsIndex is
        → IsSorted (λ i j. R (key_at key (get_elem? es i)) (key_at key (get_elem? es j))) is
        → IsSorted (λ e e'. R (key e) (key e')) (picked is)
    unfolding filter_map key_at
    picked-IsSorted key R [] h s = tt
    picked-IsSorted key R (i ∷ is) (h, hs) (b, s) =
        let (e, found) = get_elem?-some es i h in
        rw (filter_map-some (get_elem? es) i is e found)
          (picked-All key (R (key e)) is hs (rw found at b), picked-IsSorted key R is hs s)

module _ {A : Type 0} (key : A → Bytes) (P : Bytes → Type 0) where
  -- The keys of the entries, by index.
  keys-from :
      (pre es : List A)
      → All (λ e. P (key e)) es
      → All (λ i. P (key_at key (get_elem? (pre ++ es) i))) (indices (length pre) (length es))
  unfolding indices key_at
  keys-from pre [] h = tt
  keys-from pre (x ∷ es) (h, hs) =
      let one : length (pre ++ x ∷ []) ≡ suc (length pre) =
        omega (arith, length-append pre (x ∷ [])) in
      let rest = keys-from (pre ++ x ∷ []) es hs in
      (rw (get_elem?-append pre es x) h, rw (append_assoc pre (x ∷ []) es, one) at rest)

  pub keys-All :
      (es : List A)
      → All (λ e. P (key e)) es
      → All (λ i. P (key_at key (get_elem? es i))) (indices 0 (length es))
  keys-All es h = keys-from [] es h

pub indices-below : (i n : ℕ) → All (λ j. j < i + n) (indices i n)
unfolding indices
indices-below i zero = tt
indices-below i (suc n) = (
  omega arith,
  All-imp (λ j. j < suc i + n) (λ j. j < i + suc n) (indices (suc i) n) (λ j l. omega arith)
      (indices-below (suc i) n),
)
