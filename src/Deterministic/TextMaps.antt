-- ===== src/Deterministic/TextMaps.antt =====
-- Maps with text keys: AppendMapDeterministic beside the plain encoders.
use mathlib.Core.List.{map, Perm}
use mathlib.Core.Path.{subst}
use native.Mathlib.Bridge.{le_prop}
use cbor.Base.{
  ℕ, zero, suc, ◌<◌, ◌/◌, ◌%◌, ◌^◌, ◌≡◌, refl, sym, ap, ◌∙◌, List, [], ◌∷◌, ◌++◌, Bool, true, false,
  arith, length, All, Bytes, IsByte, leb, if◌then◌else◌, Bool-cases, inl, inr,
}
use cbor.Result.{Result, ok, ◌>>=◌}
use cbor.Wire.{make_byte, put_uint, append_uint_core}
use cbor.Wire.Bits.{make_byte_lem}
use cbor.Append.{append_map_header, append_string}
use cbor.Strings.RoundTrip.{append_string-core}
use cbor.Tags.RoundTrip.{append_string-append}
use cbor.Values.{append_entry, append_each, append_text_map, append_map_str_str}
use cbor.Maps.Text.{StrStr, IsString, puts, read_map_str_str, read_map_str_str-append_map_str_str}
use cbor.Deterministic.{order}
use cbor.Deterministic.Sorted.{IsSorted, All-imp, All-append, All-perm}
use cbor.Deterministic.Order.{Precedes, IsSortSlice}
use cbor.Deterministic.Entries.{
  get_elem?, at_index, key_at, append_in_order, append_item_at, append_map_deterministic,
}
use cbor.Deterministic.Picked.{append_all}
use cbor.Deterministic.Maps.{entries-IsSorted, length-perm}
use cbor.Deterministic.Typed.{encode_items-encoded, encoded-map}
use cbor.Deterministic.Texts.{
  enc_key_string, enc_val, append_map_deterministic_str, append_map_deterministic_str_str,
}

put_uint-IsByte : (n u : ℕ) → All IsByte (put_uint n u)
unfolding put_uint
put_uint-IsByte zero u = tt
put_uint-IsByte (suc n) u =
    All-append IsByte (put_uint n (u / 256)) ((u % 256) ∷ []) (put_uint-IsByte n (u / 256))
      (omega arith, tt)

append_uint_core-IsByte : (u : ℕ) → All IsByte (append_uint_core [] 3 u)
unfolding append_uint_core
append_uint_core-IsByte u = elim (Bool-cases (leb u 23)) [
  | inl direct ↦ rw direct (lead (u % 256) (ground arith), tt)
  | inr wide ↦ rw wide (
      either (leb u 255) _ _ (lead 24 (omega arith), put_uint-IsByte 1 u)
        (either (leb u 65535) _ _ (lead 25 (omega arith), put_uint-IsByte 2 u)
          (either (leb u 4294967295) _ _ (lead 26 (omega arith), put_uint-IsByte 4 u)
            (lead 27 (omega arith), put_uint-IsByte 8 u))))
]
  where
    lead : (i : ℕ) → i < 32 → IsByte (make_byte 3 i)
    lead i h = omega (arith, make_byte_lem 3 i (omega arith) h)

    either :
        (c : Bool) (xs ys : Bytes)
        → All IsByte xs
        → All IsByte ys
        → All IsByte (if c then xs else ys)
    either true xs ys h k = h
    either false xs ys h k = k

append_string-IsByte : (s : Bytes) → All IsByte s → All IsByte (append_string [] s)
append_string-IsByte s h =
    subst (All IsByte) (sym ((append_string-core [] s).1)) (
      All-append IsByte (append_uint_core [] 3 (length s)) s (append_uint_core-IsByte (length s)) h)

module _ {A B : Type 0} (g : A → B) where
  at_index-map :
      (m : List A) (i : ℕ) (f : B → Result Bytes)
      → at_index (get_elem? (map g m) i) f ≡ at_index (get_elem? m i) (λ e. f (g e))
  unfolding at_index get_elem?
  at_index-map [] i f = refl
  at_index-map (x ∷ m) zero f = refl
  at_index-map (x ∷ m) (suc i) f = at_index-map m i f

  append_in_order-map :
      (f : Bytes → B → Result Bytes) (m : List A) (b : Bytes) (is : List ℕ)
      → append_in_order f (map g m) b is ≡ append_in_order (λ b e. f b (g e)) m b is
  unfolding append_in_order at_index
  append_in_order-map f m b [] = refl
  append_in_order-map f m b (i ∷ is) =
      at_index-map m i (λ e. f b e >>= λ b'. append_in_order f (map g m) b' is)
      ∙ ap (λ (next : Bytes → Result Bytes). at_index (get_elem? m i) (λ e. f b (g e) >>= next))
          (λ j b'. append_in_order-map f m b' is j)

  key_at-map :
      (key : B → Bytes) (m : List A) (i : ℕ)
      → key_at key (get_elem? (map g m) i) ≡ key_at (λ e. key (g e)) (get_elem? m i)
  unfolding key_at get_elem?
  key_at-map key [] i = refl
  key_at-map key (x ∷ m) zero = refl
  key_at-map key (x ∷ m) (suc i) = key_at-map key m i

  length-map : (m : List A) → length (map g m) ≡ length m
  length-map [] = refl
  length-map (x ∷ m) = ap suc (length-map m)

-- The order of the encoded entries is that of the entries.
order-map :
    {A B : Type 0} (sort_slice : (ℕ → ℕ → Bool) → List ℕ → List ℕ) (stale : List ℕ → List ℕ)
    (g : A → B) (key : B → Bytes) (m : List A)
    → order sort_slice stale (λ i. key_at key (get_elem? (map g m) i)) (length (map g m))
      ≡ order sort_slice stale (λ i. key_at (λ e. key (g e)) (get_elem? m i)) (length m)
order-map sort_slice stale g key m =
    ap (λ k. order sort_slice stale k (length (map g m))) (λ j i. key_at-map g key m i j)
    ∙ ap (λ n. order sort_slice stale (λ i. key_at (λ e. key (g e)) (get_elem? m i)) n)
        (length-map g m)

module _ {A : Type 0} where
  abbrev pub HasByteText : Bytes × A → Type 0
  HasByteText e = All IsByte e.0

module _ {A : Type 0} (append : Bytes → A → Bytes) where
  with_key : Bytes × A → Bytes × A
  with_key e = (enc_key_string [] e.0, e.1)

  append_all-each :
      (s : List (Bytes × A)) (b : Bytes)
      → append_all (λ b e. append_item_at (enc_val append) b (with_key e)) b s
        ≡ ok (append_each (append_entry append) b s)
  unfolding append_each append_entry append_item_at enc_val with_key enc_key_string
  append_all-each [] b = refl
  append_all-each ((k, v) ∷ s) b =
      rw (sym (append_string-append b k)) (append_all-each s (append (append_string b k) v))

module _ (sort_slice : (ℕ → ℕ → Bool) → List ℕ → List ℕ) (stale : List ℕ → List ℕ)
    (sorts : IsSortSlice sort_slice) (room : (grp : List ℕ) → length (stale grp) ≡ length grp) where
  -- What AppendMapDeterministic writes for a map with text keys and an encoder of values that cannot fail
  -- is what the plain encoder writes that visits the entries in the ascending order of their encoded keys.
  pub append_map_deterministic_str-append_text_map :
      {A : Type 0} (append : Bytes → A → Bytes) (b : Bytes) (m : List (Bytes × A))
      → All HasByteText m
      → (s : List (Bytes × A)) × Perm s m
        × IsSorted (λ x y. Precedes (append_string [] x.0) (append_string [] y.0)) s
        × (append_map_deterministic_str sort_slice stale append b m
            ≡ ok (append_text_map append b s))
  unfolding append_map_deterministic_str append_map_deterministic append_text_map with_key
  append_map_deterministic_str-append_text_map {A} append b m h =
      let g = with_key append in
      let f = append_item_at (enc_val append) in
      let keys : All (λ (e : Bytes × A). All IsByte (enc_key_string [] e.0)) m =
        All-imp HasByteText (λ (e : Bytes × A). All IsByte (enc_key_string [] e.0)) m
          (λ e. append_string-IsByte e.0) h in
      let (s, perm, sorted, written) =
        entries-IsSorted sort_slice stale sorts room (λ (e : Bytes × A). enc_key_string [] e.0) m
          keys in
      let items =
        encode_items-encoded enc_key_string m [] append_string-append
        ∙ encoded-map enc_key_string m in
      let start = λ (n : ℕ). append_map_header b (n % 2 ^ 32) in
      (
        s,
        perm,
        sorted,
        rw items (
            ap (λ is. append_in_order f (map g m) (start (length (map g m))) is)
              (order-map sort_slice stale g (λ it. it.0) m)
            ∙ append_in_order-map g f m (start (length (map g m))) _
            ∙ written (λ b e. f b (g e)) (start (length (map g m)))
            ∙ append_all-each append s (start (length (map g m)))
            ∙ ap (λ n. ok (append_each (append_entry append) (start n) s))
                (length-map g m ∙ sym (length-perm perm))),
      )

  module _ (validate_utf8 : Bool) (is_utf8_valid : Bytes → Bool) where
    IsString-prop : (e : Bytes × Bytes) → IsProp (IsString validate_utf8 is_utf8_valid e)
    IsString-prop (k, v) =
        let a : IsProp (length k < 2 ^ 63) = le_prop in
        let b : IsProp (length v < 2 ^ 63) = le_prop in hlevel

    -- What AppendMapDeterministicStrStr appends to an empty buffer is read back by
    -- ReadMapStrStrBytes, if all keys and values of the map are texts that the UTF-8 validator
    -- accepts, of less than 2^63 bytes, the keys are made of bytes, and there are fewer than 2^32
    -- entries. Each entry is assigned in turn to the map that is given, a shorter encoded key
    -- before a longer one and keys of one length in the order of their bytes. sort.Slice returns a
    -- sorted permutation for a strict weak order, and the scratch array is as long as its group.
    pub read_map_str_str-append_map_deterministic_str_str :
        (m into : StrStr) (rest : Bytes)
        → length m < 2 ^ 32
        → All HasByteText m
        → All (IsString validate_utf8 is_utf8_valid) m
        → (s : StrStr) × (out : Bytes) × Perm s m
          × IsSorted (λ x y. Precedes (append_string [] x.0) (append_string [] y.0)) s
          × (append_map_deterministic_str_str sort_slice stale [] m ≡ ok out)
          × (read_map_str_str validate_utf8 is_utf8_valid into (out ++ rest)
              ≡ ok (puts into s, rest))
    unfolding append_map_deterministic_str_str append_map_str_str
    read_map_str_str-append_map_deterministic_str_str m into rest l hb hs =
        let (s, perm, sorted, written) =
          append_map_deterministic_str-append_text_map append_string [] m hb in
        (
          s,
          append_map_str_str [] s,
          perm,
          sorted,
          written,
          read_map_str_str-append_map_str_str validate_utf8 is_utf8_valid s into rest
              (omega (arith, length-perm perm))
              (All-perm (IsString validate_utf8 is_utf8_valid) IsString-prop perm hs),
        )
