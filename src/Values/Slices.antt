-- ===== src/Values/Slices.antt =====
-- The encoders of slices and of maps with text keys: a header and the elements behind it.
use cbor.Base.{
  ℕ, suc, ◌%◌, ◌^◌, ◌<◌, ◌≡◌, sym, ap, ◌∙◌, List, [], ◌∷◌, ◌++◌, append_assoc, append-nil, Bytes,
  Bool, All, length, arith,
}
use cbor.Result.{ok}
use cbor.Wire.{append_uint_core, read_uint_core}
use cbor.Wire.Core.{append_uint_core-append, read_uint_core-append_uint_core}
use cbor.Append.{append_string, append_array_header, append_map_header}
use cbor.Skip.Codes.{
  Codes, Many, Pairs, Codes-array, Codes-map, Many-nil, Many-cons, Pairs-nil, Pairs-cons,
}
use cbor.Values.{append_each, append_slice, append_entry, append_text_map}
use cbor.Values.Items.{Encodes, IsEntry, IsText-Encodes}

-- A loop that appends.
pub each-append :
    {A : Type 0} (f : Bytes → A → Bytes)
    → ((b : Bytes) (a : A) → f b a ≡ b ++ f [] a)
    → (xs : List A) (b : Bytes) → append_each f b xs ≡ b ++ append_each f [] xs
unfolding append_each
each-append f h [] b = sym (append-nil b)
each-append f h (x ∷ xs) b =
    each-append f h xs (f b x)
    ∙ ap (λ l. l ++ append_each f [] xs) (h b x)
    ∙ append_assoc b (f [] x) (append_each f [] xs)
    ∙ ap (λ l. b ++ l) (sym (each-append f h xs (f [] x)))

-- The header of a container.
pub header-read :
    (m n : ℕ)
    → m < 8
    → n < 2 ^ 32
    → (rest : Bytes) → read_uint_core (append_uint_core [] m (n % 2 ^ 32) ++ rest) m ≡ ok (n, rest)
header-read m n hm hn rest =
    let same : n % 2 ^ 32 ≡ n = omega arith in
    rw same (read_uint_core-append_uint_core m n rest hm (omega arith))

module _ (valid : Bytes → Bool) (d : ℕ) {A : Type 0} (f : Bytes → A → Bytes) (P : A → Type 0)
    (enc : Encodes valid d f P) where
  each-Many : (xs : List A) → All P xs → Many valid d (length xs) (append_each f [] xs)
  unfolding append_each
  each-Many [] h = Many-nil valid d
  each-Many (x ∷ xs) (hx, hs) = rw (each-append f enc.appends xs (f [] x)) (
      Many-cons valid d (length xs) (f [] x) (append_each f [] xs) (enc.codes x hx)
        (each-Many xs hs))

  pub slice-append : (b : Bytes) (xs : List A) → append_slice f b xs ≡ b ++ append_slice f [] xs
  unfolding append_slice append_array_header
  slice-append b xs =
      let n = length xs % 2 ^ 32 in
      each-append f enc.appends xs (append_uint_core b 4 n)
      ∙ ap (λ l. l ++ append_each f [] xs) (append_uint_core-append b 4 n)
      ∙ append_assoc b (append_uint_core [] 4 n) (append_each f [] xs)
      ∙ ap (λ l. b ++ l) (sym (each-append f enc.appends xs (append_uint_core [] 4 n)))

  pub slice-Codes :
      (xs : List A) → length xs < 2 ^ 32 → All P xs → Codes valid (suc d) (append_slice f [] xs)
  unfolding append_slice append_array_header
  slice-Codes xs l h =
      rw (each-append f enc.appends xs (append_uint_core [] 4 (length xs % 2 ^ 32))) (
        Codes-array valid d (length xs) (append_uint_core [] 4 (length xs % 2 ^ 32))
          (append_each f [] xs) (header-read 4 (length xs) (omega arith) l) (each-Many xs h))

  -- The entries of a map.
  entry-append : (b : Bytes) (e : Bytes × A) → append_entry f b e ≡ b ++ append_entry f [] e
  unfolding append_entry
  entry-append b (k, v) =
      enc.appends (append_string b k) v
      ∙ ap (λ l. l ++ f [] v) ((IsText-Encodes valid d).appends b k)
      ∙ append_assoc b (append_string [] k) (f [] v)
      ∙ ap (λ l. b ++ l) (sym (enc.appends (append_string [] k) v))

  entries-Pairs :
      (m : List (Bytes × A))
      → All (IsEntry valid P) m
      → Pairs valid d (length m) (append_each (append_entry f) [] m)
  unfolding append_each
  entries-Pairs [] h = Pairs-nil valid d
  entries-Pairs ((k, v) ∷ m) ((hk, hv), hs) =
      rw
        (
          each-append (append_entry f) entry-append m (append_entry f [] (k, v)),
          entry k v,
          append_assoc (append_string [] k) (f [] v) (append_each (append_entry f) [] m),
        )
        (Pairs-cons valid d (length m) (append_string [] k) (f [] v)
          (append_each (append_entry f) [] m) ((IsText-Encodes valid d).codes k hk) (enc.codes v hv)
          (entries-Pairs m hs))
    where
      entry : (k : Bytes) (v : A) → append_entry f [] (k, v) ≡ append_string [] k ++ f [] v
      entry k v = unfold append_entry in enc.appends (append_string [] k) v

  pub map-append :
      (b : Bytes) (m : List (Bytes × A)) → append_text_map f b m ≡ b ++ append_text_map f [] m
  unfolding append_text_map append_map_header
  map-append b m =
      let n = length m % 2 ^ 32 in
      each-append (append_entry f) entry-append m (append_uint_core b 5 n)
      ∙ ap (λ l. l ++ append_each (append_entry f) [] m) (append_uint_core-append b 5 n)
      ∙ append_assoc b (append_uint_core [] 5 n) (append_each (append_entry f) [] m)
      ∙ ap (λ l. b ++ l)
          (sym (each-append (append_entry f) entry-append m (append_uint_core [] 5 n)))

  pub map-Codes :
      (m : List (Bytes × A))
      → length m < 2 ^ 32
      → All (IsEntry valid P) m
      → Codes valid (suc d) (append_text_map f [] m)
  unfolding append_text_map append_map_header
  map-Codes m l h =
      rw (each-append (append_entry f) entry-append m (append_uint_core [] 5 (length m % 2 ^ 32))) (
        Codes-map valid d (length m) (append_uint_core [] 5 (length m % 2 ^ 32))
          (append_each (append_entry f) [] m) (header-read 5 (length m) (omega arith) l)
          (entries-Pairs m h))
