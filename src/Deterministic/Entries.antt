-- ===== src/Deterministic/Entries.antt =====
-- The deterministic encoders of maps: `AppendRawMapDeterministic`, `AppendMapDeterministic` and
-- `AppendMapStrStrDeterministic`. A Go map is the list of its entries in the order in which `range`
-- visits them.
use cbor.Base.{
  ℕ, zero, suc, ◌%◌, ◌^◌, List, [], ◌∷◌, ◌++◌, Bool, Bytes, ◌==◌, if◌then◌else◌, length, drop,
  Option, none, some,
}
use cbor.Result.{Result, ok, panic, ◌>>=◌}
use cbor.Append.{append_map_header, append_string}
use cbor.Maps.{RawPair}
use cbor.Deterministic.{order, bytes_less, indices}

module _ {ℓ} {A : Type ℓ} where
  unfoldable pub get_elem? : List A → ℕ → Option A
  get_elem? [] i = none
  get_elem? (x ∷ xs) zero = some x
  get_elem? (x ∷ xs) (suc i) = get_elem? xs i

  -- An index out of range panics.
  unfoldable pub at_index {κ} : {B : Type κ} → Option A → (A → Result B) → Result B
  at_index none f = panic
  at_index (some x) f = f x

  -- The key of an entry that there is.
  unfoldable pub key_at : (A → Bytes) → Option A → Bytes
  key_at key none = []
  key_at key (some x) = key x

  -- The loop over the order.
  unfoldable pub append_in_order :
      (Bytes → A → Result Bytes) → List A → Bytes → List ℕ → Result Bytes
  unfolding get_elem? at_index
  append_in_order f entries b [] = ok b
  append_in_order f entries b (i ∷ is) =
      at_index (get_elem? entries i) (λ e. f b e >>= λ b'. append_in_order f entries b' is)

-- The key and the value of an entry, both encoded.
unfoldable pub append_pair : Bytes → RawPair → Result Bytes
append_pair b p = ok ((b ++ p.key) ++ p.value)

module _ {ℓ κ} {K : Type ℓ} {V : Type κ} (enc_key : Bytes → K → Bytes) where
  -- The encoded key is what `encKey` appended to the scratch buffer.
  unfoldable pub encode_items : Bytes → List (K × V) → List (Bytes × V)
  encode_items scratch [] = []
  encode_items scratch ((k, v) ∷ m) =
      (drop (length scratch) (enc_key scratch k), v) ∷ encode_items (enc_key scratch k) m

unfoldable pub append_item_at {ℓ} :
    {V : Type ℓ} → (Bytes → V → Result Bytes) → Bytes → Bytes × V → Result Bytes
append_item_at enc_val b (key_enc, val) = enc_val (b ++ key_enc) val

module _ (sort_slice : (ℕ → ℕ → Bool) → List ℕ → List ℕ) (stale : List ℕ → List ℕ) where
  unfoldable pub append_raw_map_deterministic : Bytes → List RawPair → Result Bytes
  unfolding append_in_order key_at get_elem? append_pair
  append_raw_map_deterministic b pairs =
      if length pairs == 0
      then ok (append_map_header b 0)
      else append_in_order append_pair pairs (append_map_header b (length pairs % 2 ^ 32))
          (order sort_slice stale (λ i. key_at (λ p. p.key) (get_elem? pairs i)) (length pairs))

  module _ {ℓ κ} {K : Type ℓ} {V : Type κ} (enc_key : Bytes → K → Bytes)
      (enc_val : Bytes → V → Result Bytes) where
    unfoldable pub append_map_deterministic : Bytes → List (K × V) → Result Bytes
    unfolding encode_items append_item_at append_in_order key_at get_elem?
    append_map_deterministic b m =
        let items = encode_items enc_key [] m in
        append_in_order (append_item_at enc_val) items (append_map_header b (length items % 2 ^ 32))
          (order sort_slice stale (λ i. key_at (λ it. it.0) (get_elem? items i)) (length items))

-- `sort.Slice(arr, …)` on the entries themselves, and a lookup of each key's value. The parameter
-- sorts the indices of `arr`.
module _ (sort_slice : (ℕ → ℕ → Bool) → List ℕ → List ℕ) where
  unfoldable pub append_string_pair : Bytes → Bytes × Bytes → Result Bytes
  append_string_pair b (k, v) = ok (append_string (append_string b k) v)

  unfoldable pub append_map_str_str_deterministic : Bytes → List (Bytes × Bytes) → Result Bytes
  unfolding append_in_order key_at get_elem? append_string_pair
  append_map_str_str_deterministic b m =
      let enc = λ (i : ℕ). append_string [] (key_at (λ (e : Bytes × Bytes). e.0) (get_elem? m i)) in
      append_in_order append_string_pair m (append_map_header b (length m % 2 ^ 32))
        (sort_slice (λ i j. bytes_less (enc i) (enc j)) (indices 0 (length m)))
