-- ===== src/Deterministic/Texts.antt =====
-- The deterministic encoders of maps with text keys: AppendMapStrInterfaceDeterministic, and
-- AppendMapDeterministic with the encoders EncKey… and EncVal… of runtime/write_bytes.go.
use cbor.Base.{ℕ, ◌%◌, ◌^◌, ℤ, List, [], Bool, Bytes, length}
use cbor.Result.{Result, ok}
use cbor.Append.{
  append_map_header, append_string, append_bytes, append_int64, append_uint64, append_bool,
  append_float64,
}
use cbor.Values.{Value, append_interface}
use cbor.Deterministic.{bytes_less, indices}
use cbor.Deterministic.Entries.{get_elem?, key_at, append_in_order, append_map_deterministic}

-- EncKeyString, and the EncVal… of an encoder that cannot fail.
unfoldable pub enc_key_string : Bytes → Bytes → Bytes
enc_key_string dst s = append_string dst s

unfoldable pub enc_val {ℓ} : {A : Type ℓ} → (Bytes → A → Bytes) → Bytes → A → Result Bytes
enc_val append dst v = ok (append dst v)

unfoldable pub enc_val_interface : Bytes → Value → Result Bytes
enc_val_interface dst v = append_interface dst v

module _ (sort_slice : (ℕ → ℕ → Bool) → List ℕ → List ℕ) where
  unfoldable pub append_interface_pair : Bytes → Bytes × Value → Result Bytes
  append_interface_pair b (k, v) = append_interface (append_string b k) v

  unfoldable pub append_map_str_interface_deterministic :
      Bytes → List (Bytes × Value) → Result Bytes
  unfolding append_in_order key_at get_elem? append_interface_pair
  append_map_str_interface_deterministic b m =
      let enc = λ (i : ℕ). append_string [] (key_at (λ (e : Bytes × Value). e.0) (get_elem? m i)) in
      append_in_order append_interface_pair m (append_map_header b (length m % 2 ^ 32))
        (sort_slice (λ i j. bytes_less (enc i) (enc j)) (indices 0 (length m)))

module _ (sort_slice : (ℕ → ℕ → Bool) → List ℕ → List ℕ) (stale : List ℕ → List ℕ) where
  -- The maps whose values have an encoder that cannot fail.
  unfoldable pub append_map_deterministic_str {ℓ} :
      {A : Type ℓ} → (Bytes → A → Bytes) → Bytes → List (Bytes × A) → Result Bytes
  unfolding enc_key_string enc_val
  append_map_deterministic_str append b m =
      append_map_deterministic sort_slice stale enc_key_string (enc_val append) b m

  unfoldable pub append_map_deterministic_str_str : Bytes → List (Bytes × Bytes) → Result Bytes
  unfolding append_map_deterministic_str
  append_map_deterministic_str_str b m = append_map_deterministic_str append_string b m

  -- An int is an int64 here.
  unfoldable pub append_map_deterministic_str_int64 : Bytes → List (Bytes × ℤ) → Result Bytes
  unfolding append_map_deterministic_str
  append_map_deterministic_str_int64 b m = append_map_deterministic_str append_int64 b m

  unfoldable pub append_map_deterministic_str_uint64 : Bytes → List (Bytes × ℕ) → Result Bytes
  unfolding append_map_deterministic_str
  append_map_deterministic_str_uint64 b m = append_map_deterministic_str append_uint64 b m

  unfoldable pub append_map_deterministic_str_bool : Bytes → List (Bytes × Bool) → Result Bytes
  unfolding append_map_deterministic_str
  append_map_deterministic_str_bool b m = append_map_deterministic_str append_bool b m

  unfoldable pub append_map_deterministic_str_float64 : Bytes → List (Bytes × ℕ) → Result Bytes
  unfolding append_map_deterministic_str
  append_map_deterministic_str_float64 b m = append_map_deterministic_str append_float64 b m

  unfoldable pub append_map_deterministic_str_bytes : Bytes → List (Bytes × Bytes) → Result Bytes
  unfolding append_map_deterministic_str
  append_map_deterministic_str_bytes b m = append_map_deterministic_str append_bytes b m

  unfoldable pub append_map_deterministic_str_interface :
      Bytes → List (Bytes × Value) → Result Bytes
  unfolding enc_key_string enc_val_interface
  append_map_deterministic_str_interface b m =
      append_map_deterministic sort_slice stale enc_key_string enc_val_interface b m
