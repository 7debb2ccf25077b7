-- ===== src/Values/Containers.antt =====
-- The constant items of AppendInterface, its containers and what is in them.
use cbor.Base.{
  ℕ, suc, ◌%◌, ◌^◌, ◌<◌, ◌≡◌, refl, ap, ◌∙◌, List, [], ◌∷◌, ◌++◌, append_assoc, append-nil, Bytes,
  Bool, arith, none, some, All, length,
}
use cbor.Result.{ok, >>=-eq-ok}
use cbor.Wire.{append_uint_core}
use cbor.Wire.Core.{append_uint_core-append}
use cbor.Append.{append_array_header, append_map_header, append_nil, append_bool}
use cbor.Skip.Codes.{Many, Pairs, Codes-array, Codes-map, Many-nil, Many-cons}
use cbor.Values.Items.{int64-Encodes, IsUint64-Encodes, IsText-Encodes, Codes-nil, Codes-bool}
use cbor.Values.Slices.{header-read}
use cbor.Values.WellFormed.{Appended, IsMarshaler, IsKey, by_encoder, by-Codes}
use cbor.Values.{
  Key, Marshals, append_marshalers, append_key, text_key, uint_key, int_key, other_key,
}

module _ (valid : Bytes → Bool) where
  -- The constant items.
  pub nil_Appends : (d : ℕ) (b out : Bytes) → ok (append_nil b) ≡ ok out → Appended valid d b out
  nil_Appends d b out e =
      by-Codes valid d b (append_nil b) (append_nil []) out (unfold append_nil in refl)
        (Codes-nil valid d) e

  pub bool_Appends :
      (d : ℕ) (v : Bool) (b out : Bytes) → ok (append_bool b v) ≡ ok out → Appended valid d b out
  bool_Appends d v b out e =
      by-Codes valid d b (append_bool b v) (append_bool [] v) out (kept v) (Codes-bool valid d v) e
    where
      kept : (v : Bool) → append_bool b v ≡ b ++ append_bool [] v
      kept v = unfold append_bool in ground arith

  -- A container: the header, and what the loop over the elements appends to it.
  pub array_Appends :
      (d n : ℕ) (b out : Bytes)
      → n < 2 ^ 32
      → (p : Bytes) × (out ≡ append_array_header b (n % 2 ^ 32) ++ p) × Many valid d n p
      → Appended valid (suc d) b out
  unfolding append_array_header
  array_Appends d n b out l (p, s, m) = (
    append_uint_core [] 4 (n % 2 ^ 32) ++ p,
    s
        ∙ ap (λ t. t ++ p) (append_uint_core-append b 4 (n % 2 ^ 32))
        ∙ append_assoc b (append_uint_core [] 4 (n % 2 ^ 32)) p,
    Codes-array valid d n (append_uint_core [] 4 (n % 2 ^ 32)) p (header-read 4 n (omega arith) l)
        m,
  )

  pub object_Appends :
      (d n : ℕ) (b out : Bytes)
      → n < 2 ^ 32
      → (p : Bytes) × (out ≡ append_map_header b (n % 2 ^ 32) ++ p) × Pairs valid d n p
      → Appended valid (suc d) b out
  unfolding append_map_header
  object_Appends d n b out l (p, s, m) = (
    append_uint_core [] 5 (n % 2 ^ 32) ++ p,
    s
        ∙ ap (λ t. t ++ p) (append_uint_core-append b 5 (n % 2 ^ 32))
        ∙ append_assoc b (append_uint_core [] 5 (n % 2 ^ 32)) p,
    Codes-map valid d n (append_uint_core [] 5 (n % 2 ^ 32)) p (header-read 5 n (omega arith) l) m,
  )

  pub key_Appends :
      (d : ℕ) (k : Key) (b out : Bytes)
      → IsKey valid k
      → append_key b k ≡ ok out
      → Appended valid d b out
  unfolding append_key
  key_Appends d (text_key k) b out h e = by_encoder valid d (IsText-Encodes valid d) k h b out e
  key_Appends d (uint_key k) b out h e = by_encoder valid d (IsUint64-Encodes valid d) k h b out e
  key_Appends d (int_key k) b out h e = by_encoder valid d (int64-Encodes valid d) k h b out e
  key_Appends d other_key b out h e = absurd (cc)

  pub marshalers_Append :
      (ms : List Marshals) (d : ℕ) (b out : Bytes)
      → All (IsMarshaler valid d) ms
      → append_marshalers b ms ≡ ok out
      → (p : Bytes) × (out ≡ b ++ p) × Many valid d (length ms) p
  unfolding append_marshalers
  marshalers_Append [] d b out h e = ([], cc (append-nil b), Many-nil valid d)
  marshalers_Append (none ∷ ms) d b out h e = absurd (cc)
  marshalers_Append (some m ∷ ms) d b out (hm, hs) e =
      let (b', e₁, e₂) = >>=-eq-ok (m b) _ e in
      let (p, s, c) = hm b b' e₁ in
      let (q, t, r) = marshalers_Append ms d b' out hs e₂ in
      (p ++ q, t ∙ ap (λ x. x ++ q) s ∙ append_assoc b p q, Many-cons valid d (length ms) p q c r)
