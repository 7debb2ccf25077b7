-- ===== src/Values/Encoded.antt =====
-- `AppendInterface` appends one item, by induction on the value.
use cbor.Base.{
  ℕ, zero, suc, ◌%◌, ◌^◌, ◌≡◌, sym, ap, ◌∙◌, [], ◌++◌, append_assoc, append-nil, Bytes, Bool, none,
  some, length,
}
use cbor.Result.{ok, >>=-eq-ok}
use cbor.Append.{append_string, append_array_header, append_map_header}
use cbor.Skip.{skip, validate_well_formed, validate_document, recursion_limit}
use cbor.Skip.Codes.{document-one}
use cbor.Skip.Codes.{Many, Pairs, Many-nil, Many-cons, Pairs-nil, Pairs-cons}
use cbor.Values.Items.{
  int64-Encodes, IsUint64-Encodes, float32-Encodes, float64-Encodes, IsText-Encodes, bytes-Encodes,
}
use cbor.Values.WellFormed.{
  Appended, Fits, FitsElements, FitsFields, FitsEntries, by_encoder, time_Appends, slice_Appends,
  map_Appends,
}
use cbor.Values.Containers.{
  nil_Appends, bool_Appends, array_Appends, object_Appends, key_Appends, marshalers_Append,
}
use cbor.Values.{
  Value, Elements, Fields, Entries, append_key, append_entries, reflected_slice, reflected_map,
  closed, entry, count_entries, append_interface, append_elements, append_fields,
  append_json_number, append_duration, count_elements, count_fields, nil, marshaler, text, bool,
  int, uint, float32, float64, byte_string, time, duration, int_slice, uint_slice, float32_slice,
  float64_slice, text_slice, int_map, uint_map, float64_map, text_map, raw_message, json_number,
  object, array, unknown, end, element, done, field,
}

module _ (valid : Bytes → Bool) where
  mutual
    unfolding append_interface append_duration append_json_number count_elements count_fields
        count_entries Fits

    interface_Appends :
        (v : Value) (d : ℕ) (b out : Bytes)
        → Fits valid d v
        → append_interface b v ≡ ok out
        → Appended valid d b out
    interface_Appends nil d b out h e = nil_Appends valid d b out e
    interface_Appends (marshaler m) d b out h e = h b out e
    interface_Appends (text v) d b out h e = by_encoder valid d (IsText-Encodes valid d) v h b out e
    interface_Appends (bool v) d b out h e = bool_Appends valid d v b out e
    interface_Appends (int v) d b out h e = by_encoder valid d (int64-Encodes valid d) v h b out e
    interface_Appends (uint v) d b out h e =
        by_encoder valid d (IsUint64-Encodes valid d) v h b out e
    interface_Appends (float32 v) d b out h e =
        by_encoder valid d (float32-Encodes valid d) v h b out e
    interface_Appends (float64 v) d b out h e =
        by_encoder valid d (float64-Encodes valid d) v h b out e
    interface_Appends (byte_string v) d b out h e =
        by_encoder valid d (bytes-Encodes valid d) v h b out e
    interface_Appends (time sec nsec bits) zero b out h e = absurd h
    interface_Appends (time sec nsec bits) (suc d) b out h e =
        time_Appends valid d sec nsec bits b out h e
    interface_Appends (duration v) d b out h e =
        by_encoder valid d (int64-Encodes valid d) v h b out e
    interface_Appends (int_slice v) d b out h e =
        slice_Appends valid d _ _ (int64-Encodes valid) v b out h e
    interface_Appends (uint_slice v) d b out h e =
        slice_Appends valid d _ _ (IsUint64-Encodes valid) v b out h e
    interface_Appends (float32_slice v) d b out h e =
        slice_Appends valid d _ _ (float32-Encodes valid) v b out h e
    interface_Appends (float64_slice v) d b out h e =
        slice_Appends valid d _ _ (float64-Encodes valid) v b out h e
    interface_Appends (text_slice v) d b out h e =
        slice_Appends valid d _ _ (IsText-Encodes valid) v b out h e
    interface_Appends (int_map v) d b out h e =
        map_Appends valid d _ _ (int64-Encodes valid) v b out h e
    interface_Appends (uint_map v) d b out h e =
        map_Appends valid d _ _ (IsUint64-Encodes valid) v b out h e
    interface_Appends (float64_map v) d b out h e =
        map_Appends valid d _ _ (float64-Encodes valid) v b out h e
    interface_Appends (text_map v) d b out h e =
        map_Appends valid d _ _ (IsText-Encodes valid) v b out h e
    interface_Appends (raw_message v) d b out h e =
        by_encoder valid d (bytes-Encodes valid d) v h b out e
    interface_Appends (json_number (some i) f) d b out h e =
        by_encoder valid d (int64-Encodes valid d) i h b out e
    interface_Appends (json_number none (some x)) d b out h e =
        by_encoder valid d (float64-Encodes valid d) x h b out e
    interface_Appends (json_number none none) d b out h e = absurd (cc)
    interface_Appends (object fs) zero b out h e = absurd h
    interface_Appends (object fs) (suc d) b out (l, h) e =
        object_Appends valid d (count_fields fs) b out l
          (fields_Append fs d (append_map_header b (count_fields fs % 2 ^ 32)) out h e)
    interface_Appends (array es) zero b out h e = absurd h
    interface_Appends (array es) (suc d) b out (l, h) e =
        array_Appends valid d (count_elements es) b out l
          (elements_Append es d (append_array_header b (count_elements es % 2 ^ 32)) out h e)
    interface_Appends (reflected_slice ms) zero b out h e = absurd h
    interface_Appends (reflected_slice ms) (suc d) b out (l, h) e =
        array_Appends valid d (length ms) b out l
          (marshalers_Append valid ms d (append_array_header b (length ms % 2 ^ 32)) out h e)
    interface_Appends (reflected_map es) zero b out h e = absurd h
    interface_Appends (reflected_map es) (suc d) b out (l, h) e =
        object_Appends valid d (count_entries es) b out l
          (entries_Append es d (append_map_header b (count_entries es % 2 ^ 32)) out h e)
    interface_Appends unknown d b out h e = absurd (cc)

    elements_Append :
        (es : Elements) (d : ℕ) (b out : Bytes)
        → FitsElements valid d es
        → append_elements b es ≡ ok out
        → (p : Bytes) × (out ≡ b ++ p) × Many valid d (count_elements es) p
    elements_Append end d b out h e = ([], cc (append-nil b), Many-nil valid d)
    elements_Append (element v es) d b out (hv, hs) e =
        let (b', e₁, e₂) = >>=-eq-ok (append_interface b v) _ e in
        let (p, s, c) = interface_Appends v d b b' hv e₁ in
        let (q, t, m) = elements_Append es d b' out hs e₂ in
        (
          p ++ q,
          t ∙ ap (λ x. x ++ q) s ∙ append_assoc b p q,
          Many-cons valid d (count_elements es) p q c m,
        )

    fields_Append :
        (fs : Fields) (d : ℕ) (b out : Bytes)
        → FitsFields valid d fs
        → append_fields b fs ≡ ok out
        → (p : Bytes) × (out ≡ b ++ p) × Pairs valid d (count_fields fs) p
    fields_Append done d b out h e = ([], cc (append-nil b), Pairs-nil valid d)
    fields_Append (field k v fs) d b out (hk, hv, hs) e =
        let (b', e₁, e₂) = >>=-eq-ok (append_interface (append_string b k) v) _ e in
        let (p, s, c) = interface_Appends v d (append_string b k) b' hv e₁ in
        let (q, t, m) = fields_Append fs d b' out hs e₂ in
        let key = append_string [] k in
        (
          key ++ (p ++ q),
          t
              ∙ ap (λ x. x ++ q) (s ∙ ap (λ x. x ++ p) ((IsText-Encodes valid d).appends b k))
              ∙ append_assoc (b ++ key) p q
              ∙ append_assoc b key (p ++ q),
          Pairs-cons valid d (count_fields fs) key p q ((IsText-Encodes valid d).codes k hk) c m,
        )

    entries_Append :
        (es : Entries) (d : ℕ) (b out : Bytes)
        → FitsEntries valid d es
        → append_entries b es ≡ ok out
        → (p : Bytes) × (out ≡ b ++ p) × Pairs valid d (count_entries es) p
    entries_Append closed d b out h e = ([], cc (append-nil b), Pairs-nil valid d)
    entries_Append (entry k v es) d b out (hk, hv, hs) e =
        let (b₁, e₀, e') = >>=-eq-ok (append_key b k) _ e in
        let (b₂, e₁, e₂) = >>=-eq-ok (append_interface b₁ v) _ e' in
        let (key, r, ck) = key_Appends valid d k b b₁ hk e₀ in
        let (p, s, c) = interface_Appends v d b₁ b₂ hv e₁ in
        let (q, t, m) = entries_Append es d b₂ out hs e₂ in
        (
          key ++ (p ++ q),
          t
              ∙ ap (λ x. x ++ q) (s ∙ ap (λ x. x ++ p) r)
              ∙ append_assoc (b ++ key) p q
              ∙ append_assoc b key (p ++ q),
          Pairs-cons valid d (count_entries es) key p q ck c m,
        )

-- Where AppendInterface returns a buffer for a value that fits, it has kept what was there and
-- appended one item, which ValidateWellFormedBytes and Skip take off, whatever follows, and which
-- ValidateDocument accepts. A value fits if it is nested within the recursion limit, its texts are
-- ones that the UTF-8 validator accepts, its slices and maps have fewer than 2^32 elements, its
-- texts and byte strings have lengths and its integers values in the range of their types, and
-- each marshaler in it appends one such item where it succeeds.
pub append_interface-WellFormed :
    (valid : Bytes → Bool) (v : Value) (b out : Bytes)
    → Fits valid recursion_limit v
    → append_interface b v ≡ ok out
    → (p : Bytes) × (out ≡ b ++ p)
      × ((rest : Bytes) → validate_well_formed valid (p ++ rest) ≡ ok rest)
      × ((rest : Bytes) → skip (p ++ rest) ≡ ok rest)
      × (validate_document valid p ≡ ok tt)
append_interface-WellFormed valid v b out h e =
    let (p, s, c) = interface_Appends valid v recursion_limit b out h e in
    let whole : (rest : Bytes) → validate_well_formed valid (p ++ rest) ≡ ok rest =
      unfold validate_well_formed in c.validated in
    (
      p,
      s,
      whole,
      unfold skip in c.skipped,
      document-one valid p (ap (validate_well_formed valid) (sym (append-nil p)) ∙ whole []),
    )
