-- ===== src/Values/WellFormed.antt =====
-- What `AppendInterface` writes is one well-formed item.
use cbor.Base.{
  ℕ, zero, suc, ◌^◌, ◌<◌, ◌≡◌, ap, ◌∙◌, List, [], ◌++◌, append_assoc, Bytes, Bool, ℤ, IsInt, All,
  length, arith, none, some, ◌==◌, Bool-cases, inl, inr,
}
use cbor.Result.{ok}
use cbor.Wire.{append_uint_core}
use cbor.Wire.Core.{append_uint_core-append, read_uint_core-append_uint_core}
use cbor.Append.{append_tag, append_int64, append_float64}
use cbor.Skip.Codes.{Codes, Codes-tag}
use cbor.Values.Items.{
  Encodes, IsText, IsEntry, IsShort, IsUint64, Anything, int64-Encodes, float64-Encodes,
}
use cbor.Values.Slices.{slice-append, slice-Codes, map-append, map-Codes}
use cbor.Values.{
  Value, Elements, Fields, Entries, Key, Marshals, text_key, uint_key, int_key, other_key,
  reflected_slice, reflected_map, closed, entry, count_entries, append_time, append_slice,
  append_text_map, count_elements, count_fields, nil, marshaler, text, bool, int, uint, float32,
  float64, byte_string, time, duration, int_slice, uint_slice, float32_slice, float64_slice,
  text_slice, int_map, uint_map, float64_map, text_map, raw_message, json_number, object, array,
  unknown, end, element, done, field,
}

-- One level of nesting less.
abbrev pub Below : ℕ → (ℕ → Type 0) → Type 0
Below zero P = ⊥
Below (suc d) P = P d

module _ (valid : Bytes → Bool) where
  -- The buffer is kept, and one item is behind it.
  abbrev pub Appended : ℕ → Bytes → Bytes → Type 0
  Appended d b out = (p : Bytes) × (out ≡ b ++ p) × Codes valid d p

  -- What is a marshaler appends one item, where it succeeds.
  abbrev pub IsMarshaler : ℕ → Marshals → Type 0
  IsMarshaler d none = Unit {0}
  IsMarshaler d (some m) = (b out : Bytes) → m b ≡ ok out → Appended d b out

  abbrev pub IsKey : Key → Type 0
  IsKey (text_key k) = IsText valid k
  IsKey (uint_key k) = IsUint64 k
  IsKey (int_key k) = IsInt 64 k
  IsKey other_key = Unit {0}

  -- The values that are encoded with at most `d` levels of nesting: integers in the range of their
  -- types, texts that are valid, lengths that an int or a uint32 holds, and marshalers that append
  -- one item.
  unfoldable mutual
    pub Fits : ℕ → Value → Type 0
    Fits d nil = Unit {0}
    Fits d (marshaler m) = IsMarshaler d (some m)
    Fits d (text v) = IsText valid v
    Fits d (bool v) = Unit {0}
    Fits d (int v) = IsInt 64 v
    Fits d (uint v) = IsUint64 v
    Fits d (float32 v) = Unit {0}
    Fits d (float64 v) = Unit {0}
    Fits d (byte_string v) = IsShort v
    Fits d (time sec nsec bits) = Below d (λ e. IsInt 64 sec)
    Fits d (duration v) = IsInt 64 v
    Fits d (int_slice v) = Below d (λ e. (length v < 2 ^ 32) × All (IsInt 64) v)
    Fits d (uint_slice v) = Below d (λ e. (length v < 2 ^ 32) × All IsUint64 v)
    Fits d (float32_slice v) = Below d (λ e. (length v < 2 ^ 32) × All Anything v)
    Fits d (float64_slice v) = Below d (λ e. (length v < 2 ^ 32) × All Anything v)
    Fits d (text_slice v) = Below d (λ e. (length v < 2 ^ 32) × All (IsText valid) v)
    Fits d (int_map v) = Below d (λ e. (length v < 2 ^ 32) × All (IsEntry valid (IsInt 64)) v)
    Fits d (uint_map v) = Below d (λ e. (length v < 2 ^ 32) × All (IsEntry valid IsUint64) v)
    Fits d (float64_map v) = Below d (λ e. (length v < 2 ^ 32) × All (IsEntry valid Anything) v)
    Fits d (text_map v) = Below d (λ e. (length v < 2 ^ 32) × All (IsEntry valid (IsText valid)) v)
    Fits d (raw_message v) = IsShort v
    Fits d (json_number none f) = Unit {0}
    Fits d (json_number (some i) f) = IsInt 64 i
    Fits d (object v) = Below d (λ e. (count_fields v < 2 ^ 32) × FitsFields e v)
    Fits d (array v) = Below d (λ e. (count_elements v < 2 ^ 32) × FitsElements e v)
    Fits d (reflected_slice v) = Below d (λ e. (length v < 2 ^ 32) × All (IsMarshaler e) v)
    Fits d (reflected_map v) = Below d (λ e. (count_entries v < 2 ^ 32) × FitsEntries e v)
    Fits d unknown = Unit {0}

    pub FitsElements : ℕ → Elements → Type 0
    FitsElements d end = Unit {0}
    FitsElements d (element v es) = Fits d v × FitsElements d es

    pub FitsFields : ℕ → Fields → Type 0
    FitsFields d done = Unit {0}
    FitsFields d (field k v fs) = IsText valid k × Fits d v × FitsFields d fs

    pub FitsEntries : ℕ → Entries → Type 0
    FitsEntries d closed = Unit {0}
    FitsEntries d (entry k v es) = IsKey k × Fits d v × FitsEntries d es

-- What an encoder writes.
pub by_encoder :
    (valid : Bytes → Bool) (d : ℕ) {A : Type 0} {f : Bytes → A → Bytes} {P : A → Type 0}
    → Encodes valid d f P
    → (a : A) → P a
    → (b out : Bytes) → ok (f b a) ≡ ok out
    → Appended valid d b out
by_encoder valid d {f} enc a h b out e = (f [] a, cc (enc.appends b a), enc.codes a h)

pub by-Codes :
    (valid : Bytes → Bool) (d : ℕ) (b q p out : Bytes)
    → q ≡ b ++ p
    → Codes valid d p
    → ok q ≡ ok out
    → Appended valid d b out
by-Codes valid d b q p out s c e = (p, cc, c)

module _ (valid : Bytes → Bool) where
  pub time_Appends :
      (d : ℕ) (sec : ℤ) (nsec bits : ℕ) (b out : Bytes)
      → IsInt 64 sec
      → ok (append_time b sec nsec bits) ≡ ok out
      → Appended valid (suc d) b out
  unfolding append_time append_tag
  time_Appends d sec nsec bits b out h e = elim (Bool-cases (nsec == 0)) [
    | inl z ↦ behind_tag append_int64 (IsInt 64) (int64-Encodes valid d) sec h (rw z at e)
    | inr z ↦ behind_tag append_float64 Anything (float64-Encodes valid d) bits tt (rw z at e)
  ]
    where
      behind_tag :
          {A : Type 0} (f : Bytes → A → Bytes) (P : A → Type 0)
          → Encodes valid d f P
          → (a : A) → P a
          → ok (f (append_uint_core b 6 1) a) ≡ ok out
          → Appended valid (suc d) b out
      behind_tag f P enc a ha e =
          by-Codes valid (suc d) b (f (append_uint_core b 6 1) a)
            (append_uint_core [] 6 1 ++ f [] a) out
            (enc.appends (append_uint_core b 6 1) a
              ∙ ap (λ l. l ++ f [] a) (append_uint_core-append b 6 1)
              ∙ append_assoc b (append_uint_core [] 6 1) (f [] a))
            (Codes-tag valid d 1 (append_uint_core [] 6 1) (f [] a)
              (λ rest. read_uint_core-append_uint_core 6 1 rest (omega arith) (omega arith))
              (enc.codes a ha))
            e

  pub slice_Appends :
      (d : ℕ) {A : Type 0} (f : Bytes → A → Bytes) (P : A → Type 0)
      → ((e : ℕ) → Encodes valid e f P)
      → (v : List A) (b out : Bytes) → Below d (λ e. (length v < 2 ^ 32) × All P v)
      → ok (append_slice f b v) ≡ ok out
      → Appended valid d b out
  slice_Appends zero f P enc v b out h e = absurd h
  slice_Appends (suc d) f P enc v b out (l, h) e =
      by-Codes valid (suc d) b (append_slice f b v) (append_slice f [] v) out
        (slice-append valid d f P (enc d) b v) (slice-Codes valid d f P (enc d) v l h) e

  pub map_Appends :
      (d : ℕ) {A : Type 0} (f : Bytes → A → Bytes) (P : A → Type 0)
      → ((e : ℕ) → Encodes valid e f P)
      → (v : List (Bytes × A)) (b out : Bytes)
      → Below d (λ e. (length v < 2 ^ 32) × All (IsEntry valid P) v)
      → ok (append_text_map f b v) ≡ ok out
      → Appended valid d b out
  map_Appends zero f P enc v b out h e = absurd h
  map_Appends (suc d) f P enc v b out (l, h) e =
      by-Codes valid (suc d) b (append_text_map f b v) (append_text_map f [] v) out
        (map-append valid d f P (enc d) b v) (map-Codes valid d f P (enc d) v l h) e
