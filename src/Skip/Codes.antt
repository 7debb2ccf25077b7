-- ===== src/Skip/Codes.antt =====
-- Bytes that are one item, whatever follows them: how they are put together.
use cbor.Base.{
  ℕ, suc, ◌<◌, ◌≤◌, ◌≡◌, refl, ap, ◌∙◌, inl, inr, [], ◌∷◌, ◌++◌, append_assoc, Bytes, Bool, true,
  length, arith,
}
use cbor.Result.{ok, ◌>>=◌}
use cbor.Wire.{read_uint_core, get_major_type, get_add_info}
use cbor.Loops.{read_chunk, times}
use cbor.Strings.{read_string_zc}
use cbor.Skip.{
  skip_pair, skip_level, validate_level, validate_all, validate_document, validate_well_formed,
}
use cbor.Skip.Agree.{read_string_zc-read_chunk}
use cbor.Skip.Total.{skip_fixed-append}
use cbor.Skip.Steps.{
  skip_int, skip_tag, skip_string, skip_array, skip_map, validate_int, validate_tag, validate_bytes,
  validate_string, validate_array, validate_map,
}

-- Both walks take just these bytes off any input, with `d` levels of nesting below the first.
pub record Codes (valid : Bytes → Bool) (d : ℕ) (p : Bytes) : Type 0 where
  pub validated : (rest : Bytes) → validate_level valid (suc d) (p ++ rest) ≡ ok rest
  pub skipped : (rest : Bytes) → skip_level (suc d) (p ++ rest) ≡ ok rest

-- `n` items one after another, and `n` pairs.
pub record Many (valid : Bytes → Bool) (d n : ℕ) (p : Bytes) : Type 0 where
  pub validated :
      (rest : Bytes) → times (λ o. validate_level valid (suc d) o) n (p ++ rest) ≡ ok rest
  pub skipped : (rest : Bytes) → times (λ o. skip_level (suc d) o) n (p ++ rest) ≡ ok rest

pub record Pairs (valid : Bytes → Bool) (d n : ℕ) (p : Bytes) : Type 0 where
  pub validated :
      (rest : Bytes)
      → times
          (λ o. validate_level valid (suc d) o >>= λ q. validate_level valid (suc d) q)
          n
          (p ++ rest)
        ≡ ok rest
  pub skipped :
      (rest : Bytes)
      → times (λ o. skip_level (suc d) o >>= λ q. skip_level (suc d) q) n (p ++ rest) ≡ ok rest

module _ (valid : Bytes → Bool) (d : ℕ) where
  pub Codes-int :
      (m u : ℕ) (p : Bytes)
      → m < 2
      → ((rest : Bytes) → read_uint_core (p ++ rest) m ≡ ok (u, rest))
      → Codes valid d p
  Codes-int m u p h e = record {
    validated = λ rest.
        unfold validate_level in
        validate_int valid (λ o. validate_level valid d o) (p ++ rest) m u rest h (e rest);
    skipped =
        λ rest. unfold skip_level in skip_int (λ o. skip_level d o) (p ++ rest) m u rest h (e rest);
  }

  pub Codes-bytes :
      (v p : Bytes) → ((rest : Bytes) → read_chunk 2 (p ++ rest) ≡ ok (v, rest)) → Codes valid d p
  Codes-bytes v p e = record {
    validated = λ rest.
        unfold validate_level in
        validate_bytes valid (λ o. validate_level valid d o) (p ++ rest) v rest (e rest);
    skipped = λ rest.
        unfold skip_level in
        skip_string (λ o. skip_level d o) (p ++ rest) 2 v rest (inl refl) (e rest);
  }

  pub Codes-text :
      (v p : Bytes)
      → valid v ≡ true
      → ((rest : Bytes) → read_string_zc (p ++ rest) ≡ ok (v, rest))
      → Codes valid d p
  Codes-text v p h e = record {
    validated = λ rest.
        unfold validate_level in
        validate_string valid (λ o. validate_level valid d o) (p ++ rest) v rest (e rest) h;
    skipped = λ rest.
        unfold skip_level in
        skip_string (λ o. skip_level d o) (p ++ rest) 3 v rest (inr refl)
          (read_string_zc-read_chunk (p ++ rest) v rest (e rest));
  }

  -- false, true, null and undefined, and the floats.
  pub Codes-constant : (lead : ℕ) → 244 ≤ lead → lead < 248 → Codes valid d (lead ∷ [])
  unfolding validate_level skip_level get_major_type get_add_info
  Codes-constant lead lo hi = record {
    validated = λ rest. ground arith;
    skipped = λ rest. ground arith;
  }

  pub Codes-float32 : (p : Bytes) → length p ≡ 4 → Codes valid d (250 ∷ p)
  unfolding validate_level skip_level get_major_type get_add_info
  Codes-float32 p l = record {
    validated = λ rest. skip_fixed-append 4 p rest l;
    skipped = λ rest. skip_fixed-append 4 p rest l;
  }

  pub Codes-float64 : (p : Bytes) → length p ≡ 8 → Codes valid d (251 ∷ p)
  unfolding validate_level skip_level get_major_type get_add_info
  Codes-float64 p l = record {
    validated = λ rest. skip_fixed-append 8 p rest l;
    skipped = λ rest. skip_fixed-append 8 p rest l;
  }

  -- Sequences of items and of pairs.
  pub Many-nil : Many valid d 0 []
  unfolding times
  Many-nil = record { validated = λ rest. refl; skipped = λ rest. refl }

  pub Many-cons :
      (n : ℕ) (p q : Bytes) → Codes valid d p → Many valid d n q → Many valid d (suc n) (p ++ q)
  unfolding times
  Many-cons n p q c m = record {
    validated = λ rest. rw (append_assoc p q rest, c.validated (q ++ rest)) (m.validated rest);
    skipped = λ rest. rw (append_assoc p q rest, c.skipped (q ++ rest)) (m.skipped rest);
  }

  pub Pairs-nil : Pairs valid d 0 []
  unfolding times
  Pairs-nil = record { validated = λ rest. refl; skipped = λ rest. refl }

  pub Pairs-cons :
      (n : ℕ) (k p q : Bytes)
      → Codes valid d k
      → Codes valid d p
      → Pairs valid d n q
      → Pairs valid d (suc n) (k ++ (p ++ q))
  unfolding times
  Pairs-cons n k p q ck c m = record {
    validated = λ rest.
        rw
          (
            append_assoc k (p ++ q) rest,
            append_assoc p q rest,
            ck.validated (p ++ (q ++ rest)),
            c.validated (q ++ rest),
          )
          (m.validated rest);
    skipped = λ rest.
        rw
          (
            append_assoc k (p ++ q) rest,
            append_assoc p q rest,
            ck.skipped (p ++ (q ++ rest)),
            c.skipped (q ++ rest),
          )
          (m.skipped rest);
  }

-- One level further out.
module _ (valid : Bytes → Bool) (d : ℕ) where
  pub Codes-tag :
      (tag : ℕ) (h p : Bytes)
      → ((rest : Bytes) → read_uint_core (h ++ rest) 6 ≡ ok (tag, rest))
      → Codes valid d p
      → Codes valid (suc d) (h ++ p)
  Codes-tag tag h p e c = record {
    validated = λ rest.
        unfold validate_level in
        validate_tag valid (λ o. validate_level valid (suc d) o) ((h ++ p) ++ rest) tag (p ++ rest)
          rest (ap (λ l. read_uint_core l 6) (append_assoc h p rest) ∙ e (p ++ rest))
          (c.validated rest);
    skipped = λ rest.
        unfold skip_level in
        skip_tag (λ o. skip_level (suc d) o) ((h ++ p) ++ rest) tag (p ++ rest) rest
          (ap (λ l. read_uint_core l 6) (append_assoc h p rest) ∙ e (p ++ rest)) (c.skipped rest);
  }

  pub Codes-array :
      (n : ℕ) (h p : Bytes)
      → ((rest : Bytes) → read_uint_core (h ++ rest) 4 ≡ ok (n, rest))
      → Many valid d n p
      → Codes valid (suc d) (h ++ p)
  Codes-array n h p e c = record {
    validated = λ rest.
        unfold validate_level in
        validate_array valid (λ o. validate_level valid (suc d) o) ((h ++ p) ++ rest) n (p ++ rest)
          rest (ap (λ l. read_uint_core l 4) (append_assoc h p rest) ∙ e (p ++ rest))
          (c.validated rest);
    skipped = λ rest.
        unfold skip_level in
        skip_array (λ o. skip_level (suc d) o) ((h ++ p) ++ rest) n (p ++ rest) rest
          (ap (λ l. read_uint_core l 4) (append_assoc h p rest) ∙ e (p ++ rest)) (c.skipped rest);
  }

  pub Codes-map :
      (n : ℕ) (h p : Bytes)
      → ((rest : Bytes) → read_uint_core (h ++ rest) 5 ≡ ok (n, rest))
      → Pairs valid d n p
      → Codes valid (suc d) (h ++ p)
  Codes-map n h p e c = record {
    validated = λ rest.
        unfold validate_level skip_pair in
        validate_map valid (λ o. validate_level valid (suc d) o) ((h ++ p) ++ rest) n (p ++ rest)
          rest (ap (λ l. read_uint_core l 5) (append_assoc h p rest) ∙ e (p ++ rest))
          (c.validated rest);
    skipped = λ rest.
        unfold skip_level skip_pair in
        skip_map (λ o. skip_level (suc d) o) ((h ++ p) ++ rest) n (p ++ rest) rest
          (ap (λ l. read_uint_core l 5) (append_assoc h p rest) ∙ e (p ++ rest)) (c.skipped rest);
  }

-- A document of one item.
pub document-one :
    (valid : Bytes → Bool) (p : Bytes)
    → validate_well_formed valid p ≡ ok []
    → validate_document valid p ≡ ok tt
unfolding validate_document validate_all
document-one valid [] e = refl
document-one valid (x ∷ t) e = rw e
