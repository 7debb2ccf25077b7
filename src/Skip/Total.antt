-- ===== src/Skip/Total.antt =====
-- `skip` and `validateWellFormed` on any input: they return, and what they take off the input is
-- one item.
use cbor.Base.{
  ℕ, zero, suc, Bytes, Bool, true, false, ◌≡◌, refl, ◌==◌, ◌||◌, [], ◌∷◌, ◌++◌, length, take, arith,
  length-take, take-append-drop, drop-append, length-append,
}
use cbor.Result.{ok, short_bytes, invalid_prefix, Result, Returns, >>=-eq-ok}
use cbor.Wire.{get_major_type, get_add_info, read_uint_core}
use cbor.Loops.{read_chunk}
use cbor.Loops.Reads.{
  Drops, Drops-if, Drops-bind, Drops-then, Drops-ok, Drops-err, read_uint_core_tail,
  read_chunk-Takes, read_chunk_tail,
}
use cbor.Loops.Rounds.{Items, Items-of_cons, times-Drops, until_break-Drops}
use cbor.Strings.Safe.{read_string_zc_tail}
use cbor.Strings.{read_string_zc}
use cbor.Skip.{
  skip_fixed, skip_chunk, skip_pair, skip_container, simple_item, skip_item, skip_level,
  validate_text, validate_item, validate_level,
}

skip_chunk-Items : (m : ℕ) → Items (skip_chunk m)
unfolding skip_chunk
skip_chunk-Items m = record {
  drops = Drops-bind (read_chunk-Takes m) (λ _. Drops-ok);
  fails_on_nil = λ r e. unfold read_chunk read_uint_core in cc;
}

skip_chunk_tail : (m lead : ℕ) → Drops (λ t. skip_chunk m (lead ∷ t))
unfolding skip_chunk
skip_chunk_tail m lead = Drops-bind (read_chunk_tail m lead) (λ _. Drops-ok)

skip_fixed_inv :
    (n : ℕ) (b r : Bytes) → skip_fixed n b ≡ ok r → (length (take n b) ≡ n) × (b ≡ take n b ++ r)
unfolding skip_fixed
skip_fixed_inv n b r e = ground (arith, length-take n b, take-append-drop n b)

pub skip_fixed-append : (n : ℕ) (p more : Bytes) → length p ≡ n → skip_fixed n (p ++ more) ≡ ok more
unfolding skip_fixed
skip_fixed-append n p more h = ground (arith, drop-append n p more, length-append p more)

skip_fixed-Returns : (n : ℕ) (b : Bytes) → Returns (skip_fixed n b)
unfolding skip_fixed
skip_fixed-Returns n b = ground arith

skip_fixed-Drops : (n : ℕ) → Drops (skip_fixed n)
skip_fixed-Drops n = record {
  run = λ b r e.
      let (l, s) = skip_fixed_inv n b r e in
      (take n b, s, λ more. skip_fixed-append n (take n b) more l);
  returns = skip_fixed-Returns n;
}

skip_pair-Items : (f : Bytes → Result Bytes) → Items f → Items (skip_pair f)
unfolding skip_pair
skip_pair-Items f h = record {
  drops = Drops-then h.drops h.drops;
  fails_on_nil = λ r e. let (o, e₁, e₂) = >>=-eq-ok (f []) f e in h.fails_on_nil o e₁;
}

skip_container-Drops :
    (f : Bytes → Result Bytes) (major lead : ℕ) → Items f → Drops (skip_container f major lead)
unfolding skip_container
skip_container-Drops f major lead h =
    Drops-if _ (until_break-Drops f h)
      (Drops-bind (read_uint_core_tail major lead) (λ sz. times-Drops h.drops sz))

simple_item-Drops : (wide : Bool) (add : ℕ) → Drops (simple_item wide add)
unfolding simple_item
simple_item-Drops wide add = Drops-if _ Drops-ok (
    Drops-if _ (skip_fixed-Drops 2) (
      Drops-if _ (skip_fixed-Drops 4) (
        Drops-if _ (skip_fixed-Drops 8) (
          Drops-if _ Drops-ok
            (Drops-if wide (Drops-if _ (skip_fixed-Drops 1) (Drops-err _)) (Drops-err _))))))

skip_item_tail :
    (f : Bytes → Result Bytes) → Items f → (lead : ℕ) → Drops (λ t. skip_item f (lead ∷ t))
unfolding skip_item
skip_item_tail f h lead =
    let m = get_major_type lead in
    let a = get_add_info lead in
    Drops-if (m == 0 || m == 1) (Drops-bind (read_uint_core_tail m lead) (λ _. Drops-ok)) (
      Drops-if (m == 6) (Drops-bind (read_uint_core_tail m lead) (λ _. h.drops)) (
        Drops-if (m == 2 || m == 3)
          (Drops-if (a == 31) (until_break-Drops _ (skip_chunk-Items m)) (skip_chunk_tail m lead))
          (Drops-if (m == 4) (skip_container-Drops f 4 lead h) (
            Drops-if (m == 5) (skip_container-Drops (skip_pair f) 5 lead (skip_pair-Items f h))
              (simple_item-Drops false a)))))

skip_item-Items : (f : Bytes → Result Bytes) → Items f → Items (skip_item f)
skip_item-Items f h =
    Items-of_cons (skip_item f) short_bytes (unfold skip_item in refl) (skip_item_tail f h)

pub skip_level-Items : (levels : ℕ) → Items (λ b. skip_level levels b)
unfolding skip_level
skip_level-Items zero = record { drops = Drops-err _; fails_on_nil = λ r e. cc }
skip_level-Items (suc levels) = skip_item-Items (λ o. skip_level levels o) (skip_level-Items levels)

module _ (is_utf8_valid : Bytes → Bool) where
  validate_text_tail : (lead : ℕ) → Drops (λ t. validate_text is_utf8_valid (lead ∷ t))
  unfolding validate_text
  validate_text_tail lead =
      Drops-bind (read_string_zc_tail lead) (λ s. Drops-if (is_utf8_valid s) Drops-ok (Drops-err _))

  validate_text-Items : Items (validate_text is_utf8_valid)
  validate_text-Items =
      Items-of_cons (validate_text is_utf8_valid) short_bytes
        (unfold validate_text read_string_zc in refl) validate_text_tail

  validate_item_tail :
      (f : Bytes → Result Bytes)
      → Items f
      → (lead : ℕ) → Drops (λ t. validate_item is_utf8_valid f (lead ∷ t))
  unfolding validate_item
  validate_item_tail f h lead =
      let m = get_major_type lead in
      let a = get_add_info lead in
      Drops-if (a == 28 || a == 29 || a == 30) (Drops-err (invalid_prefix m m)) (
        Drops-if (m == 0 || m == 1) (Drops-bind (read_uint_core_tail m lead) (λ _. Drops-ok)) (
          Drops-if (m == 6) (Drops-bind (read_uint_core_tail m lead) (λ _. h.drops)) (
            Drops-if (m == 2)
              (Drops-if (a == 31) (until_break-Drops _ (skip_chunk-Items 2))
                (skip_chunk_tail 2 lead))
              (Drops-if (m == 3)
                (Drops-if (a == 31) (until_break-Drops _ validate_text-Items)
                  (validate_text_tail lead))
                (Drops-if (m == 4) (skip_container-Drops f 4 lead h) (
                  Drops-if (m == 5)
                    (skip_container-Drops (skip_pair f) 5 lead (skip_pair-Items f h))
                    (simple_item-Drops true a)))))))

  validate_item-Items : (f : Bytes → Result Bytes) → Items f → Items (validate_item is_utf8_valid f)
  validate_item-Items f h =
      Items-of_cons (validate_item is_utf8_valid f) short_bytes (unfold validate_item in refl)
        (validate_item_tail f h)

  pub validate_level-Items : (levels : ℕ) → Items (λ b. validate_level is_utf8_valid levels b)
  unfolding validate_level
  validate_level-Items zero = record { drops = Drops-err _; fails_on_nil = λ r e. cc }
  validate_level-Items (suc levels) =
      validate_item-Items (λ o. validate_level is_utf8_valid levels o) (validate_level-Items levels)
