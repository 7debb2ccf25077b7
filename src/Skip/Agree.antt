-- ===== src/Skip/Agree.antt =====
-- `Skip` against `ValidateWellFormedBytes`: two walks over the same grammar.
use cbor.Base.{
  ℕ, zero, suc, ◌≡◌, refl, ◌⊎◌, inl, inr, Bool, true, false, [], ◌∷◌, Bytes, ◌==◌, ◌||◌, length,
  if◌then◌else◌, arith,
}
use cbor.Result.{Error, panic, stuck, short_bytes}
use cbor.Result.{
  Result, ok, err, ◌>>=◌, >>=-eq-ok, unsupported_type, max_depth_exceeded, invalid_utf8,
  invalid_prefix,
}
use cbor.Wire.{make_byte, get_major_type, get_add_info, read_uint_core}
use cbor.Loops.{read_chunk, times, until_break}
use cbor.Strings.{read_string_zc}
use mathlib.Core.Path.{subst}
use cbor.Skip.{
  skip_chunk, skip_pair, skip_container, simple_item, skip_item, skip_level, validate_text,
  validate_item, validate_level,
}

-- What `g` does where `f` accepts: the same, or it finds a simple value that it does not know.
abbrev Same : Result Bytes → Result Bytes → Type 0
Same m n = (r : Bytes) → m ≡ ok r → (n ≡ ok r) ⊎ (n ≡ err unsupported_type)

Same-refl : (m : Result Bytes) → Same m m
Same-refl m r e = inl e

Same-err : (z : Error) (n : Result Bytes) → Same (err z) n
Same-err z n r e = absurd (cc)

Same-bind :
    (m n : Result Bytes) (f g : Bytes → Result Bytes)
    → Same m n
    → ((b : Bytes) → Same (f b) (g b))
    → Same (m >>= f) (n >>= g)
Same-bind m n f g hm hf r e =
    let (o, em, ef) = >>=-eq-ok m f e in
    elim (hm o em) [ inl p ↦ rw p (hf o r ef) | inr p ↦ inr (rw p refl) ]

-- Behind a common first step.
Same-after {ℓ} :
    {A : Type ℓ} (m : Result A) (f g : A → Result Bytes)
    → ((a : A) → Same (f a) (g a))
    → Same (m >>= f) (m >>= g)
Same-after (ok a) f g h = h a
Same-after (err z) f g h = Same-refl (err z)
Same-after panic f g h = Same-refl panic
Same-after stuck f g h = Same-refl stuck

Same-if :
    (c : Bool) (m m' n n' : Result Bytes)
    → (c ≡ true → Same m n)
    → (c ≡ false → Same m' n')
    → Same (if c then m else m') (if c then n else n')
Same-if true m m' n n' h h' = h refl
Same-if false m m' n n' h h' = h' refl

-- Where one side alone branches.
Same-left :
    (c : Bool) (m m' n : Result Bytes)
    → (c ≡ true → Same m n)
    → (c ≡ false → Same m' n)
    → Same (if c then m else m') n
Same-left true m m' n h h' = h refl
Same-left false m m' n h h' = h' refl

Same-right_true :
    (c : Bool) (m n n' : Result Bytes) → c ≡ true → Same m n → Same m (if c then n else n')
Same-right_true true m n n' e h = h
Same-right_true false m n n' e h = absurd (cc)

Same-right_false :
    (c : Bool) (m n n' : Result Bytes) → c ≡ false → Same m n' → Same m (if c then n else n')
Same-right_false true m n n' e h = absurd (cc)
Same-right_false false m n n' e h = h

module _ (f g : Bytes → Result Bytes) (h : (b : Bytes) → Same (f b) (g b)) where
  times-Same : (n : ℕ) (b : Bytes) → Same (times f n b) (times g n b)
  unfolding times
  times-Same zero b = Same-refl (ok b)
  times-Same (suc n) b = Same-bind (f b) (g b) (times f n) (times g n) (h b) (times-Same n)

  until_break-Same : (k : ℕ) (b : Bytes) → Same (until_break f k b) (until_break g k b)
  unfolding until_break
  until_break-Same zero b = Same-refl stuck
  until_break-Same (suc k) [] = Same-refl (err short_bytes)
  until_break-Same (suc k) (x ∷ t) =
      Same-if (x == make_byte 7 31) (ok t) _ (ok t) _ (λ _. Same-refl (ok t))
        (λ _.
          Same-bind (f (x ∷ t)) (g (x ∷ t)) (until_break f k) (until_break g k) (h (x ∷ t))
            (until_break-Same k))

  skip_pair-Same : (b : Bytes) → Same (skip_pair f b) (skip_pair g b)
  unfolding skip_pair
  skip_pair-Same b = Same-bind (f b) (g b) f g (h b) h

  skip_container-Same :
      (major lead : ℕ) (t : Bytes)
      → Same (skip_container f major lead t) (skip_container g major lead t)
  unfolding skip_container
  skip_container-Same major lead t =
      Same-if _ _ _ _ _ (λ _. until_break-Same (suc (length t)) t)
        (λ _. Same-after (read_uint_core (lead ∷ t) major) _ _ (λ (sz, o). times-Same sz o))

-- The fast path of `ReadStringZC` accepts nothing that the generic reader does not.
pub read_string_zc-read_chunk :
    (b v r : Bytes) → read_string_zc b ≡ ok (v, r) → read_chunk 3 b ≡ ok (v, r)
unfolding read_string_zc read_chunk read_uint_core get_major_type get_add_info
read_string_zc-read_chunk [] v r e = cc
read_string_zc-read_chunk (lead ∷ t) v r e = ground arith

simple_item-Same : (a : ℕ) (t : Bytes) → Same (simple_item true a t) (simple_item false a t)
unfolding simple_item
simple_item-Same a t r e = ground arith

-- A string of either major type, walked over by the generic reader.
abbrev generic_string : ℕ → ℕ → Bytes → Result Bytes
generic_string lead k t =
    if get_add_info lead == 31
    then until_break (skip_chunk k) (suc (length t)) t
    else skip_chunk k (lead ∷ t)

string_at :
    (lead m k : ℕ) (t : Bytes) (x : Result Bytes)
    → (m == k) ≡ true
    → Same x (generic_string lead k t)
    → Same x (generic_string lead m t)
string_at lead m k t x e h =
    let same : k ≡ m = ground arith in subst (λ j. Same x (generic_string lead j t)) same h

module _ (is_utf8_valid : Bytes → Bool) where
  validate_text-Same : (b : Bytes) → Same (validate_text is_utf8_valid b) (skip_chunk 3 b)
  unfolding validate_text skip_chunk
  validate_text-Same b r e =
      let ((v, o), ez, ev) = >>=-eq-ok (read_string_zc b) _ e in
      inl (rw (read_string_zc-read_chunk b v o ez) (kept v o ev))
    where
      kept :
          (v o : Bytes) → (if is_utf8_valid v then ok o else err invalid_utf8) ≡ ok r → ok o ≡ ok r
      kept v o e' = ground arith

  text-Same :
      (lead : ℕ) (t : Bytes)
      → Same
          (if get_add_info lead == 31
            then until_break (validate_text is_utf8_valid) (suc (length t)) t
            else validate_text is_utf8_valid (lead ∷ t))
          (generic_string lead 3 t)
  text-Same lead t =
      Same-if (get_add_info lead == 31) _ _ _ _
        (λ _.
          until_break-Same (validate_text is_utf8_valid) (skip_chunk 3) validate_text-Same
            (suc (length t)) t)
        (λ _. validate_text-Same (lead ∷ t))

  module _ (f g : Bytes → Result Bytes) (h : (b : Bytes) → Same (f b) (g b)) (lead : ℕ)
      (t : Bytes) where
    item-Same : Same (validate_item is_utf8_valid f (lead ∷ t)) (skip_item g (lead ∷ t))
    unfolding validate_item skip_item
    item-Same =
        let m = get_major_type lead in
        let a = get_add_info lead in
        Same-left (a == 28 || a == 29 || a == 30) (err (invalid_prefix m m)) _ _
          (λ _. Same-err (invalid_prefix m m) _)
          λ _.
            Same-if (m == 0 || m == 1) _ _ _ _ (λ _. Same-refl _)
              λ _.
                Same-if (m == 6) _ _ _ _
                  (λ _. Same-after (read_uint_core (lead ∷ t) m) _ _ (λ (_, o). h o))
                  λ _.
                    Same-left (m == 2) _ _ _
                      (λ e.
                        Same-right_true (m == 2 || m == 3) _ _ _ (ground arith)
                          (string_at lead m 2 t _ e (Same-refl (generic_string lead 2 t))))
                      λ e₂.
                        Same-left (m == 3) _ _ _
                          (λ e.
                            Same-right_true (m == 2 || m == 3) _ _ _ (ground arith)
                              (string_at lead m 3 t _ e (text-Same lead t)))
                          λ e₃. Same-right_false (m == 2 || m == 3) _ _ _ (ground arith) (
                            Same-if (m == 4) _ _ _ _ (λ _. skip_container-Same f g h 4 lead t)
                              λ _.
                                Same-if (m == 5) _ _ _ _
                                  (λ _.
                                    skip_container-Same (skip_pair f) (skip_pair g)
                                      (skip_pair-Same f g h) 5 lead t)
                                  λ _. simple_item-Same (get_add_info lead) t)

  -- At every depth Skip leaves what ValidateWellFormedBytes leaves, or stops at a simple value in
  -- two bytes, which it does not know.
  pub level-Same :
      (levels : ℕ) (b : Bytes) → Same (validate_level is_utf8_valid levels b) (skip_level levels b)
  unfolding validate_level skip_level
  level-Same zero b = Same-refl (err max_depth_exceeded)
  level-Same (suc levels) [] = Same-refl (err short_bytes)
  level-Same (suc levels) (lead ∷ t) =
      item-Same (λ o. validate_level is_utf8_valid levels o) (λ o. skip_level levels o)
        (level-Same levels) lead t
