-- ===== src/Loops/Rounds.antt =====
-- The loops read like their bodies: a loop takes the bytes of its rounds off the input, does not
-- look past them, and has fuel enough.
use cbor.Base.{
  ℕ, zero, suc, ◌-◌, ◌<◌, ◌≡◌, ◌≢◌, ap, ◌∙◌, inl, inr, [], ◌∷◌, ◌++◌, append_assoc, true, false,
  Bytes, ◌==◌, length, length-append, Bool-cases, arith,
}
use cbor.Result.{Error, Result, ok, err, >>=-eq-ok, Returns, Returns-bind}
use cbor.Wire.{make_byte}
use cbor.Loops.{times, until_break}
use cbor.Loops.Reads.{Drops, Drops-ok, Drops-then, Drops-cons}

-- A reader that fails on no input at all takes a byte at least.
pub record Items (f : Bytes → Result Bytes) : Type 0 where
  pub drops : Drops f
  pub fails_on_nil : (r : Bytes) → f [] ≢ ok r

pub Items-of_cons :
    (f : Bytes → Result Bytes) (z : Error)
    → f [] ≡ err z
    → ((x : ℕ) → Drops (λ t. f (x ∷ t)))
    → Items f
Items-of_cons f z hn hc = record { drops = Drops-cons f z hn hc; fails_on_nil = λ r e. cc }

-- What an item reader took.
pub Items-run :
    {f : Bytes → Result Bytes}
    → Items f
    → (b r : Bytes) → f b ≡ ok r
    → (x : ℕ) × (p : Bytes) × (b ≡ x ∷ (p ++ r)) × ((more : Bytes) → f (x ∷ (p ++ more)) ≡ ok more)
Items-run {f} h b r e = go (h.drops.run b r e)
  where
    go :
        (p : Bytes) × (b ≡ p ++ r) × ((more : Bytes) → f (p ++ more) ≡ ok more)
        → (x : ℕ) × (p : Bytes) × (b ≡ x ∷ (p ++ r))
          × ((more : Bytes) → f (x ∷ (p ++ more)) ≡ ok more)
    go ([], s, m) = absurd (h.fails_on_nil [] (m []))
    go (x ∷ p, s, m) = (x, p, s, m)

pub Items-shorter :
    {f : Bytes → Result Bytes} → Items f → (b r : Bytes) → f b ≡ ok r → length r < length b
Items-shorter h b r e =
    let (x, p, s, m) = Items-run h b r e in omega (arith, ap length s, length-append p r)

pub times-Drops : {f : Bytes → Result Bytes} → Drops f → (n : ℕ) → Drops (λ t. times f n t)
unfolding times
times-Drops h zero = Drops-ok
times-Drops h (suc n) = Drops-then h (times-Drops h n)

-- One round, at any fuel that is left.
module _ (f : Bytes → Result Bytes) where
  until_break-stop :
      (j x : ℕ) (t : Bytes) → 0 < j → (x == make_byte 7 31) ≡ true → until_break f j (x ∷ t) ≡ ok t
  unfolding until_break
  until_break-stop zero x t h b = absurd (omega arith)
  until_break-stop (suc j) x t h b = rw b

  until_break-next :
      (j x : ℕ) (t q : Bytes)
      → 0 < j
      → (x == make_byte 7 31) ≡ false
      → f (x ∷ t) ≡ ok q
      → until_break f j (x ∷ t) ≡ until_break f (j - 1) q
  unfolding until_break
  until_break-next zero x t q h b e = absurd (omega arith)
  until_break-next (suc j) x t q h b e = rw (b, e) (ap (λ (n : ℕ). until_break f n q) (omega arith))

-- Behind a first byte that is known.
pub Items-cons :
    {f : Bytes → Result Bytes}
    → Items f
    → (x : ℕ) (t r : Bytes) → f (x ∷ t) ≡ ok r
    → (p : Bytes) × (t ≡ p ++ r) × ((more : Bytes) → f (x ∷ (p ++ more)) ≡ ok more)
Items-cons {f} h x t r e = go (Items-run h (x ∷ t) r e)
  where
    go :
        (y : ℕ) × (p : Bytes) × (x ∷ t ≡ y ∷ (p ++ r))
          × ((more : Bytes) → f (y ∷ (p ++ more)) ≡ ok more)
        → (p : Bytes) × (t ≡ p ++ r) × ((more : Bytes) → f (x ∷ (p ++ more)) ≡ ok more)
    go (y, p, s, m) = (p, cc, λ more. cc (m more))

-- One run of the loop, which takes the same rounds at any fuel above the length of the input.
abbrev Runs : (Bytes → Result Bytes) → Bytes → Bytes → Type 0
Runs f t r =
    (p : Bytes) × (t ≡ p ++ r)
    × ((more : Bytes) (j : ℕ) → length (p ++ more) < j → until_break f j (p ++ more) ≡ ok more)

Runs-stop :
    (f : Bytes → Result Bytes) (x : ℕ) (t r : Bytes)
    → (x == make_byte 7 31) ≡ true
    → t ≡ r
    → Runs f (x ∷ t) r
Runs-stop f x t r b e = (x ∷ [], cc, λ more j l. until_break-stop f j x more (omega arith) b)

Runs-next :
    (f : Bytes → Result Bytes) (x : ℕ) (t q r : Bytes)
    → (x == make_byte 7 31) ≡ false
    → (p : Bytes) × (t ≡ p ++ q) × ((more : Bytes) → f (x ∷ (p ++ more)) ≡ ok more)
    → Runs f q r
    → Runs f (x ∷ t) r
Runs-next f x t q r b (p₁, s₁, m₁) (p₂, s₂, m₂) = (
  x ∷ (p₁ ++ p₂),
  cc (append_assoc p₁ p₂ r),
  λ more j l.
      until_break-next f j x ((p₁ ++ p₂) ++ more) (p₂ ++ more) (omega arith) b
        (rw (append_assoc p₁ p₂ more) (m₁ (p₂ ++ more)))
      ∙ m₂ more (j - 1) (
          omega (arith, length-append (p₁ ++ p₂) more, length-append p₁ p₂, length-append p₂ more)),
)

module _ (f : Bytes → Result Bytes) (h : Items f) where
  until_break_run : (k : ℕ) (t r : Bytes) → until_break f k t ≡ ok r → Runs f t r
  unfolding until_break
  until_break_run zero t r e = absurd (cc)
  until_break_run (suc k) [] r e = absurd (cc)
  until_break_run (suc k) (x ∷ t) r e = elim (Bool-cases (x == make_byte 7 31)) [
    | inl b ↦ let e' : ok t ≡ ok r = rw b at e in Runs-stop f x t r b (cc)
    | inr b ↦
        let (q, ef, el) = >>=-eq-ok (f (x ∷ t)) (λ o. until_break f k o) (rw b at e) in
        Runs-next f x t q r b (Items-cons h x t q ef) (until_break_run k q r el)
  ]

  -- The fuel that the callers hand out is enough.
  until_break-Returns : (k : ℕ) (t : Bytes) → length t < k → Returns (until_break f k t)
  unfolding until_break
  until_break-Returns zero t l = absurd (omega arith)
  until_break-Returns (suc k) [] l = tt
  until_break-Returns (suc k) (x ∷ t) l = elim (Bool-cases (x == make_byte 7 31)) [
    | inl b ↦ rw b tt
    | inr b ↦ rw b (
        Returns-bind (f (x ∷ t)) (λ p. until_break f k p) (h.drops.returns (x ∷ t))
          λ q e. until_break-Returns k q (omega (arith, Items-shorter h (x ∷ t) q e)))
  ]

  pub until_break-Drops : Drops (λ t. until_break f (suc (length t)) t)
  until_break-Drops = record {
    run = λ b r e.
        let (p, s, m) = until_break_run (suc (length b)) b r e in
        (p, s, λ more. m more (suc (length (p ++ more))) (omega arith));
    returns = λ b. until_break-Returns (suc (length b)) b (omega arith);
  }
