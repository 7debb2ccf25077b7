-- ===== src/Loops/Reads.antt =====
-- What a reader of one item does to its input: it takes a first byte and some more off the
-- front, and it does not look past them.
use cbor.Base.{
  ℕ, ◌≡◌, refl, sym, ap, ◌∙◌, [], ◌∷◌, ◌++◌, append_assoc, Bool, true, false, Bytes, length,
  length-append, arith, take, take-append-drop, take-append, drop-append, length-take,
  if◌then◌else◌,
}
use cbor.Result.{Error, Result, ok, err, ◌>>=◌, >>=-eq-ok, Returns, Returns-bind, short_bytes}
use cbor.Wire.{be_uint, take_uint, read_uint_core}
use cbor.Loops.{cut, read_chunk}

-- A reader with a value: it took `p` off the front of `b`, and whatever follows `p` it would have
-- returned the same value and left what follows.
pub record Takes {ℓ} {A : Type ℓ} (f : Bytes → Result (A × Bytes)) : Type ℓ where
  pub run :
      (b : Bytes) (v : A) (r : Bytes)
      → f b ≡ ok (v, r)
      → (p : Bytes) × (b ≡ p ++ r) × ((more : Bytes) → f (p ++ more) ≡ ok (v, more))
  -- It neither panics nor runs out of fuel.
  pub returns : (b : Bytes) → Returns (f b)

-- The same without a value.
pub record Drops (f : Bytes → Result Bytes) : Type 0 where
  pub run :
      (b r : Bytes)
      → f b ≡ ok r
      → (p : Bytes) × (b ≡ p ++ r) × ((more : Bytes) → f (p ++ more) ≡ ok more)
  pub returns : (b : Bytes) → Returns (f b)

module _ {ℓ} {A : Type ℓ} where
  pub Takes-if :
      (c : Bool) {f g : Bytes → Result (A × Bytes)}
      → Takes f
      → Takes g
      → Takes (λ t. if c then f t else g t)
  Takes-if true hf hg = hf
  Takes-if false hf hg = hg

  pub Takes-ok : (a : A) → Takes (λ t. ok (a, t))
  Takes-ok a = record { run = λ b v r e. ([], cc, λ more. cc); returns = λ b. tt }

  pub Takes-err : (x : Error) → Takes {A = A} (λ t. err x)
  Takes-err x = record { run = λ b v r e. absurd (cc); returns = λ b. tt }

  pub Takes-bind {κ} :
      {B : Type κ} {f : Bytes → Result (A × Bytes)} {g : A → Bytes → Result (B × Bytes)}
      → Takes f
      → ((a : A) → Takes (g a))
      → Takes (λ t. f t >>= λ (a, o). g a o)
  Takes-bind {f} {g} hf hg = record {
    run = λ b v r e.
        let ((a, o), ef, eg) = >>=-eq-ok (f b) (λ (a, o). g a o) e in
        let (p, sp, mp) = hf.run b a o ef in
        let (q, sq, mq) = (hg a).run o v r eg in
        (
          p ++ q,
          sp ∙ (ap (λ l. p ++ l) sq ∙ sym (append_assoc p q r)),
          λ more. simp (append_assoc, mp (q ++ more), mq more),
        );
    returns =
        λ b. Returns-bind (f b) (λ (a, o). g a o) (hf.returns b) (λ (a, o) e. (hg a).returns o);
  }

  pub Drops-bind :
      {f : Bytes → Result (A × Bytes)} {g : A → Bytes → Result Bytes}
      → Takes f
      → ((a : A) → Drops (g a))
      → Drops (λ t. f t >>= λ (a, o). g a o)
  Drops-bind {f} {g} hf hg = record {
    run = λ b r e.
        let ((a, o), ef, eg) = >>=-eq-ok (f b) (λ (a, o). g a o) e in
        let (p, sp, mp) = hf.run b a o ef in
        let (q, sq, mq) = (hg a).run o r eg in
        (
          p ++ q,
          sp ∙ (ap (λ l. p ++ l) sq ∙ sym (append_assoc p q r)),
          λ more. simp (append_assoc, mp (q ++ more), mq more),
        );
    returns =
        λ b. Returns-bind (f b) (λ (a, o). g a o) (hf.returns b) (λ (a, o) e. (hg a).returns o);
  }

pub Drops-if :
    (c : Bool) {f g : Bytes → Result Bytes}
    → Drops f
    → Drops g
    → Drops (λ t. if c then f t else g t)
Drops-if true hf hg = hf
Drops-if false hf hg = hg

pub Drops-ok : Drops (λ t. ok t)
Drops-ok = record { run = λ b r e. ([], cc, λ more. cc); returns = λ b. tt }

pub Drops-err : (x : Error) → Drops (λ t. err x)
Drops-err x = record { run = λ b r e. absurd (cc); returns = λ b. tt }

pub Drops-then : {f g : Bytes → Result Bytes} → Drops f → Drops g → Drops (λ t. f t >>= g)
Drops-then {f} {g} hf hg = record {
  run = λ b r e.
      let (o, ef, eg) = >>=-eq-ok (f b) g e in
      let (p, sp, mp) = hf.run b o ef in
      let (q, sq, mq) = hg.run o r eg in
      (
        p ++ q,
        sp ∙ (ap (λ l. p ++ l) sq ∙ sym (append_assoc p q r)),
        λ more. simp (append_assoc, mp (q ++ more), mq more),
      );
  returns = λ b. Returns-bind (f b) g (hf.returns b) (λ o e. hg.returns o);
}

pub cut_inv : (n : ℕ) (b v r : Bytes) → cut n b ≡ ok (v, r) → (length v ≡ n) × (b ≡ v ++ r)
unfolding cut
cut_inv n b v r e = ground (arith, length-take n b, take-append-drop n b)

pub cut-append : (n : ℕ) (v more : Bytes) → length v ≡ n → cut n (v ++ more) ≡ ok (v, more)
unfolding cut
cut-append n v more h =
    ground (arith, take-append n v more, drop-append n v more, length-append v more)

cut-Returns : (n : ℕ) (b : Bytes) → Returns (cut n b)
unfolding cut
cut-Returns n b = ground arith

pub cut-Takes : (n : ℕ) → Takes (cut n)
cut-Takes n = record {
  run = λ b v r e. let (l, s) = cut_inv n b v r e in (v, s, λ more. cut-append n v more l);
  returns = cut-Returns n;
}

pub take_uint_inv :
    (n : ℕ) (b : Bytes) (u : ℕ) (r : Bytes)
    → take_uint n b ≡ ok (u, r)
    → (p : Bytes) × (length p ≡ n) × (b ≡ p ++ r) × (be_uint p ≡ u)
unfolding take_uint
take_uint_inv n b u r e =
    (take n b, ground (arith, length-take n b), ground (arith, take-append-drop n b), ground arith)

pub take_uint-append :
    (n : ℕ) (p more : Bytes) → length p ≡ n → take_uint n (p ++ more) ≡ ok (be_uint p, more)
unfolding take_uint
take_uint-append n p more h =
    ground (arith, take-append n p more, drop-append n p more, length-append p more)

take_uint-Returns : (n : ℕ) (b : Bytes) → Returns (take_uint n b)
unfolding take_uint
take_uint-Returns n b = ground arith

pub take_uint-Takes : (n : ℕ) → Takes (take_uint n)
take_uint-Takes n = record {
  run = λ b u r e.
      let (p, l, s, v) = take_uint_inv n b u r e in
      (p, s, λ more. take_uint-append n p more l ∙ ap (λ (w : ℕ). ok (w, more)) v);
  returns = take_uint-Returns n;
}

-- A reader that looks at the first byte and hands the rest on.
pub Takes-cons {ℓ} :
    {A : Type ℓ} (f : Bytes → Result (A × Bytes)) (z : Error)
    → f [] ≡ err z
    → ((x : ℕ) → Takes (λ t. f (x ∷ t)))
    → Takes f
Takes-cons f z hn hc = record {
  run = elim [
    | [] ↦ λ v r e. absurd (cc)
    | x ∷ t ↦ λ v r e. let (p, s, m) = (hc x).run t v r e in (x ∷ p, ap (λ l. x ∷ l) s, m)
  ];
  returns = elim [ [] ↦ rw hn tt | x ∷ t ↦ (hc x).returns t ];
}

pub Drops-cons :
    (f : Bytes → Result Bytes) (z : Error)
    → f [] ≡ err z
    → ((x : ℕ) → Drops (λ t. f (x ∷ t)))
    → Drops f
Drops-cons f z hn hc = record {
  run = elim [
    | [] ↦ λ r e. absurd (cc)
    | x ∷ t ↦ λ r e. let (p, s, m) = (hc x).run t r e in (x ∷ p, ap (λ l. x ∷ l) s, m)
  ];
  returns = elim [ [] ↦ rw hn tt | x ∷ t ↦ (hc x).returns t ];
}

-- The readers of a header and of a string, behind a first byte that is known.
pub read_uint_core_tail : (m lead : ℕ) → Takes (λ t. read_uint_core (lead ∷ t) m)
unfolding read_uint_core
read_uint_core_tail m lead = Takes-if _ (Takes-err _) (
    Takes-if _ (Takes-ok _) (
      Takes-if _ (take_uint-Takes 1) (
        Takes-if _ (take_uint-Takes 2)
          (Takes-if _ (take_uint-Takes 4) (Takes-if _ (take_uint-Takes 8) (Takes-err _))))))

pub read_uint_core-Takes : (m : ℕ) → Takes (λ b. read_uint_core b m)
read_uint_core-Takes m =
    Takes-cons (λ b. read_uint_core b m) short_bytes (unfold read_uint_core in refl)
      (read_uint_core_tail m)

pub read_chunk_tail : (m lead : ℕ) → Takes (λ t. read_chunk m (lead ∷ t))
unfolding read_chunk
read_chunk_tail m lead = Takes-bind (read_uint_core_tail m lead) cut-Takes

pub read_chunk-Takes : (m : ℕ) → Takes (read_chunk m)
unfolding read_chunk
read_chunk-Takes m = Takes-bind (read_uint_core-Takes m) cut-Takes
