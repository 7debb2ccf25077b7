-- ===== src/Deterministic/Buckets.antt =====
-- Lists laid out in buckets.
use cbor.Base.{
  ℕ, zero, suc, ◌+◌, ◌<◌, ◌≡◌, ◌⊎◌, inl, inr, refl, ap, ◌∙◌, List, [], ◌∷◌, ◌++◌, false, ◌==◌,
  if◌then◌else◌, arith, length, take, drop, take-append-drop, length-take, length-drop, eqb_refl,
}
use cbor.Deterministic.{set_at}

-- One bucket after another.
abbrev pub gather : List ℕ → (ℕ → List ℕ) → List ℕ
gather [] F = []
gather (d ∷ ds) F = F d ++ gather ds F

abbrev pub In : ℕ → List ℕ → Type 0
In e [] = ⊥
In e (d ∷ ds) = (e ≡ d) ⊎ In e ds

abbrev pub Above : ℕ → List ℕ → Type 0
Above e [] = Unit {0}
Above e (d ∷ ds) = (e < d) × Above e ds

abbrev pub IsAscending : List ℕ → Type 0
IsAscending [] = Unit {0}
IsAscending (d ∷ ds) = Above d ds × IsAscending ds

pub Above-In : (e d : ℕ) (ds : List ℕ) → Above e ds → In d ds → e < d
Above-In e d [] a i = absurd i
Above-In e d (x ∷ ds) (h, a) (inl p) = omega arith
Above-In e d (x ∷ ds) (h, a) (inr i) = Above-In e d ds a i

-- Where the bucket of `e` starts, from the lengths of the buckets.
abbrev pub start : List ℕ → (ℕ → ℕ) → ℕ → ℕ
start [] L e = 0
start (d ∷ ds) L e = let later = start ds L e in if e == d then 0 else L d + later

abbrev pub total : List ℕ → (ℕ → ℕ) → ℕ
total [] L = 0
total (d ∷ ds) L = L d + total ds L

pub gather-congr :
    (ds : List ℕ) (F G : ℕ → List ℕ) → ((e : ℕ) → In e ds → F e ≡ G e) → gather ds F ≡ gather ds G
gather-congr [] F G h = refl
gather-congr (d ∷ ds) F G h =
    ap (λ l. l ++ gather ds F) (h d (inl refl))
    ∙ ap (λ l. G d ++ l) (gather-congr ds F G (λ e i. h e (inr i)))

pub start-congr :
    (ds : List ℕ) (L M : ℕ → ℕ) (e : ℕ)
    → ((d : ℕ) → In d ds → L d ≡ M d)
    → start ds L e ≡ start ds M e
start-congr [] L M e h = refl
start-congr (d ∷ ds) L M e h =
    let same = h d (inl refl) in
    let more = start-congr ds L M e (λ x i. h x (inr i)) in ground arith

-- A list is cut into buckets of given lengths.
pub cut :
    (ds : List ℕ) (L : ℕ → ℕ) (aux : List ℕ)
    → IsAscending ds
    → total ds L ≡ length aux
    → (J : ℕ → List ℕ) × (gather ds J ≡ aux) × ((e : ℕ) → In e ds → length (J e) ≡ L e)
cut [] L [] a h = (λ e. [], refl, λ e i. absurd i)
cut [] L (x ∷ aux) a h = absurd (omega arith)
cut (d ∷ ds) L aux (above, a) h =
    let (J, joined, sizes) = cut ds L (drop (L d) aux) a (omega (arith, length-drop (L d) aux)) in
    (
      λ e. if e == d then take (L d) aux else J e,
      rw (eqb_refl d) (
          ap (λ l. take (L d) aux ++ l)
            (gather-congr ds (λ e. if e == d then take (L d) aux else J e) J (λ e i. apart J e i)
              ∙ joined)
          ∙ take-append-drop (L d) aux),
      λ e i. size e i J sizes,
    )
  where
    apart : (J : ℕ → List ℕ) (e : ℕ) → In e ds → (if e == d then take (L d) aux else J e) ≡ J e
    apart J e i = let l = Above-In d e ds above i in ground arith

    size :
        (e : ℕ)
        → In e (d ∷ ds)
        → (J : ℕ → List ℕ) → ((e : ℕ) → In e ds → length (J e) ≡ L e)
        → length (if e == d then take (L d) aux else J e) ≡ L e
    size e (inl p) J sizes = let t = length-take (L d) aux (omega arith) in rw (p, eqb_refl d) t
    size e (inr i) J sizes = rw (apart J e i) (sizes e i)

-- Writing behind what is in a bucket.
pub set_at-append :
    (p v : ℕ) (xs ys : List ℕ) → set_at (length xs + p) v (xs ++ ys) ≡ xs ++ set_at p v ys
unfolding set_at
set_at-append p v [] ys = ap (λ (n : ℕ). set_at n v ys) (omega arith)
set_at-append p v (x ∷ xs) ys =
    let e : length (x ∷ xs) + p ≡ suc (length xs + p) = omega arith in
    rw e (ap (λ l. x ∷ l) (set_at-append p v xs ys))

set_at-left :
    (p v : ℕ) (xs ys : List ℕ) → p < length xs → set_at p v (xs ++ ys) ≡ set_at p v xs ++ ys
unfolding set_at
set_at-left p v [] ys h = absurd (omega arith)
set_at-left zero v (x ∷ xs) ys h = refl
set_at-left (suc p) v (x ∷ xs) ys h = ap (λ l. x ∷ l) (set_at-left p v xs ys (omega arith))

-- A write into a bucket changes that bucket.
abbrev pub changed : (ℕ → List ℕ) → ℕ → List ℕ → ℕ → List ℕ
changed F e new d = if d == e then new else F d

pub set_at-gather :
    (ds : List ℕ) (F : ℕ → List ℕ) (L : ℕ → ℕ) (e p v : ℕ)
    → IsAscending ds
    → In e ds
    → ((d : ℕ) → In d ds → length (F d) ≡ L d)
    → p < length (F e)
    → set_at (start ds L e + p) v (gather ds F) ≡ gather ds (changed F e (set_at p v (F e)))
set_at-gather [] F L e p v a i h l = absurd i
set_at-gather (d ∷ ds) F L e p v (above, a) (inl same) h l =
    let q : p < length (F d) = rw same at l in
    rw (same, eqb_refl d)
      (ap (λ n. set_at n v (F d ++ gather ds F)) (zero_add p)
        ∙ set_at-left p v (F d) (gather ds F) q
        ∙ ap (λ l. set_at p v (F d) ++ l)
            (gather-congr ds F (changed F d (set_at p v (F d))) apart))
  where
    zero_add : (p : ℕ) → 0 + p ≡ p
    zero_add p = omega arith

    apart : (x : ℕ) → In x ds → F x ≡ changed F d (set_at p v (F d)) x
    apart x i = let less = Above-In d x ds above i in ground arith
set_at-gather (d ∷ ds) F L e p v (above, a) (inr i) h l =
    let less = Above-In d e ds above i in
    let ne : (e == d) ≡ false = ground arith in
    let ne' : (d == e) ≡ false = ground arith in
    let size = h d (inl refl) in
    let sum : L d + start ds L e + p ≡ length (F d) + (start ds L e + p) = omega arith in
    rw (ne, ne', sum)
      (set_at-append (start ds L e + p) v (F d) (gather ds F)
        ∙ ap (λ l. F d ++ l) (set_at-gather ds F L e p v a i (λ x j. h x (inr j)) l))
