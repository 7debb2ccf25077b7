-- ===== src/Maps/Distinct.antt =====
-- Distinct keys: what the two map readers have to agree on, and how a loop checks it.
use cbor.Base.{◌≡◌, ◌≢◌, refl, sym, ◌↔◌, List, [], ◌∷◌, ◌++◌, true, false, Bytes, arith}
use cbor.Maps.{RawPair, bytes_equal, was_seen}

-- The specification: no key occurs twice.
abbrev pub NotIn : Bytes → List Bytes → Type 0
NotIn k [] = Unit {0}
NotIn k (j ∷ seen) = (k ≢ j) × NotIn k seen

-- No pair has the key.
abbrev pub Absent : Bytes → List RawPair → Type 0
Absent k [] = Unit {0}
Absent k (p ∷ pairs) = (k ≢ p.key) × Absent k pairs

abbrev pub Distinct : List RawPair → Type 0
Distinct [] = Unit {0}
Distinct (p ∷ pairs) = Absent p.key pairs × Distinct pairs

-- The same as the loop checks it: each key against those before it.
abbrev pub Fresh : List Bytes → List RawPair → Type 0
Fresh seen [] = Unit {0}
Fresh seen (p ∷ pairs) = NotIn p.key seen × Fresh (p.key ∷ seen) pairs

pub bytes_equal_iff : (xs ys : Bytes) → (bytes_equal xs ys ≡ true) ↔ (xs ≡ ys)
unfolding bytes_equal
bytes_equal_iff [] [] = (λ e. refl, λ e. refl)
bytes_equal_iff [] (y ∷ ys) = (λ e. cc, λ e. cc)
bytes_equal_iff (x ∷ xs) [] = (λ e. cc, λ e. cc)
bytes_equal_iff (x ∷ xs) (y ∷ ys) =
    let (there, back) = bytes_equal_iff xs ys in (λ e. ground arith, λ e. ground arith)

pub was_seen_iff : (k : Bytes) (seen : List Bytes) → (was_seen k seen ≡ false) ↔ NotIn k seen
unfolding was_seen
was_seen_iff k [] = (λ e. tt, λ h. refl)
was_seen_iff k (j ∷ seen) =
    let (equal, back) = bytes_equal_iff k j in
    let (out, into) = was_seen_iff k seen in
    (λ e. (λ p. ground arith, out (ground arith)), λ (ne, h). ground (arith, into h))

NotIn-middle :
    (q k : Bytes) (pre post : List Bytes)
    → NotIn q (pre ++ k ∷ post) ↔ ((q ≢ k) × NotIn q (pre ++ post))
NotIn-middle q k [] post = (λ h. h, λ h. h)
NotIn-middle q k (j ∷ pre) post =
    let (out, into) = NotIn-middle q k pre post in
    (λ (n, h). ((out h).0, (n, (out h).1)), λ (n, (n', h)). (n', into (n, h)))

Fresh-middle :
    (k : Bytes) (pre post : List Bytes) (ps : List RawPair)
    → Fresh (pre ++ k ∷ post) ps ↔ (Absent k ps × Fresh (pre ++ post) ps)
Fresh-middle k pre post [] = (λ h. (tt, tt), λ h. tt)
Fresh-middle k pre post (p ∷ ps) =
    let (out, into) = NotIn-middle p.key k pre post in
    let (out', into') = Fresh-middle k (p.key ∷ pre) post ps in
    (
      λ (n, f). ((λ e. (out n).0 (sym e), (out' f).0), ((out n).1, (out' f).1)),
      λ ((ne, a), (n, f)). (into (λ e. ne (sym e), n), into' (a, f)),
    )

pub Fresh-iff : (ps : List RawPair) → Fresh [] ps ↔ Distinct ps
Fresh-iff [] = (λ h. tt, λ h. tt)
Fresh-iff (p ∷ ps) =
    let (out, into) = Fresh-middle p.key [] [] ps in
    let (out', into') = Fresh-iff ps in
    (λ (n, f). ((out f).0, out' (out f).1), λ (a, d). (tt, into (a, into' d)))
