-- ===== src/Maps/Rounds.antt =====
-- Runs of the loops of the two map readers, and one entry in front of a run.
use cbor.Base.{◌≡◌, sym, ap, ◌∙◌, List, [], ◌∷◌, ◌++◌, append_assoc, append-nil, false, Bytes}
use cbor.Result.{Result, ok, ◌>>=◌, >>=-eq-ok}
use cbor.Skip.{skip}
use cbor.Sequence.{segment}
use cbor.Maps.{RawPair, was_seen, no_dup_entry, ordered_entry}
use cbor.Maps.Distinct.{Fresh, was_seen_iff}
use cbor.Maps.Entries.{
  no_dup_entry-step, ordered_entry-step, no_dup_entry_parts, ordered_entry_parts,
}

-- A run of a loop: `Seen f g` says that where `f`, the loop of ReadMapNoDupBytes, accepts, `g`
-- finds the same rest and fresh keys; `Found` is the converse.
abbrev pub NoDupLoop : Type 0
NoDupLoop = List Bytes → Bytes → Result (List Bytes × Bytes)

abbrev pub OrderedLoop : Type 0
OrderedLoop = List RawPair → Bytes → Result (List RawPair × Bytes)

pub record Seen (f : NoDupLoop) (g : OrderedLoop) : Type 0 where
  pub run :
      (seen : List Bytes) (p : Bytes) (s' : List Bytes) (r : Bytes) (pairs : List RawPair)
      → f seen p ≡ ok (s', r)
      → (new : List RawPair) × Fresh seen new × (g pairs p ≡ ok (pairs ++ new, r))

pub record Found (f : NoDupLoop) (g : OrderedLoop) : Type 0 where
  pub run :
      (seen : List Bytes) (p : Bytes) (pairs res : List RawPair) (r : Bytes)
      → g pairs p ≡ ok (res, r)
      → (new : List RawPair) × (res ≡ pairs ++ new)
        × (Fresh seen new → (s' : List Bytes) × (f seen p ≡ ok (s', r)))

-- The loop ends here.
pub Seen-stop :
    (seen : List Bytes) (p r : Bytes) (pairs : List RawPair) (g : OrderedLoop)
    → g pairs p ≡ ok (pairs, r)
    → (new : List RawPair) × Fresh seen new × (g pairs p ≡ ok (pairs ++ new, r))
Seen-stop seen p r pairs g e = ([], tt, e ∙ ap (λ l. ok (l, r)) (sym (append-nil pairs)))

-- One entry, then the rest of the loop.
pub Seen-next :
    (f : NoDupLoop) (g : OrderedLoop)
    → Seen f g
    → (seen : List Bytes) (p : Bytes) (s' : List Bytes) (r : Bytes) (pairs : List RawPair)
    → (no_dup_entry seen p >>= λ (s, o). f s o) ≡ ok (s', r)
    → (new : List RawPair) × Fresh seen new
      × ((ordered_entry pairs p >>= λ (s, o). g s o) ≡ ok (pairs ++ new, r))
Seen-next f g h seen p s' r pairs e = go (>>=-eq-ok (no_dup_entry seen p) _ e)
  where
    ending :
        (s : List Bytes) (o q : Bytes)
        → skip p ≡ ok q
        → skip q ≡ ok o
        → was_seen (segment p q) seen ≡ false
        → s ≡ segment p q ∷ seen
        → f s o ≡ ok (s', r)
        → (new : List RawPair) × Fresh seen new
          × ((ordered_entry pairs p >>= λ (s, o). g s o) ≡ ok (pairs ++ new, r))
    ending s o q e₁ e₂ u es el =
        let pr : RawPair = record { key = segment p q; value = segment q o } in
        let (new, fr, eg) = h.run (segment p q ∷ seen) o s' r (pairs ++ pr ∷ []) (rw es at el) in
        (
          pr ∷ new,
          ((was_seen_iff (segment p q) seen).0 u, fr),
          rw (ordered_entry-step p q o pairs e₁ e₂)
              (eg ∙ ap (λ l. ok (l, r)) (append_assoc pairs (pr ∷ []) new)),
        )

    go :
        (a : List Bytes × Bytes) × (no_dup_entry seen p ≡ ok a) × (f a.0 a.1 ≡ ok (s', r))
        → (new : List RawPair) × Fresh seen new
          × ((ordered_entry pairs p >>= λ (s, o). g s o) ≡ ok (pairs ++ new, r))
    go ((s, o), e₁, e₂) =
        let (q, p₁, p₂, u, es) = no_dup_entry_parts seen p s o e₁ in ending s o q p₁ p₂ u es e₂

pub Found-next :
    (f : NoDupLoop) (g : OrderedLoop)
    → Found f g
    → (seen : List Bytes) (p : Bytes) (pairs res : List RawPair) (r : Bytes)
    → (ordered_entry pairs p >>= λ (s, o). g s o) ≡ ok (res, r)
    → (new : List RawPair) × (res ≡ pairs ++ new)
      × (Fresh seen new
          → (s' : List Bytes) × ((no_dup_entry seen p >>= λ (s, o). f s o) ≡ ok (s', r)))
Found-next f g h seen p pairs res r e = go (>>=-eq-ok (ordered_entry pairs p) _ e)
  where
    ending :
        (s : List RawPair) (o q : Bytes)
        → skip p ≡ ok q
        → skip q ≡ ok o
        → s ≡ pairs ++ record { key = segment p q; value = segment q o } ∷ []
        → g s o ≡ ok (res, r)
        → (new : List RawPair) × (res ≡ pairs ++ new)
          × (Fresh seen new
              → (s' : List Bytes) × ((no_dup_entry seen p >>= λ (s, o). f s o) ≡ ok (s', r)))
    ending s o q e₁ e₂ es el =
        let pr : RawPair = record { key = segment p q; value = segment q o } in
        let (new, er, again) =
          h.run (segment p q ∷ seen) o (pairs ++ pr ∷ []) res r (rw es at el) in
        (
          pr ∷ new,
          er ∙ append_assoc pairs (pr ∷ []) new,
          λ (n, fr).
              let (s', ef) = again fr in
              (
                s',
                rw (no_dup_entry-step p q o seen e₁ e₂ ((was_seen_iff (segment p q) seen).1 n)) ef,
              ),
        )

    go :
        (a : List RawPair × Bytes) × (ordered_entry pairs p ≡ ok a) × (g a.0 a.1 ≡ ok (res, r))
        → (new : List RawPair) × (res ≡ pairs ++ new)
          × (Fresh seen new
              → (s' : List Bytes) × ((no_dup_entry seen p >>= λ (s, o). f s o) ≡ ok (s', r)))
    go ((s, o), e₁, e₂) =
        let (q, p₁, p₂, es) = ordered_entry_parts pairs p s o e₁ in ending s o q p₁ p₂ es e₂
