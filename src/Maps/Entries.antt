-- ===== src/Maps/Entries.antt =====
-- One entry of a map under either reader.
use cbor.Base.{◌≡◌, List, [], ◌∷◌, ◌++◌, false, Bytes, arith}
use cbor.Result.{ok, >>=-eq-ok}
use cbor.Skip.{skip}
use cbor.Sequence.{segment}
use cbor.Maps.{RawPair, was_seen, no_dup_value, no_dup_entry, ordered_value, ordered_entry}

-- One entry, forwards and backwards.
module _ (p r q : Bytes) where
  pub no_dup_entry-step :
      (seen : List Bytes)
      → skip p ≡ ok r
      → skip r ≡ ok q
      → was_seen (segment p r) seen ≡ false
      → no_dup_entry seen p ≡ ok (segment p r ∷ seen, q)
  unfolding no_dup_entry
  no_dup_entry-step seen e₁ e₂ u = rw (e₁, u, e₂)

  pub ordered_entry-step :
      (pairs : List RawPair)
      → skip p ≡ ok r
      → skip r ≡ ok q
      → ordered_entry pairs p
        ≡ ok (pairs ++ record { key = segment p r; value = segment r q } ∷ [], q)
  unfolding ordered_entry
  ordered_entry-step pairs e₁ e₂ = rw (e₁, e₂)

-- What an accepted entry was: two items, and the new state.
pub no_dup_entry_parts :
    (seen : List Bytes) (p : Bytes) (s' : List Bytes) (q : Bytes)
    → no_dup_entry seen p ≡ ok (s', q)
    → (r : Bytes) × (skip p ≡ ok r)
      × (skip r ≡ ok q)
      × (was_seen (segment p r) seen ≡ false)
      × (s' ≡ segment p r ∷ seen)
unfolding no_dup_entry
no_dup_entry_parts seen p s' q e = go (>>=-eq-ok (skip p) _ e)
  where
    go :
        (r : Bytes) × (skip p ≡ ok r) × (no_dup_value seen (segment p r) r ≡ ok (s', q))
        → (r : Bytes) × (skip p ≡ ok r)
          × (skip r ≡ ok q)
          × (was_seen (segment p r) seen ≡ false)
          × (s' ≡ segment p r ∷ seen)
    go (r, e₁, e₂) = (r, e₁, ground arith, ground arith, ground arith)

pub ordered_entry_parts :
    (pairs : List RawPair) (p : Bytes) (res : List RawPair) (q : Bytes)
    → ordered_entry pairs p ≡ ok (res, q)
    → (r : Bytes) × (skip p ≡ ok r)
      × (skip r ≡ ok q)
      × (res ≡ pairs ++ record { key = segment p r; value = segment r q } ∷ [])
unfolding ordered_entry
ordered_entry_parts pairs p res q e = go (>>=-eq-ok (skip p) _ e)
  where
    go :
        (r : Bytes) × (skip p ≡ ok r) × (ordered_value pairs (segment p r) r ≡ ok (res, q))
        → (r : Bytes) × (skip p ≡ ok r)
          × (skip r ≡ ok q)
          × (res ≡ pairs ++ record { key = segment p r; value = segment r q } ∷ [])
    go (r, e₁, e₂) = (r, e₁, ground arith, ground arith)
