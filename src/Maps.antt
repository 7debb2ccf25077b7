-- ===== src/Maps.antt =====
-- `ReadMapNoDupBytes` and `ReadOrderedMapBytes` of runtime/read_bytes.go. The set `seen` of raw
-- keys is a list; that a pair of `ReadOrderedMapBytes` copies its bytes is not modelled.
use cbor.Base.{
  ℕ, suc, ◌+◌, List, [], ◌∷◌, ◌++◌, Bool, true, false, ◌&&◌, ◌||◌, Bytes, ◌==◌, ◌!=◌, if◌then◌else◌,
  length,
}
use cbor.Result.{Result, ok, err, ◌>>=◌, short_bytes, duplicate_map_key, bad_prefix}
use cbor.Wire.{get_major_type, get_add_info, major_map, add_info_indefinite}
use cbor.Headers.{read_map_header}
use cbor.Loops.{times_with, until_break_with}
use cbor.Skip.{skip}
use cbor.Sequence.{segment}
pub mod Distinct
pub mod Entries
pub mod Rounds
pub mod Runs
pub mod Text

pub record RawPair : Type 0 where
  pub key : Bytes
  pub value : Bytes

unfoldable pub bytes_equal : Bytes → Bytes → Bool
bytes_equal [] [] = true
bytes_equal [] (y ∷ ys) = false
bytes_equal (x ∷ xs) [] = false
bytes_equal (x ∷ xs) (y ∷ ys) = x == y && bytes_equal xs ys

unfoldable pub was_seen : Bytes → List Bytes → Bool
unfolding bytes_equal
was_seen k [] = false
was_seen k (j ∷ seen) = bytes_equal k j || was_seen k seen

-- The rounds of both loops over the entries, and what is done with the state at the end.
read_entries : {S : Type 0} → (S → Bytes → Result (S × Bytes)) → S → ℕ → Bytes → Result (S × Bytes)
read_entries entry s lead t =
    if get_major_type lead != major_map
    then err (bad_prefix major_map (get_major_type lead))
    else if get_add_info lead == add_info_indefinite
    then until_break_with entry (suc (length t)) s t
    else (read_map_header (lead ∷ t) >>= λ (sz, p). times_with entry sz s p)

-- Behind the key of an entry.
no_dup_value : List Bytes → Bytes → Bytes → Result (List Bytes × Bytes)
unfolding was_seen
no_dup_value seen key r =
    if was_seen key seen then err duplicate_map_key else (skip r >>= λ r2. ok (key ∷ seen, r2))

pub no_dup_entry : List Bytes → Bytes → Result (List Bytes × Bytes)
unfolding no_dup_value
no_dup_entry seen p = skip p >>= λ r. no_dup_value seen (segment p r) r

unfoldable pub read_map_no_dup : Bytes → Result Bytes
unfolding read_entries no_dup_entry
read_map_no_dup [] = err short_bytes
read_map_no_dup (lead ∷ t) = read_entries no_dup_entry [] lead t >>= λ (_, o). ok o

ordered_value : List RawPair → Bytes → Bytes → Result (List RawPair × Bytes)
ordered_value pairs key r1 =
    skip r1 >>= λ r2. ok (pairs ++ record { key = key; value = segment r1 r2 } ∷ [], r2)

unfoldable pub ordered_entry : List RawPair → Bytes → Result (List RawPair × Bytes)
unfolding ordered_value
ordered_entry pairs p = skip p >>= λ r1. ordered_value pairs (segment p r1) r1

unfoldable pub read_ordered_map : Bytes → Result (List RawPair × Bytes)
unfolding read_entries ordered_entry
read_ordered_map [] = err short_bytes
read_ordered_map (lead ∷ t) = read_entries ordered_entry [] lead t
