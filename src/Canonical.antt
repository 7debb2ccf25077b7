-- ===== src/Canonical.antt =====
-- `isNonCanonicalLength` of runtime/reader.go and the check that the methods of `Reader` build
-- from it.
use cbor.Base.{
  ℕ, ◌+◌, ◌-◌, ◌^◌, List, [], ◌∷◌, Bool, true, false, Bytes, leb, ◌==◌, ◌!=◌, if◌then◌else◌,
}
use cbor.Result.{
  Result, ok, err, ◌>>=◌, short_bytes, bad_prefix, unsupported_type, non_canonical_length,
}
use cbor.Wire.{
  get_major_type, get_add_info, take_uint, add_info_direct, add_info_uint8, add_info_uint16,
  add_info_uint32, add_info_uint64, add_info_indefinite,
}
pub mod Shortest

-- `v <= limit` on the argument of `n` bytes.
wider_than_needed : ℕ → ℕ → Bytes → Result Bool
wider_than_needed n limit t = take_uint n t >>= λ (v, _). ok (leb v limit)

unfoldable pub is_non_canonical_length : Bytes → ℕ → Result Bool
unfolding wider_than_needed
is_non_canonical_length [] expected_major = err short_bytes
is_non_canonical_length (lead ∷ t) expected_major =
    let add = get_add_info lead in
    if get_major_type lead != expected_major
    then err (bad_prefix (get_major_type lead) expected_major)
    else if add == add_info_indefinite
    then ok false
    else if leb add add_info_direct
    then ok false
    else if add == add_info_uint8
    then wider_than_needed 1 23 t
    else if add == add_info_uint16
    then wider_than_needed 2 (2 ^ 8 - 1) t
    else if add == add_info_uint32
    then wider_than_needed 4 (2 ^ 16 - 1) t
    else if add == add_info_uint64
    then wider_than_needed 8 (2 ^ 32 - 1) t
    else err unsupported_type

-- `if nonCanon { return ErrNonCanonicalLength }`
unfoldable pub demand_canonical : Bool → Result (Unit {0})
demand_canonical non_canon = if non_canon then err non_canonical_length else ok tt

-- `if r.strict { nonCanon, err := …; … }`
unfoldable pub check_canonical : Bool → Bytes → ℕ → Result (Unit {0})
unfolding demand_canonical
check_canonical strict b major =
    if strict
    then (is_non_canonical_length b major >>= λ non_canon. demand_canonical non_canon)
    else ok tt
