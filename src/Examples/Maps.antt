-- ===== src/Examples/Maps.antt =====
-- Maps that are written in the order of their keys.
use mathlib.Core.List.{Perm}
use mathlib.Core.List.Perm
use cbor.Base.{ap, Bool, true, ℕ, ◌≡◌, ◌≢◌, refl, List, [], ◌∷◌, ◌++◌, Bytes, All, arith}
use cbor.Result.{Result, ok}
use cbor.Wire.{get_major_type, get_add_info, read_uint_core}
use cbor.Loops.{read_chunk}
use cbor.Skip.{skip, skip_level}
use cbor.Maps.{RawPair, read_ordered_map, read_map_no_dup}
use cbor.Deterministic.{radix, byte_at}
use cbor.Deterministic.Sorted.{IsSorted}
use cbor.Deterministic.Radix.{NotAbove, radix-IsSorted}
use cbor.Deterministic.Order.{Precedes}
use cbor.Deterministic.Entries.{append_raw_map_deterministic, append_map_deterministic}
use cbor.Deterministic.Maps.{append_raw_map_deterministic-Perm, HasByteKey}
use cbor.Deterministic.Typed.{encoded, HasBytes, append_map_deterministic-Perm}
use cbor.Append.{append_string}
use cbor.Maps.Text.{StrStr, IsString, puts, read_map_str_str}
use cbor.Deterministic.Texts.{append_map_deterministic_str_str}
use cbor.Deterministic.TextMaps.{HasByteText, read_map_str_str-append_map_deterministic_str_str}
use cbor.Deterministic.ReadBack.{IsPair, read_ordered_map-append_raw_map_deterministic}
use cbor.Examples.Sorting.{insertion_sort, insertion_sort-IsSortSlice}

-- The keys of two indices.
abbrev two_keys : ℕ → Bytes
two_keys i = byte_at (3 ∷ 1 ∷ []) i ∷ []

radix-IsSorted_example :
    IsSorted
      (λ i j. NotAbove (two_keys i) (two_keys j))
      (radix two_keys 1 (0 ∷ 1 ∷ []) (0 ∷ 0 ∷ []))
    × Perm (radix two_keys 1 (0 ∷ 1 ∷ []) (0 ∷ 0 ∷ [])) (0 ∷ 1 ∷ [])
unfolding byte_at
radix-IsSorted_example =
    radix-IsSorted two_keys 1 (0 ∷ 1 ∷ []) (0 ∷ 0 ∷ [])
      ((refl, (omega arith, tt)), ((refl, (omega arith, tt)), tt)) refl

abbrev some_scratch : List ℕ → List ℕ
some_scratch grp = grp

-- {2: 7, 1: 8}
abbrev two_pairs : List RawPair
two_pairs = record { key = 2 ∷ []; value = 7 ∷ [] } ∷ record { key = 1 ∷ []; value = 8 ∷ [] } ∷ []

abbrev swapped_pairs : List RawPair
swapped_pairs =
    record { key = 1 ∷ []; value = 8 ∷ [] } ∷ record { key = 2 ∷ []; value = 7 ∷ [] } ∷ []

two_pairs-HasByteKey : All HasByteKey two_pairs
two_pairs-HasByteKey = ((omega arith, tt), ((omega arith, tt), tt))

two_pairs-distinct : IsSorted (λ (p : RawPair) (q : RawPair). p.key ≢ q.key) two_pairs
unfolding byte_at
two_pairs-distinct = ((λ e. omega (arith, ap (λ l. byte_at l 0) e), tt), (tt, tt))

append_raw_map_deterministic-Perm_example :
    append_raw_map_deterministic insertion_sort some_scratch [] two_pairs
    ≡ append_raw_map_deterministic insertion_sort some_scratch [] swapped_pairs
append_raw_map_deterministic-Perm_example =
    append_raw_map_deterministic-Perm insertion_sort insertion_sort some_scratch some_scratch
      insertion_sort-IsSortSlice insertion_sort-IsSortSlice (λ grp. refl) (λ grp. refl) [] two_pairs
      swapped_pairs two_pairs-HasByteKey two_pairs-distinct
      (Perm.swap (record { key = 2 ∷ []; value = 7 ∷ [] }) (record { key = 1 ∷ []; value = 8 ∷ [] })
        [])

two_pairs-IsPair : All IsPair two_pairs
unfolding skip skip_level get_major_type get_add_info read_uint_core read_chunk
two_pairs-IsPair = ((refl, refl), ((refl, refl), tt))

read_ordered_map-append_raw_map_deterministic_example :
    (s : List RawPair) × (out : Bytes) × Perm s two_pairs
    × IsSorted (λ p q. Precedes p.key q.key) s
    × (append_raw_map_deterministic insertion_sort some_scratch [] two_pairs ≡ ok out)
    × (read_ordered_map (out ++ 9 ∷ []) ≡ ok (s, 9 ∷ []))
    × (read_map_no_dup (out ++ 9 ∷ []) ≡ ok (9 ∷ []))
read_ordered_map-append_raw_map_deterministic_example =
    read_ordered_map-append_raw_map_deterministic insertion_sort some_scratch
      insertion_sort-IsSortSlice (λ grp. refl) two_pairs (9 ∷ []) (omega arith) two_pairs-HasByteKey
      two_pairs-IsPair two_pairs-distinct

abbrev append_key : Bytes → ℕ → Bytes
append_key b k = b ++ k ∷ []

abbrev append_value : Bytes → ℕ → Result Bytes
append_value b v = ok (b ++ v ∷ [])

two_entries-HasBytes : All (HasBytes {V = ℕ}) (encoded append_key ((2, 7) ∷ (1, 8) ∷ []))
two_entries-HasBytes = ((omega arith, tt), ((omega arith, tt), tt))

two_entries-distinct :
    IsSorted (λ (x : Bytes × ℕ) y. x.0 ≢ y.0) (encoded append_key ((2, 7) ∷ (1, 8) ∷ []))
unfolding byte_at
two_entries-distinct = ((λ e. omega (arith, ap (λ l. byte_at l 0) e), tt), (tt, tt))

append_map_deterministic-Perm_example :
    append_map_deterministic insertion_sort some_scratch append_key append_value []
      ((2, 7) ∷ (1, 8) ∷ [])
    ≡ append_map_deterministic insertion_sort some_scratch append_key append_value []
        ((1, 8) ∷ (2, 7) ∷ [])
append_map_deterministic-Perm_example =
    append_map_deterministic-Perm insertion_sort insertion_sort some_scratch some_scratch
      insertion_sort-IsSortSlice insertion_sort-IsSortSlice (λ grp. refl) (λ grp. refl) append_key
      append_value [] ((2, 7) ∷ (1, 8) ∷ []) ((1, 8) ∷ (2, 7) ∷ []) (λ b k. refl) (hlevel)
      two_entries-HasBytes two_entries-distinct (Perm.swap (2, 7) (1, 8) [])

any_text : Bytes → Bool
any_text s = true

-- {"b": "x", "a": "y"}
abbrev two_texts : StrStr
two_texts = (98 ∷ [], 120 ∷ []) ∷ (97 ∷ [], 121 ∷ []) ∷ []

two_texts-HasByteText : All HasByteText two_texts
two_texts-HasByteText = ((omega arith, tt), ((omega arith, tt), tt))

two_texts-IsString : All (IsString true any_text) two_texts
unfolding any_text
two_texts-IsString =
    ((omega arith, refl, omega arith, refl), ((omega arith, refl, omega arith, refl), tt))

read_map_str_str-append_map_deterministic_str_str_example :
    (s : StrStr) × (out : Bytes) × Perm s two_texts
    × IsSorted (λ x y. Precedes (append_string [] x.0) (append_string [] y.0)) s
    × (append_map_deterministic_str_str insertion_sort some_scratch [] two_texts ≡ ok out)
    × (read_map_str_str true any_text [] (out ++ 9 ∷ []) ≡ ok (puts [] s, 9 ∷ []))
read_map_str_str-append_map_deterministic_str_str_example =
    read_map_str_str-append_map_deterministic_str_str insertion_sort some_scratch
      insertion_sort-IsSortSlice (λ grp. refl) true any_text two_texts [] (9 ∷ []) (omega arith)
      two_texts-HasByteText two_texts-IsString
