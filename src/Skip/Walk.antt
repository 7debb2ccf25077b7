-- ===== src/Skip/Walk.antt =====
-- `Skip`, `ValidateWellFormedBytes` and `ValidateDocument` as their callers see them.
use cbor.Base.{
  ℕ, zero, suc, ◌≤◌, ◌≡◌, refl, ap, ◌∙◌, ◌⊎◌, [], ◌∷◌, ◌++◌, Bool, Bytes, length, arith, leb-false,
  ltb-false,
}
use cbor.Result.{ok, err, Returns, Returns-bind, unsupported_type}
use cbor.Wire.{make_byte, get_major_type, get_add_info, take_uint, be_uint, uint_from}
use cbor.Append.{append_simple_value}
use cbor.Headers.{read_simple_value}
use cbor.Loops.Rounds.{Items-run, Items-shorter}
use cbor.Skip.{
  recursion_limit, skip_fixed, simple_item, skip_item, skip_level, skip, validate_item,
  validate_level, validate_well_formed, validate_all, validate_document,
}
use cbor.Skip.Total.{skip_level-Items, validate_level-Items}
use cbor.Skip.Agree.{level-Same}

-- What Skip takes off its input is a first byte and more, and Skip takes just that off whatever
-- else follows it.
pub skip_takes_item :
    (b r : Bytes)
    → skip b ≡ ok r
    → (x : ℕ) × (p : Bytes) × (b ≡ x ∷ (p ++ r))
      × ((more : Bytes) → skip (x ∷ (p ++ more)) ≡ ok more)
unfolding skip
skip_takes_item b r e = Items-run (skip_level-Items (suc recursion_limit)) b r e

-- What ValidateWellFormedBytes takes off its input is a first byte and more, and it takes just that
-- off whatever else follows it.
pub validate_takes_item :
    (valid : Bytes → Bool) (b r : Bytes)
    → validate_well_formed valid b ≡ ok r
    → (x : ℕ) × (p : Bytes) × (b ≡ x ∷ (p ++ r))
      × ((more : Bytes) → validate_well_formed valid (x ∷ (p ++ more)) ≡ ok more)
unfolding validate_well_formed
validate_takes_item valid b r e = Items-run (validate_level-Items valid (suc recursion_limit)) b r e

validate_all-Returns :
    (valid : Bytes → Bool) (k : ℕ) (b : Bytes) → length b ≤ k → Returns (validate_all valid k b)
unfolding validate_all validate_well_formed
validate_all-Returns valid k [] l = tt
validate_all-Returns valid zero (x ∷ t) l = absurd (omega arith)
validate_all-Returns valid (suc k) (x ∷ t) l =
    let items = validate_level-Items valid (suc recursion_limit) in
    Returns-bind (validate_level valid (suc recursion_limit) (x ∷ t)) _
      (items.drops.returns (x ∷ t))
      λ r e. validate_all-Returns valid k r (omega (arith, Items-shorter items (x ∷ t) r e))

-- On every input, with any UTF-8 validator, Skip, ValidateWellFormedBytes and ValidateDocument come back with a result or an
-- error: no slice expression is out of bounds, and the loops end.
pub walks_return :
    (valid : Bytes → Bool) (b : Bytes)
    → Returns (skip b)
      × Returns (validate_well_formed valid b)
      × Returns (validate_document valid b)
unfolding skip validate_well_formed validate_document
walks_return valid b = (
  (skip_level-Items (suc recursion_limit)).drops.returns b,
  (validate_level-Items valid (suc recursion_limit)).drops.returns b,
  validate_all-Returns valid (length b) b (omega arith),
)

-- Where ValidateWellFormedBytes accepts an item, Skip leaves the same rest, or it fails with
-- ErrUnsupportedType.
pub skip-validate :
    (valid : Bytes → Bool) (b r : Bytes)
    → validate_well_formed valid b ≡ ok r
    → (skip b ≡ ok r) ⊎ (skip b ≡ err unsupported_type)
unfolding skip validate_well_formed
skip-validate valid b r e = level-Same valid (suc recursion_limit) b r e

two_byte_skip :
    (levels val : ℕ) (rest : Bytes)
    → skip_level (suc levels) (248 ∷ val ∷ rest) ≡ err unsupported_type
unfolding skip_level skip_item simple_item get_major_type get_add_info
two_byte_skip levels val rest = refl

two_byte_validate :
    (valid : Bytes → Bool) (levels val : ℕ) (rest : Bytes)
    → validate_level valid (suc levels) (248 ∷ val ∷ rest) ≡ ok rest
unfolding validate_level validate_item simple_item skip_fixed get_major_type get_add_info
two_byte_validate valid levels val rest = rw (ltb-false (suc (length rest)) 1 (omega arith))

two_byte_read : (val : ℕ) (rest : Bytes) → read_simple_value (248 ∷ val ∷ rest) ≡ ok (val, rest)
unfolding read_simple_value take_uint be_uint uint_from get_major_type get_add_info
two_byte_read val rest =
    rw (ltb-false (suc (length rest)) 1 (omega arith)) (ap (λ (n : ℕ). ok (n, rest)) (omega arith))

two_byte_form : (val : ℕ) → 24 ≤ val → append_simple_value [] val ≡ 248 ∷ val ∷ []
unfolding append_simple_value make_byte
two_byte_form val lo = rw (leb-false val 23 lo)

-- What AppendSimpleValue writes for a simple value from 24 on, 24 to 31 included, is read back by
-- ReadSimpleValue and accepted by ValidateWellFormedBytes, but Skip fails on it with
-- ErrUnsupportedType.
pub skip-append_simple_value :
    (valid : Bytes → Bool) (val : ℕ) (rest : Bytes)
    → 24 ≤ val
    → (read_simple_value (append_simple_value [] val ++ rest) ≡ ok (val, rest))
      × (validate_well_formed valid (append_simple_value [] val ++ rest) ≡ ok rest)
      × (skip (append_simple_value [] val ++ rest) ≡ err unsupported_type)
unfolding skip validate_well_formed
skip-append_simple_value valid val rest lo =
    let form = ap (λ p. p ++ rest) (two_byte_form val lo) in
    (
      ap read_simple_value form ∙ two_byte_read val rest,
      ap (validate_well_formed valid) form ∙ two_byte_validate valid recursion_limit val rest,
      ap skip form ∙ two_byte_skip recursion_limit val rest,
    )
