-- ===== src/Result.antt =====
-- runtime/errors.go and runtime/defs.go: the errors of the package as values, and what a call
-- comes back with. A Go function that fails returns an error beside zero values and a slice;
-- here `err` keeps the error alone. `panic` is a run-time panic (a slice expression out of
-- bounds), and `stuck` is no outcome of the program: a loop of the model ran out of fuel.
use cbor.Base.{ℕ, ℤ, ◌≡◌, refl}
use Prim.Native.String.{String}

-- `Type` of defs.go.
pub data CborType : Type 0 where
  invalid_type str_type bin_type map_type array_type float64_type float32_type : CborType
  bool_type int_type uint_type nil_type duration_type extension_type time_type : CborType

-- The variables Err… and the error structs, less the text of their context. `message` is an
-- error made on the spot by errors.New, `external` one that a caller's function returned.
pub data Error : Type 0 where
  short_bytes max_depth_exceeded not_nil invalid_utf8 duplicate_map_key : Error
  indefinite_forbidden non_canonical_integer non_canonical_length : Error
  non_canonical_float container_too_large unsupported_type : Error
  invalid_prefix : (want got : ℕ) → Error
  array_error : (wanted got : ℕ) → Error
  int_overflow : (value : ℤ) (failed_bitsize : ℕ) → Error
  uint_overflow : (value failed_bitsize : ℕ) → Error
  type_error : (method encoded : CborType) → Error
  message : String → Error
  external : ℕ → Error

-- `badPrefix`
abbrev pub bad_prefix : (want_major got_major : ℕ) → Error
bad_prefix want_major got_major = invalid_prefix want_major got_major

pub data Result {ℓ} (A : Type ℓ) : Type ℓ where
  ok : A → Result A
  err : Error → Result A
  panic stuck : Result A

infixl 5 ◌>>=◌
abbrev pub ◌>>=◌ {ℓ κ} : {A : Type ℓ} {C : Type κ} → Result A → (A → Result C) → Result C
ok v >>= next = next v
err z >>= next = err z
panic >>= next = panic
stuck >>= next = stuck

-- A chain that ends in `c` went through some `v`.
abbrev pub Passes {ℓ κ} : {A : Type ℓ} {C : Type κ} → Result A → (A → Result C) → C → Type (ℓ ⊔ κ)
Passes {A = A} m next c = (v : A) × (m ≡ ok v) × (next v ≡ ok c)

-- Inversion of a successful bind.
pub >>=-eq-ok {ℓ κ} :
    {A : Type ℓ} {C : Type κ} (m : Result A) (next : A → Result C) {c : C}
    → (m >>= next) ≡ ok c
    → Passes m next c
>>=-eq-ok panic next h = cc
>>=-eq-ok stuck next h = cc
>>=-eq-ok (err z) next h = cc
>>=-eq-ok (ok v) next h = (v, refl, h)

-- The call came back, with a value or with an error: no panic, and fuel enough.
abbrev pub Returns {ℓ} : {A : Type ℓ} → Result A → Type 0
Returns (ok a) = Unit {0}
Returns (err e) = Unit {0}
Returns panic = ⊥
Returns stuck = ⊥

pub Returns-bind {ℓ κ} :
    {A : Type ℓ} {B : Type κ} (m : Result A) (f : A → Result B)
    → Returns m
    → ((a : A) → m ≡ ok a → Returns (f a))
    → Returns (m >>= f)
Returns-bind (ok a) f hm hf = hf a refl
Returns-bind (err e) f hm hf = tt
Returns-bind panic f hm hf = absurd hm
Returns-bind stuck f hm hf = absurd hm
