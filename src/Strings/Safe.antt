-- ===== src/Strings/Safe.antt =====
-- `ReadStringZC` on any input.
use cbor.Base.{ℕ, ◌-◌, ◌%◌, ◌^◌, refl, ltb, ◌∷◌}
use cbor.Result.{short_bytes}
use cbor.Loops.Reads.{
  Takes, Takes-cons, Takes-if, Takes-bind, Takes-err, take_uint-Takes, cut-Takes,
}
use cbor.Strings.{read_string_zc}

pub read_string_zc_tail : (lead : ℕ) → Takes (λ t. read_string_zc (lead ∷ t))
unfolding read_string_zc
read_string_zc_tail lead = Takes-if _ (cut-Takes (lead % 32)) (
    Takes-if _ (Takes-bind (take_uint-Takes 1) cut-Takes) (
      Takes-if _ (Takes-bind (take_uint-Takes 2) cut-Takes) (
        Takes-if _ (Takes-bind (take_uint-Takes 4) cut-Takes) (
          Takes-if _
            (Takes-bind (take_uint-Takes 8)
              λ u. Takes-if (ltb (2 ^ 63 - 1) u) (Takes-err _) (cut-Takes u))
            (Takes-err _)))))

-- It cuts its result out of the input or fails: no slice expression is out of bounds.
pub read_string_zc-Takes : Takes read_string_zc
read_string_zc-Takes =
    Takes-cons read_string_zc short_bytes (unfold read_string_zc in refl) read_string_zc_tail
