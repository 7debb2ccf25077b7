-- ===== src/Reader/Faults.antt =====
-- What the limit of containers does not reach in runtime/reader.go.
use cbor.Base.{ℕ, Bytes, Bool, ◌≡◌, refl}
use cbor.Result.{Result, ok, err, panic, stuck}
use cbor.Reader.{Reader, advance, reader_string, reader_bytes, set_max_container_len}

advance-limit {ℓ} :
    {A : Type ℓ} (r : Reader) (k : ℕ) (m : Result (A × Bytes))
    → (advance (set_max_container_len r k) m).0 ≡ (advance r m).0
unfolding advance
advance-limit r k (ok (v, rest)) = refl
advance-limit r k (err x) = refl
advance-limit r k panic = refl
advance-limit r k stuck = refl

-- SetMaxContainerLen does not reach ReadString and ReadBytes: under any limit they give the result
-- that they give under the limit from before.
pub limit_ignored :
    (check : Bool) (valid : Bytes → Bool) (r : Reader) (k : ℕ)
    → ((reader_string check valid (set_max_container_len r k)).0 ≡ (reader_string check valid r).0)
      × ((reader_bytes (set_max_container_len r k)).0 ≡ (reader_bytes r).0)
unfolding reader_string reader_bytes set_max_container_len
limit_ignored check valid r k = (advance-limit r k _, advance-limit r k _)
